-- ===== src/Shaper/Pacer/Interval/Floors.antt =====
-- The pacer never stalls.
use obfs.Base.{◌≡◌, ◌∙◌, sym, true, false, Bool-cases, ◌⊎◌, inl, inr, Option, none, some, arith}
use obfs.Shaper.{
  FillFunc, Float64, PacedConfig, Policy, Shaped, with_defaults, enabled_pace, new_shaped_conn,
  shaped_of,
}
use obfs.Shaper.Front.{lt_int}
use obfs.Shaper.Pacer.{Pacer}
use obfs.Shaper.Pacer.Interval.{PaceMath, decayed_rate, floored, current_interval, SlowsDown}

module _ {W F : Type 0} (fl : Float64 F) (random_fill : FillFunc W) where
  with_defaults-min_rate :
      (cfg : PacedConfig F)
      → fl.le_f fl.one_f fl.zero_f ≡ false
      → fl.le_f (with_defaults fl random_fill cfg).min_rate fl.zero_f ≡ false
  unfolding with_defaults
  with_defaults-min_rate cfg h = elim (Bool-cases (fl.le_f cfg.min_rate fl.zero_f)) [
    | inl low ↦ rw low h
    | inr high ↦ rw high high
  ]

module _ {W F : Type 0} (fl : Float64 F) (pm : PaceMath W F) where
  floored-le :
      (cfg : PacedConfig F) (r : F)
      → fl.le_f cfg.min_rate cfg.min_rate ≡ true
      → (fl.lt_f r cfg.min_rate ≡ true) ⊎ (fl.le_f cfg.min_rate r ≡ true)
      → fl.le_f cfg.min_rate (floored fl pm cfg r) ≡ true
  unfolding floored
  floored-le cfg r same (inl below) = rw below same
  floored-le cfg r same (inr above) = elim (Bool-cases (fl.lt_f r cfg.min_rate)) [
    | inl below ↦ rw below same
    | inr other ↦ rw other above
  ]

  -- The delay is at most that of MinRate, when the decayed rate is a number to compare with MinRate.
  floored-Bound :
      (cfg : PacedConfig F) (p : Pacer) (w : W)
      → SlowsDown fl pm cfg
      → fl.le_f cfg.min_rate cfg.min_rate ≡ true
      → (fl.lt_f (decayed_rate fl pm cfg p w) cfg.min_rate ≡ true)
        ⊎ (fl.le_f cfg.min_rate (decayed_rate fl pm cfg p w) ≡ true)
      → lt_int (pm.duration (pm.second_over cfg.min_rate)) (current_interval fl pm cfg p w) ≡ false
  unfolding current_interval
  floored-Bound cfg p w slows same comparable =
      slows (floored fl pm cfg (decayed_rate fl pm cfg p w))
        (floored-le cfg (decayed_rate fl pm cfg p w) same comparable)

module _ {W F : Type 0} (fl : Float64 F) (random_fill : FillFunc W) (pm : PaceMath W F) where
  enabled_pace-min_rate :
      (o : Option (PacedConfig F)) (cfg : PacedConfig F)
      → fl.le_f fl.one_f fl.zero_f ≡ false
      → enabled_pace fl random_fill o ≡ some cfg
      → fl.le_f cfg.min_rate fl.zero_f ≡ false
  unfolding enabled_pace
  enabled_pace-min_rate none cfg h e = absurd (cc)
  enabled_pace-min_rate (some given) cfg h e =
      let low : fl.le_f (with_defaults fl random_fill given).min_rate fl.zero_f ≡ false =
        with_defaults-min_rate fl random_fill given h in
      ground (arith)

  made-pace :
      (p : Policy W F) (c : Shaped W F)
      → new_shaped_conn fl random_fill p ≡ some c
      → c.pace ≡ enabled_pace fl random_fill p.paced
  unfolding new_shaped_conn shaped_of
  made-pace p c h = ground arith

  -- The pacer of a connection that a policy makes has a MinRate that is not at most zero, and never
  -- waits longer than for one cell at MinRate, at any time since the last surge: where a rate from
  -- MinRate on makes no longer delay than MinRate, which holds of float64 where MinRate is positive
  -- and its delay fits a time.Duration, and where MinRate and the decayed rate can be compared
  -- (neither is a NaN).
  pub current_interval-Bound :
      (p : Policy W F) (c : Shaped W F) (cfg : PacedConfig F) (pacer : Pacer) (w : W)
      → fl.le_f fl.one_f fl.zero_f ≡ false
      → SlowsDown fl pm cfg
      → new_shaped_conn fl random_fill p ≡ some c
      → c.pace ≡ some cfg
      → fl.le_f cfg.min_rate cfg.min_rate ≡ true
      → (fl.lt_f (decayed_rate fl pm cfg pacer w) cfg.min_rate ≡ true)
        ⊎ (fl.le_f cfg.min_rate (decayed_rate fl pm cfg pacer w) ≡ true)
      → (fl.le_f cfg.min_rate fl.zero_f ≡ false)
        × (lt_int (pm.duration (pm.second_over cfg.min_rate)) (current_interval fl pm cfg pacer w)
            ≡ false)
  current_interval-Bound p c cfg pacer w one slows h k same comparable = (
    enabled_pace-min_rate p.paced cfg one (sym (made-pace p c h) ∙ k),
    floored-Bound fl pm cfg pacer w slows same comparable,
  )
