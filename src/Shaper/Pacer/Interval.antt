-- ===== src/Shaper/Pacer/Interval.antt =====
-- currentInterval of conn.go: the delay before the pacer's next round. The arithmetic of float64 and
-- of the clock is a parameter.
pub mod Floors
mod Tests
use obfs.Base.{
  ℕ, ◌≡◌, refl, ℤ, Bool, true, false, ◌||◌, Bool-cases, ◌⊎◌, inl, inr, Option, none, some,
  if◌then◌else◌,
}
use obfs.Shaper.{
  FillFunc, Float64, PacedConfig, Policy, Shaped, with_defaults, enabled_pace, new_shaped_conn,
  shaped_of,
}
use obfs.Shaper.Front.{lt_int}
use obfs.Shaper.Pacer.{Pacer, surge_start}

-- `time.Since(start).Seconds()`, `math.Pow`, the product, `float64(time.Second) / rate` and
-- `time.Duration(…)`.
pub record PaceMath (W F : Type 0) : Type 0 where
  pub seconds_since : ℕ → W → F
  pub pow : F → F → F
  pub times : F → F → F
  pub second_over : F → F
  pub duration : F → ℤ

module _ {W F : Type 0} (fl : Float64 F) (pm : PaceMath W F) (cfg : PacedConfig F) where
  -- Rate, or Rate * Decay^elapsed.
  unfoldable pub decayed_rate : Pacer → W → F
  decayed_rate p w =
      let elapsed = pm.seconds_since (surge_start p) w in
      if fl.lt_f cfg.decay fl.one_f then pm.times cfg.rate (pm.pow cfg.decay elapsed) else cfg.rate

  floored : F → F
  floored rate = if fl.lt_f rate cfg.min_rate then cfg.min_rate else rate

  unfoldable pub current_interval : Pacer → W → ℤ
  unfolding floored
  current_interval p w = pm.duration (pm.second_over (floored (decayed_rate p w)))

  -- A rate of MinRate or more makes no longer delay than MinRate.
  abbrev pub SlowsDown : Type 0
  SlowsDown =
      (r : F)
      → fl.le_f cfg.min_rate r ≡ true
      → lt_int (pm.duration (pm.second_over cfg.min_rate)) (pm.duration (pm.second_over r)) ≡ false
