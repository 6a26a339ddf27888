-- ===== src/Hop/Multi/Tests.antt =====
-- Two addresses of which the second cannot be bound, and a connection that Close cuts off.
use obfs.Base.{
  ℕ, suc, [], ◌∷◌, ltb, if◌then◌else◌, true, false, Option, none, Error, eof, err, ◌⊎◌, inl, inr,
  ◌≡◌, refl,
}
use obfs.Hop.Multi.{close_multi, multi_listener}
use obfs.Hop.Multi.Fan.{Fanned, arrived, returned, gave_up, shut, Steps, none_yet, then_step}

-- Ports from 9 on are taken.
abbrev listen : ℕ → ℕ → (ℕ ⊎ Error) × ℕ
listen port w = (if ltb port 9 then inl port else inr eof, suc w)

abbrev close_one : ℕ → ℕ → Option Error × ℕ
close_one l w = (none, suc w)

binds_none :
    multi_listener listen close_one (8 ∷ 9 ∷ []) 0 ≡ (err eof, record { world = 3; listening = [] })
unfolding multi_listener close_multi
binds_none = refl

abbrev idle : Fanned ℕ
idle = record { offered = []; delivered = []; dropped = []; done = false }

-- 5 and 6 are accepted; Accept returns 6, and 5 is closed behind Close.
abbrev at_end : Fanned ℕ
at_end = record { offered = []; delivered = 6 ∷ []; dropped = 5 ∷ []; done = true }

abbrev steps : Steps idle at_end
steps =
    then_step
      (then_step
        (then_step (then_step (then_step none_yet (arrived 5)) (arrived 6))
          (returned (5 ∷ []) 6 [] refl))
        shut)
      (gave_up [] 5 [] refl refl)

abbrev waiting : Fanned ℕ
waiting = record { offered = 5 ∷ 6 ∷ []; delivered = 4 ∷ []; dropped = []; done = false }
