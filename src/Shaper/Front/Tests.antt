-- ===== src/Shaper/Front/Tests.antt =====
-- A front of three cover cells.
use obfs.Base.{
  ℕ, suc, ◌+◌, ◌<◌, ◌≡◌, refl, List, [], ◌∷◌, ltb, if◌then◌else◌, Bool, ℤ, pos, ok, arith,
}
use obfs.Shaper.{FrontConfig}
use obfs.Shaper.Write.{Writer}
use obfs.Shaper.Write.Effects.{Carries}
use obfs.Shaper.Tests.{six, six-IsFixedMode, clockwork, fresh, nothing_sent, numbers}
use obfs.Shaper.Front.{FrontMath, schedule, front_loop}
use obfs.Shaper.Front.Schedule.{IsSchedule, schedule-IsSchedule}
use obfs.Shaper.Front.Emits.{front_loop-Carries}

abbrev cfg : FrontConfig
cfg = record { window = pos 12; max_count = pos 3 }

-- A time is the draw itself, or 3 for a late draw.
abbrev math : FrontMath ℕ ℕ
math = record {
  intn = λ n w. (if ltb w n then w else 0, w + 1);
  float64 = λ w. (w, w + 1);
  smallest = 1;
  scale_of = λ window u. u;
  rayleigh = λ sigma u. if ltb u 6 then pos u else pos 3;
}

schedules : schedule numbers math cfg 2 ≡ ok (pos 3 ∷ pos 4 ∷ pos 5 ∷ [], 7)
unfolding schedule
schedules = refl

below : (n : ℕ) (w : ℕ) → 0 < n → (math.intn n w).0 < n
below n w h = ground arith

schedule-IsSchedule_example :
    (ts : List ℤ) × ((w' : ℕ) × ((schedule numbers math cfg 2 ≡ ok (ts, w'))
        × IsSchedule numbers math (pos 12) 3 ts))
schedule-IsSchedule_example = schedule-IsSchedule numbers math cfg 2 2 below refl

-- The connection is closed at the end of the window.
abbrev shut_before : ℕ → ℤ → ℕ → Bool × ℕ
shut_before start t w = (ltb (start + 12) w, suc w)

front_loop-Carries_example :
    (st' : Writer ℕ) × ((front_loop numbers math clockwork six shut_before cfg fresh ≡ ok st')
      × Carries six st' [])
front_loop-Carries_example =
    front_loop-Carries numbers math clockwork six shut_before cfg 2 [] fresh six-IsFixedMode below
      refl nothing_sent refl
