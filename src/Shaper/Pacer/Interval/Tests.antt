-- ===== src/Shaper/Pacer/Interval/Tests.antt =====
-- A rate of four cells a second that does not decay, over numbers that stand for float64.
use obfs.Base.{ℕ, ◌≡◌, refl, ◌-◌, ◌*◌, ◌/◌, pos, none, some, false, arith, leb, inr, ◌^◌}
use obfs.Fill.{zero_filler}
use obfs.Shaper.{PacedConfig, Shaped, new_shaped_conn}
use obfs.Shaper.Front.{lt_int}
use obfs.Shaper.Tests.{numbers, plain_policy, six}
use obfs.Shaper.Pacer.Tests.{fresh}
use obfs.Shaper.Pacer.Interval.{PaceMath, decayed_rate, current_interval, SlowsDown}
use obfs.Shaper.Pacer.Interval.Floors.{current_interval-Bound}

-- Whole cells per second; the delay is in whole nanoseconds.
abbrev toy_math : PaceMath ℕ ℕ
toy_math = record {
  seconds_since = λ start w. w - start;
  pow = λ a b. a ^ b;
  times = λ a b. a * b;
  second_over = λ rate. 1000000000 / rate;
  duration = λ t. pos t;
}

abbrev pace : PacedConfig ℕ
pace = record { rate = 4; decay = 0; min_rate = 0; queue = pos 0; no_pad = false }

abbrev completed : PacedConfig ℕ
completed = record { rate = 4; decay = 1; min_rate = 1; queue = pos 1024; no_pad = false }

abbrev paced_six : Shaped ℕ ℕ
paced_six = record six { pace = some completed; cover = none }

toy_math-SlowsDown : SlowsDown numbers toy_math completed
unfolding lt_int
toy_math-SlowsDown r h = ground arith

makes_paced :
    new_shaped_conn numbers zero_filler (record (plain_policy (pos 6)) { paced = some pace })
    ≡ some paced_six
unfolding new_shaped_conn
makes_paced = refl

decays : decayed_rate numbers toy_math completed fresh 3 ≡ 4
unfolding decayed_rate
decays = refl

current_interval-Bound_example :
    (leb 1 0 ≡ false)
    × (lt_int (pos 1000000000) (current_interval numbers toy_math completed fresh 3) ≡ false)
unfolding decayed_rate
current_interval-Bound_example =
    current_interval-Bound numbers zero_filler toy_math
      (record (plain_policy (pos 6)) { paced = some pace }) paced_six completed fresh 3 refl
      toy_math-SlowsDown makes_paced refl refl (inr refl)
