-- ===== src/Shaper/Close/Tests.antt =====
-- Two calls of Close, the second of which comes while the first waits for a loop.
use obfs.Base.{true, refl, [], ◌∷◌, some, closed}
use obfs.Wire.{Sink}
use obfs.Shaper.Close.{
  Lifecycle, new_lifecycle, settled, loop_ends, first_closes, flushes, closes_base, close_returns,
  Turns, no_turns, and_turn,
}
use obfs.Shaper.Close.Orderly.{IsOrderly, Turns-IsOrderly}
use obfs.Shaper.Pacer.{flush_queue}
use obfs.Wire.{base_write}

abbrev wire : Sink
wire = record { sent = []; faults = [] }

abbrev at_end : Lifecycle
at_end = record (new_lifecycle true 0 [] (record { sent = 7 ∷ []; faults = [] })) {
  once = settled;
  done = true;
  base_closes = 1;
  close_err = some closed;
  returned = some closed ∷ some closed ∷ [];
}

closes_twice : Turns (new_lifecycle true 1 ((7 ∷ []) ∷ []) wire) at_end
unfolding flush_queue base_write
closes_twice =
    and_turn
      (and_turn
        (and_turn
          (and_turn (and_turn (and_turn no_turns (first_closes refl)) (loop_ends 0 refl))
            (flushes refl refl))
          (closes_base (some closed) refl))
        (close_returns refl))
      (close_returns refl)

Turns-IsOrderly_example : IsOrderly at_end
Turns-IsOrderly_example = Turns-IsOrderly true 1 ((7 ∷ []) ∷ []) wire closes_twice
