-- ===== src/Shaper/Pacer/Tests.antt =====
-- Runs of the pacer: a round sends cover, two cells are queued, and one is sent, or its write fails.
use obfs.Base.{ℕ, ◌≡◌, refl, List, [], ◌∷◌, ◌++◌, true, false, none, some}
use obfs.Wire.{base_write}
use obfs.Base.{ok, eof, closed, arith}
use obfs.Fill.{zero_fill}
use obfs.Shaper.Fixed.{fixed_cells, fixed_cover_cell}
use obfs.Shaper.Session.{receive, reader_of}
use obfs.Shaper.Tests.{six, six-IsFixedMode}
use obfs.Shaper.Pacer.Writing.{
  begin_write, Writing, all_queued, queued, paced, Writes, runs, unused, wrote,
}
use obfs.Shaper.Pacer.RoundTrip.{receive-paced}
use obfs.Shaper.Pacer.{
  offer_cell, pacing_round, start_burst, Pacer, Event, offer, timer, run, close_paced,
}
use obfs.Shaper.Pacer.Order.{IsFifo, none_of, run-IsFifo}

abbrev pub fresh : Pacer
fresh = record {
  send_q = [];
  sink = record { sent = []; faults = [] };
  pace_err = none;
  pace_dead = false;
  done = false;
  pace_start = 0;
}

abbrev five : List ℕ
five = 0 ∷ 1 ∷ 5 ∷ 0 ∷ 0 ∷ 0 ∷ []

abbrev nine : List ℕ
nine = 0 ∷ 1 ∷ 9 ∷ 0 ∷ 0 ∷ 0 ∷ []

abbrev events : List (Event ℕ)
events = timer 0 ∷ offer five ∷ offer nine ∷ timer 1 ∷ []

abbrev zeros : List ℕ
zeros = 0 ∷ 0 ∷ 0 ∷ 0 ∷ 0 ∷ 0 ∷ []

abbrev behind : Pacer
behind = record fresh { send_q = nine ∷ []; sink = record { sent = zeros ++ five; faults = [] } }

run-behind : run six 2 false events fresh ≡ some behind
unfolding run base_write fixed_cover_cell zero_fill
run-behind = refl

blocks : run six 1 false events fresh ≡ none
unfolding run base_write fixed_cover_cell zero_fill
blocks = refl

-- The second write fails behind two bytes.
abbrev failing : Pacer
failing = record fresh { sink = record { sent = []; faults = none ∷ some (2, closed) ∷ [] } }

abbrev torn : Pacer
torn = record fresh {
  send_q = nine ∷ [];
  sink = record { sent = zeros ++ (0 ∷ 1 ∷ []); faults = [] };
  pace_err = some closed;
  pace_dead = true;
}

run-torn : run six 2 false events failing ≡ some torn
unfolding run base_write fixed_cover_cell zero_fill
run-torn = refl

failing-IsFifo : IsFifo six [] [] failing
failing-IsFifo = record {
  whole = [];
  lost = [];
  part = [];
  sent = refl;
  in_order = refl;
  draws = none_of;
  losses = (refl, refl);
}

run-IsFifo_example : IsFifo six (five ∷ nine ∷ []) (0 ∷ 1 ∷ []) torn
run-IsFifo_example = run-IsFifo six 2 false events [] [] failing torn failing-IsFifo run-torn

abbrev first_cell : List ℕ
first_cell = 0 ∷ 4 ∷ 1 ∷ 2 ∷ 3 ∷ 4 ∷ []

abbrev second_cell : List ℕ
second_cell = 0 ∷ 1 ∷ 5 ∷ 0 ∷ 0 ∷ 0 ∷ []

abbrev text : List ℕ
text = 1 ∷ 2 ∷ 3 ∷ 4 ∷ 5 ∷ []

-- The queue has room for one cell: a round sends the first before the second is queued.
abbrev behind_write : Pacer
behind_write = record {
  send_q = second_cell ∷ [];
  sink = record { sent = first_cell; faults = [] };
  pace_err = none;
  pace_dead = false;
  done = false;
  pace_start = 9;
}

writing :
    Writing six 1 false 5 (first_cell ∷ second_cell ∷ []) (start_burst 9 fresh) (ok 5) behind_write
unfolding offer_cell pacing_round start_burst base_write fixed_cover_cell zero_fill
writing = queued refl (paced 0 refl (queued refl all_queued))

write : Writes six 1 false text 9 fresh (ok 5) behind_write
unfolding begin_write fixed_cells zero_fill
write = runs 0 refl writing

abbrev rooms : List ℕ
rooms = 2 ∷ 9 ∷ 9 ∷ 9 ∷ 9 ∷ []

receive-paced_example :
    (receive six rooms (reader_of (close_paced behind_write).sink.sent eof)).0 ≡ text
receive-paced_example =
    receive-paced six six-IsFixedMode 1 false fresh behind_write text rooms eof refl refl
      (wrote unused write) refl refl (omega arith) (omega arith)
