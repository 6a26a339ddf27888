-- ===== src/Shaper/Tests.antt =====
-- Concrete connections, runs on them, and the theorems at concrete inputs.
use obfs.Base.{ℕ, ◌+◌, ◌-◌, ◌≡◌, refl, List, [], ◌∷◌, ◌++◌, arith, ltb, leb, ℤ, pos}
use obfs.Base.{
  none, some, ok, err, eof, unexpected_eof, corrupt_cell, closed, Returns, replicate, concat, slice,
  slice_to, slice_from,
}
use obfs.Wire.{read_full, base_write}
use obfs.Wire.Laws.{stream}
use obfs.Fill.{zero_fill, zero_filler}
use obfs.Shaper.{Sampler, Float64, Policy, Shaped}
use obfs.Shaper.Frame.{fixed_bytes}
use obfs.Shaper.Fixed.{fixed_cells, fixed_cover_cell, next_fixed}
use obfs.Shaper.Fixed.Cells.{IsFixedMode}
use obfs.Shaper.Fixed.Oversize.{fixed_cells-cut}
use obfs.Shaper.Morph.{morph_cells}
use obfs.Shaper.Morph.Cells.{MorphCells, morph_cells-MorphCells}
use obfs.Shaper.Read.{Reader, read}
use obfs.Shaper.Write.{Runtime, Writer, write_direct, cover_tick, emit}
use obfs.Shaper.Write.Effects.{Carries, Written, write_direct-Written}
use obfs.Shaper.Session.{Event, message, tick, front, messages, send, receive, reader_of}
use obfs.Shaper.Session.RoundTrip.{HoldsFor, ReadsFor, read-ReadsFor, read-Returns, receive-send}

-- The world is a clock that each call moves on.
abbrev pub clockwork : Runtime ℕ
clockwork = record { int63n = λ n w. (w - w, w + 1); now = λ w. (w, w + 1); sleep = λ d w. w + d }

abbrev pub numbers : Float64 ℕ
numbers = record { zero_f = 0; one_f = 1; lt_f = ltb; le_f = leb }

abbrev pub plain_policy : ℤ → Policy ℕ ℕ
plain_policy size = record {
  cell_size = size;
  jitter = pos 0;
  cover_every = pos 5;
  fill = some zero_filler;
  size_sampler = none;
  delay_sampler = none;
  front = none;
  paced = none;
}

-- Cells of six bytes, four of them data.
abbrev pub six : Shaped ℕ ℕ
six = record {
  cell_size = 6;
  max_data = 4;
  filler = zero_filler;
  jitter = pos 0;
  size_sampler = none;
  delay_sampler = none;
  pace = none;
  cover = some (pos 5);
  front_loop = none;
}

-- Sizes 7, 8, 9, … in turn, the world being the next size; the first is too small.
abbrev growing : Sampler ℕ
growing w = (pos w, w + 1)

abbrev pub fresh : Writer ℕ
fresh = record { world = 0; sink = record { sent = []; faults = [] }; last_write = 0 }

-- The tick finds the connection idle.
abbrev pub events : List Event
events = message (1 ∷ 2 ∷ 3 ∷ 4 ∷ 5 ∷ []) ∷ tick 0 ∷ front ∷ message (6 ∷ 7 ∷ []) ∷ []

pub six-IsFixedMode : IsFixedMode six
six-IsFixedMode = record { room = omega arith; fits = omega arith; payload_size = refl }

sends_cells :
    (send clockwork six events fresh).1.sink.sent
    ≡ 0 ∷ 4 ∷ 1 ∷ 2 ∷ 3 ∷ 4 ∷ 0 ∷ 1 ∷ 5 ∷ 0 ∷ 0 ∷ 0 ∷ 0 ∷ 0 ∷ 0 ∷ 0 ∷ 0 ∷ 0 ∷ 0 ∷ 0 ∷ 0 ∷ 0 ∷ 0 ∷ 0
      ∷ 0 ∷ 2 ∷ 6 ∷ 7 ∷ 0 ∷ 0 ∷ []
unfolding send write_direct cover_tick emit fixed_cells fixed_cover_cell base_write zero_fill
sends_cells = refl

sends_data : (send clockwork six events fresh).0 ≡ 1 ∷ 2 ∷ 3 ∷ 4 ∷ 5 ∷ 6 ∷ 7 ∷ []
unfolding send write_direct cover_tick emit fixed_cells fixed_cover_cell base_write zero_fill
sends_data = refl

morph_two :
    (morph_cells zero_filler growing (1 ∷ 2 ∷ 3 ∷ []) 0).0
    ≡ ok ((0 ∷ 3 ∷ 0 ∷ 1 ∷ 1 ∷ []) ∷ (0 ∷ 3 ∷ 0 ∷ 1 ∷ 2 ∷ []) ∷ (0 ∷ 3 ∷ 0 ∷ 1 ∷ 3 ∷ []) ∷ [])
unfolding morph_cells zero_fill
morph_two = refl

reads_corrupt : (read six 3 (reader_of (0 ∷ 5 ∷ 1 ∷ 2 ∷ 3 ∷ 4 ∷ []) eof)).0 ≡ err corrupt_cell
unfolding read next_fixed read_full slice slice_to slice_from
reads_corrupt = refl

reads_cut : (read six 3 (reader_of (0 ∷ 5 ∷ 1 ∷ []) eof)).0 ≡ err unexpected_eof
unfolding read next_fixed read_full slice slice_to slice_from
reads_cut = refl

receive-send_example :
    (receive six (replicate 8 3) (reader_of (send clockwork six events fresh).1.sink.sent eof)).0
    ≡ messages events
receive-send_example =
    receive-send clockwork six six-IsFixedMode events fresh (replicate 8 3) eof refl refl refl
      (omega arith) (omega arith)

abbrev half_read : Reader
half_read = record {
  pending = 5 ∷ [];
  base = stream (0 ∷ 0 ∷ 9 ∷ 9 ∷ 9 ∷ 9 ∷ 0 ∷ 1 ∷ 6 ∷ 0 ∷ 0 ∷ 0 ∷ []) eof;
}

half_read-HoldsFor : HoldsFor six half_read eof (5 ∷ 6 ∷ [])
unfolding fixed_bytes
half_read-HoldsFor = record {
  frames =
      record { body = []; pad = 9 ∷ 9 ∷ 9 ∷ 9 ∷ [] }
      ∷ record { body = 6 ∷ []; pad = 0 ∷ 0 ∷ 0 ∷ [] }
      ∷ [];
  valid = omega arith;
  on_wire = refl;
  carries = refl;
}

read-ReadsFor_example :
    ReadsFor six 4 eof (5 ∷ 6 ∷ []) (read six 4 half_read).0 (read six 4 half_read).1
read-ReadsFor_example =
    read-ReadsFor six six-IsFixedMode half_read eof (5 ∷ 6 ∷ []) 4 half_read-HoldsFor

read-Returns_example : Returns (read six 4 (reader_of (0 ∷ 77 ∷ 1 ∷ 2 ∷ 3 ∷ 4 ∷ []) eof)).0
read-Returns_example =
    read-Returns six six-IsFixedMode 4 (reader_of (0 ∷ 77 ∷ 1 ∷ 2 ∷ 3 ∷ 4 ∷ []) eof)

pub nothing_sent : Carries six fresh []
nothing_sent = record { frames = []; valid = tt; on_wire = refl; carries = refl }

fixed_cells-cut_example :
    next_fixed six (stream (concat (fixed_cells six (1 ∷ 2 ∷ []) 0).0 ++ 8 ∷ []) eof)
    ≡ (ok (1 ∷ 2 ∷ []), stream (8 ∷ []) eof)
fixed_cells-cut_example =
    fixed_cells-cut six (1 ∷ 2 ∷ []) 0 (8 ∷ []) eof refl (omega arith) (omega arith)

morph_cells-MorphCells_example :
    MorphCells (1 ∷ 2 ∷ 3 ∷ []) (morph_cells zero_filler growing (1 ∷ 2 ∷ 3 ∷ []) 0).0
morph_cells-MorphCells_example = morph_cells-MorphCells zero_filler growing (1 ∷ 2 ∷ 3 ∷ []) 0

-- A sink that fails behind the third byte.
abbrev failing : Writer ℕ
failing = record {
  world = 0;
  sink = record { sent = []; faults = some (3, closed) ∷ [] };
  last_write = 0;
}

sends_part : (write_direct clockwork six (1 ∷ 2 ∷ []) failing).1.sink.sent ≡ 0 ∷ 2 ∷ 1 ∷ []
unfolding write_direct fixed_cells base_write zero_fill
sends_part = refl

write_direct-Written_example :
    Written clockwork six
      (1 ∷ 2 ∷ [])
      []
      failing
      (write_direct clockwork six (1 ∷ 2 ∷ []) failing).0
      (write_direct clockwork six (1 ∷ 2 ∷ []) failing).1
write_direct-Written_example =
    write_direct-Written clockwork six (1 ∷ 2 ∷ []) [] failing six-IsFixedMode refl nothing_sent
