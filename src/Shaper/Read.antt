-- ===== src/Shaper/Read.antt =====
-- The read side of a shaped connection: Read of conn.go and readMorph of morph.go, whose loops
-- differ in how a cell is read and in nothing else. There is one reader, so no lock.
pub mod Refines
use obfs.Base.{ℕ, zero, suc, List, [], ◌∷◌, length, take, drop, Option, none, some}
use obfs.Base.{Outcome, ok, err, panic, stuck}
use obfs.Wire.{Stream}
use obfs.Shaper.{Shaped, Sampler}
use obfs.Shaper.Framing.{NextCell}
use obfs.Shaper.Fixed.{next_fixed}
use obfs.Shaper.Morph.{next_morph}

-- `pending` is what the last cell has left for the next Read.
pub record Reader : Type 0 where
  pub pending : List ℕ
  pub base : Stream

-- The end of a round: the next round's test, or the return of the error.
on_cell :
    (List ℕ → Stream → Outcome (List ℕ) × Stream)
    → Outcome (List ℕ) × Stream
    → Outcome (List ℕ) × Stream
on_cell again (ok pending, s) = again pending s
on_cell again (err e, s) = (err e, s)
on_cell again (panic, s) = (panic, s)
on_cell again (stuck, s) = (stuck, s)

-- `for len(c.pending) == 0 { … }`. Each round takes a byte at least, which bounds the fuel.
pub fill_pending : NextCell → ℕ → List ℕ → Stream → Outcome (List ℕ) × Stream
unfolding on_cell
fill_pending next fuel (b ∷ bs) s = (ok (b ∷ bs), s)
fill_pending next zero [] s = (stuck, s)
fill_pending next (suc fuel) [] s = on_cell (fill_pending next fuel) (next s)

-- `k := copy(p, c.pending); c.pending = c.pending[k:]` with `len(p)` equal to `room`. The copied
-- bytes are the result, so `k` is their number. A failing Read has found `pending` empty.
deliver : ℕ → Outcome (List ℕ) × Stream → Outcome (List ℕ) × Reader
deliver room (ok pending, s) =
    (ok (take room pending), record { pending = drop room pending; base = s })
deliver room (err e, s) = (err e, record { pending = []; base = s })
deliver room (panic, s) = (panic, record { pending = []; base = s })
deliver room (stuck, s) = (stuck, record { pending = []; base = s })

unfoldable pub read_with : NextCell → ℕ → Reader → Outcome (List ℕ) × Reader
unfolding deliver fill_pending
read_with next room r =
    deliver room (fill_pending next (suc (length r.base.bytes)) r.pending r.base)

-- `if c.morph { return c.readMorph(p) }`
abbrev pub next_for : {W F : Type 0} → Shaped W F → Option (Sampler W) → NextCell
next_for c none = next_fixed c
next_for c (some g) = next_morph

-- Read.
unfoldable pub read : {W F : Type 0} → Shaped W F → ℕ → Reader → Outcome (List ℕ) × Reader
unfolding read_with
read c room r = read_with (next_for c c.size_sampler) room r
