-- ===== src/Shaper/Framing.antt =====
-- What the reader needs of a framing. Fixed.Decode and Morph.Decode fill it.
use obfs.Base.{ℕ, ◌<◌, ◌≡◌, List, [], ◌++◌, length, Error, Outcome, ok, err, Returns}
use obfs.Wire.{Stream}
use obfs.Wire.Laws.{stream}
use obfs.Shaper.Frame.{Frame}

-- One round of a reading loop: the body of the next cell, or the error that Read returns.
abbrev pub NextCell : Type 0
NextCell = Stream → Outcome (List ℕ) × Stream

pub record Framing (next : NextCell) (Valid : Frame → Type 0) (enc : Frame → List ℕ) : Type 0 where
  -- A valid frame at the front is taken whole, and its body comes out.
  pub takes_frame :
      (f : Frame) (rest : List ℕ) (e : Error)
      → Valid f
      → next (stream (enc f ++ rest) e) ≡ (ok f.body, stream rest e)
  -- The error that the base connection ends with comes through.
  pub ends : (e : Error) → next (stream [] e) ≡ (err e, stream [] e)
  -- On any bytes, corrupt ones too, a round ends, and it takes a byte if it succeeds.
  pub takes_byte :
      (s : Stream) (b : List ℕ) → (next s).0 ≡ ok b → length (next s).1.bytes < length s.bytes
  pub returns : (s : Stream) → Returns (next s).0
