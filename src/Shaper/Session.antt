-- ===== src/Shaper/Session.antt =====
-- A connection from end to end: what one side writes, and what the other side reads of it.
pub mod RoundTrip
use obfs.Base.{ℕ, List, [], ◌∷◌, ◌++◌, Outcome, ok, err, panic, stuck, Error}
use obfs.Wire.{Sink}
use obfs.Wire.Laws.{stream}
use obfs.Shaper.{Shaped}
use obfs.Shaper.Read.{Reader, read}
use obfs.Shaper.Write.{Runtime, Writer, write_direct, cover_tick, emit}

-- What happens on the sending side: the application writes, or the ticker of
-- coverLoop or a timer of frontLoop fires.
pub data Event : Type 0 where
  message : List ℕ → Event
  tick : ℕ → Event
  front : Event

-- The messages of the events, one behind the other.
abbrev pub messages : List Event → List ℕ
messages [] = []
messages (message p ∷ es) = p ++ messages es
messages (tick interval ∷ es) = messages es
messages (front ∷ es) = messages es

-- The bytes that Write has taken: those of a message whose Write did not fail.
taken : List ℕ → Outcome ℕ → List ℕ
taken p (ok n) = p
taken p _ = []

got : Outcome (List ℕ) → List ℕ
got (ok bs) = bs
got _ = []

module _ {W F : Type 0} (rt : Runtime W) (c : Shaped W F) where
  -- The events in order: the bytes taken, and the writer at the end.
  unfoldable pub send : List Event → Writer W → List ℕ × Writer W
  unfolding taken
  send [] st = ([], st)
  send (message p ∷ es) st =
      let (o, st') = write_direct rt c p st in
      let (more, last) = send es st' in (taken p o ++ more, last)
  send (tick interval ∷ es) st = send es (cover_tick rt c interval st)
  send (front ∷ es) st = send es (emit rt c st)

module _ {W F : Type 0} (c : Shaped W F) where
  -- One Read after the other, with the given buffer sizes: all that they deliver.
  unfoldable pub receive : List ℕ → Reader → List ℕ × Reader
  unfolding got
  receive [] r = ([], r)
  receive (room ∷ rooms) r =
      let (o, r') = read c room r in let (more, last) = receive rooms r' in (got o ++ more, last)

-- The other side of a wire that has taken `sent` and then fails by `e`.
abbrev pub reader_of : List ℕ → Error → Reader
reader_of sent e = record { pending = []; base = stream sent e }
