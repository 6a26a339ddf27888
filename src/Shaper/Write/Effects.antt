-- ===== src/Shaper/Write/Effects.antt =====
-- What a Write and a tick of the cover loop leave on the wire.
use obfs.Base.{ℕ, ◌-◌, ◌≡◌, refl, List, [], ◌∷◌, ◌++◌, append-nil}
use obfs.Base.{
  length, concat, Error, Outcome, ok, err, Option, none, some, leb, Bool-cases, inl, inr,
}
use obfs.Wire.{Sink, base_write}
use obfs.Wire.Laws.{Wrote, base_write-Wrote, base_write-healthy}
use obfs.Shaper.{Shaped}
use obfs.Shaper.Frame.{Framed, Framed-append, Split-Framed}
use obfs.Shaper.Mode.{
  cover_for, ValidAs, bytes_as, CellsFor, cells_for-CellsFor, cover_for-Framed, IsUsable,
}
use obfs.Shaper.Write.{
  Runtime, Writer, apply_delay, flushed, flush, flush_cells, write_direct, cover_tick, emit,
}

-- The bytes on the wire of `c` are frames that carry `data_bytes`.
abbrev pub Carries : {W F : Type 0} → Shaped W F → Writer W → List ℕ → Type 0
Carries c st data_bytes =
    Framed (ValidAs c c.size_sampler) (bytes_as c c.size_sampler) st.sink.sent data_bytes

-- Every write of the base connection that is still to come succeeds.
abbrev pub IsHealthy : {W : Type 0} → Writer W → Type 0
IsHealthy st = st.sink.faults ≡ []

module _ {W F : Type 0} (rt : Runtime W) (c : Shaped W F) where
  abbrev FramedFor : List ℕ → List ℕ → Type 0
  FramedFor = Framed (ValidAs c c.size_sampler) (bytes_as c c.size_sampler)

  -- A Write puts all of `p` on the wire and says so, or reports an error and leaves the wire with a
  -- front of the frames that carry `p`, and the stamp as it was.
  pub data Written (p data_bytes : List ℕ) (st : Writer W) (o : Outcome ℕ) (st' : Writer W)
      : Type 0 where
    sent_all : o ≡ ok (length p) → Carries c st' (data_bytes ++ p) → Written p data_bytes st o st'
    failed :
        (e : Error) (part rest : List ℕ)
        → o ≡ err e
        → FramedFor (part ++ rest) p
        → st'.sink.sent ≡ st.sink.sent ++ part
        → st'.last_write ≡ st.last_write
        → Written p data_bytes st o st'

  flushed-Written :
      (st : Writer W) (w : W) (buf p data_bytes : List ℕ) (r : Option Error × Sink)
      → Wrote buf st.sink r
      → Carries c st data_bytes
      → FramedFor buf p
      → Written p data_bytes st
          (flushed rt c (length p) (record st { world = w }) r).0
          (flushed rt c (length p) (record st { world = w }) r).1
  unfolding flushed
  flushed-Written st w buf p data_bytes (none, s') q framed cells =
      sent_all refl (rw q (Framed-append framed cells))
  flushed-Written st w buf p data_bytes (some e, s') (part, (rest, (whole, q))) framed cells =
      failed e part rest refl (rw whole cells) q refl

  flush_cells-Written :
      (st : Writer W) (p data_bytes : List ℕ) (r : Outcome (List (List ℕ))) (w : W)
      → CellsFor c c.size_sampler p r
      → Carries c st data_bytes
      → Written p data_bytes st
          (flush_cells rt c (length p) (r, w) st).0
          (flush_cells rt c (length p) (r, w) st).1
  unfolding flush_cells
  flush_cells-Written st p data_bytes r w m framed = rw m.returned (
      flushed-Written st (apply_delay rt c c.delay_sampler w) (concat m.cells) p data_bytes
        (base_write (concat m.cells) st.sink) (base_write-Wrote (concat m.cells) st.sink) framed
        (Split-Framed m.split))

  -- On a usable connection without a pacer, whose wire carries some bytes: a Write ends with the
  -- length of its message, and the wire carries the message behind those bytes; or it ends with an
  -- error, the wire has got a front of cells that carry the message, possibly none or a part of one,
  -- and lastWrite is as it was.
  pub write_direct-Written :
      (p data_bytes : List ℕ) (st : Writer W)
      → IsUsable c
      → c.pace ≡ none
      → Carries c st data_bytes
      → Written p data_bytes st (write_direct rt c p st).0 (write_direct rt c p st).1
  unfolding write_direct
  write_direct-Written [] data_bytes st v unpaced framed = sent_all refl (rw append-nil framed)
  write_direct-Written (b ∷ bs) data_bytes st v unpaced framed =
      flush_cells-Written st (b ∷ bs) data_bytes _ _
        (cells_for-CellsFor c c.size_sampler (b ∷ bs) st.world v) framed

  -- What a Write does if no write of the base connection fails.
  pub record Delivered (p data_bytes : List ℕ) (o : Outcome ℕ) (st' : Writer W) : Type 0 where
    pub returned : o ≡ ok (length p)
    pub carries : Carries c st' (data_bytes ++ p)
    pub healthy : IsHealthy st'

  flush_cells-Delivered :
      (st : Writer W) (p data_bytes : List ℕ) (r : Outcome (List (List ℕ))) (w : W)
      → CellsFor c c.size_sampler p r
      → Carries c st data_bytes
      → IsHealthy st
      → Delivered p data_bytes
          (flush_cells rt c (length p) (r, w) st).0
          (flush_cells rt c (length p) (r, w) st).1
  unfolding flush_cells flushed
  flush_cells-Delivered st p data_bytes r w m framed h =
      rw (m.returned, base_write-healthy (concat m.cells) st.sink h)
        (record {
          returned = refl;
          carries = Framed-append framed (Split-Framed m.split);
          healthy = h;
        })

  pub write_direct-Delivered :
      (p data_bytes : List ℕ) (st : Writer W)
      → IsUsable c
      → Carries c st data_bytes
      → IsHealthy st
      → Delivered p data_bytes (write_direct rt c p st).0 (write_direct rt c p st).1
  unfolding write_direct
  write_direct-Delivered [] data_bytes st v framed h = record {
    returned = refl;
    carries = rw append-nil framed;
    healthy = h;
  }
  write_direct-Delivered (b ∷ bs) data_bytes st v framed h =
      flush_cells-Delivered st (b ∷ bs) data_bytes _ _
        (cells_for-CellsFor c c.size_sampler (b ∷ bs) st.world v) framed h

  -- What the wire carries, and that no write fails, where nothing is written but cover.
  abbrev pub Covers : List ℕ → Writer W → Type 0
  Covers data_bytes st = Carries c st data_bytes × IsHealthy st

  flush-Covers :
      (cell data_bytes : List ℕ) (st : Writer W)
      → Covers data_bytes st
      → FramedFor cell []
      → Covers data_bytes (flush rt c cell 0 st).1
  unfolding flush flushed
  flush-Covers cell data_bytes st (framed, h) f =
      rw (base_write-healthy cell st.sink h) (rw append-nil at (Framed-append framed f), h)

  -- A tick of the cover loop leaves what the wire carries as it was.
  pub cover_tick-Covers :
      (interval : ℕ) (data_bytes : List ℕ) (st : Writer W)
      → IsUsable c
      → Covers data_bytes st
      → Covers data_bytes (cover_tick rt c interval st)
  unfolding cover_tick
  cover_tick-Covers interval data_bytes st v h =
      let cell : List ℕ × W = cover_for c c.size_sampler (rt.now st.world).1 in
      elim (Bool-cases (leb interval ((rt.now st.world).0 - st.last_write))) [
        | inl idle ↦ rw idle (
            flush-Covers cell.0 data_bytes (record st { world = cell.1 }) h
              (cover_for-Framed c c.size_sampler (rt.now st.world).1 v))
        | inr busy ↦ rw busy h
      ]

  -- So does a timer of frontLoop.
  pub emit-Covers :
      (data_bytes : List ℕ) (st : Writer W)
      → IsUsable c
      → Covers data_bytes st
      → Covers data_bytes (emit rt c st)
  unfolding emit
  emit-Covers data_bytes st v h =
      let cell : List ℕ × W = cover_for c c.size_sampler st.world in
      flush-Covers cell.0 data_bytes (record st { world = cell.1 }) h
        (cover_for-Framed c c.size_sampler st.world v)
