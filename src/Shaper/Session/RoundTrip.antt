-- ===== src/Shaper/Session/RoundTrip.antt =====
-- Whatever is written, and however it is read, the reader has the messages.
use obfs.Base.{
  ℕ, suc, ◌≤◌, ◌<◌, ◌≡◌, refl, ap, List, [], ◌∷◌, ◌++◌, arith, append_assoc, append-nil,
}
use obfs.Base.{length, length-append, All, none, Outcome, Error, Returns}
use obfs.Wire.Laws.{stream}
use obfs.Shaper.{Shaped}
use obfs.Shaper.Frame.{Framed, Framed-nil}
use obfs.Shaper.Mode.{IsUsable, IsUsable-Framing, ValidAs, bytes_as}
use obfs.Shaper.Read.{Reader, read}
use obfs.Shaper.Read.Refines.{Holds, Reads, delivers, fails, read_with-Reads, read_with-Returns}
use obfs.Shaper.Write.{Runtime, Writer, write_direct, cover_tick, emit}
use obfs.Shaper.Write.Effects.{
  Covers, Delivered, write_direct-Delivered, cover_tick-Covers, emit-Covers,
}
use obfs.Shaper.Session.{
  Event, message, tick, front, messages, taken, got, send, receive, reader_of,
}

module _ {W F : Type 0} (c : Shaped W F) where
  -- `Holds` and `Reads` for the framing of `c`.
  abbrev pub HoldsFor : Reader → Error → List ℕ → Type 0
  HoldsFor r e d = Holds (ValidAs c c.size_sampler) (bytes_as c c.size_sampler) r e d

  abbrev pub ReadsFor : ℕ → Error → List ℕ → Outcome (List ℕ) → Reader → Type 0
  ReadsFor room e d o r = Reads (ValidAs c c.size_sampler) (bytes_as c c.size_sampler) room e d o r

  -- Read refines a read of the plain byte stream that the frames carry.
  pub read-ReadsFor :
      (v : IsUsable c) (r : Reader) (e : Error) (d : List ℕ) (room : ℕ)
      → HoldsFor r e d
      → ReadsFor room e d (read c room r).0 (read c room r).1
  unfolding read
  read-ReadsFor v r e d room h = read_with-Reads (IsUsable-Framing c c.size_sampler v) room h

  -- On any bytes, corrupt ones too, a Read of a usable connection comes back with bytes or an error:
  -- its loop ends, and no index or slice is out of range.
  pub read-Returns : (v : IsUsable c) (room : ℕ) (r : Reader) → Returns (read c room r).0
  unfolding read
  read-Returns v room r = read_with-Returns (IsUsable-Framing c c.size_sampler v) room r

  receive-step :
      (room : ℕ) (rooms : List ℕ) (e : Error) (d : List ℕ) (o : Outcome (List ℕ)) (r : Reader)
      → ReadsFor room e d o r
      → 0 < room
      → length d ≤ suc (length rooms)
      → ((d' : List ℕ) → HoldsFor r e d' → length d' ≤ length rooms → (receive c rooms r).0 ≡ d')
      → got o ++ (receive c rooms r).0 ≡ d
  unfolding got
  receive-step room rooms e d o r (delivers out rest ret cut fit some_out left) h k ih =
      rw (ret, ih rest left (omega (arith, some_out h, ap length cut, length-append out rest))) cut
  receive-step room rooms e d o r (fails ret none_left left) h k ih =
      rw (ret, none_left, ih [] left (omega arith))

  -- Enough reads, with buffers that are not empty, deliver exactly the bytes that the wire carries.
  pub receive_exact :
      (v : IsUsable c) (rooms : List ℕ) (r : Reader) (e : Error) (d : List ℕ)
      → All (λ room. 0 < room) rooms
      → HoldsFor r e d
      → length d ≤ length rooms
      → (receive c rooms r).0 ≡ d
  unfolding receive
  receive_exact v [] r e [] ne h k = refl
  receive_exact v [] r e (b ∷ bs) ne h k = absurd (omega arith)
  receive_exact v (room ∷ rooms) r e d ne h k =
      receive-step room rooms e d (read c room r).0 (read c room r).1 (read-ReadsFor v r e d room h)
        ne.0 k (λ d' h' k'. receive_exact v rooms (read c room r).1 e d' ne.1 h' k')

  pub reader_of-HoldsFor :
      (sent : List ℕ) (e : Error) (d : List ℕ)
      → Framed (ValidAs c c.size_sampler) (bytes_as c c.size_sampler) sent d
      → HoldsFor (reader_of sent e) e d
  reader_of-HoldsFor sent e d f = record {
    frames = f.frames;
    valid = f.valid;
    on_wire = ap (λ (bs : List ℕ). stream bs e) f.on_wire;
    carries = f.carries;
  }

module _ {W F : Type 0} (rt : Runtime W) (c : Shaped W F) where
  taken-Delivered :
      (p d : List ℕ) (st' : Writer W) (o : Outcome ℕ)
      → Delivered rt c p d o st'
      → Covers rt c (d ++ taken p o) st'
  unfolding taken
  taken-Delivered p d st' o h = rw h.returned (h.carries, h.healthy)

  -- The wire carries exactly the bytes that Write has taken, in order.
  pub send-Covers :
      (v : IsUsable c) (es : List Event) (st : Writer W) (d : List ℕ)
      → Covers rt c d st
      → Covers rt c (d ++ (send rt c es st).0) (send rt c es st).1
  unfolding send
  send-Covers v [] st d h = rw append-nil h
  send-Covers v (message p ∷ es) st d h =
      let r : Outcome ℕ × Writer W = write_direct rt c p st in
      rw (← append_assoc) (
        send-Covers v es r.1 (d ++ taken p r.0)
          (taken-Delivered p d r.1 r.0 (write_direct-Delivered rt c p d st v h.0 h.1)))
  send-Covers v (tick interval ∷ es) st d h =
      send-Covers v es (cover_tick rt c interval st) d (cover_tick-Covers rt c interval d st v h)
  send-Covers v (front ∷ es) st d h = send-Covers v es (emit rt c st) d (emit-Covers rt c d st v h)

  -- The messages of the events, which a connection whose base does not fail takes in full.
  pub send-messages :
      (v : IsUsable c) (es : List Event) (st : Writer W) (d : List ℕ)
      → Covers rt c d st
      → (send rt c es st).0 ≡ messages es
  unfolding send taken
  send-messages v [] st d h = refl
  send-messages v (message p ∷ es) st d h =
      let r : Outcome ℕ × Writer W = write_direct rt c p st in
      let sent = write_direct-Delivered rt c p d st v h.0 h.1 in
      rw (sent.returned, send-messages v es r.1 (d ++ p) (sent.carries, sent.healthy)) refl
  send-messages v (tick interval ∷ es) st d h =
      send-messages v es (cover_tick rt c interval st) d (cover_tick-Covers rt c interval d st v h)
  send-messages v (front ∷ es) st d h =
      send-messages v es (emit rt c st) d (emit-Covers rt c d st v h)

  -- For a connection without a pacer, in morpher mode, or in fixed mode with cells of 3 to 65537
  -- bytes: after any messages, cover ticks and cover cells of frontLoop on a fresh wire on which no
  -- write fails, a peer with the same configuration that reads often enough, with any non-empty
  -- buffers, is handed exactly the messages, in order.
  pub receive-send :
      (v : IsUsable c) (es : List Event) (st : Writer W) (rooms : List ℕ) (e : Error)
      → c.pace ≡ none
      → st.sink.sent ≡ []
      → st.sink.faults ≡ []
      → All (λ room. 0 < room) rooms
      → length (messages es) ≤ length rooms
      → (receive c rooms (reader_of (send rt c es st).1.sink.sent e)).0 ≡ messages es
  receive-send v es st rooms e unpaced fresh healthy ne enough =
      let start : Covers rt c [] st = (rw fresh Framed-nil, healthy) in
      let whole = send-messages v es st [] start in
      receive_exact c v rooms _ e _ ne
        (reader_of-HoldsFor c _ e _ (rw whole at (send-Covers v es st [] start).0)) enough
