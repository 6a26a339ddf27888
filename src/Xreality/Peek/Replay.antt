-- ===== src/Xreality/Peek/Replay.antt =====
-- Peeking loses no byte: what is read behind it is the stream as it came in.
use obfs.Base.{
  ℕ, ◌≤◌, ◌≡◌, ◌∙◌, sym, refl, ap, List, [], ◌∷◌, ◌++◌, arith, length, take, drop, ltb, leb, ◌==◌,
  not, ◌||◌, Bool-cases,
}
use obfs.Base.{
  Error, Outcome, ok, err, panic, stuck, index-ok, uint16_at-ok, ◌⊎◌, inl, inr, append_assoc,
  take-append-drop, length-take, length-append, take_all, append-nil,
}
use obfs.Wire.{Stream, read_full}
use obfs.Wire.Laws.{read_full-cases}
use obfs.Xreality.Peek.{
  Peeked, tee_read_full, peeked_body, peek_body, peek_header, peek_record, PrefixConn, pending,
  BaseRead, read_past, prefix_read, read_each,
}

module _ (base : BaseRead) where
  -- A read delivers the front of what is pending, at most `room` bytes, or leaves it all.
  abbrev Delivers : ℕ → PrefixConn → (List ℕ ⊎ Error) × PrefixConn → Type 0
  Delivers room c (inl b, c') = (b ++ pending c' ≡ pending c) × (length b ≤ room)
  Delivers room c (inr e, c') = pending c' ≡ pending c

  base-Delivers :
      (room : ℕ) (s s' : Stream) (r : List ℕ ⊎ Error)
      → base.read room s ≡ (r, s')
      → Delivers room (record { prefix = []; conn = s }) (r, record { prefix = []; conn = s' })
  base-Delivers room s s' (inl b) e =
      (rw e at (base.keeps_order room s b (ap (λ p. p.0) e)), base.fits room s b (ap (λ p. p.0) e))
  base-Delivers room s s' (inr x) e = rw e at (base.keeps_on_error room s x (ap (λ p. p.0) e))

  read_past-Delivers :
      (room : ℕ) (prefix : List ℕ) (s : Stream)
      → Delivers room (record { prefix = prefix; conn = s }) (read_past base room prefix s)
  unfolding read_past
  read_past-Delivers room (b ∷ bs) s = (
    sym (append_assoc (take room (b ∷ bs)) (drop room (b ∷ bs)) s.bytes)
        ∙ ap (λ l. l ++ s.bytes) (take-append-drop room (b ∷ bs)),
    omega (arith, length-take room (b ∷ bs)),
  )
  read_past-Delivers room [] s = base-Delivers room s (base.read room s).1 (base.read room s).0 refl

  joined-pending :
      (room : ℕ) (rooms : List ℕ) (c : PrefixConn) (r : (List ℕ ⊎ Error) × PrefixConn)
      → Delivers room c r
      → (read_each base rooms r.1).0 ++ pending (read_each base rooms r.1).1 ≡ pending r.1
      → elim r.0 [
        | inl b ↦ b ++ (read_each base rooms r.1).0
        | inr e ↦ (read_each base rooms r.1).0
      ]
          ++ pending (read_each base rooms r.1).1
        ≡ pending c
  joined-pending room rooms c (inl b, c') d h =
      append_assoc b (read_each base rooms c').0 _ ∙ (ap (λ l. b ++ l) h ∙ d.0)
  joined-pending room rooms c (inr e, c') d h = h ∙ d

  -- Reads of any sizes deliver a front of what is pending, in order, and leave the rest.
  pub read_each-pending :
      (rooms : List ℕ) (c : PrefixConn)
      → (read_each base rooms c).0 ++ pending (read_each base rooms c).1 ≡ pending c
  unfolding read_each prefix_read
  read_each-pending [] c = refl
  read_each-pending (room ∷ rooms) c =
      let r = read_past base room c.prefix c.conn in
      joined-pending room rooms c r (read_past-Delivers room c.prefix c.conn)
        (read_each-pending rooms r.1)

tee-keeps :
    (n : ℕ) (s : Stream) → (tee_read_full n s).1.0 ++ (tee_read_full n s).1.1.bytes ≡ s.bytes
unfolding tee_read_full read_full
tee-keeps n s = elim (Bool-cases (leb n (length s.bytes))) [
  | inl fits ↦ rw fits (take-append-drop n s.bytes)
  | inr short ↦ rw short (append-nil (take n s.bytes) ∙ take_all n s.bytes (ground arith))
]

-- The bytes that were read and those to come are the stream's; the record is bounded.
abbrev pub Kept : List ℕ → Outcome Peeked → Type 0
Kept bs (ok p) = (p.record_read ++ p.rest.bytes ≡ bs) × (length p.record_read ≤ 16389)
Kept bs (err e) = ⊥
Kept bs panic = ⊥
Kept bs stuck = ⊥

peeked_body-Kept :
    (buf bs : List ℕ) (n : ℕ) (s : Stream)
    → n ≤ 16384
    → length buf ≤ 5
    → buf ++ s.bytes ≡ bs
    → Kept bs (peeked_body buf (tee_read_full n s))
unfolding tee_read_full peeked_body
peeked_body-Kept buf bs n s hn hb e =
    let size = length-take n s.bytes in
    let total = length-append buf (take n s.bytes) in
    let kept : (buf ++ take n s.bytes) ++ (read_full n s).1.bytes ≡ bs =
      append_assoc buf (take n s.bytes) _ ∙ (ap (λ l. buf ++ l) (tee-keeps n s) ∙ e) in
    elim (read_full-cases n s) [
      | inl (b, (_, ok_b)) ↦ rw ok_b (kept, omega arith)
      | inr (x, err_x) ↦ rw err_x (kept, omega arith)
    ]

peek_body-Kept :
    (buf bs : List ℕ) (n : ℕ) (s : Stream)
    → length buf ≤ 5
    → buf ++ s.bytes ≡ bs
    → Kept bs (peek_body buf n s)
unfolding peek_body
peek_body-Kept buf bs n s hb e = elim (Bool-cases (ltb n 4 || ltb 16384 n)) [
  | inl bad ↦ rw bad (e, omega arith)
  | inr fits ↦ rw fits (peeked_body-Kept buf bs n s (ground arith) hb e)
]

peek_header-Kept :
    (hdr buf bs : List ℕ) (s : Stream)
    → length hdr ≡ 5
    → length buf ≤ 5
    → buf ++ s.bytes ≡ bs
    → Kept bs (peek_header (ok hdr, (buf, s)))
unfolding peek_header
peek_header-Kept hdr buf bs s h hb e =
    let (kind, ek) = index-ok hdr 0 (omega arith) in
    let (n, en) = uint16_at-ok hdr 3 (omega arith) in
    elim (Bool-cases (not (kind == 0x16))) [
      | inl other ↦ rw (ek, other) (e, omega arith)
      | inr handshake ↦ rw (ek, handshake, en) (peek_body-Kept buf bs n s hb e)
    ]

-- Whatever the connection delivers, peekRecord comes back with at most 5 + 2^14 bytes, and they and
-- the bytes that it leaves on the connection are the connection's, in order.
pub peek_record-Kept : (s : Stream) → Kept s.bytes (peek_record s)
unfolding peek_record tee_read_full peek_header
peek_record-Kept s =
    let kept = tee-keeps 5 s in
    let short : length (take 5 s.bytes) ≤ 5 = omega (arith, length-take 5 s.bytes) in
    elim (read_full-cases 5 s) [
      | inl (hdr, (five, e)) ↦
          rw e (peek_header-Kept hdr (take 5 s.bytes) s.bytes (read_full 5 s).1 five short kept)
      | inr (x, e) ↦ rw e (kept, omega arith)
    ]
