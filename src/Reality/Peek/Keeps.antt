-- ===== src/Reality/Peek/Keeps.antt =====
-- Peeking the SNI comes back and loses no byte.
use obfs.Base.{
  ℕ, ◌≡◌, ◌∙◌, ap, List, [], ◌++◌, take, length, ltb, leb, ◌==◌, not, ◌||◌, Bool-cases, Outcome, ok,
  err, panic, stuck, Returns, index-ok, uint16_at-ok, inl, inr, append_assoc, take-append-drop,
  take_all, append-nil, arith, refl,
}
use obfs.Act.{Ended, ended_ok, ended_err, Ended-and_then}
use obfs.Wire.{Stream, read_full}
use obfs.Wire.Laws.{read_full-cases}
use obfs.Reality.Sni.{sni_from_client_hello}
use obfs.Reality.Sni.Total.{sni_from_client_hello-Returns}
use obfs.Reality.Peek.{
  Tee, tee_read, pure, parse_body, parse_header, parse_client_hello_sni, peek_client_hello_sni,
}

-- What was recorded and what is left are the stream's bytes.
abbrev pub Holds : List ℕ → Tee → Type 0
Holds bs t = t.buf ++ t.reader.bytes ≡ bs

pub taken : (n : ℕ) (s : Stream) → take n s.bytes ++ (read_full n s).1.bytes ≡ s.bytes
unfolding read_full
taken n s = elim (Bool-cases (leb n (length s.bytes))) [
  | inl fits ↦ rw fits (take-append-drop n s.bytes)
  | inr short ↦ rw short (append-nil (take n s.bytes) ∙ take_all n s.bytes (ground arith))
]

tee_read-Ended :
    (bs : List ℕ) (n : ℕ) (t : Tee)
    → Holds bs t
    → Ended (λ b t'. (length b ≡ n) × Holds bs t') (Holds bs) (tee_read n t)
unfolding tee_read
tee_read-Ended bs n t h =
    let kept =
      append_assoc t.buf (take n t.reader.bytes) _
      ∙ (ap (λ l. t.buf ++ l) (taken n t.reader) ∙ h) in
    elim (read_full-cases n t.reader) [
      | inl (b, (size, e)) ↦ rw e (ended_ok (size, kept))
      | inr (x, e) ↦ rw e (ended_err kept)
    ]

pure-Ended :
    (bs : List ℕ) (o : Outcome (List ℕ)) (t : Tee)
    → Returns o
    → Holds bs t
    → Ended (λ _ t'. Holds bs t') (Holds bs) (pure o t)
unfolding pure
pure-Ended bs (ok b) t r h = ended_ok h
pure-Ended bs (err e) t r h = ended_err h
pure-Ended bs panic t r h = absurd (r.1 refl)
pure-Ended bs stuck t r h = absurd (r.0 refl)

parse_body-Ended :
    (bs : List ℕ) (n : ℕ) (t : Tee)
    → Holds bs t
    → Ended (λ _ t'. Holds bs t') (Holds bs) (parse_body n t)
unfolding parse_body pure
parse_body-Ended bs n t h = elim (Bool-cases (ltb n 4 || ltb 16384 n)) [
  | inl bad ↦ rw bad (ended_err h)
  | inr fits ↦ rw fits (
      Ended-and_then (tee_read-Ended bs n t h) (λ body t' k.
        pure-Ended bs (sni_from_client_hello body) t' (sni_from_client_hello-Returns body) k.1))
]

parse_header-Ended :
    (bs hdr : List ℕ) (t : Tee)
    → length hdr ≡ 5
    → Holds bs t
    → Ended (λ _ t'. Holds bs t') (Holds bs) (parse_header hdr t)
unfolding parse_header pure
parse_header-Ended bs hdr t five h =
    let (kind, ek) = index-ok hdr 0 (omega arith) in
    let (n, en) = uint16_at-ok hdr 3 (omega arith) in
    elim (Bool-cases (not (kind == 0x16))) [
      | inl other ↦ rw (ek, other) (ended_err h)
      | inr handshake ↦ rw (ek, handshake, en) (parse_body-Ended bs n t h)
    ]

-- Peeking ends with an SNI or with an error, and keeps the bytes.
pub peek_client_hello_sni-Ended :
    (s : Stream) → Ended (λ _ t. Holds s.bytes t) (Holds s.bytes) (peek_client_hello_sni s)
unfolding peek_client_hello_sni parse_client_hello_sni
peek_client_hello_sni-Ended s =
    Ended-and_then (tee_read-Ended s.bytes 5 (record { buf = []; reader = s }) refl)
      (λ hdr t h. parse_header-Ended s.bytes hdr t h.0 h.1)
