-- ===== src/Wire/Laws.antt =====
-- `read_full` on a stream whose front is known.
use obfs.Base.{ℕ, ◌+◌, ◌≤◌, ◌<◌, ◌≡◌, refl, List, [], ◌∷◌, ◌++◌, arith, leb, true}
use obfs.Base.{
  length, take, drop, length-append, take-append_self, drop-append_self, Error, ok, err,
}
use obfs.Wire.{Stream, read_full, short_error, Sink, base_write, write_result}
use obfs.Base.{Option, none, some}
use obfs.Base.{
  sym, ok-injective, take-append-drop, length-take, length-drop, ◌⊎◌, inl, inr, Bool-cases,
}

abbrev pub stream : List ℕ → Error → Stream
stream bs e = record { bytes = bs; fail = e }

leb-length {ℓ} : {A : Type ℓ} (xs ys : List A) → leb (length xs) (length (xs ++ ys)) ≡ true
leb-length xs ys = ground (arith, length-append xs ys)

-- The first `n` bytes are delivered, and the rest stays.
pub read_full-append :
    (n : ℕ) (xs ys : List ℕ) (e : Error)
    → length xs ≡ n
    → read_full n (stream (xs ++ ys) e) ≡ (ok xs, stream ys e)
unfolding read_full
read_full-append n xs ys e h = rw (← h) (simp (leb-length, take-append_self, drop-append_self))

-- At the end of the stream its error comes through unchanged.
pub read_full-end : (n : ℕ) (e : Error) → 0 < n → read_full n (stream [] e) ≡ (err e, stream [] e)
unfolding read_full
read_full-end n e h = ground arith

-- Bytes are taken only from the front, and at least `n` of them if the read succeeds.
pub read_full-shrinks : (n : ℕ) (s : Stream) → length (read_full n s).1.bytes ≤ length s.bytes
unfolding read_full
read_full-shrinks n s = ground (arith, length-drop n s.bytes)

pub read_full-takes :
    (n : ℕ) (s : Stream) (b : List ℕ)
    → (read_full n s).0 ≡ ok b
    → length (read_full n s).1.bytes + n ≤ length s.bytes
unfolding read_full
read_full-takes n s b h = ground (arith, length-drop n s.bytes)

-- A read ends with bytes or with an error.
pub read_full-returns :
    (n : ℕ) (s : Stream)
    → ((b : List ℕ) × ((read_full n s).0 ≡ ok b)) ⊎ ((e : Error) × ((read_full n s).0 ≡ err e))
unfolding read_full
read_full-returns n s = elim (Bool-cases (leb n (length s.bytes))) [
  | inl fits ↦ inl (take n s.bytes, rw fits)
  | inr short ↦ inr (short_error s.bytes s.fail, rw short)
]

-- The same, with the number of bytes.
pub read_full-cases :
    (n : ℕ) (s : Stream)
    → ((b : List ℕ) × ((length b ≡ n) × ((read_full n s).0 ≡ ok b)))
      ⊎ ((e : Error) × ((read_full n s).0 ≡ err e))
unfolding read_full
read_full-cases n s = elim (Bool-cases (leb n (length s.bytes))) [
  | inl fits ↦ inl (take n s.bytes, ((ground (arith, length-take n s.bytes)), (rw fits)))
  | inr short ↦ inr (short_error s.bytes s.fail, rw short)
]

pub read_full-split :
    (n : ℕ) (s : Stream) (b : List ℕ)
    → (read_full n s).0 ≡ ok b
    → s.bytes ≡ b ++ (read_full n s).1.bytes
unfolding read_full
read_full-split n s b h = elim (Bool-cases (leb n (length s.bytes))) [
  | inl fits ↦
      let e : take n s.bytes ≡ b = ok-injective refl (rw fits at h) in
      rw (fits, ← e) (sym (take-append-drop n s.bytes))
  | inr short ↦ let bad : err (short_error s.bytes s.fail) ≡ ok b = rw short at h in absurd (cc)
]

-- A write of the base connection adds the buffer to the wire, or fails and adds a front of it.
abbrev pub Wrote : List ℕ → Sink → Option Error × Sink → Type 0
Wrote buf s (none, s') = s'.sent ≡ s.sent ++ buf
Wrote buf s (some e, s') =
    (part : List ℕ) × ((rest : List ℕ) × ((part ++ rest ≡ buf) × (s'.sent ≡ s.sent ++ part)))

write_result-Wrote :
    (fs : List (Option (ℕ × Error))) (buf : List ℕ) (s : Sink) → Wrote buf s (write_result fs buf s)
unfolding write_result
write_result-Wrote [] buf s = refl
write_result-Wrote (none ∷ fs) buf s = refl
write_result-Wrote (some (k, e) ∷ fs) buf s =
    (take k buf, (drop k buf, (take-append-drop k buf, refl)))

pub base_write-Wrote : (buf : List ℕ) (s : Sink) → Wrote buf s (base_write buf s)
unfolding base_write
base_write-Wrote buf s = write_result-Wrote s.faults buf s

-- A write behind the end of the list of results.
pub base_write-healthy :
    (buf : List ℕ) (s : Sink)
    → s.faults ≡ []
    → base_write buf s ≡ (none, record s { sent = s.sent ++ buf })
unfolding base_write
base_write-healthy buf s h = rw h
