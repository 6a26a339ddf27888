-- ===== src/Shaper/Morph/Decode.antt =====
-- Reading cells of sampled sizes: the round of the readMorph loop is a framing.
use obfs.Base.{ℕ, ◌+◌, ◌-◌, ◌≤◌, ◌<◌, ◌≡◌, ◌≢◌, refl, List, [], ◌++◌, arith}
use obfs.Base.{
  length, length-append, join16-put, slice-append, corrupt_cell, Returns, Returns-err, Returns-if,
  Returns-uint16, Returns-slice_last, ltb, le→ltb,
}
use obfs.Base.{Error, ok, err, panic, stuck, put_uint16, get_uint16, inl, inr, false, Bool-cases}
use obfs.Wire.{Stream, read_full}
use obfs.Wire.Laws.{
  stream, read_full-append, read_full-end, read_full-takes, read_full-returns, read_full-cases,
}
use obfs.Wire.Laws.{read_full-shrinks}
use obfs.Shaper.Frame.{Frame, morph_bytes, IsMorph}
use obfs.Shaper.Framing.{Framing}
use obfs.Shaper.Morph.{check_body, after_header, next_morph}

-- What follows the length of a cell.
inner : Frame → List ℕ
inner f = put_uint16 (length f.body) ++ (f.body ++ f.pad)

length-inner : (f : Frame) → length (inner f) ≡ 2 + length f.body + length f.pad
unfolding inner
length-inner f = omega (arith, length-append f.body f.pad)

check_body-inner :
    (f : Frame) → IsMorph f → check_body (2 + length f.body + length f.pad) (inner f) ≡ ok f.body
unfolding check_body inner
check_body-inner f h =
    let n : get_uint16 (put_uint16 (length f.body) ++ (f.body ++ f.pad)) ≡ length f.body =
      join16-put (length f.body) (omega arith) in
    let fits : ltb (2 + length f.body + length f.pad - 2) (length f.body) ≡ false =
      le→ltb _ _ (omega arith) in
    rw (
      n,
      fits,
      slice-append (put_uint16 (length f.body)) f.body f.pad 2 (2 + length f.body) refl refl,
    )

-- The guards keep the header and the slice inside the cell.
check_body-Returns : (n : ℕ) (b : List ℕ) → 2 ≤ n → length b ≡ n → Returns (check_body n b)
unfolding check_body
check_body-Returns n b some_room size = Returns-uint16 b 0 _ (omega arith) (λ r.
    Returns-if (ltb (n - 2) r) _ _ (Returns-err corrupt_cell)
      (λ small. Returns-slice_last b 2 (2 + r) (omega arith) (ground arith)))

after_header-inner :
    (f : Frame) (rest : List ℕ) (e : Error)
    → IsMorph f
    → after_header (put_uint16 (2 + length f.body + length f.pad)) (stream (inner f ++ rest) e)
      ≡ (ok f.body, stream rest e)
unfolding after_header
after_header-inner f rest e h =
    let n = 2 + length f.body + length f.pad in
    let whole : ltb n 2 ≡ false = le→ltb _ _ (omega arith) in
    rw (join16-put n h, whole, read_full-append n (inner f) rest e (length-inner f))
      (rw (check_body-inner f h))

takes_frame :
    (f : Frame) (rest : List ℕ) (e : Error)
    → IsMorph f
    → next_morph (stream (morph_bytes f ++ rest) e) ≡ (ok f.body, stream rest e)
unfolding next_morph morph_bytes inner
takes_frame f rest e h =
    let hdr = put_uint16 (2 + length f.body + length f.pad) in
    rw (read_full-append 2 hdr (inner f ++ rest) e refl) (after_header-inner f rest e h)

after_header-shrinks :
    (h : List ℕ) (s : Stream) → length (after_header h s).1.bytes ≤ length s.bytes
unfolding after_header
after_header-shrinks h s = ground (arith, read_full-shrinks (get_uint16 h) s)

after_header-returns :
    (h : List ℕ) (s : Stream) → ((after_header h s).0 ≢ stuck) × ((after_header h s).0 ≢ panic)
unfolding after_header
after_header-returns h s = elim (Bool-cases (ltb (get_uint16 h) 2)) [
  | inl bad ↦ rw bad ((λ q. cc), (λ q. cc))
  | inr whole ↦ rw whole (elim (read_full-cases (get_uint16 h) s) [
    | inl (b, (size, e)) ↦ rw e (check_body-Returns (get_uint16 h) b (ground arith) size)
    | inr (x, e) ↦ rw e ((λ q. cc), (λ q. cc))
  ])
]

takes_byte :
    (s : Stream) (b : List ℕ)
    → (next_morph s).0 ≡ ok b
    → length (next_morph s).1.bytes < length s.bytes
unfolding next_morph
takes_byte s b h = elim (read_full-returns 2 s) [
  | inl (hdr, e) ↦
      rw e (omega (arith, read_full-takes 2 s hdr e, after_header-shrinks hdr (read_full 2 s).1))
  | inr (x, e) ↦ cc (rw e at h)
]

returns : (s : Stream) → ((next_morph s).0 ≢ stuck) × ((next_morph s).0 ≢ panic)
unfolding next_morph
returns s = elim (read_full-returns 2 s) [
  | inl (hdr, e) ↦ rw e (after_header-returns hdr (read_full 2 s).1)
  | inr (x, e) ↦ rw e ((λ q. cc), (λ q. cc))
]

morph_ends : (e : Error) → next_morph (stream [] e) ≡ (err e, stream [] e)
unfolding next_morph
morph_ends e = rw (read_full-end 2 e (omega arith))

pub IsMorph-Framing : Framing next_morph IsMorph morph_bytes
IsMorph-Framing = record {
  takes_frame = takes_frame;
  ends = λ e. morph_ends e;
  takes_byte = takes_byte;
  returns = returns;
}
