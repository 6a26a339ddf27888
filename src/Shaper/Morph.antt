-- ===== src/Shaper/Morph.antt =====
-- Cells of sampled sizes: morphCells, morphCoverCell and the round of readMorph of morph.go.
pub mod Cells
pub mod Decode
use obfs.Base.{ℕ, zero, suc, ◌+◌, ◌-◌, ◌≤◌, ◌<◌, ◌≡◌, List, [], ◌∷◌, ◌++◌, ltb, ℤ, pos, negsuc}
use obfs.Base.{length, take, drop, replicate, uint16, put_uint16, get_uint16, uint16_at, slice}
use obfs.Base.{Outcome, ok, err, panic, stuck, corrupt_cell, ◌>>=◌, if◌then◌else◌}
use obfs.Wire.{Stream, read_full}
use obfs.Shaper.{FillFunc, Sampler}

abbrev pub morph_overhead : ℕ
morph_overhead = 4

abbrev pub max_morph_cell : ℕ
max_morph_cell = 65535

-- `if s < lo { s = lo }; if s > maxMorphCell { s = maxMorphCell }`
unfoldable pub clamp : ℕ → ℤ → ℕ
clamp lo (negsuc n) = if ltb max_morph_cell lo then max_morph_cell else lo
clamp lo (pos n) =
    let s = if ltb n lo then lo else n in if ltb max_morph_cell s then max_morph_cell else s

-- `r := s - morphOverhead; if r > len(remaining) { r = len(remaining) }`
abbrev pub capacity : ℕ → List ℕ → ℕ
capacity s remaining =
    let r = s - morph_overhead in if ltb (length remaining) r then length remaining else r

module _ {W : Type 0} (filler : FillFunc W) (size_sampler : Sampler W) where
  -- A cell of `s` bytes with the first `r` bytes of `remaining`.
  pub morph_cell : ℕ → ℕ → List ℕ → W → List ℕ × W
  morph_cell s r remaining w =
      let (padding, w') = filler.fill (replicate (s - (4 + r)) 0) w in
      (put_uint16 (uint16 (s - 2)) ++ (put_uint16 (uint16 r) ++ (take r remaining ++ padding)), w')

  -- The loop of morphCells; the fuel bounds its rounds, each of which takes a byte at least.
  pub morph_loop : ℕ → List ℕ → W → Outcome (List (List ℕ)) × W
  morph_loop fuel [] w = (ok [], w)
  morph_loop zero (b ∷ bs) w = (stuck, w)
  morph_loop (suc fuel) (b ∷ bs) w =
      let (size, w₁) = size_sampler w in
      let s = clamp (morph_overhead + 1) size in
      let r = capacity s (b ∷ bs) in
      let (cell, w₂) = morph_cell s r (b ∷ bs) w₁ in
      let (cells, w₃) = morph_loop fuel (drop r (b ∷ bs)) w₂ in
      (cells >>= (λ rest. ok (cell ∷ rest)), w₃)

  unfoldable pub morph_cells : List ℕ → W → Outcome (List (List ℕ)) × W
  unfolding morph_loop morph_cell clamp
  morph_cells p w = morph_loop (length p) p w

  unfoldable pub morph_cover_cell : W → List ℕ × W
  unfolding clamp
  morph_cover_cell w =
      let (size, w₁) = size_sampler w in
      let s = clamp morph_overhead size in
      let (padding, w₂) = filler.fill (replicate (s - 4) 0) w₁ in
      (put_uint16 (uint16 (s - 2)) ++ (0 ∷ 0 ∷ padding), w₂)

check_body : ℕ → List ℕ → Outcome (List ℕ)
check_body n rbuf = do
  r ← uint16_at rbuf 0
  if ltb (n - 2) r then err corrupt_cell else slice rbuf 2 (2 + r)

after_header : List ℕ → Stream → Outcome (List ℕ) × Stream
unfolding check_body
after_header hdr s =
    let n = get_uint16 hdr in
    if ltb n 2
    then (err corrupt_cell, s)
    else (let (rbuf, s') = read_full n s in (rbuf >>= check_body n, s'))

on_header : Outcome (List ℕ) → Stream → Outcome (List ℕ) × Stream
unfolding after_header
on_header (ok hdr) s = after_header hdr s
on_header (err e) s = (err e, s)
on_header panic s = (panic, s)
on_header stuck s = (stuck, s)

-- The body of the loop of readMorph. `rbuf` is scratch space of `n` bytes, new or used again.
unfoldable pub next_morph : Stream → Outcome (List ℕ) × Stream
unfolding on_header
next_morph s = let (hdr, s') = read_full 2 s in on_header hdr s'
