-- ===== src/Shaper/Fixed.antt =====
-- Fixed-size cells: fixedCells and coverCell of conn.go, and the round of its Read loop.
pub mod Cells
pub mod Decode
pub mod Oversize
use obfs.Base.{ℕ, zero, suc, ◌+◌, ◌-◌, ◌*◌, ◌/◌, ◌≤◌, ◌<◌, ◌≡◌, List, [], ◌∷◌, ◌++◌, ltb}
use obfs.Base.{length, take, drop, replicate, concat, uint16, put_uint16, uint16_at, slice}
use obfs.Base.{Outcome, ok, err, corrupt_cell, ◌>>=◌, if◌then◌else◌}
use obfs.Wire.{Stream, read_full}
use obfs.Shaper.{FillFunc, Shaped, hdr_size}

module _ {W F : Type 0} (c : Shaped W F) where
  -- One round of the loop of fixedCells, with `m` bytes of `src`. The slice of `buf` is fresh, so
  -- what `fill` is handed is zero.
  pub fixed_cell : ℕ → List ℕ → W → List ℕ × W
  fixed_cell m src w =
      let (padding, w') = c.filler.fill (replicate (c.cell_size - (hdr_size + m)) 0) w in
      (put_uint16 (uint16 m) ++ (take m src ++ padding), w')

  abbrev pub cell_data : List ℕ → ℕ
  cell_data src = if ltb c.max_data (length src) then c.max_data else length src

  pub fixed_loop : ℕ → List ℕ → W → List (List ℕ) × W
  fixed_loop zero src w = ([], w)
  fixed_loop (suc n) src w =
      let m = cell_data src in
      let (cell, w₁) = fixed_cell m src w in
      let (cells, w₂) = fixed_loop n (drop m src) w₁ in (cell ∷ cells, w₂)

  abbrev pub cell_count : List ℕ → ℕ
  cell_count p = (length p + c.max_data - 1) / c.max_data

  -- fixedCells: the cells. They are consecutive slices of the buffer, which is `concat` of them.
  unfoldable pub fixed_cells : List ℕ → W → List (List ℕ) × W
  unfolding fixed_loop fixed_cell
  fixed_cells p w = fixed_loop (cell_count p) p w

  -- coverCell in fixed mode: the header stays 0.
  unfoldable pub fixed_cover_cell : W → List ℕ × W
  fixed_cover_cell w =
      let (padding, w') = c.filler.fill (replicate (c.cell_size - hdr_size) 0) w in
      (0 ∷ 0 ∷ padding, w')

  check_cell : List ℕ → Outcome (List ℕ)
  check_cell cell = do
    n ← uint16_at cell 0
    if ltb c.max_data n then err corrupt_cell else slice cell hdr_size (hdr_size + n)

  -- The body of the loop of Read: one cell, as the new `pending`, or the error returned.
  unfoldable pub next_fixed : Stream → Outcome (List ℕ) × Stream
  unfolding check_cell
  next_fixed s = let (cell, s') = read_full c.cell_size s in (cell >>= check_cell, s')
