-- ===== src/Shaper/Fixed/Oversize.antt =====
-- Cells of more than 65537 bytes: fixedCells writes the number of data bytes into 16 bits.
use obfs.Base.{ℕ, zero, suc, ◌+◌, ◌-◌, ◌%◌, ◌≤◌, ◌<◌, ◌≡◌, refl, ap, List, [], ◌∷◌, ◌++◌, arith}
use obfs.Base.{
  length, take, drop, ◌∙◌, replicate, concat, uint16, put_uint16, get_uint16, slice-ok, Error, ok,
  ltb, false, le→ltb,
}
use obfs.Base.{length-append, length-take, length-replicate, take_all, append-nil, join16-put}
use obfs.Wire.Laws.{stream, read_full-append}
use obfs.Shaper.{Shaped}
use obfs.Shaper.Fixed.{fixed_cell, fixed_loop, fixed_cells, cell_count, check_cell, next_fixed}

take-append_le : (n : ℕ) (xs ys : List ℕ) → n ≤ length xs → take n (xs ++ ys) ≡ take n xs
take-append_le zero xs ys h = refl
take-append_le (suc n) [] ys h = absurd (omega arith)
take-append_le (suc n) (x ∷ xs) ys h = ap (λ l. x ∷ l) (take-append_le n xs ys (omega arith))

drop-header : (n hi lo : ℕ) (xs : List ℕ) → drop 2 (take (2 + n) (hi ∷ lo ∷ xs)) ≡ take n xs
drop-header n hi lo xs =
    let two : 2 + n ≡ suc (suc n) = omega arith in ap (λ k. drop 2 (take k (hi ∷ lo ∷ xs))) two

module _ {W F : Type 0} (c : Shaped W F) where
  one_cell : (p : List ℕ) → 0 < length p → length p ≤ c.max_data → cell_count c p ≡ 1
  one_cell p h k = grind arith

  length-whole :
      (p : List ℕ) (w : W)
      → c.cell_size ≡ 2 + c.max_data
      → length p ≤ c.max_data
      → length (fixed_cell c (length p) p w).0 ≡ c.cell_size
  unfolding fixed_cell
  length-whole p w size fits =
      let zeros : List ℕ = replicate (c.cell_size - (2 + length p)) 0 in
      let padding = (c.filler.fill zeros w).0 in
      omega (
        arith,
        length-append (take (length p) p) padding,
        length-take (length p) p,
        c.filler.fill_length zeros w,
        length-replicate {0} {A = ℕ} (c.cell_size - (2 + length p)) 0,
      )

  check_cell-whole :
      (p : List ℕ) (w : W)
      → length p ≤ c.max_data
      → check_cell c (fixed_cell c (length p) p w).0 ≡ ok (take (length p % 65536) p)
  unfolding check_cell fixed_cell
  check_cell-whole p w fits =
      let n = length p % 65536 in
      let padding = (c.filler.fill (replicate (c.cell_size - (2 + length p)) 0) w).0 in
      let small : ltb c.max_data n ≡ false = le→ltb _ _ (omega arith) in
      let header : get_uint16 (put_uint16 n) ≡ n = join16-put n (omega arith) in
      rw
        (
          header,
          small,
          take_all (length p) p (omega arith),
          slice-ok (put_uint16 n ++ (p ++ padding)) 2 (2 + n) (omega arith)
              (omega (arith, length-append p padding)),
        )
        (ap ok (drop-header n _ _ (p ++ padding) ∙ take-append_le n p padding (omega arith)))

  -- What the reader of fixed mode makes of a cell that holds the whole message `p`.
  whole_cell :
      (p : List ℕ) (w : W) (rest : List ℕ) (e : Error)
      → c.cell_size ≡ 2 + c.max_data
      → length p ≤ c.max_data
      → next_fixed c (stream ((fixed_cell c (length p) p w).0 ++ rest) e)
        ≡ (ok (take (length p % 65536) p), stream rest e)
  unfolding next_fixed
  whole_cell p w rest e size fits =
      let n : uint16 (length p) ≤ length p = omega arith in
      let padding = (c.filler.fill (replicate (c.cell_size - (2 + length p)) 0) w).0 in
      rw
        (read_full-append c.cell_size (fixed_cell c (length p) p w).0 rest e
          (length-whole p w size fits))
        (rw (check_cell-whole p w fits))

  -- A message that fills at most one cell is read back as its first `len % 65536` bytes. So where
  -- cells have more than 65537 bytes, a message of 65536 bytes or more in one cell is cut, without
  -- an error on either side; one of exactly 65536 bytes is taken for a cover cell.
  pub fixed_cells-cut :
      (p : List ℕ) (w : W) (rest : List ℕ) (e : Error)
      → c.cell_size ≡ 2 + c.max_data
      → 0 < length p
      → length p ≤ c.max_data
      → next_fixed c (stream (concat (fixed_cells c p w).0 ++ rest) e)
        ≡ (ok (take (length p % 65536) p), stream rest e)
  unfolding fixed_cells
  fixed_cells-cut p w rest e size some_data fits =
      let one : ltb c.max_data (length p) ≡ false = le→ltb _ _ fits in
      rw (one_cell p some_data fits, fixed_loop, one, append-nil) (whole_cell p w rest e size fits)
