-- ===== src/Shaper/Fixed/Decode.antt =====
-- Reading fixed-size cells: the round of the Read loop is a framing.
use obfs.Base.{ℕ, ◌+◌, ◌<◌, ◌≡◌, ◌≢◌, ◌∙◌, List, ◌++◌, arith}
use obfs.Base.{
  length, length-append, join16-put, put_uint16, slice-append, refl, corrupt_cell, Returns,
  Returns-err, Returns-if, Returns-uint16, Returns-slice_last, ltb, le→ltb,
}
use obfs.Base.{Error, ok, panic, stuck, inl, inr, false}
use obfs.Wire.{Stream}
use obfs.Wire.Laws.{
  stream, read_full-append, read_full-end, read_full-takes, read_full-returns, read_full-cases,
}
use obfs.Shaper.{Shaped}
use obfs.Shaper.Frame.{Frame, fixed_bytes, IsFixed}
use obfs.Shaper.Framing.{Framing}
use obfs.Shaper.Fixed.{check_cell, next_fixed}
use obfs.Shaper.Fixed.Cells.{IsFixedMode}

length-fixed_bytes : (f : Frame) → length (fixed_bytes f) ≡ 2 + length f.body + length f.pad
unfolding fixed_bytes
length-fixed_bytes f = omega (arith, length-append f.body f.pad)

module _ {W F : Type 0} {c : Shaped W F} (v : IsFixedMode c) where
  check_cell-fixed_bytes :
      (f : Frame) → IsFixed c.cell_size f → check_cell c (fixed_bytes f) ≡ ok f.body
  unfolding check_cell fixed_bytes
  check_cell-fixed_bytes f h =
      let fits : ltb c.max_data (length f.body) ≡ false =
        le→ltb _ _ (omega (arith, v.payload_size)) in
      rw (
        join16-put (length f.body) h.0,
        fits,
        slice-append (put_uint16 (length f.body)) f.body f.pad 2 (2 + length f.body) refl refl,
      )

  -- The guard keeps the slice inside the cell.
  check_cell-Returns : (b : List ℕ) → length b ≡ c.cell_size → Returns (check_cell c b)
  unfolding check_cell
  check_cell-Returns b size = Returns-uint16 b 0 _ (omega (arith, v.room)) (λ n.
      Returns-if (ltb c.max_data n) _ _ (Returns-err corrupt_cell) (λ small.
        Returns-slice_last b 2 (2 + n) (omega arith) (ground (arith, v.room, v.payload_size))))

  takes_frame :
      (f : Frame) (rest : List ℕ) (e : Error)
      → IsFixed c.cell_size f
      → next_fixed c (stream (fixed_bytes f ++ rest) e) ≡ (ok f.body, stream rest e)
  unfolding next_fixed
  takes_frame f rest e h = rw (
    read_full-append c.cell_size (fixed_bytes f) rest e (length-fixed_bytes f ∙ h.1),
    check_cell-fixed_bytes f h,
  )

  takes_byte :
      (s : Stream) (b : List ℕ)
      → (next_fixed c s).0 ≡ ok b
      → length (next_fixed c s).1.bytes < length s.bytes
  unfolding next_fixed
  takes_byte s b h = elim (read_full-returns c.cell_size s) [
    | inl (cell, e) ↦ omega (arith, v.room, read_full-takes c.cell_size s cell e)
    | inr (x, e) ↦ cc (rw e at h)
  ]

  returns : (s : Stream) → ((next_fixed c s).0 ≢ stuck) × ((next_fixed c s).0 ≢ panic)
  unfolding next_fixed
  returns s = elim (read_full-cases c.cell_size s) [
    | inl (cell, (size, e)) ↦ rw e (check_cell-Returns cell size)
    | inr (x, e) ↦ rw e ((λ q. cc), (λ q. cc))
  ]

  pub IsFixed-Framing : Framing (next_fixed c) (IsFixed c.cell_size) fixed_bytes
  IsFixed-Framing = record {
    takes_frame = takes_frame;
    ends = λ e. unfold next_fixed in rw (read_full-end c.cell_size e (omega (arith, v.room)));
    takes_byte = takes_byte;
    returns = returns;
  }
