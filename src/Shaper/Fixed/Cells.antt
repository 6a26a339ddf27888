-- ===== src/Shaper/Fixed/Cells.antt =====
-- What fixedCells and coverCell put on the wire: cells of one size that carry the data.
use obfs.Base.{ℕ, zero, suc, ◌+◌, ◌-◌, ◌*◌, ◌/◌, ◌≤◌, ◌<◌, ◌≡◌, refl, ap, List, [], ◌∷◌}
use obfs.Base.{arith, length, take, drop, replicate, All, uint16}
use obfs.Base.{length-append, length-take, length-drop, length-replicate, take-append-drop, ◌∙◌}
use obfs.Shaper.{Shaped}
use obfs.Shaper.Frame.{
  Frame, fixed_bytes, IsFixed, Framed, Framed-one, Split, Split-nil, Split-cons,
}
use obfs.Shaper.Fixed.{fixed_cell, cell_data, fixed_loop, cell_count, fixed_cells, fixed_cover_cell}

-- A fixed-mode connection whose cells leave room for data, at most what the header can count.
pub record IsFixedMode {W F : Type 0} (c : Shaped W F) : Type 0 where
  pub room : 2 < c.cell_size
  pub fits : c.cell_size ≤ 65537
  pub payload_size : c.max_data ≡ c.cell_size - 2

module _ {W F : Type 0} {c : Shaped W F} (v : IsFixedMode c) where
  cell_frame : ℕ → List ℕ → W → Frame
  cell_frame m src w = record {
    body = take m src;
    pad = (c.filler.fill (replicate (c.cell_size - (2 + m)) 0) w).0;
  }

  length-padding : (k : ℕ) (w : W) → length (c.filler.fill (replicate k 0) w).0 ≡ k
  length-padding k w = c.filler.fill_length (replicate k 0) w ∙ length-replicate k 0

  cell_frame-IsFixed :
      (m : ℕ) (src : List ℕ) (w : W)
      → m ≤ length src
      → m ≤ c.max_data
      → IsFixed c.cell_size (cell_frame m src w)
  unfolding cell_frame
  cell_frame-IsFixed m src w h k = omega (
    arith,
    v.room,
    v.fits,
    v.payload_size,
    length-take m src,
    length-padding (c.cell_size - (2 + m)) w,
  )

  fixed_cell-bytes :
      (m : ℕ) (src : List ℕ) (w : W)
      → m ≤ length src
      → m ≤ c.max_data
      → (fixed_cell c m src w).0 ≡ fixed_bytes (cell_frame m src w)
  unfolding fixed_cell fixed_bytes cell_frame
  fixed_cell-bytes m src w h k =
      let e : uint16 m ≡ length (take m src) =
        omega (arith, length-take m src, v.fits, v.payload_size) in
      rw e

  cell_data-le : (src : List ℕ) → (cell_data c src ≤ length src) × (cell_data c src ≤ c.max_data)
  cell_data-le src = ground arith

  cell_frame-Framed :
      (m : ℕ) (src : List ℕ) (w : W)
      → m ≤ length src
      → m ≤ c.max_data
      → Framed (IsFixed c.cell_size) fixed_bytes (fixed_cell c m src w).0 (take m src)
  unfolding cell_frame
  cell_frame-Framed m src w h k =
      Framed-one (cell_frame m src w) (cell_frame-IsFixed m src w h k)
        (fixed_cell-bytes m src w h k)

  fixed_loop-Split :
      (n : ℕ) (src : List ℕ) (w : W)
      → length src ≤ n * c.max_data
      → Split (IsFixed c.cell_size) fixed_bytes (fixed_loop c n src w).0 src
  unfolding fixed_loop
  fixed_loop-Split zero [] w h = Split-nil
  fixed_loop-Split zero (b ∷ bs) w h = absurd (omega arith)
  fixed_loop-Split (suc n) src w h =
      let m = cell_data c src in
      let (le_src, le_max) = cell_data-le src in
      Split-cons (cell_frame-Framed m src w le_src le_max)
        (fixed_loop-Split n (drop m src) (fixed_cell c m src w).1
          (ground (arith, length-drop m src)))
        (take-append-drop m src)

  enough_cells : (p : List ℕ) → length p ≤ cell_count c p * c.max_data
  enough_cells p = grind (arith, v.room, v.payload_size)

  -- The cells of a message are valid frames of the one size, and carry the message.
  pub fixed_cells-Split :
      (p : List ℕ) (w : W) → Split (IsFixed c.cell_size) fixed_bytes (fixed_cells c p w).0 p
  unfolding fixed_cells
  fixed_cells-Split p w = fixed_loop-Split (cell_count c p) p w (enough_cells p)

  pub fixed_cover_cell-Framed :
      (w : W) → Framed (IsFixed c.cell_size) fixed_bytes (fixed_cover_cell c w).0 []
  unfolding fixed_cover_cell
  fixed_cover_cell-Framed w =
      Framed-one (record { body = []; pad = (c.filler.fill (replicate (c.cell_size - 2) 0) w).0 })
        (omega (arith, v.room, length-padding (c.cell_size - 2) w)) (unfold fixed_bytes in refl)

  length-fixed_cell :
      (src : List ℕ) (w : W) → length (fixed_cell c (cell_data c src) src w).0 ≡ c.cell_size
  unfolding fixed_cell
  length-fixed_cell src w =
      let m = cell_data c src in
      let (le_src, le_max) = cell_data-le src in
      let zeros : List ℕ = replicate (c.cell_size - (2 + m)) 0 in
      omega (
        arith,
        v.room,
        v.payload_size,
        le_src,
        le_max,
        length-append (take m src) (c.filler.fill zeros w).0,
        length-take m src,
        length-padding (c.cell_size - (2 + m)) w,
      )

  fixed_loop-sizes :
      (n : ℕ) (src : List ℕ) (w : W)
      → All (λ cell. length cell ≡ c.cell_size) (fixed_loop c n src w).0
        × (length (fixed_loop c n src w).0 ≡ n)
  unfolding fixed_loop
  fixed_loop-sizes zero src w = (tt, refl)
  fixed_loop-sizes (suc n) src w =
      let m = cell_data c src in
      let (all, count) = fixed_loop-sizes n (drop m src) (fixed_cell c m src w).1 in
      ((length-fixed_cell src w, all), ap suc count)

  -- Every cell has exactly the configured size, and the number of cells is the length of the
  -- message over the room in a cell, rounded up: the observer of the wire learns no more of it.
  pub fixed_cells-sizes :
      (p : List ℕ) (w : W)
      → All (λ cell. length cell ≡ c.cell_size) (fixed_cells c p w).0
        × (length (fixed_cells c p w).0 ≡ (length p + c.max_data - 1) / c.max_data)
  unfolding fixed_cells
  fixed_cells-sizes p w = fixed_loop-sizes (cell_count c p) p w
