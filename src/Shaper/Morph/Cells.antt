-- ===== src/Shaper/Morph/Cells.antt =====
-- What morphCells and morphCoverCell put on the wire, and that the loop of morphCells ends.
use obfs.Base.{ℕ, zero, suc, ◌+◌, ◌-◌, ◌≤◌, ◌<◌, ◌≡◌, ◌≢◌, refl, ◌∙◌, List, [], ◌∷◌, ℤ, pos, negsuc}
use obfs.Base.{arith, length, take, drop, replicate, uint16}
use obfs.Base.{length-take, length-drop, length-replicate, take-append-drop, Outcome, ok, ◌>>=◌}
use obfs.Shaper.{FillFunc, Sampler}
use obfs.Shaper.Frame.{
  Frame, morph_bytes, IsMorph, Framed, Framed-one, Split, Split-nil, Split-cons,
}
use obfs.Shaper.Morph.{clamp, morph_cell, capacity, morph_loop, morph_cells, morph_cover_cell}

-- A sampled size, whatever its sign, ends up between the two limits.
pub clamp_bounds : (lo : ℕ) (s : ℤ) → lo ≤ 65535 → (lo ≤ clamp lo s) × (clamp lo s ≤ 65535)
unfolding clamp
clamp_bounds lo (pos n) h = ground arith
clamp_bounds lo (negsuc n) h = ground arith

capacity_bounds :
    (s : ℕ) (src : List ℕ)
    → 5 ≤ s
    → src ≢ []
    → (capacity s src ≤ length src) × (capacity s src + 4 ≤ s) × (0 < capacity s src)
capacity_bounds s [] h k = absurd (k refl)
capacity_bounds s (b ∷ bs) h k = ground arith

-- With fuel for every byte, morphCells returns cells that are valid frames with the message.
pub record MorphCells (p : List ℕ) (r : Outcome (List (List ℕ))) : Type 0 where
  pub cells : List (List ℕ)
  pub returned : r ≡ ok cells
  pub split : Split IsMorph morph_bytes cells p

module _ {W : Type 0} (filler : FillFunc W) (size_sampler : Sampler W) where
  length-padding : (k : ℕ) (w : W) → length (filler.fill (replicate k 0) w).0 ≡ k
  length-padding k w = filler.fill_length (replicate k 0) w ∙ length-replicate k 0

  morph_frame : ℕ → ℕ → List ℕ → W → Frame
  morph_frame s r src w = record {
    body = take r src;
    pad = (filler.fill (replicate (s - (4 + r)) 0) w).0;
  }

  morph_frame-IsMorph :
      (s r : ℕ) (src : List ℕ) (w : W)
      → r ≤ length src
      → r + 4 ≤ s
      → s ≤ 65535
      → IsMorph (morph_frame s r src w)
  unfolding morph_frame
  morph_frame-IsMorph s r src w h k l =
      omega (arith, length-take r src, length-padding (s - (4 + r)) w)

  morph_cell-bytes :
      (s r : ℕ) (src : List ℕ) (w : W)
      → r ≤ length src
      → r + 4 ≤ s
      → s ≤ 65535
      → (morph_cell filler size_sampler s r src w).0 ≡ morph_bytes (morph_frame s r src w)
  unfolding morph_cell morph_bytes morph_frame
  morph_cell-bytes s r src w h k l =
      let body_size : uint16 r ≡ length (take r src) = omega (arith, length-take r src) in
      let total : uint16 (s - 2)
          ≡ 2 + length (take r src) + length (filler.fill (replicate (s - (4 + r)) 0) w).0 =
        omega (arith, length-take r src, length-padding (s - (4 + r)) w) in
      rw (body_size, total)

  MorphCells-cons :
      (s r : ℕ) (src : List ℕ) (w : W) (rest : Outcome (List (List ℕ)))
      → r ≤ length src
      → r + 4 ≤ s
      → s ≤ 65535
      → MorphCells (drop r src) rest
      → MorphCells src
          (rest >>= (λ cells. ok ((morph_cell filler size_sampler s r src w).0 ∷ cells)))
  unfolding morph_frame
  MorphCells-cons s r src w rest h k l m = record {
    cells = (morph_cell filler size_sampler s r src w).0 ∷ m.cells;
    returned = rw m.returned;
    split =
        Split-cons
          (Framed-one (morph_frame s r src w) (morph_frame-IsMorph s r src w h k l)
            (morph_cell-bytes s r src w h k l))
          m.split (take-append-drop r src);
  }

  morph_loop-MorphCells :
      (fuel : ℕ) (p : List ℕ) (w : W)
      → length p ≤ fuel
      → MorphCells p (morph_loop filler size_sampler fuel p w).0
  unfolding morph_loop
  morph_loop-MorphCells fuel [] w h = record { cells = []; returned = refl; split = Split-nil }
  morph_loop-MorphCells zero (b ∷ bs) w h = absurd (omega arith)
  morph_loop-MorphCells (suc fuel) (b ∷ bs) w h =
      let (size, w₁) = size_sampler w in
      let s = clamp 5 size in
      let (lo, hi) = clamp_bounds 5 size (omega arith) in
      let (le_src, le_s, more) = capacity_bounds s (b ∷ bs) lo (λ e. cc) in
      let r = capacity s (b ∷ bs) in
      let w₂ = (morph_cell filler size_sampler s r (b ∷ bs) w₁).1 in
      MorphCells-cons s r (b ∷ bs) w₁ (morph_loop filler size_sampler fuel (drop r (b ∷ bs)) w₂).0
        le_src le_s hi
        (morph_loop-MorphCells fuel (drop r (b ∷ bs)) w₂ (omega (arith, length-drop r (b ∷ bs))))

  pub morph_cells-MorphCells :
      (p : List ℕ) (w : W) → MorphCells p (morph_cells filler size_sampler p w).0
  unfolding morph_cells
  morph_cells-MorphCells p w = morph_loop-MorphCells (length p) p w (omega arith)

  pub morph_cover_cell-Framed :
      (w : W) → Framed IsMorph morph_bytes (morph_cover_cell filler size_sampler w).0 []
  unfolding morph_cover_cell
  morph_cover_cell-Framed w =
      let (size, w₁) = size_sampler w in
      let s = clamp 4 size in
      let (lo, hi) = clamp_bounds 4 size (omega arith) in
      let padding = (filler.fill (replicate (s - 4) 0) w₁).0 in
      let total : uint16 (s - 2) ≡ 2 + length padding = omega (arith, length-padding (s - 4) w₁) in
      Framed-one (record { body = []; pad = padding }) (omega (arith, length-padding (s - 4) w₁))
        (unfold morph_bytes in rw total)
