-- ===== src/Shaper/Mode.antt =====
-- The two modes of a connection, as one framing chosen by the policy's SizeSampler.
use obfs.Base.{ℕ, List, [], Option, none, some, Outcome, ok, refl, ◌≡◌}
use obfs.Shaper.{Shaped, Sampler}
use obfs.Shaper.Frame.{Frame, fixed_bytes, morph_bytes, IsFixed, IsMorph, Framed, Split}
use obfs.Shaper.Framing.{Framing}
use obfs.Shaper.Fixed.{fixed_cells, fixed_cover_cell}
use obfs.Shaper.Fixed.Cells.{IsFixedMode, fixed_cells-Split, fixed_cover_cell-Framed}
use obfs.Shaper.Fixed.Decode.{IsFixed-Framing}
use obfs.Shaper.Morph.{morph_cells, morph_cover_cell}
use obfs.Shaper.Morph.Cells.{morph_cells-MorphCells, morph_cover_cell-Framed}
use obfs.Shaper.Morph.Decode.{IsMorph-Framing}
use obfs.Shaper.Read.{next_for}

module _ {W F : Type 0} (c : Shaped W F) where
  -- The frames of a message, in the active mode.
  abbrev pub cells_for : Option (Sampler W) → List ℕ → W → Outcome (List (List ℕ)) × W
  cells_for none p w = let (cells, w') = fixed_cells c p w in (ok cells, w')
  cells_for (some g) p w = morph_cells c.filler g p w

  -- coverCell.
  abbrev pub cover_for : Option (Sampler W) → W → List ℕ × W
  cover_for none w = fixed_cover_cell c w
  cover_for (some g) w = morph_cover_cell c.filler g w

  -- In morpher mode any connection will do; in fixed mode the cells have to fit their header.
  abbrev pub UsableAs : Option (Sampler W) → Type 0
  UsableAs none = IsFixedMode c
  UsableAs (some g) = Unit

  abbrev pub ValidAs : Option (Sampler W) → Frame → Type 0
  ValidAs none = IsFixed c.cell_size
  ValidAs (some g) = IsMorph

  abbrev pub bytes_as : Option (Sampler W) → Frame → List ℕ
  bytes_as none = fixed_bytes
  bytes_as (some g) = morph_bytes

  pub IsUsable-Framing :
      (o : Option (Sampler W)) → UsableAs o → Framing (next_for c o) (ValidAs o) (bytes_as o)
  IsUsable-Framing none v = IsFixed-Framing v
  IsUsable-Framing (some g) v = IsMorph-Framing

  pub record CellsFor (o : Option (Sampler W)) (p : List ℕ) (r : Outcome (List (List ℕ)))
      : Type 0 where
    pub cells : List (List ℕ)
    pub returned : r ≡ ok cells
    pub split : Split (ValidAs o) (bytes_as o) cells p

  pub cells_for-CellsFor :
      (o : Option (Sampler W)) (p : List ℕ) (w : W) → UsableAs o → CellsFor o p (cells_for o p w).0
  cells_for-CellsFor none p w v = record {
    cells = (fixed_cells c p w).0;
    returned = refl;
    split = fixed_cells-Split v p w;
  }
  cells_for-CellsFor (some g) p w v =
      let m = morph_cells-MorphCells c.filler g p w in
      record { cells = m.cells; returned = m.returned; split = m.split }

  pub cover_for-Framed :
      (o : Option (Sampler W)) (w : W)
      → UsableAs o
      → Framed (ValidAs o) (bytes_as o) (cover_for o w).0 []
  cover_for-Framed none w v = fixed_cover_cell-Framed v w
  cover_for-Framed (some g) w v = morph_cover_cell-Framed c.filler g w

  abbrev pub IsUsable : Type 0
  IsUsable = UsableAs c.size_sampler
