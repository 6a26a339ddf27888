-- ===== src/Shaper/Start.antt =====
-- newShapedConn and withDefaults: which policies shape, and what a shaped connection starts.
use obfs.Base.{◌≤◌, ◌<◌, ◌≡◌, ◌↔◌, refl, ℤ, pos, negsuc, Option, none, some, arith}
use obfs.Base.{true, ◌&&◌, not, Bool-cases, inl, inr, subst}
use obfs.Shaper.{FillFunc, shaped_of, Sampler, Float64, Policy, Shaped, is_some}
use obfs.Shaper.{disables, cells_of, new_shaped_conn}
use obfs.Shaper.Mode.{IsUsable, UsableAs}

-- A CellSize between 3 and 65537.
abbrev pub FitsHeader : ℤ → Type 0
FitsHeader (pos n) = (2 < n) × (n ≤ 65537)
FitsHeader (negsuc n) = ⊥

abbrev pub AtMostHeader : ℤ → Type 0
AtMostHeader (pos n) = n ≤ 2
AtMostHeader (negsuc n) = Unit

module _ {W F : Type 0} (fl : Float64 F) (random_fill : FillFunc W) where
  disables_iff : (z : ℤ) → (disables fl random_fill z ≡ true) ↔ AtMostHeader z
  unfolding disables
  disables_iff (pos n) = ground arith
  disables_iff (negsuc n) = ((λ h. tt), (λ h. refl))

  -- Wrap returns `base` unchanged exactly when there is no SizeSampler and CellSize is at most 2.
  pub new_shaped_conn-none :
      (p : Policy W F)
      → (new_shaped_conn fl random_fill p ≡ none)
        ↔ ((p.size_sampler ≡ none) × AtMostHeader p.cell_size)
  unfolding new_shaped_conn
  new_shaped_conn-none p = ground (arith, disables_iff p.cell_size)

  cells_of-fits :
      (z : ℤ) → FitsHeader z → (2 < cells_of fl random_fill z) × (cells_of fl random_fill z ≤ 65537)
  unfolding cells_of
  cells_of-fits (pos n) h = h
  cells_of-fits (negsuc n) h = absurd h

  shaped_of-UsableAs :
      (p : Policy W F) (o : Option (Sampler W))
      → FitsHeader p.cell_size
      → UsableAs (shaped_of fl random_fill p) o
  unfolding shaped_of
  shaped_of-UsableAs p none f = record {
    room = (cells_of-fits p.cell_size f).0;
    fits = (cells_of-fits p.cell_size f).1;
    payload_size = refl;
  }
  shaped_of-UsableAs p (some g) f = tt

  abbrev MadeUsable : Option (Shaped W F) → Type 0
  MadeUsable none = Unit
  MadeUsable (some c) = IsUsable c

  made-IsUsable :
      (p : Policy W F) (c : Shaped W F)
      → FitsHeader p.cell_size
      → new_shaped_conn fl random_fill p ≡ some c
      → IsUsable c
  unfolding new_shaped_conn
  made-IsUsable p c f h =
      elim (Bool-cases (not (is_some p.size_sampler) && disables fl random_fill p.cell_size)) [
        | inl off ↦ cc (rw off at h)
        | inr on ↦ subst MadeUsable (rw on at h) (shaped_of-UsableAs p p.size_sampler f)
      ]

  made_paced :
      (p : Policy W F) (c : Shaped W F)
      → new_shaped_conn fl random_fill p ≡ some c
      → is_some c.pace ≡ true
      → (c.cover ≡ none) × (c.front_loop ≡ none)
  unfolding new_shaped_conn
  made_paced p c h k = ground arith

  -- A policy whose cells fit their 16-bit header (3 to 65537 bytes) makes a connection for which
  -- the round trip holds; and if it paces, the pacer owns all writes: neither the cover loop nor
  -- the front loop is started.
  pub new_shaped_conn-IsUsable :
      (p : Policy W F) (c : Shaped W F)
      → FitsHeader p.cell_size
      → new_shaped_conn fl random_fill p ≡ some c
      → IsUsable c × (is_some c.pace ≡ true → (c.cover ≡ none) × (c.front_loop ≡ none))
  new_shaped_conn-IsUsable p c f h = (made-IsUsable p c f h, made_paced p c h)
