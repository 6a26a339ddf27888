-- ===== src/Shaper/Samplers/Weighted.antt =====
-- SampledSize draws only sizes of positive weight.
use obfs.Base.{List, [], ◌∷◌, true, false, Bool-cases, ℤ, ◌≡◌, refl, ◌⊎◌, inl, inr}
use obfs.Shaper.{Float64}
use obfs.Shaper.Front.{lt_int}
use obfs.Shaper.Samplers.{
  SamplerMath, default_cell_size, insert_size, by_size, table_from, pick_size, draw_size,
  sampled_size,
}

module _ {W F : Type 0} (fl : Float64 F) (sm : SamplerMath W F) where
  -- The size stands in the map with a weight above zero.
  abbrev pub Weighted : List (ℤ × F) → ℤ → Type 0
  Weighted [] size = ⊥
  Weighted (e ∷ es) size = ((e.0 ≡ size) × (fl.lt_f fl.zero_f e.1 ≡ true)) ⊎ Weighted es size

  -- No weight is above zero.
  abbrev pub NoneWeighted : List (ℤ × F) → Type 0
  NoneWeighted [] = Unit {0}
  NoneWeighted (e ∷ es) = (fl.lt_f fl.zero_f e.1 ≡ false) × NoneWeighted es

  insert_size-Weighted :
      (e : ℤ × F) (es : List (ℤ × F)) (size : ℤ)
      → Weighted (insert_size fl sm e es) size
      → Weighted (e ∷ es) size
  unfolding insert_size
  insert_size-Weighted e [] size h = h
  insert_size-Weighted e (f ∷ fs) size h = elim (Bool-cases (lt_int f.0 e.0)) [
    | inr stay ↦ let h' : Weighted (e ∷ f ∷ fs) size = rw stay at h in h'
    | inl less ↦
        let h' : Weighted (f ∷ insert_size fl sm e fs) size = rw less at h in
        elim h' [
          | inl here ↦ inr (inl here)
          | inr later ↦ elim (insert_size-Weighted e fs size later) [
            | inl new ↦ inl new
            | inr old ↦ inr (inr old)
          ]
        ]
  ]

  insert_size-NoneWeighted :
      (e : ℤ × F) (es : List (ℤ × F))
      → NoneWeighted (insert_size fl sm e es)
      → NoneWeighted (e ∷ es)
  unfolding insert_size
  insert_size-NoneWeighted e [] h = h
  insert_size-NoneWeighted e (f ∷ fs) h = elim (Bool-cases (lt_int f.0 e.0)) [
    | inr stay ↦ let h' : NoneWeighted (e ∷ f ∷ fs) = rw stay at h in h'
    | inl less ↦
        let h' : NoneWeighted (f ∷ insert_size fl sm e fs) = rw less at h in
        let (new, old) = insert_size-NoneWeighted e fs h'.1 in (new, (h'.0, old))
  ]

  by_size-Weighted :
      (es : List (ℤ × F)) (size : ℤ) → Weighted (by_size fl sm es) size → Weighted es size
  unfolding by_size
  by_size-Weighted [] size h = h
  by_size-Weighted (e ∷ es) size h = elim (insert_size-Weighted e (by_size fl sm es) size h) [
    | inl new ↦ inl new
    | inr old ↦ inr (by_size-Weighted es size old)
  ]

  by_size-NoneWeighted : (es : List (ℤ × F)) → NoneWeighted (by_size fl sm es) → NoneWeighted es
  unfolding by_size
  by_size-NoneWeighted [] h = tt
  by_size-NoneWeighted (e ∷ es) h =
      let (new, old) = insert_size-NoneWeighted e (by_size fl sm es) h in
      (new, by_size-NoneWeighted es old)

  abbrev Among : List (ℤ × F) → ℤ → Type 0
  Among [] size = ⊥
  Among (b ∷ t) size = (b.0 ≡ size) ⊎ Among t size

  table_from-Weighted :
      (total : F) (es : List (ℤ × F)) (size : ℤ)
      → Among (table_from fl sm total es).0 size
      → Weighted es size
  unfolding table_from
  table_from-Weighted total [] size h = h
  table_from-Weighted total ((s, x) ∷ es) size h = elim (Bool-cases (fl.lt_f fl.zero_f x)) [
    | inr light ↦ inr (table_from-Weighted total es size (rw light at h))
    | inl heavy ↦
        let cum : F = sm.add_f total x in
        let h' : (s ≡ size) ⊎ Among (table_from fl sm cum es).0 size = rw heavy at h in
        elim h' [
          | inl here ↦ inl (here, heavy)
          | inr later ↦ inr (table_from-Weighted cum es size later)
        ]
  ]

  table_from-NoneWeighted :
      (total : F) (es : List (ℤ × F)) → (table_from fl sm total es).0 ≡ [] → NoneWeighted es
  unfolding table_from
  table_from-NoneWeighted total [] h = tt
  table_from-NoneWeighted total ((s, x) ∷ es) h = elim (Bool-cases (fl.lt_f fl.zero_f x)) [
    | inr light ↦ (light, table_from-NoneWeighted total es (rw light at h))
    | inl heavy ↦
        let cum : F = sm.add_f total x in
        let bad : (s, cum) ∷ (table_from fl sm cum es).0 ≡ [] = rw heavy at h in absurd (cc)
  ]

  pick_size-Among :
      (x : F) (last : ℤ) (t : List (ℤ × F))
      → (last ≡ pick_size fl sm x last t) ⊎ Among t (pick_size fl sm x last t)
  unfolding pick_size
  pick_size-Among x last [] = inl refl
  pick_size-Among x last ((s, cum) ∷ t) = elim (Bool-cases (fl.lt_f x cum)) [
    | inl found ↦ rw found (inr (inl refl))
    | inr past ↦
        rw past
          (elim (pick_size-Among x s t) [ inl here ↦ inr (inl here) | inr later ↦ inr (inr later) ])
  ]

  -- A size that may be drawn.
  abbrev pub MayDraw : List (ℤ × F) → ℤ → Type 0
  MayDraw weights size = Weighted weights size ⊎ ((size ≡ default_cell_size) × NoneWeighted weights)

  draw_size-MayDraw :
      (es : List (ℤ × F)) (t : List (ℤ × F)) (total : F) (w : W)
      → ((size : ℤ) → Among t size → Weighted es size)
      → (t ≡ [] → NoneWeighted es)
      → MayDraw es (draw_size fl sm (t, total) w).0
  unfolding draw_size
  draw_size-MayDraw es [] total w h k = inr (refl, k refl)
  draw_size-MayDraw es ((s, cum) ∷ t) total w h k =
      let x : F = sm.mul_f (sm.float64 w).0 total in
      elim (pick_size-Among x s ((s, cum) ∷ t)) [
        | inl first ↦ inl (h _ (inl first))
        | inr drawn ↦ inl (h _ drawn)
      ]

  -- Whatever the draws are, SampledSize gives a size of the map whose weight is above zero, or
  -- DefaultCellSize if no weight is.
  pub sampled_size-MayDraw :
      (weights : List (ℤ × F)) (w : W) → MayDraw weights (sampled_size fl sm weights w).0
  unfolding sampled_size
  sampled_size-MayDraw weights w =
      let es = by_size fl sm weights in
      draw_size-MayDraw weights (table_from fl sm fl.zero_f es).0 (table_from fl sm fl.zero_f es).1
        w (λ size h. by_size-Weighted weights size (table_from-Weighted fl.zero_f es size h))
        (λ e. by_size-NoneWeighted weights (table_from-NoneWeighted fl.zero_f es e))
