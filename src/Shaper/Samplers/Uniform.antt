-- ===== src/Shaper/Samplers/Uniform.antt =====
-- UniformSize stays between its bounds.
use obfs.Base.{
  ℕ, zero, suc, ◌+◌, ◌≤◌, ◌<◌, ◌≡◌, refl, ap, ◌⊎◌, arith, ltb, false, Bool-cases, inl, inr, ℤ, pos,
  negsuc,
}
use obfs.Shaper.Front.{lt_int}
use obfs.Shaper.Front.Schedule.{lt_int_asym}
use obfs.Shaper.Samplers.{gap, plus, draw_between, uniform_size}

abbrev pub IsBetween : ℤ → ℤ → ℤ → Type 0
IsBetween min max size = (lt_int size min ≡ false) × (lt_int max size ≡ false)

plus-Between :
    (min max : ℤ) (k : ℕ)
    → lt_int max min ≡ false
    → k ≤ gap min max
    → IsBetween min max (plus min k)
unfolding gap plus lt_int
plus-Between (pos a) (pos b) k h le = (ground arith, ground arith)
plus-Between (pos a) (negsuc b) k h le = absurd (cc)
plus-Between (negsuc a) (pos b) k h le = elim (Bool-cases (ltb a k)) [
  | inl over ↦ rw over (refl, ground arith)
  | inr under ↦ rw under (ground arith, refl)
]
plus-Between (negsuc a) (negsuc b) k h le = elim (Bool-cases (ltb a k)) [
  | inl over ↦ absurd (ground arith)
  | inr under ↦ rw under (ground arith, ground arith)
]

plus_zero : (min : ℤ) → plus min 0 ≡ min
unfolding plus
plus_zero (pos a) = ap pos (omega arith)
plus_zero (negsuc a) = ground arith

module _ {W : Type 0} (intn : ℕ → W → ℕ × W) where
  abbrev pub StaysBelow : Type 0
  StaysBelow = (n : ℕ) (w : W) → 0 < n → (intn n w).0 < n

  draw_between-Between :
      (min max : ℤ) (d : ℕ) (w : W)
      → StaysBelow
      → lt_int max min ≡ false
      → d ≡ gap min max
      → IsBetween min max (draw_between intn min d w).0
  unfolding draw_between
  draw_between-Between min max zero w below h e =
      rw plus_zero at (plus-Between min max 0 h (omega arith))
  draw_between-Between min max (suc d) w below h e =
      let small : (intn (suc d + 1) w).0 < suc d + 1 = below (suc d + 1) w (omega arith) in
      plus-Between min max (intn (suc d + 1) w).0 h (omega arith)

  -- If rand.Intn stays below its argument, UniformSize draws between its two bounds, in whichever
  -- order they come, negative ones too.
  pub uniform_size-Between :
      (a b : ℤ) (w : W)
      → StaysBelow
      → IsBetween a b (uniform_size intn a b w).0 ⊎ IsBetween b a (uniform_size intn a b w).0
  unfolding uniform_size
  uniform_size-Between a b w below = elim (Bool-cases (lt_int b a)) [
    | inl swapped ↦
        rw swapped (inr (draw_between-Between b a (gap b a) w below (lt_int_asym b a swapped) refl))
    | inr ordered ↦ rw ordered (inl (draw_between-Between a b (gap a b) w below ordered refl))
  ]
