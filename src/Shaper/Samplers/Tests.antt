-- ===== src/Shaper/Samplers/Tests.antt =====
-- A map with one size that has no weight.
use obfs.Base.{
  ℕ, ◌+◌, ◌*◌, ◌<◌, List, [], ◌∷◌, ltb, if◌then◌else◌, ℤ, pos, negsuc, ◌≡◌, refl, arith,
}
use obfs.Shaper.Front.{lt_int}
use obfs.Shaper.Tests.{numbers}
use obfs.Shaper.Samplers.{uniform_size, SamplerMath, sampled_size, poisson_delay}

abbrev math : SamplerMath ℕ ℕ
math = record {
  float64 = λ w. (w, w + 1);
  smallest = 1;
  add_f = λ a b. a + b;
  mul_f = λ a b. a * b;
  delay_of = λ mean u. pos u;
}

abbrev weights : List (ℤ × ℕ)
weights = (pos 900, 2) ∷ (pos 40, 1) ∷ (pos 600, 0) ∷ []

draws : sampled_size numbers math weights 0 ≡ (pos 40, 1)
unfolding sampled_size lt_int
draws = refl

draws_last : sampled_size numbers math weights 7 ≡ (pos 900, 8)
unfolding sampled_size lt_int
draws_last = refl

delays : poisson_delay numbers math (pos 5) 0 ≡ (pos 1, 1)
unfolding poisson_delay
delays = refl

abbrev intn : ℕ → ℕ → ℕ × ℕ
intn n w = (if ltb w n then w else 0, w + 1)

below : (n : ℕ) (w : ℕ) → 0 < n → (intn n w).0 < n
below n w h = ground arith

draws_between : uniform_size intn (pos 9) (negsuc 2) 4 ≡ (pos 1, 5)
unfolding uniform_size lt_int
draws_between = refl
