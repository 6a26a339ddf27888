-- ===== src/Tests.antt =====
-- Concrete runs of the fill functions, and their theorems at concrete inputs.
use obfs.Base.{ℕ, ◌+◌, ◌%◌, ◌≡◌, refl, List, [], ◌∷◌, arith}
use obfs.Fill.{Rand, random_fill}

-- Draws 0x0102…08 and the world, which counts the calls.
abbrev dice : Rand ℕ
dice = record {
  uint64 = λ w. (0x0102_0304_0506_0708, w + 1);
  uint64_range = λ w. omega arith;
  intn = λ n w. (w % n, w + 1);
  intn_range = λ n w h. omega arith;
}

abbrev nine : List ℕ
nine = 0 ∷ 0 ∷ 0 ∷ 0 ∷ 0 ∷ 0 ∷ 0 ∷ 0 ∷ 0 ∷ []

random_nine : (random_fill dice nine 0).0 ≡ 8 ∷ 7 ∷ 6 ∷ 5 ∷ 4 ∷ 3 ∷ 2 ∷ 1 ∷ 8 ∷ []
unfolding random_fill
random_nine = refl
