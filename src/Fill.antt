-- ===== src/Fill.antt =====
-- The fill functions of fill.go, over the calls of math/rand that they make.
use obfs.Base.{
  ℕ, zero, suc, ◌+◌, ◌-◌, ◌/◌, ◌%◌, ◌^◌, ◌≤◌, ◌<◌, ◌≡◌, refl, ap, ◌∙◌, List, [], ◌∷◌, ◌++◌, arith,
}
use obfs.Base.{length, All, IsByte, replicate, length-replicate}
use obfs.Shaper.{FillFunc}

-- rand.Uint64 and rand.Intn, with their documented ranges.
pub record Rand (W : Type 0) : Type 0 where
  pub uint64 : W → ℕ × W
  pub uint64_range : (w : W) → (uint64 w).0 < 2 ^ 64
  pub intn : ℕ → W → ℕ × W
  pub intn_range : (n : ℕ) (w : W) → 0 < n → (intn n w).0 < n

-- ZeroFill.
unfoldable pub zero_fill : {W : Type 0} → List ℕ → W → List ℕ × W
zero_fill [] w = ([], w)
zero_fill (x ∷ xs) w = let (rest, w') = zero_fill xs w in (0 ∷ rest, w')

-- The lowest `n` bytes of a word, lowest first.
abbrev pub little_endian : ℕ → ℕ → List ℕ
little_endian zero v = []
little_endian (suc n) v = v % 256 ∷ little_endian n (v / 256)

printable-IsByte : (bs : List ℕ) → All (λ b. (0x20 ≤ b) × (b ≤ 0x7e)) bs → All IsByte bs
printable-IsByte [] h = tt
printable-IsByte (b ∷ bs) h = (omega arith, printable-IsByte bs h.1)

module _ {W : Type 0} (rand : Rand W) where
  open rand use {uint64, uint64_range, intn, intn_range}

  -- The two loops of RandomFill as one, over the bytes left: `j` rounds of the inner loop are still
  -- to come with the word `v`, and at 0 the outer loop draws the next word.
  random_loop : ℕ → ℕ → List ℕ → W → List ℕ × W
  random_loop j v [] w = ([], w)
  random_loop zero v (x ∷ xs) w =
      let (v', w₁) = uint64 w in
      let (rest, w₂) = random_loop 7 (v' / 256) xs w₁ in (v' % 256 ∷ rest, w₂)
  random_loop (suc j) v (x ∷ xs) w =
      let (rest, w') = random_loop j (v / 256) xs w in (v % 256 ∷ rest, w')

  -- RandomFill.
  unfoldable pub random_fill : List ℕ → W → List ℕ × W
  unfolding random_loop
  random_fill p w = random_loop 0 0 p w

  abbrev lo : ℕ
  lo = 0x20

  abbrev hi : ℕ
  hi = 0x7e

  -- PrintableFill.
  unfoldable pub printable_fill : List ℕ → W → List ℕ × W
  printable_fill [] w = ([], w)
  printable_fill (x ∷ xs) w =
      let (r, w₁) = intn (hi - lo + 1) w in
      let (rest, w₂) = printable_fill xs w₁ in ((lo + r) % 256 ∷ rest, w₂)

  random_loop-IsByte :
      (j v : ℕ) (p : List ℕ) (w : W)
      → (length (random_loop j v p w).0 ≡ length p) × All IsByte (random_loop j v p w).0
  unfolding random_loop
  random_loop-IsByte j v [] w = (refl, tt)
  random_loop-IsByte zero v (x ∷ xs) w =
      let (v', w') = uint64 w in
      let (same, bytes) = random_loop-IsByte 7 (v' / 256) xs w' in
      (ap suc same, (omega arith, bytes))
  random_loop-IsByte (suc j) v (x ∷ xs) w =
      let (same, bytes) = random_loop-IsByte j (v / 256) xs w in (ap suc same, (omega arith, bytes))

  -- PrintableFill fills the slice, and each byte is printable ASCII, 0x20 to 0x7e.
  pub printable_fill_range :
      (p : List ℕ) (w : W)
      → (length (printable_fill p w).0 ≡ length p)
        × All (λ b. (0x20 ≤ b) × (b ≤ 0x7e)) (printable_fill p w).0
  unfolding printable_fill
  printable_fill_range [] w = (refl, tt)
  printable_fill_range (x ∷ xs) w =
      let (r, w') = intn 95 w in
      let (same, range) = printable_fill_range xs w' in
      let bound : r < 95 = intn_range 95 w (omega arith) in
      (ap suc same, ((omega arith, omega arith), range))

  -- Between two draws the old word is used up.
  random_loop-drawn : (u v : ℕ) (p : List ℕ) (w : W) → random_loop 0 u p w ≡ random_loop 0 v p w
  unfolding random_loop
  random_loop-drawn u v [] w = refl
  random_loop-drawn u v (x ∷ xs) w = refl

  random_loop-append :
      (j v : ℕ) (xs rest : List ℕ) (w : W)
      → length xs ≡ j
      → (random_loop j v (xs ++ rest) w).0 ≡ little_endian j v ++ (random_loop 0 0 rest w).0
  unfolding random_loop
  random_loop-append zero v [] rest w h = ap (λ r. r.0) (random_loop-drawn v 0 rest w)
  random_loop-append zero v (x ∷ xs) rest w h = absurd (omega arith)
  random_loop-append (suc j) v [] rest w h = absurd (omega arith)
  random_loop-append (suc j) v (x ∷ xs) rest w h =
      ap (λ l. v % 256 ∷ l) (random_loop-append j (v / 256) xs rest w (omega arith))

  -- RandomFill writes one draw to each eight bytes, lowest byte first, and then goes on afresh:
  -- no byte of a draw is left out or used twice.
  pub random_fill_words :
      (x : ℕ) (xs rest : List ℕ) (w : W)
      → length xs ≡ 7
      → (random_fill ((x ∷ xs) ++ rest) w).0
        ≡ little_endian 8 (uint64 w).0 ++ (random_fill rest (uint64 w).1).0
  unfolding random_fill
  random_fill_words x xs rest w h =
      let (v, w') = uint64 w in ap (λ l. v % 256 ∷ l) (random_loop-append 7 (v / 256) xs rest w' h)

  pub random_filler : FillFunc W
  unfolding random_fill
  random_filler = record {
    fill = random_fill;
    fill_length = λ p w. (random_loop-IsByte 0 0 p w).0;
    fill_range = λ p w. (random_loop-IsByte 0 0 p w).1;
  }

  pub printable_filler : FillFunc W
  printable_filler = record {
    fill = printable_fill;
    fill_length = λ p w. (printable_fill_range p w).0;
    fill_range = λ p w. printable-IsByte (printable_fill p w).0 (printable_fill_range p w).1;
  }

pub zero_fill_lem : {W : Type 0} (p : List ℕ) (w : W) → (zero_fill p w).0 ≡ replicate (length p) 0
unfolding zero_fill
zero_fill_lem [] w = refl
zero_fill_lem (x ∷ xs) w = ap (λ l. 0 ∷ l) (zero_fill_lem xs w)

pub zero_fill-IsByte : {W : Type 0} (p : List ℕ) (w : W) → All IsByte (zero_fill p w).0
unfolding zero_fill
zero_fill-IsByte [] w = tt
zero_fill-IsByte (x ∷ xs) w = (omega arith, zero_fill-IsByte xs w)

-- `abbrev`, so that tests compute with it.
abbrev pub zero_filler : {W : Type 0} → FillFunc W
zero_filler = record {
  fill = zero_fill;
  fill_length = λ p w. ap length (zero_fill_lem p w) ∙ length-replicate (length p) 0;
  fill_range = zero_fill-IsByte;
}
