-- ===== src/Shaper/Front/Schedule.antt =====
-- The send times of frontLoop: how many, in which order, and how late.
use obfs.Base.{
  ℕ, zero, suc, ◌+◌, ◌≤◌, ◌<◌, ◌≡◌, refl, ap, List, [], ◌∷◌, length, All, arith, true, false,
  Bool-cases, ℤ, pos, negsuc, inl, inr, ok,
}
use obfs.Shaper.{FrontConfig, Float64}
use obfs.Shaper.Front.{
  FrontMath, lt_int, insert, sorted, budget, clamped, sample_times, drawn, schedule,
}

abbrev pub AtMost : ℤ → ℤ → Type 0
AtMost window t = lt_int window t ≡ false

-- No time is smaller than the one before it.
abbrev pub IsSorted : List ℤ → Type 0
IsSorted [] = Unit {0}
IsSorted (t ∷ []) = Unit {0}
IsSorted (t ∷ s ∷ ts) = (lt_int s t ≡ false) × IsSorted (s ∷ ts)

pub lt_int_asym : (a b : ℤ) → lt_int a b ≡ true → lt_int b a ≡ false
unfolding lt_int
lt_int_asym (pos a) (pos b) h = ground arith
lt_int_asym (pos a) (negsuc b) h = absurd (cc)
lt_int_asym (negsuc a) (pos b) h = refl
lt_int_asym (negsuc a) (negsuc b) h = ground arith

lt_int_irrefl : (a : ℤ) → lt_int a a ≡ false
unfolding lt_int
lt_int_irrefl (pos a) = ground arith
lt_int_irrefl (negsuc a) = ground arith

insert-IsSorted : (t : ℤ) (ts : List ℤ) → IsSorted ts → IsSorted (insert t ts)
unfolding insert
insert-IsSorted t [] h = tt
insert-IsSorted t (s ∷ []) h = elim (Bool-cases (lt_int s t)) [
  | inl less ↦ rw less (lt_int_asym s t less, tt)
  | inr more ↦ rw more (more, tt)
]
insert-IsSorted t (s ∷ r ∷ ts) h =
    let rest = insert-IsSorted t (r ∷ ts) h.1 in
    elim (Bool-cases (lt_int s t)) [
      | inl less ↦ rw less (elim (Bool-cases (lt_int r t)) [
        | inl also ↦ rw also (h.0, (rw also at rest))
        | inr first ↦ rw first (lt_int_asym s t less, (rw first at rest))
      ])
      | inr more ↦ rw more (more, h)
    ]

sorted-IsSorted : (ts : List ℤ) → IsSorted (sorted ts)
unfolding sorted
sorted-IsSorted [] = tt
sorted-IsSorted (t ∷ ts) = insert-IsSorted t (sorted ts) (sorted-IsSorted ts)

length-insert : (t : ℤ) (ts : List ℤ) → length (insert t ts) ≡ suc (length ts)
unfolding insert
length-insert t [] = refl
length-insert t (s ∷ ts) = ground (arith, length-insert t ts)

length-sorted : (ts : List ℤ) → length (sorted ts) ≡ length ts
unfolding sorted
length-sorted [] = refl
length-sorted (t ∷ ts) = omega (arith, length-insert t (sorted ts), length-sorted ts)

insert-All : (P : ℤ → Type 0) (t : ℤ) (ts : List ℤ) → P t → All P ts → All P (insert t ts)
unfolding insert
insert-All P t [] h k = (h, tt)
insert-All P t (s ∷ ts) h k = elim (Bool-cases (lt_int s t)) [
  | inl less ↦ rw less (k.0, insert-All P t ts h k.1)
  | inr more ↦ rw more (h, k)
]

sorted-All : (P : ℤ → Type 0) (ts : List ℤ) → All P ts → All P (sorted ts)
unfolding sorted
sorted-All P [] h = tt
sorted-All P (t ∷ ts) h = insert-All P t (sorted ts) h.0 (sorted-All P ts h.1)

module _ {W F : Type 0} (fl : Float64 F) (fm : FrontMath W F) where
  clamped-AtMost : (window t : ℤ) → AtMost window (clamped fl fm window t)
  unfolding clamped
  clamped-AtMost window t = elim (Bool-cases (lt_int window t)) [
    | inl late ↦ rw late (lt_int_irrefl window)
    | inr early ↦ rw early early
  ]

  sample_times-bounds :
      (n : ℕ) (window : ℤ) (sigma : F) (w : W)
      → (length (sample_times fl fm n window sigma w).0 ≡ n)
        × All (AtMost window) (sample_times fl fm n window sigma w).0
  unfolding sample_times
  sample_times-bounds zero window sigma w = (refl, tt)
  sample_times-bounds (suc n) window sigma w =
      let (size, late) = sample_times-bounds n window sigma (fm.float64 w).1 in
      (ap suc size, (clamped-AtMost window _, late))

  abbrev pub IsBelow : Type 0
  IsBelow = (n : ℕ) (w : W) → 0 < n → (fm.intn n w).0 < n

  -- At least one time and at most `max`, in order, and none later than the window.
  abbrev pub IsSchedule : ℤ → ℕ → List ℤ → Type 0
  IsSchedule window max ts =
      (1 ≤ length ts) × (length ts ≤ max) × IsSorted ts × All (AtMost window) ts

  -- If MaxCount is positive and rand.Intn stays below its argument, the schedule has between one and
  -- MaxCount times, in order, none later than the window.
  pub schedule-IsSchedule :
      (cfg : FrontConfig) (m : ℕ) (w : W)
      → IsBelow
      → cfg.max_count ≡ pos (suc m)
      → (ts : List ℤ) × ((w' : W) × ((schedule fl fm cfg w ≡ ok (ts, w'))
            × IsSchedule cfg.window (suc m) ts))
  unfolding schedule budget drawn
  schedule-IsSchedule cfg m w below h =
      let (k, w₀) = fm.intn (suc m) w in
      let (u, w₁) = fm.float64 w₀ in
      let sigma : F = fm.scale_of cfg.window u in
      let times : List ℤ = (sample_times fl fm (1 + k) cfg.window sigma w₁).0 in
      let (size, late) = sample_times-bounds (1 + k) cfg.window sigma w₁ in
      let few : k < suc m = below (suc m) w (omega arith) in
      let same : length (sorted times) ≡ 1 + k = omega (arith, length-sorted times, size) in
      (
        sorted times,
        (
          (sample_times fl fm (1 + k) cfg.window sigma w₁).1,
          (
            rw h refl,
            (
              omega arith,
              omega arith,
              sorted-IsSorted times,
              sorted-All (AtMost cfg.window) times late,
            ),
          ),
        ),
      )
