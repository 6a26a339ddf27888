-- ===== src/Hop/Window.antt =====
-- The window of the dial function: it always names an address.
use native.Mathlib.Nat.{mod-lt}
use obfs.Base.{
  ℕ, zero, suc, ◌+◌, ◌-◌, ◌%◌, ◌<◌, ◌≡◌, refl, List, [], ◌∷◌, arith, length, lt→ltb, ℤ, pos, negsuc,
}
use obfs.Base.{ok}
use obfs.Hop.{negated, div_int, mod_int, add_int, window_index, element, at_index, pick, dialer}

abbrev IsBelow : ℕ → ℤ → Type 0
IsBelow n z = (i : ℕ) × ((z ≡ pos i) × (i < n))

negated-add : (r n : ℕ) → r < n → (i : ℕ) × (add_int (negated r) n ≡ pos i)
unfolding negated add_int
negated-add zero n h = (0 + n, refl)
negated-add (suc r) n h = (n - suc r, let e = lt→ltb r n (omega arith) in rw e)

mod-add : (w : ℤ) (n : ℕ) → 0 < n → (i : ℕ) × (add_int (mod_int w n) n ≡ pos i)
unfolding mod_int add_int
mod-add (pos a) n h = (a % n + n, refl)
mod-add (negsuc a) n h = negated-add (suc a % n) n (mod-lt (suc a) h)

window_index-IsBelow : (w : ℤ) (n : ℕ) → 0 < n → IsBelow n (window_index w n)
unfolding window_index mod_int
window_index-IsBelow w n h = let (i, e) = mod-add w n h in (i % n, (rw e, mod-lt i h))

module _ {ℓ} {A : Type ℓ} where
  element-ok : (l : List A) (i : ℕ) → i < length l → (a : A) × (element l i ≡ ok a)
  unfolding element
  element-ok [] i h = absurd (omega arith)
  element-ok (a ∷ l) zero h = (a, refl)
  element-ok (a ∷ l) (suc i) h = element-ok l i (omega arith)

  -- With an address and a positive period, at any time, one before 1970 too, the dial function
  -- dials the address at an index within the list.
  pub dialer-picks :
      (a : A) (l : List A) (p : ℕ) (now : ℤ)
      → (i : ℕ) × ((b : A) × ((i < length (a ∷ l))
            × ((element (a ∷ l) i ≡ ok b) × (dialer (a ∷ l) (pos (suc p)) now ≡ ok b))))
  unfolding dialer pick at_index
  dialer-picks a l p now =
      let n : ℕ = length (a ∷ l) in
      let (i, (e, below)) = window_index-IsBelow (div_int now (suc p)) n (omega arith) in
      let (b, f) = element-ok (a ∷ l) i below in (i, (b, (below, (f, rw e f))))
