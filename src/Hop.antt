-- ===== src/Hop.antt =====
-- Port hopping: Dialer of hop/hop.go. An address is any value of a type A.
pub mod Window
pub mod Multi
mod Tests
use obfs.Base.{
  ℕ, zero, suc, ◌+◌, ◌-◌, ◌/◌, ◌%◌, ◌≡◌, List, [], ◌∷◌, length, ltb, if◌then◌else◌, ℤ, pos, negsuc,
}
use obfs.Base.{Outcome, ok, err, panic, no_addrs, bad_period}

-- Go's signed division and remainder by a positive number round towards zero.
negated : ℕ → ℤ
negated zero = pos 0
negated (suc n) = negsuc n

div_int : ℤ → ℕ → ℤ
unfolding negated
div_int (pos a) p = pos (a / p)
div_int (negsuc a) p = negated (suc a / p)

mod_int : ℤ → ℕ → ℤ
unfolding negated
mod_int (pos a) n = pos (a % n)
mod_int (negsuc a) n = negated (suc a % n)

add_int : ℤ → ℕ → ℤ
add_int (pos a) n = pos (a + n)
add_int (negsuc a) n = if ltb a n then pos (n - suc a) else negsuc (a - n)

-- `((w % n) + n) % n`
window_index : ℤ → ℕ → ℤ
unfolding mod_int add_int
window_index w n = mod_int (add_int (mod_int w n) n) n

pub element {ℓ} : {A : Type ℓ} → List A → ℕ → Outcome A
element [] i = panic
element (a ∷ l) zero = ok a
element (a ∷ l) (suc i) = element l i

-- `cp[idx]`
at_index {ℓ} : {A : Type ℓ} → List A → ℤ → Outcome A
unfolding element
at_index l (pos i) = element l i
at_index l (negsuc i) = panic

-- The address that the dial function picks at a time in nanoseconds.
pick {ℓ} : {A : Type ℓ} → List A → ℕ → ℤ → Outcome A
unfolding at_index window_index div_int
pick addrs period now = at_index addrs (window_index (div_int now period) (length addrs))

-- Dialer, and a call of the function that it returns.
unfoldable pub dialer {ℓ} : {A : Type ℓ} → List A → ℤ → ℤ → Outcome A
unfolding pick
dialer [] period now = err no_addrs
dialer (a ∷ l) (negsuc p) now = err bad_period
dialer (a ∷ l) (pos zero) now = err bad_period
dialer (a ∷ l) (pos (suc p)) now = pick (a ∷ l) (suc p) now
