-- ===== src/Base/Slice.antt =====
-- Go's indexing and slicing, with the panics. A slice expression `p[:n]` may reach past `len(p)`
-- up to the capacity; the model panics there, so that a result without a panic holds in Go too.
use Prim.Native.Nat.{ℕ, zero, suc, ◌+◌, ◌≤◌, ◌<◌}
use mathlib.Core.Path.{◌≡◌, refl}
use mathlib.Core.List.{List, [], ◌∷◌, ◌++◌}
use mathlib.Core.Bool.{Bool, true, false}
use native.Mathlib.Omega.{arith}
use obfs.Base.Tests.{leb, if◌then◌else◌}
use obfs.Base.Lists.{
  length, take, drop, length-append, length-take, take-append_self, drop-append_self,
}
use obfs.Base.Bytes.{join16}
use obfs.Base.Fallible.{Outcome, ok, panic, ◌>>=◌, Returns, Returns-ok}

-- `p[i]`
abbrev pub index : List ℕ → ℕ → Outcome ℕ
index [] i = panic
index (b ∷ bs) zero = ok b
index (b ∷ bs) (suc i) = index bs i

-- `p[n:]`
unfoldable pub slice_from : List ℕ → ℕ → Outcome (List ℕ)
slice_from p n = if leb n (length p) then ok (drop n p) else panic

-- `p[:n]`
unfoldable pub slice_to : List ℕ → ℕ → Outcome (List ℕ)
slice_to p n = if leb n (length p) then ok (take n p) else panic

-- `int(p[i])<<8 | int(p[i+1])`
abbrev pub uint16_at : List ℕ → ℕ → Outcome ℕ
uint16_at p i = do hi ← index p i; lo ← index p (suc i); ok (join16 hi lo)

pub slice_from-ok : (p : List ℕ) (n : ℕ) → n ≤ length p → slice_from p n ≡ ok (drop n p)
unfolding slice_from
slice_from-ok p n h = ground arith

pub slice_to-ok : (p : List ℕ) (n : ℕ) → n ≤ length p → slice_to p n ≡ ok (take n p)
unfolding slice_to
slice_to-ok p n h = ground arith

pub slice_from-append : (xs ys : List ℕ) (n : ℕ) → length xs ≡ n → slice_from (xs ++ ys) n ≡ ok ys
unfolding slice_from
slice_from-append xs ys n h = ground (arith, length-append xs ys, drop-append_self xs ys)

pub slice_to-append : (xs ys : List ℕ) (n : ℕ) → length xs ≡ n → slice_to (xs ++ ys) n ≡ ok xs
unfolding slice_to
slice_to-append xs ys n h = ground (arith, length-append xs ys, take-append_self xs ys)

pub index-ok : (p : List ℕ) (i : ℕ) → i < length p → (b : ℕ) × (index p i ≡ ok b)
index-ok [] i h = absurd (omega arith)
index-ok (b ∷ bs) zero h = (b, refl)
index-ok (b ∷ bs) (suc i) h = index-ok bs i (omega arith)

pub uint16_at-ok : (p : List ℕ) (i : ℕ) → suc i < length p → (n : ℕ) × (uint16_at p i ≡ ok n)
uint16_at-ok p i h =
    let (hi, e) = index-ok p i (omega arith) in
    let (lo, f) = index-ok p (suc i) h in (join16 hi lo, rw (e, f))

-- Rules for showing that a parser returns: each step succeeds on what the guards have left.
pub Returns-if {ℓ} :
    {A : Type ℓ} (b : Bool) (x y : Outcome A)
    → Returns x
    → (b ≡ false → Returns y)
    → Returns (if b then x else y)
Returns-if true x y h k = h
Returns-if false x y h k = k refl

pub Returns-index {ℓ} :
    {A : Type ℓ} (p : List ℕ) (i : ℕ) (f : ℕ → Outcome A)
    → i < length p
    → ((b : ℕ) → Returns (f b))
    → Returns (index p i >>= f)
Returns-index p i f h k = let (b, e) = index-ok p i h in rw e (k b)

pub Returns-uint16 {ℓ} :
    {A : Type ℓ} (p : List ℕ) (i : ℕ) (f : ℕ → Outcome A)
    → suc i < length p
    → ((n : ℕ) → Returns (f n))
    → Returns (uint16_at p i >>= f)
Returns-uint16 p i f h k = let (n, e) = uint16_at-ok p i h in rw e (k n)

pub Returns-slice_from {ℓ} :
    {A : Type ℓ} (p : List ℕ) (n : ℕ) (f : List ℕ → Outcome A)
    → n ≤ length p
    → Returns (f (drop n p))
    → Returns (slice_from p n >>= f)
Returns-slice_from p n f h k = rw (slice_from-ok p n h) k

pub Returns-slice_to {ℓ} :
    {A : Type ℓ} (p : List ℕ) (n : ℕ) (f : List ℕ → Outcome A)
    → n ≤ length p
    → Returns (f (take n p))
    → Returns (slice_to p n >>= f)
Returns-slice_to p n f h k = rw (slice_to-ok p n h) k

-- `p[a:b]`
unfoldable pub slice : List ℕ → ℕ → ℕ → Outcome (List ℕ)
slice p a b = do q ← slice_to p b; slice_from q a

pub slice-ok : (p : List ℕ) (a b : ℕ) → a ≤ b → b ≤ length p → slice p a b ≡ ok (drop a (take b p))
unfolding slice
slice-ok p a b h k =
    rw (slice_to-ok p b k) (slice_from-ok (take b p) a (omega (arith, length-take b p)))

pub slice-append :
    (xs ys zs : List ℕ) (a b : ℕ)
    → length xs ≡ a
    → a + length ys ≡ b
    → slice ((xs ++ ys) ++ zs) a b ≡ ok ys
unfolding slice
slice-append xs ys zs a b h k =
    rw (slice_to-append (xs ++ ys) zs b (omega (arith, length-append xs ys)))
      (slice_from-append xs ys a h)

pub Returns-slice {ℓ} :
    {A : Type ℓ} (p : List ℕ) (a b : ℕ) (f : List ℕ → Outcome A)
    → a ≤ b
    → b ≤ length p
    → Returns (f (drop a (take b p)))
    → Returns (slice p a b >>= f)
Returns-slice p a b f h k r = rw (slice-ok p a b h k) r

pub Returns-slice_to_last : (p : List ℕ) (n : ℕ) → n ≤ length p → Returns (slice_to p n)
Returns-slice_to_last p n h = rw (slice_to-ok p n h) (Returns-ok (take n p))

pub Returns-slice_from_last : (p : List ℕ) (n : ℕ) → n ≤ length p → Returns (slice_from p n)
Returns-slice_from_last p n h = rw (slice_from-ok p n h) (Returns-ok (drop n p))

pub Returns-slice_last : (p : List ℕ) (a b : ℕ) → a ≤ b → b ≤ length p → Returns (slice p a b)
Returns-slice_last p a b h k = rw (slice-ok p a b h k) (Returns-ok (drop a (take b p)))
