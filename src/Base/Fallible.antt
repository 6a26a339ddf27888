-- ===== src/Base/Fallible.antt =====
-- What a Go call returns. Go's `(value, error)` pair is `ok` or `err`.
use Prim.Native.Nat.{ℕ}
use mathlib.Core.Logic.{◌≢◌, ◌⊎◌, inl, inr}
use native.Mathlib.Omega.{arith}
use mathlib.Core.Path.{◌≡◌, refl}
use mathlib.Core.Bool.{Bool, true, false}
use obfs.Base.Tests.{if◌then◌else◌}

-- The errors that the packages tell apart; `other` stands for those of connections and libraries.
pub data Error : Type 0 where
  eof unexpected_eof closed : Error
  corrupt_cell : Error
  short_packet packet_len packet_big : Error
  not_tls bad_hello : Error
  bad_random short_id bad_session auth_failed : Error
  no_addrs bad_period : Error
  other : ℕ → Error

-- `panic` is an index or a slice out of range. `stuck` is no Go value: a loop ran out of fuel.
pub data Outcome {ℓ} (A : Type ℓ) : Type ℓ where
  ok : A → Outcome A
  err : Error → Outcome A
  panic : Outcome A
  stuck : Outcome A

infixl 5 ◌>>=◌
abbrev pub ◌>>=◌ {ℓ κ} : {A : Type ℓ} {B : Type κ} → Outcome A → (A → Outcome B) → Outcome B
ok a >>= f = f a
err e >>= f = err e
panic >>= f = panic
stuck >>= f = stuck

-- A call that comes back, with a value or with an error.
abbrev pub Returns {ℓ} : {A : Type ℓ} → Outcome A → Type ℓ
Returns o = (o ≢ stuck) × (o ≢ panic)

pub Returns-ok {ℓ} : {A : Type ℓ} (a : A) → Returns (ok a)
Returns-ok a = ((λ e. cc), (λ e. cc))

pub Returns-err {ℓ} : {A : Type ℓ} (e : Error) → Returns {A = A} (err e)
Returns-err e = ((λ q. cc), (λ q. cc))

pub ok-injective {ℓ} : {A : Type ℓ} {a b : A} {o : Outcome A} → o ≡ ok a → o ≡ ok b → a ≡ b
ok-injective h k = ground arith

pub Returns-bind {ℓ κ} :
    {A : Type ℓ} {B : Type κ} (m : Outcome A) (f : A → Outcome B)
    → Returns m
    → ((a : A) → m ≡ ok a → Returns (f a))
    → Returns (m >>= f)
Returns-bind (ok a) f h k = k a refl
Returns-bind (err e) f h k = Returns-err e
Returns-bind panic f h k = absurd (h.1 refl)
Returns-bind stuck f h k = absurd (h.0 refl)

-- The result of a call that is a parameter: it comes back with a value or with an error.
abbrev pub from_call {ℓ} : {A : Type ℓ} → A ⊎ Error → Outcome A
from_call (inl a) = ok a
from_call (inr e) = err e

pub Returns-call {ℓ} : {A : Type ℓ} (r : A ⊎ Error) → Returns (from_call r)
Returns-call (inl a) = Returns-ok a
Returns-call (inr e) = Returns-err e

-- What a chain that succeeds says of its steps.
pub bind-ok {ℓ κ} :
    {A : Type ℓ} {B : Type κ} (m : Outcome A) (f : A → Outcome B) (b : B)
    → (m >>= f) ≡ ok b
    → (a : A) × ((m ≡ ok a) × (f a ≡ ok b))
bind-ok (ok a) f b h = (a, (refl, h))
bind-ok (err e) f b h = absurd (cc)
bind-ok panic f b h = absurd (cc)
bind-ok stuck f b h = absurd (cc)

pub guard-ok {ℓ} :
    {A : Type ℓ} (t : Bool) (e : Error) (m : Outcome A) (a : A)
    → (if t then err e else m) ≡ ok a
    → (t ≡ false) × (m ≡ ok a)
guard-ok true e m a h = absurd (cc)
guard-ok false e m a h = (refl, h)

pub call-inl {ℓ} : {A : Type ℓ} (r : A ⊎ Error) (a : A) → from_call r ≡ ok a → r ≡ inl a
call-inl (inl b) a h = cc
call-inl (inr e) a h = absurd (cc)
