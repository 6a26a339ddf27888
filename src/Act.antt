-- ===== src/Act.antt =====
-- Calls that change a state: sequences of fallible steps, each with its own clean-up on an error.
use obfs.Base.{Error, Outcome, ok, err, panic, stuck, Option, none, some, from_call, ◌⊎◌, inl, inr}

abbrev pub Act : Type 0 → Type 0 → Type 0
Act S A = S → Outcome A × S

abbrev pub and_then : {S A B : Type 0} → Outcome A × S → (A → Act S B) → Outcome B × S
and_then (ok a, s) f = f a s
and_then (err e, s) f = (err e, s)
and_then (panic, s) f = (panic, s)
and_then (stuck, s) f = (stuck, s)

infixl 5 ◌>>=◌
abbrev pub ◌>>=◌ : {S A B : Type 0} → Act S A → (A → Act S B) → Act S B
m >>= f = λ s. and_then (m s) f

abbrev pub cleaned : {S A : Type 0} → (S → S) → Outcome A × S → Outcome A × S
cleaned clean (ok a, s) = (ok a, s)
cleaned clean (err e, s) = (err e, clean s)
cleaned clean (panic, s) = (panic, s)
cleaned clean (stuck, s) = (stuck, s)

-- `if err != nil { clean(); return nil, err }`
abbrev pub on_error : {S A : Type 0} → (S → S) → Act S A → Act S A
on_error clean m = λ s. cleaned clean (m s)

abbrev pub or_fail : Option Error → Unit {0} ⊎ Error
or_fail none = inl tt
or_fail (some e) = inr e

-- How an act ends: with a value and a state that `Good` holds of, or with an error and a `Bad` one.
pub data Ended {S A : Type 0} (Good : A → S → Type 0) (Bad : S → Type 0)
    : Outcome A × S → Type 0 where
  ended_ok : {a : A} {s : S} → Good a s → Ended Good Bad (ok a, s)
  ended_err : {e : Error} {s : S} → Bad s → Ended Good Bad (err e, s)

pub Ended-call :
    {S A : Type 0} {Good : A → S → Type 0} {Bad : S → Type 0} (r : A ⊎ Error) (s : S)
    → ((a : A) → Good a s)
    → Bad s
    → Ended Good Bad (from_call r, s)
Ended-call (inl a) s h k = ended_ok (h a)
Ended-call (inr e) s h k = ended_err k

pub Ended-and_then :
    {S A B : Type 0} {Mid : A → S → Type 0} {Good : B → S → Type 0} {Bad : S → Type 0}
    {r : Outcome A × S} {f : A → Act S B}
    → Ended Mid Bad r
    → ((a : A) (s : S) → Mid a s → Ended Good Bad (f a s))
    → Ended Good Bad (and_then r f)
Ended-and_then (ended_ok h) k = k _ _ h
Ended-and_then (ended_err h) k = ended_err h

pub Ended-cleaned :
    {S A : Type 0} {Good : A → S → Type 0} {Mid Bad : S → Type 0} (clean : S → S)
    {r : Outcome A × S}
    → Ended Good Mid r
    → ((s : S) → Mid s → Bad (clean s))
    → Ended Good Bad (cleaned clean r)
Ended-cleaned clean (ended_ok h) k = ended_ok h
Ended-cleaned clean (ended_err h) k = ended_err (k _ h)
