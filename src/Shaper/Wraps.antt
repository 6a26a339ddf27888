-- ===== src/Shaper/Wraps.antt =====
-- Wrap, Dialer, Listener and Accept of obfs.go: the connections that a policy makes.
pub mod Peers
mod Tests
use obfs.Base.{Option, none, some, ◌⊎◌, inl, inr, Error, Outcome, ok, err}
use obfs.Shaper.{FillFunc, Float64, Policy, Shaped, new_shaped_conn}

-- The net.Conn that Wrap returns: the base connection itself, or a shaped one over it.
pub data Wrapped (C W F : Type 0) : Type 0 where
  unshaped : C → Wrapped C W F
  shaped : C → Shaped W F → Wrapped C W F

-- shapedListener: the Accept of the embedded base listener, on a state `V`, and the policy.
pub record ShapedListener (C W F V : Type 0) : Type 0 where
  pub base_accept : V → (C ⊎ Error) × V
  pub policy : Policy W F

abbrev pub listener :
    {C W F V : Type 0} → (V → (C ⊎ Error) × V) → Policy W F → ShapedListener C W F V
listener base p = record { base_accept = base; policy = p }

module _ {C W F : Type 0} (fl : Float64 F) (random_fill : FillFunc W) where
  wrapped_as : C → Option (Shaped W F) → Wrapped C W F
  wrapped_as base none = unshaped base
  wrapped_as base (some c) = shaped base c

  unfoldable pub wrap : C → Policy W F → Wrapped C W F
  unfolding wrapped_as
  wrap base p = wrapped_as base (new_shaped_conn fl random_fill p)

  -- `if err != nil { return nil, err }; return Wrap(c, p), nil`
  wrap_result : {V : Type 0} → Policy W F → (C ⊎ Error) × V → Outcome (Wrapped C W F) × V
  unfolding wrap
  wrap_result p (inl c, v) = (ok (wrap c p), v)
  wrap_result p (inr e, v) = (err e, v)

  -- Dialer, over a base dial function on a state `V`.
  unfoldable pub dialer :
      {V : Type 0} → (V → (C ⊎ Error) × V) → Policy W F → V → Outcome (Wrapped C W F) × V
  unfolding wrap_result
  dialer dial p v = wrap_result p (dial v)

  -- The Accept of a shapedListener.
  unfoldable pub accept : {V : Type 0} → ShapedListener C W F V → V → Outcome (Wrapped C W F) × V
  unfolding wrap_result
  accept l v = wrap_result l.policy (l.base_accept v)
