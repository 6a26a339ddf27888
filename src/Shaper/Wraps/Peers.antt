-- ===== src/Shaper/Wraps/Peers.antt =====
-- A Dialer and a Listener with one policy make peers that understand each other.
use obfs.Base.{
  ℕ, ◌≡◌, refl, subst, ◌≤◌, ◌<◌, All, List, [], length, Option, none, some, ◌⊎◌, inl, inr, Error,
  ok, arith,
}
use obfs.Shaper.{FillFunc, Float64, Policy, Shaped, new_shaped_conn}
use obfs.Shaper.Start.{FitsHeader, new_shaped_conn-IsUsable}
use obfs.Shaper.Write.{Runtime, Writer}
use obfs.Shaper.Session.{Event, messages, send, receive, reader_of}
use obfs.Shaper.Session.RoundTrip.{receive-send}
use obfs.Shaper.Wraps.{
  Wrapped, unshaped, shaped, wrapped_as, wrap, wrap_result, dialer, listener, accept,
}

same-config :
    {W F : Type 0} (fl : Float64 F) (random_fill : FillFunc W) (p : Policy W F) (c d : Shaped W F)
    → new_shaped_conn fl random_fill p ≡ some c
    → new_shaped_conn fl random_fill p ≡ some d
    → c ≡ d
same-config fl random_fill p c d h k = ground arith

module _ {C W F : Type 0} (fl : Float64 F) (random_fill : FillFunc W) where
  abbrev MadeBy : Policy W F → Wrapped C W F → Type 0
  MadeBy p (unshaped base) = new_shaped_conn fl random_fill p ≡ none
  MadeBy p (shaped base c) = new_shaped_conn fl random_fill p ≡ some c

  wrapped_as-MadeBy :
      (p : Policy W F) (base : C) (o : Option (Shaped W F))
      → new_shaped_conn fl random_fill p ≡ o
      → MadeBy p (wrapped_as fl random_fill base o)
  unfolding wrapped_as
  wrapped_as-MadeBy p base none h = h
  wrapped_as-MadeBy p base (some c) h = h

  wrap-MadeBy : (base : C) (p : Policy W F) → MadeBy p (wrap fl random_fill base p)
  unfolding wrap
  wrap-MadeBy base p = wrapped_as-MadeBy p base (new_shaped_conn fl random_fill p) refl

  wrap_result-MadeBy :
      {V : Type 0} (p : Policy W F) (r : (C ⊎ Error) × V) (a : Wrapped C W F)
      → (wrap_result fl random_fill p r).0 ≡ ok a
      → MadeBy p a
  unfolding wrap_result
  wrap_result-MadeBy p (inl c, v) a h =
      let e : wrap fl random_fill c p ≡ a = ok-eq h in subst (MadeBy p) e (wrap-MadeBy c p)
    where
      ok-eq : {x y : Wrapped C W F} → ok x ≡ ok y → x ≡ y
      ok-eq q = ground arith
  wrap_result-MadeBy p (inr e, v) a h = absurd (cc)

  -- Two peers with one policy, whose cells fit their header: what one gets from Dialer and the other
  -- from Accept of Listener. If they are shaped and have no pacer, then after any messages, cover
  -- ticks and cover cells of frontLoop of the dialling one on a fresh wire on which no write fails,
  -- the accepting one that reads often enough, with any non-empty buffers, is handed exactly the
  -- messages, in order.
  pub dialer-accept :
      {U V : Type 0} (rt : Runtime W) (p : Policy W F) (dial : U → (C ⊎ Error) × U)
      (base : V → (C ⊎ Error) × V) (u : U) (v : V) (x y : C) (c d : Shaped W F)
      → FitsHeader p.cell_size
      → (dialer fl random_fill dial p u).0 ≡ ok (shaped x c)
      → (accept fl random_fill (listener base p) v).0 ≡ ok (shaped y d)
      → c.pace ≡ none
      → (es : List Event) (st : Writer W) (rooms : List ℕ) (e : Error) → st.sink.sent ≡ []
      → st.sink.faults ≡ []
      → All (λ room. 0 < room) rooms
      → length (messages es) ≤ length rooms
      → (receive d rooms (reader_of (send rt c es st).1.sink.sent e)).0 ≡ messages es
  unfolding dialer accept
  dialer-accept rt p dial base u v x y c d f h k unpaced es st rooms e fresh healthy ne enough =
      let made = wrap_result-MadeBy p (dial u) (shaped x c) h in
      let met = wrap_result-MadeBy p (base v) (shaped y d) k in
      subst (λ z. (receive z rooms (reader_of (send rt c es st).1.sink.sent e)).0 ≡ messages es)
        (same-config fl random_fill p c d made met)
        (receive-send rt c (new_shaped_conn-IsUsable fl random_fill p c f made).0 es st rooms e
          unpaced fresh healthy ne enough)
