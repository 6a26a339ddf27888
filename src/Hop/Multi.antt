-- ===== src/Hop/Multi.antt =====
-- MultiListener of hop/hop.go, until it has bound its addresses, and Close. Fan has its loops.
pub mod Binds
pub mod Fan
mod Tests
use obfs.Base.{
  ℕ, List, [], ◌∷◌, ◌++◌, drop, Option, none, some, Error, no_addrs, Outcome, ok, err, ◌⊎◌, inl,
  inr,
}

-- `listening` is what this listener has bound and not closed.
pub record Bound (W L : Type 0) : Type 0 where
  pub world : W
  pub listening : List L

-- `firstErr`
first_error : Option Error → Option Error → Option Error
first_error none later = later
first_error (some e) later = some e

-- `l.Close()` ends the listening of the first that is still open.
unfoldable pub hang_up_first : {W L : Type 0} → W → Bound W L → Bound W L
hang_up_first w s = record { world = w; listening = drop 1 s.listening }

-- `listen` and the Close of a listener are parameters.
module _ {W L A : Type 0} (listen : A → W → (L ⊎ Error) × W)
    (close_one : L → W → Option Error × W) where
  -- The loop of Close, over listeners that come first in `listening`.
  pub close_each : List L → Bound W L → Option Error × Bound W L
  unfolding first_error hang_up_first
  close_each [] s = (none, s)
  close_each (l ∷ ls) s =
      let (e, w) = close_one l s.world in
      let (later, s') = close_each ls (hang_up_first w s) in (first_error e later, s')

  -- Close, of a listener that has bound `lis`; `done` is Fan's.
  unfoldable pub close_multi : List L → Bound W L → Option Error × Bound W L
  unfolding close_each
  close_multi lis s = close_each lis s

  -- The loop over the addresses; `lis` are those that are bound.
  pub bind_each : List A → List L → Bound W L → Outcome (List L) × Bound W L
  unfolding close_multi
  bind_each [] lis s = (ok lis, s)
  bind_each (a ∷ addrs) lis s =
      let (r, w) = listen a s.world in
      elim r [
        | inl l ↦
            bind_each addrs (lis ++ (l ∷ []))
              (record { world = w; listening = s.listening ++ (l ∷ []) })
        | inr e ↦ (err e, (close_multi lis (record s { world = w })).1)
      ]

  unfoldable pub multi_listener : List A → W → Outcome (List L) × Bound W L
  unfolding bind_each
  multi_listener [] w = (err no_addrs, record { world = w; listening = [] })
  multi_listener (a ∷ addrs) w = bind_each (a ∷ addrs) [] (record { world = w; listening = [] })
