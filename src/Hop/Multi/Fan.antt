-- ===== src/Hop/Multi/Fan.antt =====
-- The accept loops of MultiListener, Accept and Close: one channel without a buffer, on which each
-- loop offers what its listener has accepted. A step is what one goroutine does next.
pub mod Keeps
use obfs.Base.{
  ℕ, ◌≡◌, ◌∙◌, refl, sym, ap, List, [], ◌∷◌, ◌++◌, append_assoc, append-nil, Bool, true, false,
}

-- The connections that loops offer, that Accept has returned, and that loops have closed; and `done`.
pub record Fanned (C : Type 0) : Type 0 where
  pub offered : List C
  pub delivered : List C
  pub dropped : List C
  pub done : Bool

module _ {C : Type 0} where
  -- `select` takes any case that is ready: Accept takes an offer also behind Close. An error of a
  -- listener is offered too, but it is no connection, and leaves the state as it is.
  pub data Step (s : Fanned C) : Fanned C → Type 0 where
    arrived : (c : C) → Step s (record s { offered = s.offered ++ (c ∷ []) })
    returned :
        (front : List C) (c : C) (back : List C)
        → s.offered ≡ front ++ (c ∷ back)
        → Step s (record s { offered = front ++ back; delivered = c ∷ s.delivered })
    gave_up :
        (front : List C) (c : C) (back : List C)
        → s.done ≡ true
        → s.offered ≡ front ++ (c ∷ back)
        → Step s (record s { offered = front ++ back; dropped = c ∷ s.dropped })
    shut : Step s (record s { done = true })

  pub data Steps (s : Fanned C) : Fanned C → Type 0 where
    none_yet : Steps s s
    then_step : {t u : Fanned C} → Steps s t → Step t u → Steps s u
