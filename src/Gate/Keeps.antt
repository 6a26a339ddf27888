-- ===== src/Gate/Keeps.antt =====
-- What Accept has returned, in every interleaving.
use obfs.Base.{◌≡◌, refl, sym, subst, List, [], ◌∷◌, ◌++◌, Bool, true, Option, some, Error}
use obfs.Gate.{
  Loop, looping, failing, stopped, Result, got_conn, got_error, got_closed, Gate, opened, Step,
  arrived, failed, reported, unreported, offered_up, declined, taken, let_go, refused, shutting,
  Steps, no_steps, more_steps,
}

-- At most one error of the base listener reaches Accept, and then the loop is over.
abbrev pub AtMostOne : Loop → List Error → Type 0
AtMostOne l [] = Unit {0}
AtMostOne stopped (e ∷ []) = Unit {0}
AtMostOne stopped (e ∷ f ∷ es) = ⊥
AtMostOne looping (e ∷ es) = ⊥
AtMostOne (failing x) (e ∷ es) = ⊥

reported-AtMostOne :
    (l : Loop) (es : List Error) (e : Error)
    → l ≡ failing e
    → AtMostOne l es
    → AtMostOne stopped (e ∷ es)
reported-AtMostOne l [] e q h = tt
reported-AtMostOne stopped (x ∷ es) e q h = absurd (cc)
reported-AtMostOne looping (x ∷ es) e q h = absurd h
reported-AtMostOne (failing y) (x ∷ es) e q h = absurd h

stopped-AtMostOne :
    (l : Loop) (es : List Error) (e : Error) → l ≡ failing e → AtMostOne l es → AtMostOne stopped es
stopped-AtMostOne l [] e q h = tt
stopped-AtMostOne stopped (x ∷ es) e q h = absurd (cc)
stopped-AtMostOne looping (x ∷ es) e q h = absurd h
stopped-AtMostOne (failing y) (x ∷ es) e q h = absurd h

failing-AtMostOne :
    (l : Loop) (es : List Error) (e : Error)
    → l ≡ looping
    → AtMostOne l es
    → AtMostOne (failing e) es
failing-AtMostOne l [] e q h = tt
failing-AtMostOne stopped (x ∷ es) e q h = absurd (cc)
failing-AtMostOne looping (x ∷ es) e q h = absurd h
failing-AtMostOne (failing y) (x ∷ es) e q h = absurd h

module _ {Raw Conn : Type 0} where
  abbrev pub errors : List (Result Raw Conn) → List Error
  errors [] = []
  errors (got_conn raw c ∷ rs) = errors rs
  errors (got_error e ∷ rs) = e ∷ errors rs
  errors (got_closed ∷ rs) = errors rs

  -- `P` holds of each connection that Accept has returned, with its raw one.
  abbrev pub Accepts : (Raw → Conn → Type 0) → List (Result Raw Conn) → Type 0
  Accepts P [] = Unit {0}
  Accepts P (got_conn raw c ∷ rs) = P raw c × Accepts P rs
  Accepts P (got_error e ∷ rs) = Accepts P rs
  Accepts P (got_closed ∷ rs) = Accepts P rs

  module _ (Handles : Raw → Option Conn → Type 0) where
    abbrev pub Offered : List (Raw × Conn) → Type 0
    Offered [] = Unit {0}
    Offered ((raw, c) ∷ ps) = Handles raw (some c) × Offered ps

    -- Each connection is what the handler of its raw one has made; ErrClosed comes behind Close only.
    abbrev pub Given : Bool → List (Result Raw Conn) → Type 0
    Given d [] = Unit {0}
    Given d (got_conn raw c ∷ rs) = Handles raw (some c) × Given d rs
    Given d (got_error e ∷ rs) = Given d rs
    Given d (got_closed ∷ rs) = (d ≡ true) × Given d rs

    Given-done : (d : Bool) (rs : List (Result Raw Conn)) → Given d rs → Given true rs
    Given-done d [] h = tt
    Given-done d (got_conn raw c ∷ rs) h = (h.0, Given-done d rs h.1)
    Given-done d (got_error e ∷ rs) h = Given-done d rs h
    Given-done d (got_closed ∷ rs) h = (refl, Given-done d rs h.1)

    Offered-out :
        (front : List (Raw × Conn)) (raw : Raw) (c : Conn) (back : List (Raw × Conn))
        → Offered (front ++ ((raw, c) ∷ back))
        → Handles raw (some c) × Offered (front ++ back)
    Offered-out [] raw c back h = h
    Offered-out ((r, d) ∷ front) raw c back h =
        let (x, rest) = Offered-out front raw c back h.1 in (x, (h.0, rest))

    pub record Sound (s : Gate Raw Conn) : Type 0 where
      pub offers : Offered s.offering
      pub given : Given s.done s.results
      pub once : AtMostOne s.loop (errors s.results)

    -- `close(l.done)`, and perhaps `l.base.Close()`.
    abbrev pub Shuts : (Gate Raw Conn → Gate Raw Conn) → Type 0
    Shuts close =
        (s : Gate Raw Conn) → (b : Bool) × (close s ≡ record s { done = true; base_open = b })

    shut-Sound :
        (s : Gate Raw Conn) (b : Bool) → Sound s → Sound (record s { done = true; base_open = b })
    shut-Sound s b h = record {
      offers = h.offers;
      given = Given-done s.done s.results h.given;
      once = h.once;
    }

    pub Sound-opened : Sound opened
    Sound-opened = record { offers = tt; given = tt; once = tt }

    module _ (close : Gate Raw Conn → Gate Raw Conn) (shuts : Shuts close) where
      Step-Sound : {s t : Gate Raw Conn} → Step Handles close s t → Sound s → Sound t
      Step-Sound (arrived raw l b) h = record { offers = h.offers; given = h.given; once = h.once }
      Step-Sound {s} (failed e l) h = record {
        offers = h.offers;
        given = h.given;
        once = failing-AtMostOne s.loop _ e l h.once;
      }
      Step-Sound {s} (reported e l) h = record {
        offers = h.offers;
        given = h.given;
        once = reported-AtMostOne s.loop _ e l h.once;
      }
      Step-Sound {s} (unreported e l d) h = record {
        offers = h.offers;
        given = h.given;
        once = stopped-AtMostOne s.loop _ e l h.once;
      }
      Step-Sound (offered_up front raw back c q m) h = record {
        offers = (m, h.offers);
        given = h.given;
        once = h.once;
      }
      Step-Sound (declined front raw back q m) h = record {
        offers = h.offers;
        given = h.given;
        once = h.once;
      }
      Step-Sound (taken front raw c back q) h =
          let (x, rest) = Offered-out front raw c back (subst Offered q h.offers) in
          record { offers = rest; given = (x, h.given); once = h.once }
      Step-Sound (let_go front raw c back d q) h =
          let (x, rest) = Offered-out front raw c back (subst Offered q h.offers) in
          record { offers = rest; given = h.given; once = h.once }
      Step-Sound (refused d) h = record { offers = h.offers; given = (d, h.given); once = h.once }
      Step-Sound {s} shutting h = let (b, q) = shuts s in subst Sound (sym q) (shut-Sound s b h)

      -- In every interleaving: a connection that a goroutine offers, or that Accept has returned, is
      -- what the handler of its raw one has made; Accept has returned ErrClosed only if the listener
      -- was closed; and it has returned at most one error of the base listener, behind which the
      -- loop is over.
      pub Steps-Sound : {s : Gate Raw Conn} → Steps Handles close opened s → Sound s
      Steps-Sound no_steps = Sound-opened
      Steps-Sound (more_steps x e) = Step-Sound e (Steps-Sound x)

      Given-Accepts :
          (P : Raw → Conn → Type 0)
          → ((raw : Raw) (c : Conn) → Handles raw (some c) → P raw c)
          → (d : Bool) (rs : List (Result Raw Conn)) → Given d rs
          → Accepts P rs
      Given-Accepts P f d [] h = tt
      Given-Accepts P f d (got_conn raw c ∷ rs) h = (f raw c h.0, Given-Accepts P f d rs h.1)
      Given-Accepts P f d (got_error e ∷ rs) h = Given-Accepts P f d rs h
      Given-Accepts P f d (got_closed ∷ rs) h = Given-Accepts P f d rs h.1

      pub Steps-Accepts :
          (P : Raw → Conn → Type 0)
          → ((raw : Raw) (c : Conn) → Handles raw (some c) → P raw c)
          → (s : Gate Raw Conn) → Steps Handles close opened s
          → Accepts P s.results
      Steps-Accepts P f s x = Given-Accepts P f s.done s.results (Steps-Sound x).given
