-- ===== src/Gate.antt =====
-- A listener in front of another: an accept loop that starts a goroutine for each connection, a
-- channel without a buffer on which those offer what they have made, Accept and Close. The listeners
-- of reality, xreality and webrtc say which way a connection can take, and how they are closed.
pub mod Keeps
use obfs.Base.{◌≡◌, List, [], ◌∷◌, ◌++◌, Bool, true, false, Option, none, some, Error}

-- Where acceptLoop stands: at `base.Accept()`, at the `select` with an error, or returned.
pub data Loop : Type 0 where
  looping : Loop
  failing : Error → Loop
  stopped : Loop

-- What Accept has returned; with a connection, also the raw one that it stands on.
pub data Result (Raw Conn : Type 0) : Type 0 where
  got_conn : Raw → Conn → Result Raw Conn
  got_error : Error → Result Raw Conn
  got_closed : Result Raw Conn

-- `handling` and `offering` are the goroutines: those that have not come to the end of the handshake,
-- and those that wait at the `select` with their connection. `gone` holds the raw connections of
-- those that have returned without a delivery. The lists hold the latest first.
pub record Gate (Raw Conn : Type 0) : Type 0 where
  pub loop : Loop
  pub handling : List Raw
  pub offering : List (Raw × Conn)
  pub gone : List Raw
  pub results : List (Result Raw Conn)
  pub done : Bool
  pub base_open : Bool

abbrev pub opened : {Raw Conn : Type 0} → Gate Raw Conn
opened = record {
  loop = looping;
  handling = [];
  offering = [];
  gone = [];
  results = [];
  done = false;
  base_open = true;
}

-- `Handles raw c` says that the handler of `raw` can come to offer `c`, or to return without an offer.
module _ {Raw Conn : Type 0} (Handles : Raw → Option Conn → Type 0)
    (close : Gate Raw Conn → Gate Raw Conn) where
  -- What one goroutine does next, in any order. `select` takes any case that is ready. A base listener
  -- that is closed accepts no connection.
  pub data Step (s : Gate Raw Conn) : Gate Raw Conn → Type 0 where
    arrived :
        (raw : Raw)
        → s.loop ≡ looping
        → s.base_open ≡ true
        → Step s (record s { handling = raw ∷ s.handling })
    failed : (e : Error) → s.loop ≡ looping → Step s (record s { loop = failing e })
    reported :
        (e : Error)
        → s.loop ≡ failing e
        → Step s (record s { loop = stopped; results = got_error e ∷ s.results })
    unreported :
        (e : Error) → s.loop ≡ failing e → s.done ≡ true → Step s (record s { loop = stopped })
    offered_up :
        (front : List Raw) (raw : Raw) (back : List Raw) (c : Conn)
        → s.handling ≡ front ++ (raw ∷ back)
        → Handles raw (some c)
        → Step s (record s { handling = front ++ back; offering = (raw, c) ∷ s.offering })
    declined :
        (front : List Raw) (raw : Raw) (back : List Raw)
        → s.handling ≡ front ++ (raw ∷ back)
        → Handles raw none
        → Step s (record s { handling = front ++ back; gone = raw ∷ s.gone })
    taken :
        (front : List (Raw × Conn)) (raw : Raw) (c : Conn) (back : List (Raw × Conn))
        → s.offering ≡ front ++ ((raw, c) ∷ back)
        → Step s (record s { offering = front ++ back; results = got_conn raw c ∷ s.results })
    let_go :
        (front : List (Raw × Conn)) (raw : Raw) (c : Conn) (back : List (Raw × Conn))
        → s.done ≡ true
        → s.offering ≡ front ++ ((raw, c) ∷ back)
        → Step s (record s { offering = front ++ back; gone = raw ∷ s.gone })
    refused : s.done ≡ true → Step s (record s { results = got_closed ∷ s.results })
    shutting : Step s (close s)

  pub data Steps (s : Gate Raw Conn) : Gate Raw Conn → Type 0 where
    no_steps : Steps s s
    more_steps : {t u : Gate Raw Conn} → Steps s t → Step t u → Steps s u
