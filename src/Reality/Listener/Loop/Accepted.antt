-- ===== src/Reality/Listener/Loop/Accepted.antt =====
-- Accept of reality's listener returns only connections that began with the token.
use obfs.Base.{ℕ, refl, subst, List, Bool, true, false, some, ◌⊎◌, Error}
use obfs.Wire.{Stream, Sink}
use obfs.Gate.{Gate}
use obfs.Gate.Keeps.{Accepts, Steps-Accepts}
use obfs.Reality.Listener.{ServerConfig, Replayed, tunnelled}
use obfs.Reality.Listener.Ways.{Way, Handled, handle-Handled}
use obfs.Reality.Listener.Loop.{new_listener, close_listener, Handles, tunnels, Runs}

module _ (cfg : ServerConfig) (equal_fold : List ℕ → List ℕ → Bool)
    (tls_server : Replayed → Stream ⊎ Error) (dial : List ℕ → Sink ⊎ Error) where
  -- The TLS server has made a connection from the bytes of the raw one, which began with the token,
  -- and the tunnel is the rest of it.
  abbrev pub HasToken : Stream → Stream → Type 0
  HasToken raw client = Way cfg equal_fold tls_server dial true raw (tunnelled client)

  Handles-HasToken :
      (raw client : Stream)
      → Handles cfg equal_fold tls_server dial raw (some client)
      → HasToken raw client
  Handles-HasToken raw client (tunnels t h) =
      subst (λ o. Handled cfg equal_fold tls_server dial true raw o) h
        (handle-Handled cfg equal_fold tls_server dial true raw)

  -- In every interleaving of the accept loop, the handlers, Accept and Close, each connection that
  -- Accept has returned stands on a raw connection of the base listener: the TLS server has made a
  -- connection from all of its bytes, that connection began with the token, which is not empty, and
  -- what Accept returned is the rest.
  pub accepted-HasToken :
      {s : Gate Stream Stream}
      → Runs cfg equal_fold tls_server dial new_listener s
      → Accepts HasToken s.results
  accepted-HasToken {s} x =
      Steps-Accepts (Handles cfg equal_fold tls_server dial) close_listener (λ g. (false, refl))
        HasToken Handles-HasToken s x
