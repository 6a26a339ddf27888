-- ===== src/Reality/Listener/Served.antt =====
-- A client with the token reaches Accept.
use obfs.Base.{
  ℕ, ◌≡◌, ap, refl, List, [], ◌∷◌, ◌++◌, length, ltb, Bool, true, Error, Outcome, ok, err, panic,
  stuck, ◌⊎◌, inl, arith, ◌≢◌,
}
use obfs.Act.{Ended, ended_ok, ended_err}
use obfs.Wire.{Stream, Sink}
use obfs.Wire.Laws.{stream, read_full-append}
use obfs.Xreality.Channel.Mutual.{hmac_equal_refl}
use obfs.Reality.Peek.{Tee, peek_client_hello_sni}
use obfs.Reality.Peek.Keeps.{Holds, peek_client_hello_sni-Ended}
use obfs.Reality.Listener.{
  ServerConfig, Replayed, pending, tunnelled, server_name_allowed, authed, check_token, handshaken,
  terminate, on_sni, route, handle,
}

-- `len(token) > 0`
long-token : (t : List ℕ) → t ≢ [] → ltb 0 (length t) ≡ true
long-token [] h = absurd (h refl)
long-token (b ∷ t) h = ground arith

module _ (cfg : ServerConfig) (equal_fold : List ℕ → List ℕ → Bool)
    (tls_server : Replayed → Stream ⊎ Error) (dial : List ℕ → Sink ⊎ Error) where
  -- What peekClientHelloSNI finds does not send the connection to Passthrough.
  abbrev pub IsServed : Outcome (List ℕ) → Type 0
  IsServed (ok sni) = server_name_allowed cfg equal_fold tls_server dial true sni ≡ true
  IsServed _ = Unit {0}

  check_token-tunnelled :
      (rest : List ℕ) (e : Error)
      → cfg.token ≢ []
      → check_token cfg equal_fold tls_server dial true (stream (cfg.token ++ rest) e)
        ≡ tunnelled (stream rest e)
  unfolding check_token authed
  check_token-tunnelled rest e h =
      rw
        (
          read_full-append (length cfg.token) cfg.token rest e refl,
          long-token cfg.token h,
          hmac_equal_refl cfg.token,
        )
        refl

  module _ (raw : Stream) (rest : List ℕ) (e : Error) (filled : cfg.token ≢ [])
      (served : (pc : Replayed)
        → pending pc ≡ raw.bytes
        → tls_server pc ≡ inl (stream (cfg.token ++ rest) e)) where
    terminate-tunnelled :
        (pc : Replayed)
        → pending pc ≡ raw.bytes
        → terminate cfg equal_fold tls_server dial true pc ≡ tunnelled (stream rest e)
    unfolding terminate handshaken
    terminate-tunnelled pc h = rw (served pc h) (check_token-tunnelled rest e filled)

    on_sni-tunnelled :
        (r : Outcome (List ℕ) × Tee)
        → IsServed r.0
        → Ended (λ _ t. Holds raw.bytes t) (Holds raw.bytes) r
        → on_sni cfg equal_fold tls_server dial true r ≡ ok (tunnelled (stream rest e))
    unfolding on_sni
    on_sni-tunnelled (ok sni, t) allowed (ended_ok h) =
        rw allowed (ap ok (terminate-tunnelled (record { prefix = t.buf; conn = t.reader }) h))
    on_sni-tunnelled (err x, t) allowed (ended_err h) =
        ap ok (terminate-tunnelled (record { prefix = t.buf; conn = t.reader }) h)
    on_sni-tunnelled (panic, t) allowed h = elim h [ ]
    on_sni-tunnelled (stuck, t) allowed h = elim h [ ]

    route-tunnelled :
        (names : List (List ℕ))
        → IsServed (peek_client_hello_sni raw).0
        → route cfg equal_fold tls_server dial true names raw ≡ ok (tunnelled (stream rest e))
    unfolding route
    route-tunnelled [] allowed =
        ap ok (terminate-tunnelled (record { prefix = []; conn = raw }) refl)
    route-tunnelled (n ∷ ns) allowed =
        on_sni-tunnelled (peek_client_hello_sni raw) allowed (peek_client_hello_sni-Ended raw)

  -- A client that sends the token first gets through: if the SNI of its ClientHello is allowed or
  -- cannot be parsed, and the TLS server, over any replay of the raw bytes, makes a connection that
  -- begins with the token, which is not empty, then Accept is handed what stands behind it.
  pub handle-tunnelled :
      (raw : Stream) (rest : List ℕ) (e : Error)
      → cfg.token ≢ []
      → IsServed (peek_client_hello_sni raw).0
      → ((pc : Replayed)
          → pending pc ≡ raw.bytes
          → tls_server pc ≡ inl (stream (cfg.token ++ rest) e))
      → handle cfg equal_fold tls_server dial true raw ≡ ok (tunnelled (stream rest e))
  unfolding handle
  handle-tunnelled raw rest e filled allowed served =
      route-tunnelled raw rest e filled served cfg.server_names allowed
