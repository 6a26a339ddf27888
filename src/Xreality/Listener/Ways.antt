-- ===== src/Xreality/Listener/Ways.antt =====
-- Where a connection can end, and what each end says.
use obfs.Base.{
  ℕ, ◌≡◌, refl, List, [], ◌∷◌, ◌++◌, Bool, true, false, Bool-cases, Option, none, some, ℤ, ◌⊎◌, inl,
  inr,
}
use obfs.Base.{Error, Outcome, ok, err, panic, stuck, ◌>>=◌, Returns}
use obfs.Wire.{Stream}
use obfs.Xreality.Crypto.{Crypto}
use obfs.Xreality.Auth.{padded}
use obfs.Xreality.Server.{Decision, authenticate}
use obfs.Xreality.Server.Laws.{authenticate-Returns}
use obfs.Xreality.Peek.{Peeked, peek_record, PrefixConn, pending}
use obfs.Xreality.Peek.Replay.{Kept, peek_record-Kept}
use obfs.Xreality.Channel.{TlsConn, hmac_equal, server_channel_auth}
use obfs.Xreality.Channel.Mutual.{hmac_equal-eq}
use obfs.Xreality.Channel.Total.{server_channel_auth-Returns}
use obfs.Xreality.Listener.{
  ServerConfig, accept_short_id, Verdict, passthrough, closed_conn, tunnel, finished, secured,
  on_decision, route, handle,
}

-- One of the configured IDs is `id` when padded to eight bytes.
abbrev pub Configured : List (List ℕ) → List ℕ → Type 0
Configured [] id = ⊥
Configured (s ∷ ss) id = (padded s ≡ id) ⊎ Configured ss id

-- acceptShortID accepts only configured IDs, by their padding.
pub accept_short_id-Configured :
    (ss : List (List ℕ)) (id : List ℕ) → accept_short_id ss id ≡ true → Configured ss id
unfolding accept_short_id
accept_short_id-Configured [] id h = absurd (cc)
accept_short_id-Configured (s ∷ ss) id h = elim (Bool-cases (hmac_equal (padded s) id)) [
  | inl same ↦ inl (hmac_equal-eq (padded s) id same)
  | inr differs ↦ inr (accept_short_id-Configured ss id (rw differs at h))
]

module _ (c : Crypto) (cfg : ServerConfig) (since : ℕ → ℤ)
    (tls_server : PrefixConn → TlsConn ⊎ Error) (accepting : Bool) where
  -- Authenticate has taken the peeked record, with this auth key.
  abbrev pub Admitted : PrefixConn → List ℕ → Type 0
  Admitted pc key =
      (d : Decision) × ((authenticate c (some (accept_short_id cfg.short_ids)) cfg.time_skew since
            cfg.private_key pc.prefix
          ≡ ok d)
        × ((d.authenticated ≡ true) × (d.auth_key ≡ key)))

  abbrev pub Way : List ℕ → Outcome Verdict → Type 0
  Way bytes (ok (passthrough pc)) = pending pc ≡ bytes
  Way bytes (ok closed_conn) =
      (pc : PrefixConn) × ((key : List ℕ) × ((pending pc ≡ bytes) × Admitted pc key))
  Way bytes (ok (tunnel t')) =
      (pc : PrefixConn) × ((key : List ℕ) × ((t : TlsConn) × ((pending pc ≡ bytes)
            × (Admitted pc key
                × ((tls_server pc ≡ inl t) × (server_channel_auth c key t ≡ ok t'))))))
  Way bytes (err e) = ⊥
  Way bytes panic = ⊥
  Way bytes stuck = ⊥

  finished-Way :
      (bytes : List ℕ) (pc : PrefixConn) (key : List ℕ) (t : TlsConn) (o : Outcome TlsConn)
      (a : Bool)
      → pending pc ≡ bytes
      → Admitted pc key
      → tls_server pc ≡ inl t
      → server_channel_auth c key t ≡ o
      → Returns o
      → a ≡ accepting
      → Way bytes (finished c cfg since tls_server accepting o)
  unfolding finished
  finished-Way bytes pc key t (ok t') true e ad x s r q =
      rw (← q) (pc, (key, (t, (e, (ad, (x, s))))))
  finished-Way bytes pc key t (ok t') false e ad x s r q = rw (← q) (pc, (key, (e, ad)))
  finished-Way bytes pc key t (err y) a e ad x s r q = (pc, (key, (e, ad)))
  finished-Way bytes pc key t panic a e ad x s r q = absurd (r.1 refl)
  finished-Way bytes pc key t stuck a e ad x s r q = absurd (r.0 refl)

  secured-Way :
      (bytes : List ℕ) (pc : PrefixConn) (key : List ℕ) (x : TlsConn ⊎ Error)
      → pending pc ≡ bytes
      → Admitted pc key
      → tls_server pc ≡ x
      → Way bytes (secured c cfg since tls_server accepting key x)
  unfolding secured
  secured-Way bytes pc key (inr y) e ad x = (pc, (key, (e, ad)))
  secured-Way bytes pc key (inl t) e ad x =
      finished-Way bytes pc key t (server_channel_auth c key t) accepting e ad x refl
        (server_channel_auth-Returns c key t) refl

  on_decision-Way :
      (bytes : List ℕ) (pc : PrefixConn) (o : Outcome Decision)
      → pending pc ≡ bytes
      → authenticate c
          (some (accept_short_id cfg.short_ids))
          cfg.time_skew
          since
          cfg.private_key
          pc.prefix
        ≡ o
      → Returns o
      → Way bytes (on_decision c cfg since tls_server accepting pc o)
  unfolding on_decision
  on_decision-Way bytes pc (ok d) e q r = elim (Bool-cases d.authenticated) [
    | inl authentic ↦
        rw authentic
          (secured-Way bytes pc d.auth_key (tls_server pc) e (d, (q, (authentic, refl))) refl)
    | inr probe ↦ rw probe e
  ]
  on_decision-Way bytes pc (err x) e q r = e
  on_decision-Way bytes pc panic e q r = absurd (r.1 refl)
  on_decision-Way bytes pc stuck e q r = absurd (r.0 refl)

  route-Way :
      (bytes record_read : List ℕ) (rest : Stream) (x : Option Error)
      → record_read ++ rest.bytes ≡ bytes
      → Way bytes (
          route c cfg since tls_server accepting
            (record { prefix = record_read; conn = rest })
            x
            record_read)
  unfolding route
  route-Way bytes record_read rest (some y) e = e
  route-Way bytes record_read rest none e =
      on_decision-Way bytes (record { prefix = record_read; conn = rest }) _ e refl
        (authenticate-Returns c (some (accept_short_id cfg.short_ids)) cfg.time_skew since
          cfg.private_key record_read)

  peeked-Way :
      (bytes : List ℕ) (o : Outcome Peeked)
      → Kept bytes o
      → Way bytes (
          o >>= λ p.
          route c cfg since tls_server accepting
            (record { prefix = p.record_read; conn = p.rest })
            p.error
            p.record_read)
  peeked-Way bytes (err x) k = absurd k
  peeked-Way bytes panic k = absurd k
  peeked-Way bytes stuck k = absurd k
  peeked-Way bytes (ok p) k = route-Way bytes p.record_read p.rest p.error k.0

  -- Every connection ends in one of three ways. A spliced one still delivers all of its bytes; a
  -- closed one and a tunnel were authenticated by their ClientHello; and a tunnel is what the TLS
  -- server made, after the client has proved the auth key on the channel.
  pub handle-Way : (raw : Stream) → Way raw.bytes (handle c cfg since tls_server accepting raw)
  unfolding handle
  handle-Way raw = peeked-Way raw.bytes (peek_record raw) (peek_record-Kept raw)
