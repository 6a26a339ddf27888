-- ===== src/Xreality/Listener/Late.antt =====
-- handle behind Close: the same way, but for a tunnel, which is closed. So a goroutine can be taken to
-- its `select` first, and the choice there be a step of its own.
use obfs.Base.{ℕ, ◌≡◌, refl, List, true, false, Bool-cases, Option, none, some, ℤ, ◌⊎◌, inl, inr}
use obfs.Base.{Error, Outcome, ok, err, panic, stuck, ◌>>=◌}
use obfs.Wire.{Stream}
use obfs.Xreality.Crypto.{Crypto}
use obfs.Xreality.Server.{Decision, authenticate}
use obfs.Xreality.Peek.{Peeked, PrefixConn, peek_record}
use obfs.Xreality.Channel.{TlsConn, server_channel_auth}
use obfs.Xreality.Listener.{
  ServerConfig, accept_short_id, Verdict, passthrough, closed_conn, tunnel, finished, secured,
  on_decision, route, handle,
}

abbrev pub closing : Outcome Verdict → Outcome Verdict
closing (ok (passthrough pc)) = ok (passthrough pc)
closing (ok closed_conn) = ok closed_conn
closing (ok (tunnel t)) = ok closed_conn
closing (err e) = err e
closing panic = panic
closing stuck = stuck

module _ (c : Crypto) (cfg : ServerConfig) (since : ℕ → ℤ)
    (tls_server : PrefixConn → TlsConn ⊎ Error) where
  finished-late :
      (o : Outcome TlsConn)
      → finished c cfg since tls_server false o ≡ closing (finished c cfg since tls_server true o)
  unfolding finished
  finished-late (ok t) = refl
  finished-late (err e) = refl
  finished-late panic = refl
  finished-late stuck = refl

  secured-late :
      (key : List ℕ) (x : TlsConn ⊎ Error)
      → secured c cfg since tls_server false key x
        ≡ closing (secured c cfg since tls_server true key x)
  unfolding secured
  secured-late key (inr e) = refl
  secured-late key (inl t) = finished-late (server_channel_auth c key t)

  on_decision-late :
      (pc : PrefixConn) (o : Outcome Decision)
      → on_decision c cfg since tls_server false pc o
        ≡ closing (on_decision c cfg since tls_server true pc o)
  unfolding on_decision
  on_decision-late pc (ok d) = elim (Bool-cases d.authenticated) [
    | inl ours ↦ rw ours (secured-late d.auth_key (tls_server pc))
    | inr probe ↦ rw probe refl
  ]
  on_decision-late pc (err e) = refl
  on_decision-late pc panic = refl
  on_decision-late pc stuck = refl

  route-late :
      (pc : PrefixConn) (x : Option Error) (bytes : List ℕ)
      → route c cfg since tls_server false pc x bytes
        ≡ closing (route c cfg since tls_server true pc x bytes)
  unfolding route
  route-late pc (some e) bytes = refl
  route-late pc none bytes = on_decision-late pc (
      authenticate c (some (accept_short_id cfg.short_ids)) cfg.time_skew since cfg.private_key
        bytes)

  peeked-late :
      (o : Outcome Peeked)
      → (o >>= λ p.
          route c cfg since tls_server false
            (record { prefix = p.record_read; conn = p.rest })
            p.error
            p.record_read)
        ≡ closing (
            o >>= λ p.
            route c cfg since tls_server true
              (record { prefix = p.record_read; conn = p.rest })
              p.error
              p.record_read)
  peeked-late (ok p) =
      route-late (record { prefix = p.record_read; conn = p.rest }) p.error p.record_read
  peeked-late (err e) = refl
  peeked-late panic = refl
  peeked-late stuck = refl

  -- Behind Close, handle does to each connection what it does before, but that it closes a tunnel.
  pub handle-late :
      (raw : Stream)
      → handle c cfg since tls_server false raw ≡ closing (handle c cfg since tls_server true raw)
  unfolding handle
  handle-late raw = peeked-late (peek_record raw)
