-- ===== src/Xreality/Listener.antt =====
-- xreality/listener.go: acceptShortID and handle, the way of one connection.
pub mod Ways
pub mod Served
pub mod Late
pub mod Loop
pub mod Passthrough
use obfs.Base.{
  ℕ, List, [], ◌∷◌, not, ◌||◌, Bool, true, false, if◌then◌else◌, Option, none, some, ℤ, ◌⊎◌, inl,
  inr,
}
use obfs.Base.{Error, Outcome, ok, err, panic, stuck, ◌>>=◌}
use obfs.Wire.{Stream}
use obfs.Xreality.Crypto.{Crypto}
use obfs.Xreality.Auth.{padded}
use obfs.Xreality.Server.{Decision, authenticate}
use obfs.Xreality.Peek.{Peeked, peek_record, PrefixConn}
use obfs.Xreality.Channel.{TlsConn, hmac_equal, server_channel_auth}

-- ServerConfig, but for the TLS configuration, the timeout, and Dest and OnError, which concern the
-- splice.
pub record ServerConfig : Type 0 where
  pub private_key : List ℕ
  pub short_ids : List (List ℕ)
  pub time_skew : ℤ

unfoldable pub accept_short_id : List (List ℕ) → List ℕ → Bool
unfolding padded hmac_equal
accept_short_id [] id = false
accept_short_id (s ∷ ss) id = if hmac_equal (padded s) id then true else accept_short_id ss id

-- Where a connection ends: spliced to Dest, closed, or handed to Accept.
pub data Verdict : Type 0 where
  passthrough : PrefixConn → Verdict
  closed_conn : Verdict
  tunnel : TlsConn → Verdict

-- `tls_server` is `tls.Server` with its handshake; `accepting` says whether Accept takes the tunnel
-- before the listener is closed.
module _ (c : Crypto) (cfg : ServerConfig) (since : ℕ → ℤ)
    (tls_server : PrefixConn → TlsConn ⊎ Error) (accepting : Bool) where
  -- Behind serverChannelAuth.
  finished : Outcome TlsConn → Outcome Verdict
  finished (ok t) = ok (if accepting then tunnel t else closed_conn)
  finished (err e) = ok closed_conn
  finished panic = panic
  finished stuck = stuck

  secured : List ℕ → TlsConn ⊎ Error → Outcome Verdict
  unfolding finished
  secured auth_key (inr e) = ok closed_conn
  secured auth_key (inl t) = finished (server_channel_auth c auth_key t)

  -- `err != nil || !d.Authenticated`
  on_decision : PrefixConn → Outcome Decision → Outcome Verdict
  unfolding secured
  on_decision pc (ok d) =
      if not d.authenticated then ok (passthrough pc) else secured d.auth_key (tls_server pc)
  on_decision pc (err e) = ok (passthrough pc)
  on_decision pc panic = panic
  on_decision pc stuck = stuck

  route : PrefixConn → Option Error → List ℕ → Outcome Verdict
  unfolding on_decision accept_short_id
  route pc (some e) bytes = ok (passthrough pc)
  route pc none bytes = on_decision pc (
      authenticate c (some (accept_short_id cfg.short_ids)) cfg.time_skew since cfg.private_key
        bytes)

  unfoldable pub handle : Stream → Outcome Verdict
  unfolding route
  handle raw = do
    p ← peek_record raw
    route (record { prefix = p.record_read; conn = p.rest }) p.error p.record_read
