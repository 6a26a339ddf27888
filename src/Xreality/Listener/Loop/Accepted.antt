-- ===== src/Xreality/Listener/Loop/Accepted.antt =====
-- Accept of xreality's listener returns authenticated tunnels only.
use obfs.Base.{ℕ, List, inl, ◌≡◌, refl, subst, true, false, some, ◌⊎◌, Error, ok}
use obfs.Gate.{Gate}
use obfs.Gate.Keeps.{Accepts, Steps-Accepts}
use obfs.Xreality.Crypto.{Crypto}
use obfs.Xreality.Peek.{PrefixConn, pending}
use obfs.Xreality.Channel.{TlsConn}
use obfs.Xreality.Listener.{ServerConfig, tunnel, accept_short_id}
use obfs.Xreality.Listener.Ways.{Way, handle-Way, Configured, accept_short_id-Configured}
use obfs.Xreality.Server.Sound.{IsOurs, authenticate-IsOurs}
use obfs.Xreality.Auth.{accepted}
use obfs.Xreality.Channel.{client_tag}
use obfs.Xreality.Channel.Mutual.{Proved, server_channel_auth-Proved}
use obfs.Xreality.Listener.Loop.{Incoming, new_listener, close_listener, Handles, tunnels, Runs}

module _ (c : Crypto) (cfg : ServerConfig) (tls_server : PrefixConn → TlsConn ⊎ Error) where
  -- What stands behind a tunnel. `connection` is what the TLS server has made of the replayed bytes.
  pub record IsAuthenticated (raw : Incoming) (t : TlsConn) : Type 0 where
    pub replayed : PrefixConn
    pub key : List ℕ
    pub connection : TlsConn
    pub whole : pending replayed ≡ raw.conn.bytes
    pub ours :
        IsOurs c
          (some (accept_short_id cfg.short_ids))
          cfg.time_skew
          raw.since
          cfg.private_key
          replayed.prefix
          key
    pub cohort : Configured cfg.short_ids ours.authentic.token.1
    pub made_by : tls_server replayed ≡ inl connection
    pub proved : Proved c key client_tag connection t

  tunnel-IsAuthenticated :
      (raw : Incoming) (t : TlsConn)
      → Way c cfg raw.since tls_server true raw.conn.bytes (ok (tunnel t))
      → IsAuthenticated raw t
  unfolding accepted
  tunnel-IsAuthenticated raw t (pc, (key, (conn, (e, ((d, (q, (a, k))), (x, s)))))) =
      let checked =
        authenticate-IsOurs c (some (accept_short_id cfg.short_ids)) cfg.time_skew raw.since
          cfg.private_key pc.prefix d q a in
      let ours : IsOurs c (some (accept_short_id cfg.short_ids)) cfg.time_skew raw.since
          cfg.private_key pc.prefix key =
        subst
          (λ j.
            IsOurs c (some (accept_short_id cfg.short_ids)) cfg.time_skew raw.since cfg.private_key
              pc.prefix j)
          k checked in
      record {
        replayed = pc;
        key = key;
        connection = conn;
        whole = e;
        ours = ours;
        cohort = accepted-Configured ours.authentic.token.1 ours.authentic.admitted;
        made_by = x;
        proved = server_channel_auth-Proved c key conn t s;
      }
    where
      accepted-Configured :
          (id : List ℕ)
          → accepted (some (accept_short_id cfg.short_ids)) id ≡ true
          → Configured cfg.short_ids id
      accepted-Configured id h = accept_short_id-Configured cfg.short_ids id h

  Handles-IsAuthenticated :
      (raw : Incoming) (t : TlsConn) → Handles c cfg tls_server raw (some t) → IsAuthenticated raw t
  Handles-IsAuthenticated raw t (tunnels u h) = tunnel-IsAuthenticated raw u (
      subst (λ o. Way c cfg raw.since tls_server true raw.conn.bytes o) h
        (handle-Way c cfg raw.since tls_server true raw.conn))

  -- In every interleaving of the accept loop, the handlers, Accept and Close, each connection that
  -- Accept has returned is an authenticated tunnel over a raw connection of the base listener. All of
  -- the raw bytes were replayed to the TLS server, which has made the tunnel. They begin with a
  -- ClientHello whose session ID opens, under the key of the exchange between the server's private
  -- key and its X25519 share, to a time in the window and a configured short ID. And the client has
  -- proved that key on the channel: its proof was in front of what the tunnel still delivers.
  pub accepted-IsAuthenticated :
      {s : Gate Incoming TlsConn}
      → Runs c cfg tls_server new_listener s
      → Accepts IsAuthenticated s.results
  accepted-IsAuthenticated {s} x =
      Steps-Accepts (Handles c cfg tls_server) close_listener (λ g. (false, refl)) IsAuthenticated
        Handles-IsAuthenticated s x
