-- ===== src/Reality/Listener.antt =====
-- handle of reality.go with serverNameAllowed, passthrough, reverseProxy and prefixConn.
pub mod Ways
pub mod Served
pub mod Late
pub mod Loop
pub mod Replay
pub mod Splices
pub mod Tests
use obfs.Base.{
  ℕ, List, [], ◌∷◌, ◌++◌, length, take, ltb, ◌==◌, not, ◌&&◌, Bool, true, false, if◌then◌else◌,
  Option, none, some, Error, Outcome, ok, err, panic, stuck, ◌⊎◌, inl, inr,
}
use obfs.Wire.{Stream, Sink, read_full, base_write}
use obfs.Xreality.Channel.{hmac_equal}
use obfs.Reality.Peek.{Tee, peek_client_hello_sni}

-- ServerConfig, but for the TLS configuration, the timeout and OnError; "" is the empty list.
pub record ServerConfig : Type 0 where
  pub token : List ℕ
  pub fallback : List ℕ
  pub server_names : List (List ℕ)
  pub passthrough : List ℕ

-- prefixConn, with what the connection will still deliver.
pub record Replayed : Type 0 where
  pub prefix : List ℕ
  pub conn : Stream

abbrev pub pending : Replayed → List ℕ
pending c = c.prefix ++ c.conn.bytes

-- `strings.TrimSuffix(name, ".")`
unfoldable pub trim_dot : List ℕ → List ℕ
trim_dot [] = []
trim_dot (b ∷ []) = if b == b'.' then [] else b ∷ []
trim_dot (b ∷ c ∷ bs) = b ∷ trim_dot (c ∷ bs)

-- Where a connection ends: closed, spliced to Passthrough, proxied to Fallback, or at Accept. The
-- sinks are what the upstreams have been sent before the splice.
pub data Verdict : Type 0 where
  dropped : Verdict
  spliced : Replayed → Sink → Verdict
  proxied : Stream → Sink → Verdict
  tunnelled : Stream → Verdict

-- `equal_fold` is strings.EqualFold, `tls_server` is `tls.Server` with its handshake, `dial` is
-- `net.Dial`, and `accepting` says whether Accept takes the tunnel before the listener is closed.
module _ (cfg : ServerConfig) (equal_fold : List ℕ → List ℕ → Bool)
    (tls_server : Replayed → Stream ⊎ Error) (dial : List ℕ → Sink ⊎ Error) (accepting : Bool) where
  matches : List ℕ → List (List ℕ) → Bool
  unfolding trim_dot
  matches sni [] = false
  matches sni (n ∷ ns) = if equal_fold sni (trim_dot n) then true else matches sni ns

  unfoldable pub server_name_allowed : List ℕ → Bool
  unfolding matches
  server_name_allowed [] = false
  server_name_allowed (b ∷ bs) = matches (trim_dot (b ∷ bs)) cfg.server_names

  splice_to : Replayed → Sink ⊎ Error → Verdict
  splice_to pc (inl upstream) = spliced pc upstream
  splice_to pc (inr e) = dropped

  pass_through : List ℕ → Replayed → Verdict
  unfolding splice_to
  pass_through [] pc = dropped
  pass_through (b ∷ addr) pc = splice_to pc (dial (b ∷ addr))

  replayed_to : Stream → Option Error × Sink → Verdict
  replayed_to client (none, upstream) = proxied client upstream
  replayed_to client (some e, upstream) = dropped

  -- `if len(consumed) > 0`
  proxy_to : List ℕ → Stream → Sink ⊎ Error → Verdict
  unfolding replayed_to
  proxy_to consumed client (inr e) = dropped
  proxy_to [] client (inl upstream) = proxied client upstream
  proxy_to (b ∷ bs) client (inl upstream) = replayed_to client (base_write (b ∷ bs) upstream)

  reverse_proxy : List ℕ → Stream → List ℕ → Verdict
  unfolding proxy_to
  reverse_proxy [] client consumed = dropped
  reverse_proxy (b ∷ addr) client consumed = proxy_to consumed client (dial (b ∷ addr))

  -- `len(token) > 0 && rerr == nil && subtle.ConstantTimeCompare(tok, token) == 1`
  authed : Outcome (List ℕ) → Bool
  unfolding hmac_equal
  authed (ok tok) = ltb 0 (length cfg.token) && hmac_equal tok cfg.token
  authed _ = false

  -- Behind the TLS handshake.
  check_token : Stream → Verdict
  unfolding authed reverse_proxy
  check_token conn =
      let (r, client) = read_full (length cfg.token) conn in
      if authed r
      then (if accepting then tunnelled client else dropped)
      else reverse_proxy cfg.fallback client (take (length cfg.token) conn.bytes)

  handshaken : Stream ⊎ Error → Verdict
  unfolding check_token
  handshaken (inl conn) = check_token conn
  handshaken (inr e) = dropped

  terminate : Replayed → Verdict
  unfolding handshaken
  terminate pc = handshaken (tls_server pc)

  -- `perr == nil && !l.serverNameAllowed(sni)`; a parse failure goes on to the TLS server.
  on_sni : Outcome (List ℕ) × Tee → Outcome Verdict
  unfolding server_name_allowed pass_through terminate
  on_sni (ok sni, t) =
      let pc : Replayed = record { prefix = t.buf; conn = t.reader } in
      if not (server_name_allowed sni)
      then ok (pass_through cfg.passthrough pc)
      else ok (terminate pc)
  on_sni (err e, t) = ok (terminate (record { prefix = t.buf; conn = t.reader }))
  on_sni (panic, t) = panic
  on_sni (stuck, t) = stuck

  -- `if len(l.cfg.ServerNames) > 0`
  route : List (List ℕ) → Stream → Outcome Verdict
  unfolding on_sni
  route [] raw = ok (terminate (record { prefix = []; conn = raw }))
  route (n ∷ ns) raw = on_sni (peek_client_hello_sni raw)

  unfoldable pub handle : Stream → Outcome Verdict
  unfolding route
  handle raw = route cfg.server_names raw
