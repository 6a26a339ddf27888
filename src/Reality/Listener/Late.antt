-- ===== src/Reality/Listener/Late.antt =====
-- handle behind Close: the same way, but for a tunnel, which is closed. So a goroutine can be taken to
-- its `select` first, and the choice there be a step of its own.
use obfs.Base.{
  ℕ, ◌≡◌, refl, ap, List, [], ◌∷◌, Bool, true, false, Bool-cases, ◌⊎◌, inl, inr, length, take,
}
use obfs.Base.{Error, Outcome, ok, err, panic, stuck, Option, none, some}
use obfs.Wire.{Stream, Sink, read_full, base_write}
use obfs.Reality.Peek.{Tee, peek_client_hello_sni}
use obfs.Reality.Listener.{
  ServerConfig, Replayed, Verdict, dropped, spliced, proxied, tunnelled, matches, trim_dot,
  server_name_allowed, splice_to, pass_through, replayed_to, proxy_to, reverse_proxy, authed,
  check_token, handshaken, terminate, on_sni, route, handle,
}

abbrev pub without_tunnel : Verdict → Verdict
without_tunnel dropped = dropped
without_tunnel (spliced pc upstream) = spliced pc upstream
without_tunnel (proxied client upstream) = proxied client upstream
without_tunnel (tunnelled client) = dropped

abbrev pub closing : Outcome Verdict → Outcome Verdict
closing (ok v) = ok (without_tunnel v)
closing (err e) = err e
closing panic = panic
closing stuck = stuck

module _ (cfg : ServerConfig) (equal_fold : List ℕ → List ℕ → Bool)
    (tls_server : Replayed → Stream ⊎ Error) (dial : List ℕ → Sink ⊎ Error) where
  matches-late :
      (sni : List ℕ) (ns : List (List ℕ))
      → matches cfg equal_fold tls_server dial false sni ns
        ≡ matches cfg equal_fold tls_server dial true sni ns
  unfolding matches
  matches-late sni [] = refl
  matches-late sni (n ∷ ns) = rw (matches-late sni ns) refl

  server_name_allowed-late :
      (sni : List ℕ)
      → server_name_allowed cfg equal_fold tls_server dial false sni
        ≡ server_name_allowed cfg equal_fold tls_server dial true sni
  unfolding server_name_allowed
  server_name_allowed-late [] = refl
  server_name_allowed-late (b ∷ bs) = matches-late (trim_dot (b ∷ bs)) cfg.server_names

  replayed_to-late :
      (client : Stream) (r : Option Error × Sink)
      → replayed_to cfg equal_fold tls_server dial false client r
        ≡ without_tunnel (replayed_to cfg equal_fold tls_server dial true client r)
  unfolding replayed_to
  replayed_to-late client (none, u) = refl
  replayed_to-late client (some e, u) = refl

  proxy_to-late :
      (consumed : List ℕ) (client : Stream) (x : Sink ⊎ Error)
      → proxy_to cfg equal_fold tls_server dial false consumed client x
        ≡ without_tunnel (proxy_to cfg equal_fold tls_server dial true consumed client x)
  unfolding proxy_to
  proxy_to-late [] client (inr e) = refl
  proxy_to-late (b ∷ bs) client (inr e) = refl
  proxy_to-late [] client (inl u) = refl
  proxy_to-late (b ∷ bs) client (inl u) = replayed_to-late client (base_write (b ∷ bs) u)

  reverse_proxy-late :
      (addr consumed : List ℕ) (client : Stream)
      → reverse_proxy cfg equal_fold tls_server dial false addr client consumed
        ≡ without_tunnel (reverse_proxy cfg equal_fold tls_server dial true addr client consumed)
  unfolding reverse_proxy
  reverse_proxy-late [] consumed client = refl
  reverse_proxy-late (b ∷ addr) consumed client = proxy_to-late consumed client (dial (b ∷ addr))

  authed-late :
      (r : Outcome (List ℕ))
      → authed cfg equal_fold tls_server dial false r ≡ authed cfg equal_fold tls_server dial true r
  unfolding authed
  authed-late (ok tok) = refl
  authed-late (err e) = refl
  authed-late panic = refl
  authed-late stuck = refl

  check_token-late :
      (conn : Stream)
      → check_token cfg equal_fold tls_server dial false conn
        ≡ without_tunnel (check_token cfg equal_fold tls_server dial true conn)
  unfolding check_token
  check_token-late conn =
      let (r, client) = read_full (length cfg.token) conn in
      elim (Bool-cases (authed cfg equal_fold tls_server dial true r)) [
        | inl yes_token ↦ rw (authed-late r, yes_token) refl
        | inr probe ↦
            rw (authed-late r, probe)
              (reverse_proxy-late cfg.fallback (take (length cfg.token) conn.bytes) client)
      ]

  handshaken-late :
      (x : Stream ⊎ Error)
      → handshaken cfg equal_fold tls_server dial false x
        ≡ without_tunnel (handshaken cfg equal_fold tls_server dial true x)
  unfolding handshaken
  handshaken-late (inl conn) = check_token-late conn
  handshaken-late (inr e) = refl

  terminate-late :
      (pc : Replayed)
      → terminate cfg equal_fold tls_server dial false pc
        ≡ without_tunnel (terminate cfg equal_fold tls_server dial true pc)
  unfolding terminate
  terminate-late pc = handshaken-late (tls_server pc)

  splice_to-late :
      (pc : Replayed) (x : Sink ⊎ Error)
      → splice_to cfg equal_fold tls_server dial false pc x
        ≡ without_tunnel (splice_to cfg equal_fold tls_server dial true pc x)
  unfolding splice_to
  splice_to-late pc (inl u) = refl
  splice_to-late pc (inr e) = refl

  pass_through-late :
      (addr : List ℕ) (pc : Replayed)
      → pass_through cfg equal_fold tls_server dial false addr pc
        ≡ without_tunnel (pass_through cfg equal_fold tls_server dial true addr pc)
  unfolding pass_through
  pass_through-late [] pc = refl
  pass_through-late (b ∷ addr) pc = splice_to-late pc (dial (b ∷ addr))

  on_sni-late :
      (r : Outcome (List ℕ) × Tee)
      → on_sni cfg equal_fold tls_server dial false r
        ≡ closing (on_sni cfg equal_fold tls_server dial true r)
  unfolding on_sni
  on_sni-late (ok sni, t) =
      let pc : Replayed = record { prefix = t.buf; conn = t.reader } in
      elim (Bool-cases (server_name_allowed cfg equal_fold tls_server dial true sni)) [
        | inl allowed ↦ rw (server_name_allowed-late sni, allowed) (ap ok (terminate-late pc))
        | inr other ↦
            rw (server_name_allowed-late sni, other) (ap ok (pass_through-late cfg.passthrough pc))
      ]
  on_sni-late (err e, t) = ap ok (terminate-late (record { prefix = t.buf; conn = t.reader }))
  on_sni-late (panic, t) = refl
  on_sni-late (stuck, t) = refl

  route-late :
      (names : List (List ℕ)) (raw : Stream)
      → route cfg equal_fold tls_server dial false names raw
        ≡ closing (route cfg equal_fold tls_server dial true names raw)
  unfolding route
  route-late [] raw = ap ok (terminate-late (record { prefix = []; conn = raw }))
  route-late (n ∷ ns) raw = on_sni-late (peek_client_hello_sni raw)

  -- Behind Close, handle does to each connection what it does before, but that it closes a tunnel.
  pub handle-late :
      (raw : Stream)
      → handle cfg equal_fold tls_server dial false raw
        ≡ closing (handle cfg equal_fold tls_server dial true raw)
  unfolding handle
  handle-late raw = route-late cfg.server_names raw
