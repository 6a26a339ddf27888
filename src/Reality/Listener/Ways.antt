-- ===== src/Reality/Listener/Ways.antt =====
-- Where a connection of reality's listener can end, and who gets through to Accept.
use obfs.Base.{
  ℕ, ◌≡◌, ◌∙◌, sym, ap, refl, List, [], ◌∷◌, ◌++◌, length, take, ltb, Bool, true, false, Bool-cases,
  Option, none, some, Error, ◌≢◌, append-nil, Outcome, ok, err, panic, stuck, ◌⊎◌, inl, inr, arith,
}
use obfs.Act.{Ended, ended_ok, ended_err}
use obfs.Wire.{Stream, Sink, read_full, base_write}
use obfs.Wire.Laws.{read_full-split, Wrote, base_write-Wrote}
use obfs.Xreality.Channel.{hmac_equal}
use obfs.Xreality.Channel.Mutual.{hmac_equal-eq}
use obfs.Reality.Peek.{Tee, peek_client_hello_sni}
use obfs.Reality.Peek.Keeps.{Holds, taken, peek_client_hello_sni-Ended}
use obfs.Reality.Listener.{
  ServerConfig, Replayed, pending, Verdict, dropped, spliced, proxied, tunnelled,
  server_name_allowed, splice_to, pass_through, replayed_to, proxy_to, reverse_proxy, authed,
  check_token, handshaken, terminate, on_sni, route, handle,
}

module _ (cfg : ServerConfig) (equal_fold : List ℕ → List ℕ → Bool)
    (tls_server : Replayed → Stream ⊎ Error) (dial : List ℕ → Sink ⊎ Error) (accepting : Bool) where
  -- The TLS server has made this connection over the raw of the raw one.
  abbrev pub Terminated : Stream → Stream → Type 0
  Terminated raw conn = (pc : Replayed) × ((pending pc ≡ raw.bytes) × (tls_server pc ≡ inl conn))

  abbrev pub Way : Stream → Verdict → Type 0
  Way raw dropped = Unit {0}
  Way raw (spliced pc upstream) =
      (pending pc ≡ raw.bytes)
      × ((sni : List ℕ) × (((peek_client_hello_sni raw).0 ≡ ok sni)
            × ((server_name_allowed cfg equal_fold tls_server dial accepting sni ≡ false)
                × (dial cfg.passthrough ≡ inl upstream))))
  Way raw (proxied client upstream) =
      (conn : Stream) × (Terminated raw conn
        × ((fresh : Sink) × ((dial cfg.fallback ≡ inl fresh)
              × ((consumed : List ℕ) × ((upstream.sent ≡ fresh.sent ++ consumed)
                    × (consumed ++ client.bytes ≡ conn.bytes))))))
  Way raw (tunnelled client) =
      (conn : Stream) × (Terminated raw conn
        × ((cfg.token ≢ []) × (conn.bytes ≡ cfg.token ++ client.bytes)))

  replayed_to-Way :
      (raw : Stream) (consumed : List ℕ) (conn client : Stream) (fresh : Sink)
      (r : Option Error × Sink)
      → Terminated raw conn
      → dial cfg.fallback ≡ inl fresh
      → consumed ++ client.bytes ≡ conn.bytes
      → Wrote consumed fresh r
      → Way raw (replayed_to cfg equal_fold tls_server dial accepting client r)
  unfolding replayed_to
  replayed_to-Way raw consumed conn client fresh (none, k) t d e w =
      (conn, (t, (fresh, (d, (consumed, (w, e))))))
  replayed_to-Way raw consumed conn client fresh (some x, k) t d e w = tt

  proxy_to-Way :
      (raw : Stream) (consumed : List ℕ) (conn client : Stream) (r : Sink ⊎ Error)
      → Terminated raw conn
      → dial cfg.fallback ≡ r
      → consumed ++ client.bytes ≡ conn.bytes
      → Way raw (proxy_to cfg equal_fold tls_server dial accepting consumed client r)
  unfolding proxy_to
  proxy_to-Way raw [] conn client (inr e) t d k = tt
  proxy_to-Way raw (b ∷ bs) conn client (inr e) t d k = tt
  proxy_to-Way raw [] conn client (inl up) t d k =
      (conn, (t, (up, (d, ([], (sym (append-nil up.sent), k))))))
  proxy_to-Way raw (b ∷ bs) conn client (inl up) t d k =
      replayed_to-Way raw (b ∷ bs) conn client up (base_write (b ∷ bs) up) t d k
        (base_write-Wrote (b ∷ bs) up)

  reverse_proxy-Way :
      (raw : Stream) (addr consumed : List ℕ) (conn client : Stream)
      → addr ≡ cfg.fallback
      → Terminated raw conn
      → consumed ++ client.bytes ≡ conn.bytes
      → Way raw (reverse_proxy cfg equal_fold tls_server dial accepting addr client consumed)
  unfolding reverse_proxy
  reverse_proxy-Way raw [] consumed conn client a t k = tt
  reverse_proxy-Way raw (b ∷ addr) consumed conn client a t k =
      proxy_to-Way raw consumed conn client (dial (b ∷ addr)) t (ap dial (sym a)) k

  authed-token :
      (r : Outcome (List ℕ))
      → authed cfg equal_fold tls_server dial accepting r ≡ true
      → (r ≡ ok cfg.token) × (cfg.token ≢ [])
  unfolding authed
  authed-token (err e) h = absurd (cc)
  authed-token panic h = absurd (cc)
  authed-token stuck h = absurd (cc)
  authed-token (ok tok) h =
      let long : ltb 0 (length cfg.token) ≡ true = ground (arith) in
      let same : hmac_equal tok cfg.token ≡ true = ground (arith) in
      (ap ok (hmac_equal-eq tok cfg.token same), λ e. let short = rw e at long in absurd (cc))

  check_token-Way :
      (raw conn : Stream)
      → Terminated raw conn
      → Way raw (check_token cfg equal_fold tls_server dial accepting conn)
  unfolding check_token
  check_token-Way raw conn t =
      let (r, client) = read_full (length cfg.token) conn in
      elim (Bool-cases (authed cfg equal_fold tls_server dial accepting r)) [
        | inl yes_token ↦
            let (is_token, filled) = authed-token r yes_token in
            let split = read_full-split (length cfg.token) conn cfg.token is_token in
            elim (Bool-cases accepting) [
              | inl a ↦ rw (yes_token, a) (conn, (t, (filled, split)))
              | inr a ↦ rw (yes_token, a) tt
            ]
        | inr probe ↦ rw probe (
            reverse_proxy-Way raw cfg.fallback (take (length cfg.token) conn.bytes) conn client refl
              t (taken (length cfg.token) conn))
      ]

  handshaken-Way :
      (raw : Stream) (pc : Replayed) (x : Stream ⊎ Error)
      → pending pc ≡ raw.bytes
      → tls_server pc ≡ x
      → Way raw (handshaken cfg equal_fold tls_server dial accepting x)
  unfolding handshaken
  handshaken-Way raw pc (inl conn) e h = check_token-Way raw conn (pc, (e, h))
  handshaken-Way raw pc (inr x) e h = tt

  terminate-Way :
      (raw : Stream) (pc : Replayed)
      → pending pc ≡ raw.bytes
      → Way raw (terminate cfg equal_fold tls_server dial accepting pc)
  unfolding terminate
  terminate-Way raw pc e = handshaken-Way raw pc (tls_server pc) e refl

  pass_through-Way :
      (raw : Stream) (pc : Replayed) (sni addr : List ℕ)
      → pending pc ≡ raw.bytes
      → (peek_client_hello_sni raw).0 ≡ ok sni
      → server_name_allowed cfg equal_fold tls_server dial accepting sni ≡ false
      → addr ≡ cfg.passthrough
      → Way raw (pass_through cfg equal_fold tls_server dial accepting addr pc)
  unfolding pass_through
  pass_through-Way raw pc sni [] e p f a = tt
  pass_through-Way raw pc sni (b ∷ addr) e p f a = splice_to-Way (dial (b ∷ addr)) refl
    where
      splice_to-Way :
          (r : Sink ⊎ Error)
          → dial (b ∷ addr) ≡ r
          → Way raw (splice_to cfg equal_fold tls_server dial accepting pc r)
      splice_to-Way (inl upstream) h = (e, (sni, (p, (f, ap dial (sym a) ∙ h))))
      splice_to-Way (inr x) h = tt

  abbrev pub Handled : Stream → Outcome Verdict → Type 0
  Handled raw (ok v) = Way raw v
  Handled raw (err e) = ⊥
  Handled raw panic = ⊥
  Handled raw stuck = ⊥

  on_sni-Handled :
      (raw : Stream) (r : Outcome (List ℕ) × Tee)
      → peek_client_hello_sni raw ≡ r
      → Ended (λ _ t. Holds raw.bytes t) (Holds raw.bytes) r
      → Handled raw (on_sni cfg equal_fold tls_server dial accepting r)
  unfolding on_sni
  on_sni-Handled raw (ok sni, t) e (ended_ok h) =
      let pc : Replayed = record { prefix = t.buf; conn = t.reader } in
      elim (Bool-cases (server_name_allowed cfg equal_fold tls_server dial accepting sni)) [
        | inl allowed ↦ rw allowed (terminate-Way raw pc h)
        | inr other ↦
            rw other (pass_through-Way raw pc sni cfg.passthrough h (ap (λ p. p.0) e) other refl)
      ]
  on_sni-Handled raw (err x, t) e (ended_err h) =
      terminate-Way raw (record { prefix = t.buf; conn = t.reader }) h
  on_sni-Handled raw (panic, t) e h = elim h [ ]
  on_sni-Handled raw (stuck, t) e h = elim h [ ]

  route-Handled :
      (names : List (List ℕ)) (raw : Stream)
      → Handled raw (route cfg equal_fold tls_server dial accepting names raw)
  unfolding route
  route-Handled [] raw = terminate-Way raw (record { prefix = []; conn = raw }) refl
  route-Handled (n ∷ ns) raw =
      on_sni-Handled raw (peek_client_hello_sni raw) refl (peek_client_hello_sni-Ended raw)

  -- Every connection is handled. One that is spliced to Passthrough has an SNI that is not allowed,
  -- and still delivers all of its bytes. One that is proxied has sent to Fallback, in order, what
  -- was consumed of the TLS connection, and the rest is still to be read. One that reaches Accept
  -- has begun with the token, which is not empty, and the rest is still to be read.
  pub handle-Handled :
      (raw : Stream) → Handled raw (handle cfg equal_fold tls_server dial accepting raw)
  unfolding handle
  handle-Handled raw = route-Handled cfg.server_names raw
