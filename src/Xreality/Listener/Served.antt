-- ===== src/Xreality/Listener/Served.antt =====
-- A client with the server's public key and a short ID of a cohort reaches Accept.
use obfs.Base.{
  ℕ, ◌≤◌, ◌<◌, ◌^◌, ◌≡◌, refl, List, [], ◌∷◌, ◌++◌, append-nil, length, map, All, true, Bool-cases,
  some, ℤ, ◌⊎◌, inl, inr, arith,
}
use obfs.Base.{Error, ok}
use obfs.Wire.Laws.{stream}
use obfs.Hello.{ClientHello, IsClientHello, handshake_bytes, record_bytes}
use obfs.Xreality.Crypto.{Crypto}
use obfs.Xreality.Parse.Finds.{Content, content_extension, IsContent}
use obfs.Xreality.Parse.Record.{info_of}
use obfs.Xreality.Auth.{padded, in_window, accepted, client_session_id}
use obfs.Xreality.Server.Laws.{authenticate-client}
use obfs.Xreality.Peek.{PrefixConn}
use obfs.Xreality.Peek.Whole.{peek_record-whole}
use obfs.Xreality.Channel.{TlsConn, hmac_equal, proof, client_tag, server_tag}
use obfs.Xreality.Channel.Mutual.{hmac_equal_refl, end_of, channel_auth_mutual}
use obfs.Xreality.Listener.{
  ServerConfig, accept_short_id, tunnel, finished, secured, on_decision, route, handle,
}
use obfs.Xreality.Listener.Ways.{Configured}

-- An ID that pads to a configured one is accepted.
Configured-accept_short_id :
    (ss : List (List ℕ)) (id : List ℕ) → Configured ss id → accept_short_id ss id ≡ true
unfolding accept_short_id
Configured-accept_short_id [] id h = absurd h
Configured-accept_short_id (s ∷ ss) id (inl same) = rw (same, hmac_equal_refl id) refl
Configured-accept_short_id (s ∷ ss) id (inr more) = elim (Bool-cases (hmac_equal (padded s) id)) [
  | inl here ↦ rw here refl
  | inr other ↦ rw other (Configured-accept_short_id ss id more)
]

module _ (c : Crypto) (cfg : ServerConfig) (since : ℕ → ℤ)
    (tls_server : PrefixConn → TlsConn ⊎ Error) (key ekm : List ℕ) where
  secured-client :
      (tail : List ℕ) (e : Error)
      → secured c cfg since tls_server true key
          (inl (end_of c key ekm (proof c key client_tag ekm ++ tail) e []))
        ≡ ok (tunnel (end_of c key ekm tail e (proof c key server_tag ekm)))
  unfolding secured finished
  secured-client tail e = rw (channel_auth_mutual c key ekm tail [] e).1 refl

  -- A client gets through. Let the connection begin with a record of at most 2^14 bytes that holds a
  -- well-formed ClientHello, whose session ID ClientSessionID has made for this server, at a time in
  -- the window, with the key of the message's X25519 share and a short ID that is configured, up to
  -- padding; and let the TLS server, over the replayed record, make a connection that begins with the
  -- client's proof. Then Accept is handed what stands behind the proof, and the server's proof is sent.
  pub handle-client :
      (major minor : ℕ) (h : ClientHello) (cs : List Content) (rest ephemeral id tail : List ℕ)
      (now : ℕ) (fail e : Error)
      → h.extensions ≡ map content_extension cs
      → IsClientHello h
      → All IsContent cs
      → length (handshake_bytes h) ≤ 16384
      → (info_of h cs).x25519 ≡ c.public_key ephemeral
      → now < 2 ^ 64
      → in_window cfg.time_skew (since now) ≡ true
      → Configured cfg.short_ids (padded id)
      → client_session_id c (c.public_key cfg.private_key) ephemeral h.random id now
        ≡ ok (h.session_id, key)
      → tls_server (record { prefix = record_bytes major minor h; conn = stream rest fail })
        ≡ inl (end_of c key ekm (proof c key client_tag ekm ++ tail) e [])
      → handle c cfg since tls_server true (stream (record_bytes major minor h ++ rest) fail)
        ≡ ok (tunnel (end_of c key ekm tail e (proof c key server_tag ekm)))
  unfolding handle route on_decision accepted
  handle-client major minor h cs rest ephemeral id tail now fail e x v w small y t win adm made
        tls =
      let admitted = Configured-accept_short_id cfg.short_ids (padded id) adm in
      let authentic =
        authenticate-client c (some (accept_short_id cfg.short_ids)) cfg.time_skew since
          cfg.private_key major minor h cs [] ephemeral id key now x v w (omega arith) y t win
          admitted made in
      rw
        (
          peek_record-whole major minor h rest fail small,
          ← append-nil (record_bytes major minor h),
          authentic,
          append-nil (record_bytes major minor h),
          tls,
        )
        (secured-client tail e)
