-- ===== src/Xreality/Server/Laws.antt =====
-- The decision on any bytes, and on the ClientHello of a client of this package.
use obfs.Base.{
  ℕ, ◌<◌, ◌^◌, ◌≡◌, refl, ap, ◌∙◌, ◌∷◌, List, [], ◌++◌, map, length, Bool, true, Option, none, some,
  ℤ, All, inl, inr,
}
use obfs.Base.{Outcome, ok, Returns, Returns-ok, Returns-bind, Returns-if, ◌⊎◌}
use obfs.Hello.{first_host, first_x25519, ClientHello, handshake_bytes, record_bytes, IsClientHello}
use obfs.Xreality.Parse.{ClientHelloInfo, parse_client_hello}
use obfs.Xreality.Parse.Total.{parse_client_hello-Returns}
use obfs.Xreality.Parse.Finds.{
  Content, server_names, key_shares, unread, noted, content_extension, IsContent, described,
}
use obfs.Xreality.Parse.Record.{info_of, parse_client_hello-info}
use obfs.Xreality.Crypto.{Crypto}
use obfs.Xreality.Auth.{padded, in_window, accepted, server_authenticate, client_session_id}
use obfs.Xreality.Auth.Agree.{server_authenticate-client_session_id}
use obfs.Xreality.Auth.Sound.{
  server_authenticate-answers, server_authenticate-IsAuthentic, length-IsAuthentic,
}
use obfs.Xreality.Server.{decision, not_ours, decide, authenticate}

described-fixed :
    (cs : List Content) (info : ClientHelloInfo)
    → ((described cs info).random ≡ info.random)
      × ((described cs info).session_id ≡ info.session_id)
unfolding described noted
described-fixed [] info = (refl, refl)
described-fixed (server_names ns ∷ cs) info =
    described-fixed cs (record info { server_name = first_host ns })
described-fixed (key_shares ks ∷ cs) info =
    described-fixed cs (record info { x25519 = first_x25519 ks })
described-fixed (unread kind body ∷ cs) info = described-fixed cs info

answers-Returns :
    (o : Outcome (Option (List ℕ)))
    → (o ≡ ok none) ⊎ ((key : List ℕ) × (o ≡ ok (some key)))
    → Returns o
answers-Returns o (inl e) = rw e (Returns-ok none)
answers-Returns o (inr (key, e)) = rw e (Returns-ok (some key))

module _ (c : Crypto) (accept : Option (List ℕ → Bool)) (skew : ℤ) (since : ℕ → ℤ)
    (server_priv : List ℕ) where
  decide-Returns : (info : ClientHelloInfo) → Returns (decide c accept skew since server_priv info)
  unfolding decide
  decide-Returns info = Returns-if (not_ours info) _ _ (Returns-ok (decision info none)) λ _.
      Returns-bind
        (server_authenticate c accept skew since server_priv info.x25519 info.random
          info.session_id)
        _
        (answers-Returns _ (
          server_authenticate-answers c accept skew since server_priv info.x25519 info.random
            info.session_id))
        λ r _. Returns-ok (decision info r)

  -- On any bytes Authenticate returns a decision or an error.
  pub authenticate-Returns :
      (bytes : List ℕ) → Returns (authenticate c accept skew since server_priv bytes)
  unfolding authenticate
  authenticate-Returns bytes =
      Returns-bind (parse_client_hello bytes) _ (parse_client_hello-Returns bytes)
        (λ info _. decide-Returns info)

  decide-authentic :
      (info : ClientHelloInfo) (key : List ℕ)
      → length info.x25519 ≡ 32
      → length info.session_id ≡ 32
      → length info.random ≡ 32
      → server_authenticate c accept skew since server_priv info.x25519 info.random info.session_id
        ≡ ok (some key)
      → decide c accept skew since server_priv info ≡ ok (decision info (some key))
  unfolding decide
  decide-authentic info key x s r h = rw (x, s, r, h)

  -- A ClientHello that carries a session ID of ClientSessionID, made for this server with the
  -- message's random and with the private key of its X25519 share, is authenticated under the
  -- client's auth key, if the time is in the window and the padded short ID is accepted.
  pub authenticate-client :
      (major minor : ℕ) (h : ClientHello) (cs : List Content) (rest ephemeral id key : List ℕ)
      (now : ℕ)
      → h.extensions ≡ map content_extension cs
      → IsClientHello h
      → All IsContent cs
      → length (handshake_bytes h) < 65536
      → (info_of h cs).x25519 ≡ c.public_key ephemeral
      → now < 2 ^ 64
      → in_window skew (since now) ≡ true
      → accepted accept (padded id) ≡ true
      → client_session_id c (c.public_key server_priv) ephemeral h.random id now
        ≡ ok (h.session_id, key)
      → authenticate c accept skew since server_priv (record_bytes major minor h ++ rest)
        ≡ ok (decision (info_of h cs) (some key))
  unfolding authenticate
  authenticate-client major minor h cs rest ephemeral id key now e v w small x t win adm made =
      let info : ClientHelloInfo = info_of h cs in
      let (random, session) =
        described-fixed cs (record {
          random = h.random;
          session_id = h.session_id;
          server_name = [];
          x25519 = [];
        }) in
      let agreed =
        server_authenticate-client_session_id c accept skew since server_priv ephemeral h.random id
          h.session_id key now t win adm made in
      let session_size =
        length-IsAuthentic c accept skew since server_priv (c.public_key ephemeral) h.random
          h.session_id key
          (server_authenticate-IsAuthentic c accept skew since server_priv (c.public_key ephemeral)
            h.random h.session_id key agreed) in
      let share_size : length info.x25519 ≡ 32 = ap length x ∙ c.length-public_key ephemeral in
      rw (parse_client_hello-info major minor h cs rest e v w small) (
        decide-authentic info key share_size (ap length session ∙ session_size)
          (ap length random ∙ v.random_size) (rw (x, random, session) agreed))
