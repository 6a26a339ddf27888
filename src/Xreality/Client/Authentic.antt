-- ===== src/Xreality/Client/Authentic.antt =====
-- What a connection of xreality's Client stands for, and how Dialer ends.
use obfs.Base.{
  ℕ, ◌≡◌, ap, refl, List, Option, none, some, Error, Outcome, ok, err, panic, stuck, ◌⊎◌, inl, inr,
  Returns, Returns-ok, Returns-err, Returns-if, not, true, Bool-cases, ok-injective,
}
use obfs.Act.{or_fail, Ended, ended_ok, ended_err, Ended-and_then, Ended-cleaned}
use obfs.Link.{Link, connected, IsGone, hang_up, answered, net_call, dial_with-Ended}
use obfs.Tlscamo.{alpn_or_default}
use obfs.Xreality.Crypto.{Crypto}
use obfs.Xreality.Auth.{client_session_id}
use obfs.Xreality.Auth.Agree.{client_session_id-Returns}
use obfs.Xreality.Channel.{TlsConn, server_tag, client_channel_auth}
use obfs.Xreality.Channel.Mutual.{Proved, client_channel_auth-Proved}
use obfs.Xreality.Channel.Total.{client_channel_auth-Returns}
use obfs.Xreality.Client.{
  err_no_x25519, ClientConfig, HelloShare, HandshakeState, UTls, has_x25519_share, ephemeral_of,
  session_now, client_steps, client, dialer,
}

-- A computation that needs no state.
settle-Ended :
    {W A : Type 0} (P : A → Type 0) (o : Outcome A) (s : Link W)
    → Returns o
    → s.socket ≡ connected
    → ((a : A) → o ≡ ok a → P a)
    → Ended (λ a s'. P a × (s'.socket ≡ connected) × (s'.world ≡ s.world)) (λ _. Unit {0}) (o, s)
settle-Ended P (ok a) s r k h = ended_ok (h a refl, k, refl)
settle-Ended P (err e) s r k h = ended_err tt
settle-Ended P panic s r k h = absurd (r.1 refl)
settle-Ended P stuck s r k h = absurd (r.0 refl)

-- A call of uTLS, in the world as it is.
net_call-Ended :
    {W A : Type 0} (f : W → (A ⊎ Error) × W) (s : Link W)
    → s.socket ≡ connected
    → Ended
        (λ a s'. (f s.world ≡ (inl a, s'.world)) × (s'.socket ≡ connected))
        (λ _. Unit {0})
        (net_call f s)
net_call-Ended {W = W} {A = A} f s k = answered-Ended (f s.world) refl
  where
    answered-Ended :
        (r : (A ⊎ Error) × W)
        → f s.world ≡ r
        → Ended
            (λ a s'. (f s.world ≡ (inl a, s'.world)) × (s'.socket ≡ connected))
            (λ _. Unit {0})
            (answered r s)
    answered-Ended (inl a, w) e = ended_ok (e, k)
    answered-Ended (inr x, w) e = ended_err tt

or_fail-inl :
    {W : Type 0} (r : Option Error × W) (a : Unit {0}) (w : W)
    → ◌≡◌ {A = (Unit {0} ⊎ Error) × W} (or_fail r.0, r.1) (inl a, w)
    → ◌≡◌ {A = Option Error × W} r (none, w)
or_fail-inl (none, v) a w h = ap (λ x. (none, x.1)) h
or_fail-inl (some e, v) a w h = let bad : inr e ≡ inl a = ap (λ x. x.0) h in absurd (cc)

module _ {W : Type 0} (c : Crypto) (utls : UTls W) (unix_time : W → ℕ) (cfg : ClientConfig) where
  ephemeral_of-Returns :
      (shares : List HelloShare) (e : Option (List ℕ))
      → Returns (ephemeral_of c utls unix_time cfg shares e)
  unfolding ephemeral_of
  ephemeral_of-Returns shares none = Returns-err err_no_x25519
  ephemeral_of-Returns shares (some e) =
      Returns-if (not (has_x25519_share shares (c.public_key e))) _ _ (Returns-err err_no_x25519)
        (λ _. Returns-ok e)

  ephemeral_of-ok :
      (shares : List HelloShare) (o : Option (List ℕ)) (e : List ℕ)
      → ephemeral_of c utls unix_time cfg shares o ≡ ok e
      → (o ≡ some e) × (has_x25519_share shares (c.public_key e) ≡ true)
  unfolding ephemeral_of
  ephemeral_of-ok shares none e h = absurd (cc)
  ephemeral_of-ok shares (some x) e h =
      elim (Bool-cases (has_x25519_share shares (c.public_key x))) [
        | inl has ↦ let same : x ≡ e = ok-injective refl (rw has at h) in rw (← same) (refl, has)
        | inr lacks ↦ let bad : err err_no_x25519 ≡ ok e = rw lacks at h in absurd (cc)
      ]

  -- How such a connection has come about: a ClientHello was built; a session ID was made from its
  -- ephemeral key, whose share it offers, its random and the time, and marshalled into it; the
  -- handshake then gave the TLS connection, and the server's proof came first on it, under the auth
  -- key of that session ID.
  pub record IsAuthentic (u' : TlsConn) : Type 0 where
    pub hello : HandshakeState
    pub before : W
    pub built : W
    pub marshalled : W
    pub e : List ℕ
    pub token : List ℕ × List ℕ
    pub u : TlsConn
    pub builds :
        utls.build cfg.server_name (alpn_or_default cfg.next_protos) before ≡ (inl hello, built)
    pub ephemeral : hello.ecdhe ≡ some e
    pub offered : has_x25519_share hello.key_shares (c.public_key e) ≡ true
    pub session_id :
        client_session_id c cfg.server_public_key e hello.random cfg.cohort (unix_time built)
        ≡ ok token
    pub marshals : utls.marshal token.0 built ≡ (none, marshalled)
    pub shakes : (utls.handshake marshalled).0 ≡ inl u
    pub proves : Proved c token.1 server_tag u u'

  abbrev pub IsGood : TlsConn → Link W → Type 0
  IsGood u s = IsAuthentic u × (s.socket ≡ connected) × (s.deadline ≡ none)

  client-Ended :
      (s : Link W)
      → s.socket ≡ connected
      → Ended IsGood (λ _. Unit {0}) (client c utls unix_time cfg s)
  unfolding client client_steps session_now
  client-Ended s k = Ended-and_then (net_call-Ended (utls.build _ _) _ k) (λ hello s₁ h₁.
      Ended-and_then
        (settle-Ended _ _ s₁ (ephemeral_of-Returns hello.key_shares hello.ecdhe) h₁.1
          (ephemeral_of-ok hello.key_shares hello.ecdhe))
        (λ e s₂ h₂.
          Ended-and_then
            (settle-Ended
              (λ t.
                client_session_id c cfg.server_public_key e hello.random cfg.cohort
                  (unix_time s₂.world)
                ≡ ok t)
              _ s₂
              (client_session_id-Returns c cfg.server_public_key e hello.random cfg.cohort
                (unix_time s₂.world))
              h₂.1 (λ _ x. x))
            (λ token s₃ h₃.
              Ended-and_then
                (net_call-Ended (λ w. let (r, w') = utls.marshal token.0 w in (or_fail r, w')) s₃
                  h₃.1)
                (λ _ s₄ h₄. Ended-and_then (net_call-Ended utls.handshake s₄ h₄.1) (λ u s₅ h₅.
                  Ended-and_then
                    (Ended-cleaned hang_up
                      (settle-Ended (λ u'. client_channel_auth c token.1 u ≡ ok u') _ s₅
                        (client_channel_auth-Returns c token.1 u) h₅.1 (λ _ x. x))
                      (λ _ _. tt))
                    (λ u' s₆ h₆. ended_ok (
                      record {
                        hello = hello;
                        before = s.world;
                        built = s₁.world;
                        marshalled = s₄.world;
                        e = e;
                        token = token;
                        u = u;
                        builds = h₁.0;
                        ephemeral = h₂.0.0;
                        offered = h₂.0.1;
                        session_id = rw h₂.2 at h₃.0;
                        marshals =
                            or_fail-inl (utls.marshal token.0 s₁.world) _ s₄.world
                              (rw (h₃.2, h₂.2) at h₄.0);
                        shakes = ap (λ x. x.0) h₅.0;
                        proves = client_channel_auth-Proved c token.1 u u' h₆.0;
                      },
                      h₆.1,
                      refl,
                    )))))))

  -- A connection that Dialer returns is open, without a deadline; its ClientHello was built for the
  -- configured name, offers its ephemeral key's share, and was marshalled with a session ID made
  -- from that key and its random for the configured server key; the handshake ran on what that has
  -- left; and the connection's first bytes were the server's proof over what the channel has
  -- exported, under the auth key of that session ID. On an error no connection is left open.
  pub dialer-Authentic :
      (dial : W → Option Error × W) (w : W)
      → Ended IsGood (λ s. IsGone s.socket) (dialer c utls unix_time cfg dial w)
  unfolding dialer
  dialer-Authentic dial w = dial_with-Ended IsGood dial _ w (λ s k. client-Ended s k)
