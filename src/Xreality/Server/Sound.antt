-- ===== src/Xreality/Server/Sound.antt =====
-- What it takes to be authenticated by Authenticate.
use obfs.Base.{
  ℕ, ◌≡◌, ap, ◌∙◌, refl, List, Bool, true, Bool-cases, Option, none, some, ℤ, inl, inr, ok, bind-ok,
  ok-injective,
}
use obfs.Xreality.Parse.{ClientHelloInfo, parse_client_hello}
use obfs.Xreality.Crypto.{Crypto}
use obfs.Xreality.Auth.{server_authenticate}
use obfs.Xreality.Auth.Sound.{IsAuthentic, server_authenticate-IsAuthentic}
use obfs.Xreality.Server.{Decision, decision, not_ours, decide, authenticate}

decision-key :
    (info : ClientHelloInfo) (k : Option (List ℕ)) (d : Decision)
    → decision info k ≡ d
    → d.authenticated ≡ true
    → k ≡ some d.auth_key
decision-key info none d e h = absurd (cc)
decision-key info (some key) d e h = ap some (ap Decision.auth_key e)

module _ (c : Crypto) (accept : Option (List ℕ → Bool)) (skew : ℤ) (since : ℕ → ℤ)
    (server_priv : List ℕ) where
  -- The bytes parse as a ClientHello, and its fields are authentic under the key.
  pub record IsOurs (bytes key : List ℕ) : Type 0 where
    pub info : ClientHelloInfo
    pub parsed : parse_client_hello bytes ≡ ok info
    pub authentic :
        IsAuthentic c accept skew since server_priv info.x25519 info.random info.session_id key

  decide-key :
      (info : ClientHelloInfo) (d : Decision)
      → decide c accept skew since server_priv info ≡ ok d
      → d.authenticated ≡ true
      → server_authenticate c accept skew since server_priv info.x25519 info.random info.session_id
        ≡ ok (some d.auth_key)
  unfolding decide
  decide-key info d h a = elim (Bool-cases (not_ours info)) [
    | inl foreign ↦
        let e : ok (decision info none) ≡ ok d = rw foreign at h in
        absurd (none_is_some (decision-key info none d (ok-injective refl e) a))
    | inr ours ↦
        let (k, (x, y)) =
          bind-ok
            (server_authenticate c accept skew since server_priv info.x25519 info.random
              info.session_id)
            (λ k. ok (decision info k)) d (rw ours at h) in
        x ∙ ap ok (decision-key info k d (ok-injective refl y) a)
  ]
    where
      none_is_some : {k : List ℕ} → none ≡ some k → ⊥
      none_is_some e = cc

  -- An authenticated decision rests on a ClientHello whose session ID opens, under the key of the
  -- exchange with its X25519 share, to a time in the window and an accepted short ID.
  pub authenticate-IsOurs :
      (bytes : List ℕ) (d : Decision)
      → authenticate c accept skew since server_priv bytes ≡ ok d
      → d.authenticated ≡ true
      → IsOurs bytes d.auth_key
  unfolding authenticate
  authenticate-IsOurs bytes d h a =
      let (info, (p, q)) =
        bind-ok (parse_client_hello bytes) (decide c accept skew since server_priv) d h in
      record {
        info = info;
        parsed = p;
        authentic =
            server_authenticate-IsAuthentic c accept skew since server_priv info.x25519 info.random
              info.session_id d.auth_key (decide-key info d q a);
      }
