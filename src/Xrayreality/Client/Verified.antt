-- ===== src/Xrayreality/Client/Verified.antt =====
-- What a tunnel of Client stands for, and how Dialer ends.
use obfs.Base.{
  ℕ, List, [], ◌∷◌, Bool, true, false, Bool-cases, Option, none, some, Error, Outcome, ok, err,
  panic, stuck, from_call, ◌⊎◌, inl, inr, ◌≡◌, refl, ap, Returns, length,
}
use obfs.Act.{Ended, ended_ok, ended_err, Ended-and_then}
use obfs.Link.{Link, connected, IsGone, net_call, answered, settle, dial_with-Ended}
use obfs.Xreality.Crypto.{Crypto}
use obfs.Xreality.Channel.{hmac_equal}
use obfs.Xreality.Channel.Mutual.{hmac_equal-eq}
use obfs.Xrayreality.{
  ClientHello, ClientConfig, Tunnel, Certificate, seal_hello, verify, verify_key, verify_parsed,
  err_not_verified,
}
use obfs.Xrayreality.Total.{seal_hello-Returns}
use obfs.Xrayreality.Client.{
  UTls, ended_with, checked, called_back, shake, finish, seal_now, client_steps, client_named,
  client, dialer,
}

module _ (c : Crypto) (parse_certificate : List ℕ → Certificate ⊎ Error) where
  -- The first certificate holds an Ed25519 key, and its signature is the HMAC of that key.
  abbrev pub IsSigned : List ℕ → List (List ℕ) → Type 0
  IsSigned auth_key certs =
      (cert : List ℕ) × ((more : List (List ℕ)) × ((parsed : Certificate) × ((key : List ℕ)
            × ((certs ≡ cert ∷ more)
                × ((parse_certificate cert ≡ inl parsed)
                    × ((parsed.ed25519_key ≡ some key)
                        × (c.hmac_sha512 auth_key key ≡ parsed.signature)))))))

  verify_key-Signed :
      (auth_key : List ℕ) (cert : Certificate) (k : Option (List ℕ))
      → verify_key c parse_certificate auth_key cert k ≡ none
      → (key : List ℕ) × ((k ≡ some key) × (c.hmac_sha512 auth_key key ≡ cert.signature))
  unfolding verify_key
  verify_key-Signed auth_key cert none h = absurd (cc)
  verify_key-Signed auth_key cert (some key) h =
      elim (Bool-cases (hmac_equal (c.hmac_sha512 auth_key key) cert.signature)) [
        | inl same ↦ (key, (refl, hmac_equal-eq _ _ same))
        | inr differs ↦ let bad : some err_not_verified ≡ none = rw differs at h in absurd (cc)
      ]

  verify_parsed-Signed :
      (auth_key cert : List ℕ) (more : List (List ℕ)) (r : Certificate ⊎ Error)
      → parse_certificate cert ≡ r
      → verify_parsed c parse_certificate auth_key r ≡ none
      → IsSigned auth_key (cert ∷ more)
  unfolding verify_parsed
  verify_parsed-Signed auth_key cert more (inr e) p h = absurd (cc)
  verify_parsed-Signed auth_key cert more (inl parsed) p h =
      let (key, (is_key, signed)) = verify_key-Signed auth_key parsed parsed.ed25519_key h in
      (cert, (more, (parsed, (key, (refl, (p, (is_key, signed)))))))

  verify-Signed :
      (auth_key : List ℕ) (certs : List (List ℕ))
      → verify c parse_certificate auth_key certs ≡ none
      → IsSigned auth_key certs
  unfolding verify
  verify-Signed auth_key [] h = absurd (cc)
  verify-Signed auth_key (cert ∷ certs) h =
      verify_parsed-Signed auth_key cert certs (parse_certificate cert) refl h

module _ {W : Type 0} (c : Crypto) (parse_certificate : List ℕ → Certificate ⊎ Error)
    (utls : UTls W) (unix_time : W → ℕ) (cfg : ClientConfig) where
  -- The handshake over the ClientHello with the sealed session ID has presented such certificates.
  abbrev pub IsVerified : Tunnel → Type 0
  IsVerified t =
      (w : W) × ((certs : List (List ℕ)) × (((utls.handshake t.hello w).0.presented ≡ some certs)
          × IsSigned c parse_certificate t.auth_key certs))

  abbrev pub IsSealed : Tunnel → Type 0
  IsSealed t =
      (peer : List ℕ) × ((now : ℕ) × ((hello : ClientHello) × ((c.new_public_key cfg.server_key
              ≡ inl peer)
            × (seal_hello c cfg now peer hello ≡ ok t))))

  abbrev WhenTrue : Bool → Type 0 → Type 0
  WhenTrue true P = P
  WhenTrue false P = Unit {0}

  called_back-Ended :
      (t : Tunnel) (w : W) (s : Link W) (p : Option (List (List ℕ))) (f : Option Error)
      → (utls.handshake t.hello w).0.presented ≡ p
      → s.socket ≡ connected
      → Ended
          (λ b s'. WhenTrue b (IsVerified t) × (s'.socket ≡ connected))
          (λ _. Unit {0})
          (called_back c parse_certificate utls unix_time cfg t.auth_key p f, s)
  unfolding called_back ended_with checked
  called_back-Ended t w s none none e k = ended_ok (tt, k)
  called_back-Ended t w s none (some x) e k = ended_err tt
  called_back-Ended t w s (some certs) f e k =
      checked-Ended f (verify c parse_certificate t.auth_key certs) refl
    where
      checked-Ended :
          (f : Option Error) (v : Option Error)
          → verify c parse_certificate t.auth_key certs ≡ v
          → Ended
              (λ b s'. WhenTrue b (IsVerified t) × (s'.socket ≡ connected))
              (λ _. Unit {0})
              (checked c parse_certificate utls unix_time cfg v f, s)
      checked-Ended none none h =
          ended_ok ((w, (certs, (e, verify-Signed c parse_certificate t.auth_key certs h))), k)
      checked-Ended (some x) none h = ended_err tt
      checked-Ended f (some x) h = ended_err tt

  -- A ClientHello's random has 32 bytes, so no slice of it and no nonce has a wrong size.
  abbrev pub BuildsRandoms : Type 0
  BuildsRandoms =
      (w : W) (hello : ClientHello) → (utls.build w).0 ≡ inl hello → length hello.random ≡ 32

  shake-Ended :
      (t : Tunnel) (s : Link W)
      → s.socket ≡ connected
      → Ended
          (λ b s'. WhenTrue b (IsVerified t) × (s'.socket ≡ connected))
          (λ _. Unit {0})
          (shake c parse_certificate utls unix_time cfg t s)
  unfolding shake
  shake-Ended t s k =
      let (h, w) = utls.handshake t.hello s.world in
      called_back-Ended t s.world (record s { world = w }) h.presented h.failure refl k

  abbrev pub IsGood : Tunnel → Link W → Type 0
  IsGood t s = IsSealed t × IsVerified t × (s.socket ≡ connected) × (s.deadline ≡ none)

  finish-Ended :
      (t : Tunnel) (b : Bool) (s : Link W)
      → IsSealed t
      → WhenTrue b (IsVerified t) × (s.socket ≡ connected)
      → Ended IsGood (λ _. Unit {0}) (finish c parse_certificate utls unix_time cfg t b s)
  unfolding finish
  finish-Ended t true s sealed (v, k) = ended_ok (sealed, v, k, refl)
  finish-Ended t false s sealed (v, k) = ended_err tt

  seal-Ended :
      (s : Link W) (o : Outcome Tunnel) (P : Tunnel → Type 0)
      → Returns o
      → s.socket ≡ connected
      → ((t : Tunnel) → o ≡ ok t → P t)
      → Ended (λ t s'. P t × (s'.socket ≡ connected)) (λ _. Unit {0}) (o, s)
  seal-Ended s (ok t) P r k h = ended_ok (h t refl, k)
  seal-Ended s (err e) P r k h = ended_err tt
  seal-Ended s panic P r k h = absurd (r.1 refl)
  seal-Ended s stuck P r k h = absurd (r.0 refl)

  client_steps-Ended :
      (s : Link W)
      → BuildsRandoms
      → s.socket ≡ connected
      → Ended IsGood (λ _. Unit {0}) (client_steps c parse_certificate utls unix_time cfg s)
  unfolding client_steps seal_now
  client_steps-Ended s randoms k =
      Ended-and_then
        {Mid = λ peer s'. (c.new_public_key cfg.server_key ≡ inl peer) × (s'.socket ≡ connected)}
        (key-Ended (c.new_public_key cfg.server_key) refl)
        (λ peer s₁ h₁.
          Ended-and_then {A = Unit {0}} {Mid = λ _ s'. s'.socket ≡ connected} (ended_ok h₁.1)
            (λ _ s₂ h₂. Ended-and_then (built-Ended s₂ h₂) (λ hello s₃ h₃.
              Ended-and_then
                (seal-Ended s₃ (seal_hello c cfg (unix_time s₃.world) peer hello) IsSealed
                  (seal_hello-Returns c cfg (unix_time s₃.world) peer hello h₃.0) h₃.1
                  (λ t e. (peer, (unix_time s₃.world, (hello, (h₁.0, e))))))
                (λ t s₄ h₄.
                  Ended-and_then (shake-Ended t s₄ h₄.1)
                    (λ b s₅ h₅. finish-Ended t b s₅ h₄.0 h₅)))))
    where
      key-Ended :
          (r : List ℕ ⊎ Error)
          → c.new_public_key cfg.server_key ≡ r
          → Ended
              (λ peer s'. (c.new_public_key cfg.server_key ≡ inl peer) × (s'.socket ≡ connected))
              (λ _. Unit {0})
              (settle (from_call r) s)
      key-Ended (inl peer) e = ended_ok (e, k)
      key-Ended (inr x) e = ended_err tt

      built-Ended :
          (s' : Link W)
          → s'.socket ≡ connected
          → Ended
              (λ hello s''. (length hello.random ≡ 32) × (s''.socket ≡ connected))
              (λ _. Unit {0})
              (net_call utls.build s')
      built-Ended s' k' = answered-Ended (utls.build s'.world) refl
        where
          answered-Ended :
              (r : (ClientHello ⊎ Error) × W)
              → utls.build s'.world ≡ r
              → Ended
                  (λ hello s''. (length hello.random ≡ 32) × (s''.socket ≡ connected))
                  (λ _. Unit {0})
                  (answered r s')
          answered-Ended (inl hello, w) e = ended_ok (randoms s'.world hello (ap (λ p. p.0) e), k')
          answered-Ended (inr x, w) e = ended_err tt

  client-Ended :
      (s : Link W)
      → BuildsRandoms
      → s.socket ≡ connected
      → Ended IsGood (λ _. Unit {0}) (client c parse_certificate utls unix_time cfg s)
  unfolding client client_named
  client-Ended s randoms k = named-Ended cfg.server_name
    where
      named-Ended :
          (name : List ℕ)
          → Ended IsGood
              (λ _. Unit {0})
              (client_named c parse_certificate utls unix_time cfg name s)
      named-Ended [] = ended_err tt
      named-Ended (b ∷ bs) = client_steps-Ended s randoms k

  -- A connection that Dialer returns has sent a ClientHello with a session ID sealed for the
  -- configured key, its server has presented a certificate that is signed with the auth key of that
  -- ClientHello, and it is open, without a deadline; on an error no connection is left open. uTLS
  -- builds randoms of 32 bytes.
  pub dialer-Ended :
      (dial : W → Option Error × W) (w : W)
      → BuildsRandoms
      → Ended IsGood (λ s. IsGone s.socket) (dialer c parse_certificate utls unix_time cfg dial w)
  unfolding dialer
  dialer-Ended dial w randoms = dial_with-Ended IsGood dial _ w (λ s k. client-Ended s randoms k)
