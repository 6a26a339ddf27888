-- ===== src/Xreality/Auth/Sound.antt =====
-- What an accepted session ID proves, and that every failure looks alike.
use obfs.Base.{
  ℕ, ◌≡◌, refl, List, Bool, true, false, ◌&&◌, if◌then◌else◌, Option, none, some, ℤ, ◌⊎◌, inl, inr,
}
use obfs.Base.{
  Outcome, ok, err, panic, stuck, from_call, bind-ok, guard-ok, call-inl, bad_random, bad_session,
  length, ◌==◌, not, Returns, Returns-call, Returns-bind, Returns-ok,
}
use obfs.Xreality.Crypto.{Crypto}
use obfs.Xreality.Auth.{
  or_false, in_window, accepted, derive_auth_key, open_auth, admit, server_authenticate,
}
use obfs.Xreality.Auth.Agree.{eq_of_==, derive_auth_key-Returns, open_auth-Returns}

-- The key comes from the key exchange, and the token that it opens is timely and accepted.
pub record IsAuthentic (c : Crypto) (accept : Option (List ℕ → Bool)) (skew : ℤ) (since : ℕ → ℤ)
    (server_priv client_pub random sid key : List ℕ) : Type 0 where
  pub peer : List ℕ
  pub peer_of : c.new_public_key client_pub ≡ inl peer
  pub shared : List ℕ
  pub shared_of : c.ecdh server_priv peer ≡ inl shared
  pub key_of : c.hkdf_key shared random ≡ inl key
  pub token : ℕ × List ℕ
  pub opens : open_auth c key random sid ≡ ok token
  pub timely : in_window skew (since token.0) ≡ true
  pub admitted : accepted accept token.1 ≡ true

or_false-some :
    (o : Outcome (Option (List ℕ))) (key : List ℕ) → or_false o ≡ ok (some key) → o ≡ ok (some key)
unfolding or_false
or_false-some (ok r) key h = h
or_false-some (err e) key h = absurd (cc)
or_false-some panic key h = absurd (cc)
or_false-some stuck key h = absurd (cc)

or_false-answers :
    (o : Outcome (Option (List ℕ)))
    → Returns o
    → (or_false o ≡ ok none) ⊎ ((key : List ℕ) × (or_false o ≡ ok (some key)))
unfolding or_false
or_false-answers (ok none) h = inl refl
or_false-answers (ok (some key)) h = inr (key, refl)
or_false-answers (err e) h = inl refl
or_false-answers panic h = absurd (h.1 refl)
or_false-answers stuck h = absurd (h.0 refl)

gate-some :
    (a b : Bool) (key key' : List ℕ)
    → (if a && b then some key else none) ≡ some key'
    → (key ≡ key') × ((a ≡ true) × (b ≡ true))
gate-some true true key key' h = (cc, (refl, refl))
gate-some true false key key' h = absurd (cc)
gate-some false b key key' h = absurd (cc)

module _ (c : Crypto) (accept : Option (List ℕ → Bool)) (skew : ℤ) (since : ℕ → ℤ) where
  -- ServerAuthenticate answers with a key or with a plain refusal, whatever it is given.
  pub server_authenticate-answers :
      (server_priv client_pub random sid : List ℕ)
      → (server_authenticate c accept skew since server_priv client_pub random sid ≡ ok none)
        ⊎ ((key : List ℕ) × (server_authenticate c accept skew since server_priv client_pub random
                sid
              ≡ ok (some key)))
  unfolding server_authenticate
  server_authenticate-answers server_priv client_pub random sid = or_false-answers _ (
      Returns-bind (from_call (c.new_public_key client_pub)) _ (Returns-call _) λ peer _.
        Returns-bind (from_call (c.ecdh server_priv peer)) _ (Returns-call _) λ shared _.
          Returns-bind (derive_auth_key c shared random) _ (derive_auth_key-Returns c shared random)
            λ key _.
              Returns-bind (open_auth c key random sid) _ (open_auth-Returns c key random sid)
                (λ token _. Returns-ok _))

  -- A key that ServerAuthenticate returns comes from the key exchange with the client's share, and
  -- the session ID opens under it to a time in the window and an accepted short ID.
  pub server_authenticate-IsAuthentic :
      (server_priv client_pub random sid key : List ℕ)
      → server_authenticate c accept skew since server_priv client_pub random sid ≡ ok (some key)
      → IsAuthentic c accept skew since server_priv client_pub random sid key
  unfolding server_authenticate admit derive_auth_key
  server_authenticate-IsAuthentic server_priv client_pub random sid key h =
      let h₀ = or_false-some _ key h in
      let (peer, (e₁, h₁)) = bind-ok (from_call (c.new_public_key client_pub)) _ (some key) h₀ in
      let (shared, (e₂, h₂)) = bind-ok (from_call (c.ecdh server_priv peer)) _ (some key) h₁ in
      let (key', (e₃, h₃)) = bind-ok (derive_auth_key c shared random) _ (some key) h₂ in
      let (token, (e₄, h₄)) = bind-ok (open_auth c key' random sid) _ (some key) h₃ in
      let (_, e₅) = guard-ok (not (length random == 32)) bad_random _ key' e₃ in
      let gate : (if in_window skew (since token.0) && accepted accept token.1
            then some key'
            else none)
          ≡ some key =
        cc in
      let (same, (w, a)) = gate-some _ _ key' key gate in
      record {
        peer = peer;
        peer_of = call-inl _ peer e₁;
        shared = shared;
        shared_of = call-inl _ shared e₂;
        key_of = call-inl _ key (rw same at e₅);
        token = token;
        opens = rw same at e₄;
        timely = w;
        admitted = a;
      }

  -- A session ID that opens has its 32 bytes.
  pub length-IsAuthentic :
      (server_priv client_pub random sid key : List ℕ)
      → IsAuthentic c accept skew since server_priv client_pub random sid key
      → length sid ≡ 32
  unfolding open_auth
  length-IsAuthentic server_priv client_pub random sid key w =
      let (_, h) = guard-ok (not (length random == 32)) bad_random _ w.token w.opens in
      let (s, _) = guard-ok (not (length sid == 32)) bad_session _ w.token h in
      eq_of_== (length sid) 32 s
