-- ===== src/Xreality/Auth/Agree.antt =====
-- The two sides of the handshake: what the client seals the server accepts, and nothing panics.
use obfs.Base.{
  ℕ, ◌+◌, ◌-◌, ◌^◌, ◌<◌, ◌≡◌, ◌∙◌, ap, [], refl, subst, List, ◌++◌, arith, length, take, drop,
  replicate, ltb, ◌==◌, not, Bool, true, false, Option, none, some, ℤ, inl,
}
use obfs.Base.{
  ok, from_call, slice, be_bytes, be_value-be_bytes, length-be_bytes, Returns, Returns-ok,
  Returns-err, Returns-call, Returns-bind, Returns-if, Returns-slice, Returns-slice_from,
  Returns-slice_to, bind-ok, guard-ok, call-inl, slice-append, slice_from-ok, slice_to-ok,
  length-append, length-take, length-drop, length-replicate, take-append_self, append-nil,
  bad_random, bad_session, short_id, auth_failed,
}
use obfs.Xreality.Crypto.{Aead, Crypto}
use obfs.Xreality.Auth.{
  padded, seal_with, open_result, open_with, in_window, accepted, or_false, derive_auth_key,
  seal_auth, open_auth, client_session_id, admit, server_authenticate,
}

pub length-padded : (id : List ℕ) → length (padded id) ≡ 8
unfolding padded
length-padded id = omega (
  arith,
  length-append (take 8 id) (replicate (8 - length id) 0),
  length-take 8 id,
  length-replicate {A = ℕ} (8 - length id) 0,
)

pub eq_of_== : (a b : ℕ) → not (a == b) ≡ false → a ≡ b
eq_of_== a b h = ground arith

-- A short ID of 8 bytes is its own padding.
padded_whole : (id : List ℕ) → length id ≡ 8 → padded id ≡ id
unfolding padded
padded_whole id h =
    let whole : take 8 id ≡ id =
      subst (λ n. take n id ≡ id) h (rw append-nil at (take-append_self id [])) in
    rw (whole, h) (append-nil id)

open_result-ok : (o : Option (List ℕ)) (pt : List ℕ) → open_result o ≡ ok pt → o ≡ some pt
unfolding open_result
open_result-ok none pt h = absurd (cc)
open_result-ok (some p) pt h = cc

open_result-Returns : (o : Option (List ℕ)) → Returns (open_result o)
unfolding open_result
open_result-Returns none = Returns-err auth_failed
open_result-Returns (some pt) = Returns-ok pt

module _ (c : Crypto) where
  pub derive_auth_key-Returns : (shared random : List ℕ) → Returns (derive_auth_key c shared random)
  unfolding derive_auth_key
  derive_auth_key-Returns shared random =
      Returns-if (not (length random == 32)) _ _ (Returns-err bad_random)
        λ _. Returns-call (c.hkdf_key shared random)

  seal_with-ok :
      (aead : Aead) (random plaintext aad : List ℕ)
      → length random ≡ 32
      → seal_with aead (drop 20 random) plaintext aad
        ≡ ok (aead.seal (drop 20 random) plaintext aad)
  unfolding seal_with
  seal_with-ok aead random plaintext aad h =
      let twelve : length (drop 20 random) ≡ 12 = omega (arith, length-drop 20 random) in rw twelve

  open_with-opened :
      (aead : Aead) (random ciphertext aad : List ℕ)
      → length random ≡ 32
      → open_with aead (drop 20 random) ciphertext aad
        ≡ open_result (aead.open_sealed (drop 20 random) ciphertext aad)
  unfolding open_with
  open_with-opened aead random ciphertext aad h =
      let twelve : length (drop 20 random) ≡ 12 = omega (arith, length-drop 20 random) in rw twelve

  seal_auth-Returns : (key random id : List ℕ) (t : ℕ) → Returns (seal_auth c key random id t)
  unfolding seal_auth
  seal_auth-Returns key random id t =
      Returns-if (not (length random == 32)) _ _ (Returns-err bad_random) λ r.
        let size = eq_of_== (length random) 32 r in
        Returns-if (ltb 8 (length id)) _ _ (Returns-err short_id) λ _.
          Returns-bind (from_call (c.aead_for key)) _ (Returns-call (c.aead_for key)) λ aead _.
            Returns-slice_from random 20 _ (omega arith) (
              Returns-slice_to random 20 _ (omega arith) (
                rw (seal_with-ok aead random (be_bytes 8 t ++ padded id) (take 20 random) size)
                  (Returns-ok _)))

  pub open_auth-Returns : (key random sid : List ℕ) → Returns (open_auth c key random sid)
  unfolding open_auth
  open_auth-Returns key random sid =
      Returns-if (not (length random == 32)) _ _ (Returns-err bad_random) λ r.
        let size = eq_of_== (length random) 32 r in
        Returns-if (not (length sid == 32)) _ _ (Returns-err bad_session) λ s.
          let size' = eq_of_== (length sid) 32 s in
          Returns-bind (from_call (c.aead_for key)) _ (Returns-call (c.aead_for key)) λ aead _.
            Returns-slice_from random 20 _ (omega arith) (
              Returns-slice_to random 20 _ (omega arith) (
                rw (open_with-opened aead random sid (take 20 random) size) (
                  Returns-bind
                    (open_result (aead.open_sealed (drop 20 random) sid (take 20 random))) _
                    (open_result-Returns _)
                    λ pt e.
                      let long : length pt + 16 ≡ 32 =
                        aead.length-open _ _ _ pt (open_result-ok _ pt e) ∙ size' in
                      Returns-slice pt 0 8 _ (omega arith) (omega arith)
                        (Returns-slice pt 8 16 _ (omega arith) (omega arith) (Returns-ok _)))))

  -- The server opens what the client has sealed.
  open_auth-seal_auth :
      (key random id sid : List ℕ) (t : ℕ)
      → t < 2 ^ 64
      → seal_auth c key random id t ≡ ok sid
      → open_auth c key random sid ≡ ok (t, padded id)
  unfolding seal_auth open_auth open_result
  open_auth-seal_auth key random id sid t small h =
      let (r, h₁) = guard-ok (not (length random == 32)) _ _ sid h in
      let (_, h₂) = guard-ok (ltb 8 (length id)) _ _ sid h₁ in
      let (aead, (ea, h₃)) = bind-ok (from_call (c.aead_for key)) _ sid h₂ in
      let size : length random ≡ 32 = eq_of_== (length random) 32 r in
      let from = slice_from-ok random 20 (omega arith) in
      let to = slice_to-ok random 20 (omega arith) in
      let pt : List ℕ = be_bytes 8 t ++ padded id in
      let box : List ℕ = aead.seal (drop 20 random) pt (take 20 random) in
      let made : ok box ≡ ok sid =
        rw (from, to, seal_with-ok aead random pt (take 20 random) size) at h₃ in
      let same : box ≡ sid = cc in
      let pt_size = length-append (be_bytes 8 t) (padded id) in
      let bytes = length-be_bytes 8 t in
      let eight = length-padded id in
      let box_size = aead.length-seal (drop 20 random) pt (take 20 random) in
      let sized : length box ≡ 32 = omega arith in
      let second : slice pt 8 16 ≡ ok (padded id) =
        rw append-nil at (slice-append (be_bytes 8 t) (padded id) [] 8 16 bytes (omega arith)) in
      rw (
        ← same,
        r,
        sized,
        ea,
        from,
        to,
        open_with-opened aead random box (take 20 random) size,
        aead.open-seal (drop 20 random) pt (take 20 random),
        slice-append [] (be_bytes 8 t) (padded id) 0 8 refl (omega arith),
        second,
        be_value-be_bytes 8 t (omega arith),
        padded_whole (padded id) eight,
      )

  -- ClientSessionID returns a session ID or an error: no slice is out of range, and AES-GCM is
  -- given a nonce of its size.
  pub client_session_id-Returns :
      (server_pub ephemeral random id : List ℕ) (now : ℕ)
      → Returns (client_session_id c server_pub ephemeral random id now)
  unfolding client_session_id
  client_session_id-Returns server_pub ephemeral random id now =
      Returns-bind (from_call (c.new_public_key server_pub)) _ (Returns-call _) λ peer _.
        Returns-bind (from_call (c.ecdh ephemeral peer)) _ (Returns-call _) λ shared _.
          Returns-bind (derive_auth_key c shared random) _ (derive_auth_key-Returns shared random)
            λ key _.
              Returns-bind (seal_auth c key random id now) _ (seal_auth-Returns key random id now)
                (λ sid _. Returns-ok (sid, key))

  module _ (accept : Option (List ℕ → Bool)) (skew : ℤ) (since : ℕ → ℤ) where
    -- A server with the matching private key accepts what ClientSessionID has made, and derives
    -- the client's auth key, if the time is in the window and the padded short ID is accepted.
    pub server_authenticate-client_session_id :
        (server_priv ephemeral random id sid key : List ℕ) (now : ℕ)
        → now < 2 ^ 64
        → in_window skew (since now) ≡ true
        → accepted accept (padded id) ≡ true
        → client_session_id c (c.public_key server_priv) ephemeral random id now ≡ ok (sid, key)
        → server_authenticate c accept skew since server_priv (c.public_key ephemeral) random sid
          ≡ ok (some key)
    unfolding client_session_id server_authenticate or_false admit
    server_authenticate-client_session_id server_priv ephemeral random id sid key now small w a h =
        let (peer, (e₁, h₁)) =
          bind-ok (from_call (c.new_public_key (c.public_key server_priv))) _ (sid, key) h in
        let (shared, (e₂, h₂)) = bind-ok (from_call (c.ecdh ephemeral peer)) _ (sid, key) h₁ in
        let (key', (e₃, h₃)) = bind-ok (derive_auth_key c shared random) _ (sid, key) h₂ in
        let (sid', (e₄, h₄)) = bind-ok (seal_auth c key' random id now) _ (sid, key) h₃ in
        let same_peer : c.public_key server_priv ≡ peer =
          let i = call-inl _ peer e₁ in let j = c.new_public_key-public_key server_priv in cc in
        let agree : c.ecdh server_priv (c.public_key ephemeral) ≡ inl shared =
          c.ecdh_agree server_priv ephemeral
          ∙ (ap (c.ecdh ephemeral) same_peer ∙ call-inl _ shared e₂) in
        let opens : open_auth c key' random sid' ≡ ok (now, padded id) =
          open_auth-seal_auth key' random id sid' now small e₄ in
        let same_sid : sid' ≡ sid = cc in
        let same_key : key' ≡ key = cc in
        rw (c.new_public_key-public_key ephemeral, agree, e₃, ← same_sid, opens, w, a, same_key)
