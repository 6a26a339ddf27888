-- ===== src/Xrayreality/Total.antt =====
-- Sealing a ClientHello whose random has 32 bytes returns: each slice and nonce has its size.
use obfs.Base.{
  ℕ, ◌≤◌, ◌+◌, ◌≡◌, List, ◌∷◌, ◌++◌, length, take, drop, length-append, length-drop,
  length-be_bytes, be_bytes, arith, ltb, from_call, Option, none, some, Returns, Returns-ok,
  Returns-err, Returns-if, Returns-call, Returns-bind, Returns-slice_to, Returns-slice_from,
}
use obfs.Xrayreality.Opens.{length-copied}
use obfs.Xreality.Crypto.{Aead, Crypto}
use obfs.Xrayreality.{
  session_id_offset, copied, version_or_default, plain_session_id, ClientHello, ClientConfig,
  KeyShareKeys, ephemeral_of, or_mlkem, gcm_sealed, seal_built, seal_hello, err_bad_hello,
  err_no_tls13,
}

or_mlkem-Returns : (a b : Option (List ℕ)) → Returns (or_mlkem a b)
unfolding or_mlkem
or_mlkem-Returns (some k) b = Returns-ok k
or_mlkem-Returns none (some k) = Returns-ok k
or_mlkem-Returns none none = Returns-err err_no_tls13

ephemeral_of-Returns : (ks : Option KeyShareKeys) → Returns (ephemeral_of ks)
unfolding ephemeral_of
ephemeral_of-Returns none = Returns-err err_no_tls13
ephemeral_of-Returns (some ks) = or_mlkem-Returns ks.ecdhe ks.mlkem_ecdhe

plain_session_id-long :
    (ver : List ℕ) (now : ℕ) (id : List ℕ) → 16 ≤ length (plain_session_id ver now id)
unfolding plain_session_id
plain_session_id-long ver now id = omega (
  arith,
  length-append ver (0 ∷ (be_bytes 4 now ++ copied 24 id)),
  length-append (be_bytes 4 now) (copied 24 id),
  length-be_bytes 4 now,
  length-copied 24 id,
)

module _ (c : Crypto) where
  gcm_sealed-Returns :
      (aead : Aead) (nonce plaintext aad : List ℕ)
      → length nonce ≡ 12
      → Returns (gcm_sealed c aead nonce plaintext aad)
  unfolding gcm_sealed
  gcm_sealed-Returns aead nonce plaintext aad h = rw h (Returns-ok _)

  pub seal_hello-Returns :
      (cfg : ClientConfig) (now : ℕ) (peer : List ℕ) (hello : ClientHello)
      → length hello.random ≡ 32
      → Returns (seal_hello c cfg now peer hello)
  unfolding seal_hello seal_built
  seal_hello-Returns cfg now peer hello h =
      let size : length (drop 20 hello.random) ≡ 12 = omega (arith, length-drop 20 hello.random) in
      Returns-if (ltb (length hello.raw) (session_id_offset + 32)) _ _ (Returns-err err_bad_hello)
        (λ _.
          Returns-bind (ephemeral_of hello.key_share_keys) _
            (ephemeral_of-Returns hello.key_share_keys)
            (λ e _.
              Returns-bind (from_call (c.ecdh e peer)) _ (Returns-call (c.ecdh e peer)) (λ shared _.
                Returns-slice_to hello.random 20 _ (omega arith) (
                  Returns-bind (from_call (c.hkdf_key shared (take 20 hello.random))) _
                    (Returns-call (c.hkdf_key shared (take 20 hello.random)))
                    (λ key _.
                      Returns-bind (from_call (c.aead_for key)) _ (Returns-call (c.aead_for key))
                        (λ aead _. Returns-slice_from hello.random 20 _ (omega arith) (
                          Returns-slice_to
                            (plain_session_id (version_or_default cfg.version) now cfg.cohort) 16 _
                            (plain_session_id-long (version_or_default cfg.version) now cfg.cohort)
                            (Returns-bind (gcm_sealed c aead (drop 20 hello.random) _ _) _
                              (gcm_sealed-Returns aead _ _ _ size) (λ sid _. Returns-ok _)))))))))
