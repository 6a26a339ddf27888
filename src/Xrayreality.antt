-- ===== src/Xrayreality.antt =====
-- The package xrayreality: the session ID and the certificate check of client.go, and Client.
pub mod Client
pub mod Opens
pub mod Total
pub mod Server
mod Tests
use obfs.Base.{
  ℕ, ◌+◌, ◌-◌, List, [], ◌∷◌, ◌++◌, length, take, drop, replicate, ltb, ◌==◌, if◌then◌else◌, Bool,
  true, false, Option, none, some, ℤ, pos, negsuc, zero, suc,
}
use obfs.Base.{
  Error, other, Outcome, ok, err, panic, stuck, ◌>>=◌, from_call, slice_from, slice_to, be_bytes,
  ◌⊎◌, inl, inr,
}
use obfs.Xreality.Crypto.{Aead, Crypto}
use obfs.Xreality.Channel.{hmac_equal}

abbrev pub session_id_offset : ℕ
session_id_offset = 39

abbrev pub err_no_tls13 : Error
err_no_tls13 = other 11

abbrev pub err_bad_hello : Error
err_bad_hello = other 12

abbrev pub err_not_verified : Error
err_not_verified = other 13

abbrev pub err_no_server_name : Error
err_no_server_name = other 14

abbrev pub default_client_version : List ℕ
default_client_version = 1 ∷ 8 ∷ 22 ∷ []

-- `copy` into `n` zero bytes.
abbrev pub copied : ℕ → List ℕ → List ℕ
copied zero xs = []
copied (suc n) [] = 0 ∷ copied n []
copied (suc n) (x ∷ xs) = x ∷ copied n xs

-- `if ver == ([3]byte{}) { ver = DefaultClientVersion }`
abbrev pub version_or_default : List ℕ → List ℕ
version_or_default ver = if hmac_equal ver (replicate 3 0) then default_client_version else ver

-- The session ID before it is sealed: version, a zero, the seconds in 32 bits, the short ID.
unfoldable pub plain_session_id : List ℕ → ℕ → List ℕ → List ℕ
plain_session_id ver now id = ver ++ (0 ∷ (be_bytes 4 now ++ copied 24 id))

-- `copy(hello.Raw[39:71], sid)`
unfoldable pub with_session_id : List ℕ → List ℕ → List ℕ
with_session_id raw sid = take session_id_offset raw ++ (sid ++ drop (session_id_offset + 32) raw)

-- What uTLS built: the bytes and the random of the ClientHello, and the private keys of its shares,
-- `none` for nil.
pub record KeyShareKeys : Type 0 where
  pub ecdhe : Option (List ℕ)
  pub mlkem_ecdhe : Option (List ℕ)

pub record ClientHello : Type 0 where
  pub raw : List ℕ
  pub random : List ℕ
  pub key_share_keys : Option KeyShareKeys

-- ClientConfig, but for the fingerprint; the version has three bytes.
pub record ClientConfig : Type 0 where
  pub server_key : List ℕ
  pub cohort : List ℕ
  pub server_name : List ℕ
  pub version : List ℕ
  pub handshake_timeout : ℤ

-- The ClientHello that is sent, and authVerifier's key.
pub record Tunnel : Type 0 where
  pub hello : ClientHello
  pub auth_key : List ℕ

or_mlkem : Option (List ℕ) → Option (List ℕ) → Outcome (List ℕ)
or_mlkem (some key) _ = ok key
or_mlkem none (some key) = ok key
or_mlkem none none = err err_no_tls13

unfoldable pub ephemeral_of : Option KeyShareKeys → Outcome (List ℕ)
unfolding or_mlkem
ephemeral_of none = err err_no_tls13
ephemeral_of (some ks) = or_mlkem ks.ecdhe ks.mlkem_ecdhe

-- x509.ParseCertificate, as far as verify reads it: the key if it is an Ed25519 one, the signature.
pub record Certificate : Type 0 where
  pub ed25519_key : Option (List ℕ)
  pub signature : List ℕ

module _ (c : Crypto) where
  -- GCM panics on a nonce that has not 12 bytes.
  pub gcm_sealed : Aead → List ℕ → List ℕ → List ℕ → Outcome (List ℕ)
  gcm_sealed aead nonce plaintext aad =
      if length nonce == 12 then ok (aead.seal nonce plaintext aad) else panic

  -- Client from the ClientHello that was built to the one with the sealed session ID.
  pub seal_built : ClientConfig → ℕ → List ℕ → ClientHello → List ℕ → Outcome Tunnel
  unfolding gcm_sealed
  seal_built cfg now peer hello ephemeral = do
    shared ← from_call (c.ecdh ephemeral peer)
    salt ← slice_to hello.random 20
    auth_key ← from_call (c.hkdf_key shared salt)
    aead ← from_call (c.aead_for auth_key)
    nonce ← slice_from hello.random 20
    plaintext ← slice_to (plain_session_id (version_or_default cfg.version) now cfg.cohort) 16
    sid ← gcm_sealed aead nonce plaintext (with_session_id hello.raw (replicate 32 0))
    ok (record {
      hello = record hello { raw = with_session_id hello.raw sid };
      auth_key = auth_key;
    })

  unfoldable pub seal_hello : ClientConfig → ℕ → List ℕ → ClientHello → Outcome Tunnel
  unfolding seal_built
  seal_hello cfg now peer hello =
      if ltb (length hello.raw) (session_id_offset + 32)
      then err err_bad_hello
      else do ephemeral ← ephemeral_of hello.key_share_keys; seal_built cfg now peer hello ephemeral

  module _ (parse_certificate : List ℕ → Certificate ⊎ Error) where
    -- `none` is the nil of a certificate that is verified.
    verify_key : List ℕ → Certificate → Option (List ℕ) → Option Error
    verify_key auth_key cert none = some err_not_verified
    verify_key auth_key cert (some key) =
        if hmac_equal (c.hmac_sha512 auth_key key) cert.signature
        then none
        else some err_not_verified

    verify_parsed : List ℕ → Certificate ⊎ Error → Option Error
    unfolding verify_key
    verify_parsed auth_key (inl cert) = verify_key auth_key cert cert.ed25519_key
    verify_parsed auth_key (inr e) = some e

    unfoldable pub verify : List ℕ → List (List ℕ) → Option Error
    unfolding verify_parsed
    verify auth_key [] = some err_not_verified
    verify auth_key (cert ∷ certs) = verify_parsed auth_key (parse_certificate cert)
