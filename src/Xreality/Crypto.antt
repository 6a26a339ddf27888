-- ===== src/Xreality/Crypto.antt =====
-- What the package calls in crypto/ecdh, crypto/hkdf, crypto/aes, crypto/cipher and crypto/hmac.
use obfs.Base.{ℕ, ◌+◌, ◌≡◌, List, length, Option, some, Error, ◌⊎◌, inl}

-- AES-256-GCM under a key. Both calls panic on a nonce that has not 12 bytes, see `seal_with`.
pub record Aead : Type 0 where
  pub seal : (nonce plaintext aad : List ℕ) → List ℕ
  pub open_sealed : (nonce ciphertext aad : List ℕ) → Option (List ℕ)
  pub length-seal :
      (nonce plaintext aad : List ℕ) → length (seal nonce plaintext aad) ≡ length plaintext + 16
  pub length-open :
      (nonce ciphertext aad plaintext : List ℕ)
      → open_sealed nonce ciphertext aad ≡ some plaintext
      → length plaintext + 16 ≡ length ciphertext
  pub open-seal :
      (nonce plaintext aad : List ℕ)
      → open_sealed nonce (seal nonce plaintext aad) aad ≡ some plaintext

-- Keys are their bytes. `hkdf_key` is HKDF-SHA256 with the package's info string, to 32 bytes.
pub record Crypto : Type 0 where
  pub public_key : List ℕ → List ℕ
  pub new_public_key : List ℕ → List ℕ ⊎ Error
  pub ecdh : (private_key peer : List ℕ) → List ℕ ⊎ Error
  pub hkdf_key : (secret salt : List ℕ) → List ℕ ⊎ Error
  pub aead_for : List ℕ → Aead ⊎ Error
  pub hmac_sha512 : (key message : List ℕ) → List ℕ
  -- A public key is accepted as one, and the two sides of an exchange share one secret.
  pub new_public_key-public_key : (k : List ℕ) → new_public_key (public_key k) ≡ inl (public_key k)
  pub length-public_key : (k : List ℕ) → length (public_key k) ≡ 32
  pub ecdh_agree : (a b : List ℕ) → ecdh a (public_key b) ≡ ecdh b (public_key a)
  pub length-hmac_sha512 : (key message : List ℕ) → length (hmac_sha512 key message) ≡ 64
