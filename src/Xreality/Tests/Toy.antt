-- ===== src/Xreality/Tests/Toy.antt =====
-- A toy cryptography that fulfils the laws, without any secrecy.
use obfs.Base.{
  ℕ, ◌+◌, ◌-◌, ◌≡◌, refl, List, [], ◌∷◌, ◌++◌, arith, replicate, length, take, length-append,
  take-append_self, true, Option, none, some, inl, leb, if◌then◌else◌, length-take,
}
use obfs.Xreality.Crypto.{Aead, Crypto}

-- A tag of 16 zeros: no secrecy, but the laws hold.
abbrev pub tagged : List ℕ → List ℕ
tagged p = p ++ replicate 16 0

abbrev pub toy_open : List ℕ → Option (List ℕ)
toy_open ct = if leb 16 (length ct) then some (take (length ct - 16) ct) else none

pub length-tagged : (p : List ℕ) → length (tagged p) ≡ length p + 16
length-tagged p = omega (arith, length-append p (replicate 16 0))

pub toy_open-length : (ct p : List ℕ) → toy_open ct ≡ some p → length p + 16 ≡ length ct
toy_open-length ct p h = ground (arith, length-take (length ct - 16) ct)

pub toy_open-tagged : (p : List ℕ) → toy_open (tagged p) ≡ some p
toy_open-tagged p =
    let n : length (p ++ replicate 16 0) ≡ length p + 16 = length-append p (replicate 16 0) in
    let fits : leb 16 (length p + 16) ≡ true = ground arith in
    let back : length p + 16 - 16 ≡ length p = omega arith in rw (n, fits, back, take-append_self)

abbrev pub toy_aead : Aead
toy_aead = record {
  seal = λ nonce p aad. tagged p;
  open_sealed = λ nonce ct aad. toy_open ct;
  length-seal = λ nonce p aad. length-tagged p;
  length-open = λ nonce ct aad p h. toy_open-length ct p h;
  open-seal = λ nonce p aad. toy_open-tagged p;
}

abbrev pub toy : Crypto
toy = record {
  public_key = λ k. replicate 32 7;
  new_public_key = λ k. inl k;
  ecdh = λ k p. inl (9 ∷ []);
  hkdf_key = λ s salt. inl s;
  aead_for = λ k. inl toy_aead;
  hmac_sha512 = λ k m. replicate 64 5;
  new_public_key-public_key = λ k. refl;
  length-public_key = λ k. refl;
  ecdh_agree = λ a b. refl;
  length-hmac_sha512 = λ k m. refl;
}
