-- ===== src/Packet/KeyStream.antt =====
-- The keystream of a datagram: `stream` of packet.go over the standard library's AES-CTR.
use obfs.Base.{
  ℕ, zero, suc, ◌-◌, ◌<◌, ◌≡◌, refl, ap, ap₂, List, [], ◌∷◌, ◌++◌, bit_xor, bit_xor_twice,
}
use obfs.Base.{length, take, replicate, All, IsByte}

-- AES-256-CTR under the SHA-256 hash of a key: byte `i` of the keystream for an initial vector.
pub record Cipher : Type 0 where
  pub key_stream : (key iv : List ℕ) → ℕ → ℕ
  pub key_stream_range : (key iv : List ℕ) (i : ℕ) → key_stream key iv i < 256

-- `var iv [aes.BlockSize]byte; copy(iv[:], salt)`
pub iv_of : List ℕ → List ℕ
iv_of salt = take 16 salt ++ replicate (16 - length salt) 0

xor_from : (ℕ → ℕ) → ℕ → List ℕ → List ℕ
xor_from ks i [] = []
xor_from ks i (b ∷ bs) = bit_xor b (ks i) ∷ xor_from ks (suc i) bs

-- `c.stream(salt).XORKeyStream(frame, frame)`
unfoldable pub xor_key_stream : Cipher → List ℕ → List ℕ → List ℕ → List ℕ
unfolding xor_from iv_of
xor_key_stream cipher key salt frame = xor_from (cipher.key_stream key (iv_of salt)) 0 frame

length-xor_from : (ks : ℕ → ℕ) (i : ℕ) (bs : List ℕ) → length (xor_from ks i bs) ≡ length bs
unfolding xor_from
length-xor_from ks i [] = refl
length-xor_from ks i (b ∷ bs) = ap suc (length-xor_from ks (suc i) bs)

xor_from_twice :
    (ks : ℕ → ℕ) (i : ℕ) (bs : List ℕ)
    → ((j : ℕ) → ks j < 256)
    → All IsByte bs
    → xor_from ks i (xor_from ks i bs) ≡ bs
unfolding xor_from
xor_from_twice ks i [] h v = refl
xor_from_twice ks i (b ∷ bs) h v =
    ap₂ (λ x l. x ∷ l) (bit_xor_twice b (ks i) v.0 (h i)) (xor_from_twice ks (suc i) bs h v.1)

xor_from-take :
    (ks : ℕ → ℕ) (i n : ℕ) (bs : List ℕ) → take n (xor_from ks i bs) ≡ xor_from ks i (take n bs)
unfolding xor_from
xor_from-take ks i zero bs = refl
xor_from-take ks i (suc n) [] = refl
xor_from-take ks i (suc n) (b ∷ bs) = ap (λ l. bit_xor b (ks i) ∷ l) (xor_from-take ks (suc i) n bs)

module _ (cipher : Cipher) (key salt : List ℕ) where
  pub length-xor_key_stream : (bs : List ℕ) → length (xor_key_stream cipher key salt bs) ≡ length bs
  unfolding xor_key_stream
  length-xor_key_stream bs = length-xor_from _ 0 bs

  -- Decryption is encryption under the same salt.
  pub xor_key_stream_twice :
      (bs : List ℕ)
      → All IsByte bs
      → xor_key_stream cipher key salt (xor_key_stream cipher key salt bs) ≡ bs
  unfolding xor_key_stream
  xor_key_stream_twice bs v = xor_from_twice _ 0 bs (cipher.key_stream_range key (iv_of salt)) v

  -- A datagram that is cut short decrypts to the front of its frame.
  pub xor_key_stream-take :
      (n : ℕ) (bs : List ℕ)
      → take n (xor_key_stream cipher key salt bs) ≡ xor_key_stream cipher key salt (take n bs)
  unfolding xor_key_stream
  xor_key_stream-take n bs = xor_from-take _ 0 n bs
