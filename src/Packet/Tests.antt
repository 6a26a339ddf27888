-- ===== src/Packet/Tests.antt =====
-- A concrete packet connection, runs on it, and the theorems at concrete inputs.
use obfs.Base.{
  ℕ, ◌+◌, ◌%◌, ◌<◌, ◌≡◌, refl, List, [], ◌∷◌, arith, length, replicate, length-replicate,
}
use obfs.Base.{ok, err, short_packet, some, pos, inl, ◌⊎◌, Error}
use obfs.Fill.{zero_fill, zero_filler}
use obfs.Packet.KeyStream.{Cipher, xor_key_stream}
use obfs.Packet.{ObfsPacketConn, SecureRand, write_to, read_from}
use obfs.Packet.RoundTrip.{WriteTo, write_to-WriteTo}
use obfs.Packet.Sizes.{write_to_oversize}

-- Not a cipher, but a keystream.
abbrev counter : Cipher
counter = record {
  key_stream = λ key iv i. (i + 1) % 256;
  key_stream_range = λ key iv i. omega arith;
}

salts_length :
    (n w : ℕ) (b : List ℕ) → ◌≡◌ {A = List ℕ ⊎ Error} (inl (replicate n 7)) (inl b) → length b ≡ n
salts_length n w b h = ground (arith, length-replicate {0} {A = ℕ} n 7)

abbrev salts : SecureRand ℕ
salts = record { read = λ n w. (inl (replicate n 7), w + 1); read_length = salts_length }

abbrev to_size : ℕ → ObfsPacketConn ℕ
to_size s = record { key = 1 ∷ []; pad = some (λ w. (pos s, w)); filler = zero_filler }

abbrev sealed_two : List ℕ
sealed_two = 7 ∷ 7 ∷ 7 ∷ 7 ∷ 7 ∷ 7 ∷ 7 ∷ 7 ∷ 1 ∷ 0 ∷ 6 ∷ 2 ∷ 5 ∷ []

seals_two : (write_to counter salts (to_size 5) (5 ∷ 6 ∷ []) 0).0 ≡ ok sealed_two
unfolding write_to xor_key_stream zero_fill
seals_two = refl

opens_two : read_from counter salts (to_size 5) 9 sealed_two ≡ ok (5 ∷ 6 ∷ [])
unfolding read_from xor_key_stream
opens_two = refl

opens_short : read_from counter salts (to_size 5) 9 (1 ∷ 2 ∷ []) ≡ err short_packet
unfolding read_from xor_key_stream
opens_short = refl

write_to-WriteTo_example :
    WriteTo counter salts
      (to_size 5)
      (5 ∷ 6 ∷ [])
      0
      (write_to counter salts (to_size 5) (5 ∷ 6 ∷ []) 0).0
write_to-WriteTo_example = write_to-WriteTo counter salts (to_size 5) (5 ∷ 6 ∷ []) 0 (omega arith)

write_to_oversize_example :
    (out : List ℕ) × ((write_to counter salts (to_size 70000) (5 ∷ []) 0).0 ≡ ok out)
    × (65535 < length out)
write_to_oversize_example =
    write_to_oversize counter salts (to_size 70000) (5 ∷ []) (replicate 8 7) 0 (λ w. (pos 70000, w))
      70000 (omega arith) (omega arith) refl refl refl (omega arith)
