-- ===== src/Packet/RoundTrip.antt =====
-- What ReadFrom makes of the datagrams of WriteTo.
use obfs.Base.{
  ℕ, ◌+◌, ◌-◌, ◌≤◌, ◌<◌, ◌≡◌, refl, ◌∙◌, ap, List, ◌++◌, arith, ltb, le→ltb, ltb→lt, ◌⊎◌,
}
use obfs.Base.{
  length, take, drop, replicate, uint16, put_uint16, get_uint16, Option, none, some, ℤ, pos, negsuc,
}
use obfs.Base.{
  Error, Outcome, ok, err, packet_big, All, IsByte, All-append, All-take, false, Bool-cases, inl,
  inr,
}
use obfs.Base.{
  length-append, length-replicate, take-append, take-append_self, drop-append_self, join16-put,
}
use obfs.Shaper.{Sampler}
use obfs.Packet.KeyStream.{
  Cipher, xor_key_stream, length-xor_key_stream, xor_key_stream_twice, xor_key_stream-take,
}
use obfs.Packet.{ObfsPacketConn, SecureRand, grown, padded_len, sealed, write_to, opened, read_from}

module _ {W : Type 0} (cipher : Cipher) (rand : SecureRand W) (c : ObfsPacketConn W) where
  -- The frame of a payload `p` that is padded by `padding`.
  abbrev frame_of : List ℕ → List ℕ → List ℕ
  frame_of p padding = put_uint16 (uint16 (length p)) ++ (p ++ padding)

  put_uint16-IsByte : (v : ℕ) → All IsByte (put_uint16 v)
  put_uint16-IsByte v = (omega arith, (omega arith, tt))

  frame_of-IsByte :
      (p padding : List ℕ) → All IsByte p → All IsByte padding → All IsByte (frame_of p padding)
  frame_of-IsByte p padding vp vpad =
      All-append IsByte (put_uint16 (uint16 (length p))) (p ++ padding)
        (put_uint16-IsByte (uint16 (length p))) (All-append IsByte p padding vp vpad)

  opened-frame :
      (room : ℕ) (p padding : List ℕ)
      → length p < 65536
      → opened cipher rand c room (frame_of p padding) ≡ ok (take room p)
  unfolding opened
  opened-frame room p padding h =
      let header : get_uint16 (frame_of p padding) ≡ length p =
        join16-put (uint16 (length p)) (omega arith) ∙ omega arith in
      let fits : ltb (length (frame_of p padding) - 2) (length p) ≡ false =
        le→ltb _ _ (omega (arith, length-append p padding)) in
      rw (header, fits, take-append_self)

  take_frame :
      (p padding : List ℕ)
      → length p ≤ 65525
      → take 65527 (frame_of p padding) ≡ frame_of p (take (65525 - length p) padding)
  take_frame p padding hp =
      ap (λ (l : List ℕ). put_uint16 (uint16 (length p)) ++ l) (take-append 65525 p padding hp)

  -- The reader's buffer of 65535 bytes has room for the salt, the header and the payload, so that
  -- it cuts padding alone.
  take_buffer :
      (salt p padding : List ℕ)
      → length salt ≡ 8
      → length p ≤ 65525
      → take 65535 (salt ++ xor_key_stream cipher c.key salt (frame_of p padding))
        ≡ salt ++ xor_key_stream cipher c.key salt (frame_of p (take (65525 - length p) padding))
  take_buffer salt p padding hs hp =
      let room : 65535 - length salt ≡ 65527 = omega arith in
      take-append 65535 salt (xor_key_stream cipher c.key salt (frame_of p padding)) (omega arith)
      ∙ rw (
        room,
        xor_key_stream-take cipher c.key salt 65527 (frame_of p padding),
        take_frame p padding hp,
      )

  -- A datagram of `salt` and frame, cut to the reader's buffer, still gives the payload.
  read_from-sealed :
      (room : ℕ) (salt p padding : List ℕ)
      → length salt ≡ 8
      → length p ≤ 65525
      → All IsByte p
      → All IsByte padding
      → read_from cipher rand c room (salt ++ xor_key_stream cipher c.key salt (frame_of p padding))
        ≡ ok (take room p)
  unfolding read_from
  read_from-sealed room salt p padding hs hp vp vpad =
      let cut : List ℕ = take (65525 - length p) padding in
      let masked : List ℕ = xor_key_stream cipher c.key salt (frame_of p cut) in
      let long : ltb (length (salt ++ masked)) 10 ≡ false = le→ltb _ _ (
        omega (
          arith,
          length-append salt masked,
          length-xor_key_stream cipher c.key salt (frame_of p cut),
        )) in
      let front : take 8 (salt ++ masked) ≡ salt = rw hs at (take-append_self salt masked) in
      let back : drop 8 (salt ++ masked) ≡ masked = rw hs at (drop-append_self salt masked) in
      let plain : xor_key_stream cipher c.key salt masked ≡ frame_of p cut =
        xor_key_stream_twice cipher c.key salt (frame_of p cut)
          (frame_of-IsByte p cut vp (All-take IsByte (65525 - length p) padding vpad)) in
      rw (take_buffer salt p padding hs hp, long, front, back, plain)
        (opened-frame room p cut (omega arith))

  abbrev pub frame_len : List ℕ → W → ℕ × W
  frame_len p w = padded_len cipher rand c c.pad (2 + length p) w

  grown-le : (n : ℕ) (s : ℤ) → n ≤ 65535 → n ≤ grown cipher rand c n s
  unfolding grown
  grown-le n (pos s) h = ground arith
  grown-le n (negsuc s) h = omega arith

  frame_len-le :
      (o : Option (Sampler W)) (n : ℕ) (w : W) → n ≤ 65535 → n ≤ (padded_len cipher rand c o n w).0
  unfolding padded_len
  frame_len-le none n w h = omega arith
  frame_len-le (some g) n w h = grown-le n (g w).0 h

  -- What a WriteTo of `p` does: the base connection is handed a datagram that ReadFrom, with a
  -- buffer of any size, turns back into the front of `p`; or nothing is sent, for want of a salt
  -- or because `p` is too big.
  pub data WriteTo (p : List ℕ) (w : W) (o : Outcome (List ℕ)) : Type 0 where
    too_big : 65525 < length p → o ≡ err packet_big → WriteTo p w o
    no_salt : (e : Error) → (rand.read 8 (frame_len p w).1).0 ≡ inr e → o ≡ err e → WriteTo p w o
    sends :
        (out : List ℕ)
        → o ≡ ok out
        → length p ≤ 65525
        → length out ≡ 8 + (frame_len p w).0
        → ((room : ℕ) → read_from cipher rand c room out ≡ ok (take room p))
        → WriteTo p w o

  sealed-WriteTo :
      (p : List ℕ) (w : W) (r : List ℕ ⊎ Error) (w' : W)
      → (rand.read 8 (frame_len p w).1).0 ≡ r
      → length p ≤ 65525
      → All IsByte p
      → WriteTo p w (sealed cipher rand c (frame_len p w).0 p (r, w')).0
  unfolding sealed
  sealed-WriteTo p w (inr e) w' h fits v = no_salt e h refl
  sealed-WriteTo p w (inl salt) w' h fits v =
      let n = (frame_len p w).0 in
      let zeros : List ℕ = replicate (n - (2 + length p)) 0 in
      let padding : List ℕ = (c.filler.fill zeros w').0 in
      let salt_size : length salt ≡ 8 = rand.read_length 8 (frame_len p w).1 salt h in
      sends (salt ++ xor_key_stream cipher c.key salt (frame_of p padding)) refl fits
        (omega (
          arith,
          length-append salt (xor_key_stream cipher c.key salt (frame_of p padding)),
          length-xor_key_stream cipher c.key salt (frame_of p padding),
          length-append p padding,
          c.filler.fill_length zeros w',
          length-replicate {0} {A = ℕ} (n - (2 + length p)) 0,
          frame_len-le c.pad (2 + length p) w (omega arith),
        ))
        (λ room.
          read_from-sealed room salt p padding salt_size fits v (c.filler.fill_range zeros w'))

  -- WriteTo hands on a datagram that ReadFrom inverts, for every payload of at most 65525 bytes and
  -- every sampled size; it fails only for a bigger payload or for want of a salt.
  pub write_to-WriteTo :
      (p : List ℕ) (w : W) → All IsByte p → WriteTo p w (write_to cipher rand c p w).0
  unfolding write_to
  write_to-WriteTo p w v = elim (Bool-cases (ltb 65525 (length p))) [
    | inl big ↦ rw big (too_big (ltb→lt _ _ big) refl)
    | inr fits ↦
        rw fits (sealed-WriteTo p w _ (rand.read 8 (frame_len p w).1).1 refl (ground arith) v)
  ]
