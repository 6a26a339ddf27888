-- ===== src/Packet/Sizes.antt =====
-- The sizes of datagrams: how the sampled size counts, and what ReadFrom can return at most.
use obfs.Base.{ℕ, ◌+◌, ◌-◌, ◌≤◌, ◌<◌, ◌≡◌, List, arith, ltb, ltb→le}
use obfs.Base.{length, take, drop, get_uint16, Option, some, pos, All, IsByte}
use obfs.Base.{ok, Bool-cases, inl, inr, length-take, length-drop}
use obfs.Shaper.{Sampler}
use obfs.Packet.KeyStream.{Cipher, xor_key_stream, length-xor_key_stream}
use obfs.Packet.{ObfsPacketConn, SecureRand, grown, padded_len, opened, read_from, write_to}
use obfs.Packet.RoundTrip.{frame_len, WriteTo, too_big, no_salt, sends, write_to-WriteTo}

module _ {W : Type 0} (cipher : Cipher) (rand : SecureRand W) (c : ObfsPacketConn W) where
  grown-oversize : (n s : ℕ) → n ≤ 65527 → 65527 < s → 65535 < 8 + grown cipher rand c n (pos s)
  unfolding grown
  grown-oversize n s h k = ground arith

  padded_len-oversize :
      (o : Option (Sampler W)) (g : Sampler W) (n : ℕ) (w : W) (s : ℕ)
      → o ≡ some g
      → (g w).0 ≡ pos s
      → n ≤ 65527
      → 65527 < s
      → 65535 < 8 + (padded_len cipher rand c o n w).0
  unfolding padded_len
  padded_len-oversize o g n w s h k small big = rw (h, k) (grown-oversize n s small big)

  -- A sampled size above 65527 makes a datagram of more than 65535 bytes: the size is cut to
  -- 65535, and the salt of 8 bytes comes on top. (The payload fits, and the salt was drawn.)
  pub write_to_oversize :
      (p salt : List ℕ) (w : W) (g : Sampler W) (s : ℕ)
      → All IsByte p
      → length p ≤ 65525
      → (rand.read 8 (frame_len cipher rand c p w).1).0 ≡ inl salt
      → c.pad ≡ some g
      → (g w).0 ≡ pos s
      → 65527 < s
      → (out : List ℕ) × ((write_to cipher rand c p w).0 ≡ ok out) × (65535 < length out)
  write_to_oversize p salt w g s v fits drawn padded sampled big =
      from (write_to-WriteTo cipher rand c p w v)
    where
      from :
          WriteTo cipher rand c p w (write_to cipher rand c p w).0
          → (out : List ℕ) × ((write_to cipher rand c p w).0 ≡ ok out) × (65535 < length out)
      from (too_big x e) = absurd (omega arith)
      from (no_salt x y e) = cc
      from (sends out e _ size back) = (
        out,
        e,
        omega (
          arith,
          size,
          padded_len-oversize c.pad g (2 + length p) w s padded sampled (omega arith) big,
        ),
      )

  opened_bound :
      (room : ℕ) (frame b : List ℕ)
      → opened cipher rand c room frame ≡ ok b
      → (length b ≤ room) × (length b ≤ length frame - 2)
  unfolding opened
  opened_bound room frame b h =
      let n = get_uint16 frame in
      let kept : List ℕ = take n (drop 2 frame) in
      ground (arith, length-take room kept, length-take n (drop 2 frame), length-drop 2 frame)

  -- Whatever comes in: a successful ReadFrom returns at most as much as the caller has room for and
  -- as the datagram can hold behind its salt and header, never more than 65525 bytes.
  pub read_from_bound :
      (room : ℕ) (datagram b : List ℕ)
      → read_from cipher rand c room datagram ≡ ok b
      → (length b ≤ room) × (length b + 10 ≤ length datagram) × (length b ≤ 65525)
  unfolding read_from
  read_from_bound room datagram b h =
      let buf : List ℕ = take 65535 datagram in
      let frame : List ℕ = xor_key_stream cipher c.key (take 8 buf) (drop 8 buf) in
      let size = length-xor_key_stream cipher c.key (take 8 buf) (drop 8 buf) in
      elim (Bool-cases (ltb (length buf) 10)) [
        | inl short ↦ cc (rw short at h)
        | inr long ↦
            let bound = opened_bound room frame b (rw long at h) in
            let tail = length-drop 8 buf in
            let front = length-take 65535 datagram in
            let big : 10 ≤ length buf = ltb→le _ _ long in (bound.0, omega arith, omega arith)
      ]
