-- ===== src/Packet.antt =====
-- Datagram obfuscation: packet.go.
pub mod KeyStream
pub mod RoundTrip
pub mod Sizes
mod Tests
use obfs.Base.{
  ℕ, zero, suc, ◌+◌, ◌-◌, ◌≤◌, ◌<◌, ◌≡◌, List, [], ◌∷◌, ◌++◌, ltb, if◌then◌else◌, ℤ, pos, negsuc,
  ◌⊎◌, inl, inr,
}
use obfs.Base.{length, take, drop, replicate, uint16, put_uint16, get_uint16, Option, none, some}
use obfs.Base.{Error, Outcome, ok, err, short_packet, packet_len, packet_big}
use obfs.Packet.KeyStream.{Cipher, xor_key_stream}
use obfs.Shaper.{FillFunc, Sampler}

abbrev pub salt_size : ℕ
salt_size = 8

abbrev pub pkt_hdr_size : ℕ
pkt_hdr_size = 2

abbrev pub pkt_overhead : ℕ
pkt_overhead = salt_size + pkt_hdr_size

abbrev pub max_datagram : ℕ
max_datagram = 65535

abbrev pub max_pkt_data : ℕ
max_pkt_data = max_datagram - pkt_overhead

pub record PacketPolicy (W : Type 0) : Type 0 where
  pub key : List ℕ
  pub pad : Option (Sampler W)
  pub fill : Option (FillFunc W)

-- obfsPacketConn, but for its base connection and its pool of buffers.
pub record ObfsPacketConn (W : Type 0) : Type 0 where
  pub key : List ℕ
  pub pad : Option (Sampler W)
  pub filler : FillFunc W

-- crypto/rand.Read on a slice of `n` bytes: the bytes, or an error.
pub record SecureRand (W : Type 0) : Type 0 where
  pub read : ℕ → W → (List ℕ ⊎ Error) × W
  pub read_length : (n : ℕ) (w : W) (b : List ℕ) → (read n w).0 ≡ inl b → length b ≡ n

-- WrapPacket; `none` is the base connection itself.
unfoldable pub wrap_packet : {W : Type 0} → FillFunc W → PacketPolicy W → Option (ObfsPacketConn W)
wrap_packet random_fill p = elim p.key [
  | [] ↦ none
  | _ ∷ _ ↦ some (record {
    key = p.key;
    pad = p.pad;
    filler = elim p.fill [ none ↦ random_fill | some f ↦ f ];
  })
]

module _ {W : Type 0} (cipher : Cipher) (rand : SecureRand W) (c : ObfsPacketConn W) where
  -- `frameLen`, raised to a sampled size `s` that is larger.
  grown : ℕ → ℤ → ℕ
  grown frame_len (negsuc s) = frame_len
  grown frame_len (pos s) =
      if ltb frame_len s then (if ltb max_datagram s then max_datagram else s) else frame_len

  pub padded_len : Option (Sampler W) → ℕ → W → ℕ × W
  unfolding grown
  padded_len none frame_len w = (frame_len, w)
  padded_len (some g) frame_len w = let (s, w') = g w in (grown frame_len s, w')

  sealed : ℕ → List ℕ → (List ℕ ⊎ Error) × W → Outcome (List ℕ) × W
  sealed frame_len p (inl salt, w) =
      let (padding, w') = c.filler.fill (replicate (frame_len - (pkt_hdr_size + length p)) 0) w in
      let frame = put_uint16 (uint16 (length p)) ++ (p ++ padding) in
      (ok (salt ++ xor_key_stream cipher c.key salt frame), w')
  sealed frame_len p (inr e, w) = (err e, w)

  -- WriteTo up to the base connection's WriteTo: the datagram `out` that is handed to it.
  unfoldable pub write_to : List ℕ → W → Outcome (List ℕ) × W
  unfolding padded_len sealed
  write_to p w =
      let (frame_len, w₁) = padded_len c.pad (pkt_hdr_size + length p) w in
      let out = sealed frame_len p (rand.read salt_size w₁) in
      if ltb max_pkt_data (length p) then (err packet_big, w) else out

  opened : ℕ → List ℕ → Outcome (List ℕ)
  opened room frame =
      let real_len = get_uint16 frame in
      if ltb (length frame - pkt_hdr_size) real_len
      then err packet_len
      else ok (take room (take real_len (drop pkt_hdr_size frame)))

  -- ReadFrom behind the base connection's ReadFrom, which has put the front of `datagram` into the
  -- pooled buffer; `room` is `len(p)`. The error of the base connection is returned as it is.
  unfoldable pub read_from : ℕ → List ℕ → Outcome (List ℕ)
  unfolding opened
  read_from room datagram =
      let buf = take max_datagram datagram in
      let salt = take salt_size buf in
      let frame = xor_key_stream cipher c.key salt (drop salt_size buf) in
      if ltb (length buf) pkt_overhead then err short_packet else opened room frame
