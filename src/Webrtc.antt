-- ===== src/Webrtc.antt =====
-- webrtc/webrtc.go: what Dial and answer share. The Pion library, the signalling and the contexts are
-- parameters; the callback of a data channel runs between any two calls.
pub mod Dial
pub mod Answer
pub mod Safe
pub mod Loop
pub mod Conn
pub mod Tests
use obfs.Base.{
  List, ℕ, zero, suc, ℤ, pos, negsuc, if◌then◌else◌, ok, err, Bool, true, false, Option, none, some,
  Error, Outcome, from_call, ◌⊎◌, inl, inr,
}
use obfs.Act.{Act, or_fail}

-- The library on a state `W`. A step that waits for a context ends with the context's error.
pub record Pion (W Sdp Raw : Type 0) : Type 0 where
  pub with_timeout : ℤ → W → W
  pub new_peer_connection : List (List ℕ) → W → Option Error × W
  pub create_data_channel : W → Option Error × W
  pub create_offer : W → (Sdp ⊎ Error) × W
  pub create_answer : W → (Sdp ⊎ Error) × W
  pub set_local : Sdp → W → Option Error × W
  pub set_remote : Sdp → W → Option Error × W
  pub gathered : W → Option Error × W
  pub local_description : W → Sdp
  pub marshal : Sdp → List ℕ ⊎ Error
  pub unmarshal : List ℕ → Sdp ⊎ Error
  -- Whether the data channel opens now, and what Detach then gives.
  pub opens : W → Option (Raw ⊎ Error) × W

-- The peer connection of one call.
pub data Peer : Type 0 where
  unmade live shut : Peer

-- `on_open` says that the callback is set and has not run, and `conn_ch` is the buffered channel
-- that it sends to.
pub record PeerSession (W Raw : Type 0) : Type 0 where
  pub world : W
  pub peer : Peer
  pub on_open : Bool
  pub conn_ch : Option Raw

-- `pc.Close()`
unfoldable pub close_peer : {W Raw : Type 0} → PeerSession W Raw → PeerSession W Raw
close_peer s = record s { peer = shut }

-- The callback of OnOpen, which runs once.
fired : {W Raw : Type 0} → Option (Raw ⊎ Error) → PeerSession W Raw → PeerSession W Raw
fired none s = s
fired (some (inl raw)) s = record s { on_open = false; conn_ch = some raw }
fired (some (inr e)) s = record s { on_open = false; peer = shut }

module _ {W Sdp Raw : Type 0} (pion : Pion W Sdp Raw) where
  unfoldable pub callbacks : PeerSession W Raw → PeerSession W Raw
  unfolding fired
  callbacks s =
      if s.on_open then (let (r, w) = pion.opens s.world in fired r (record s { world = w })) else s

  -- A call of the library, behind the callbacks that came before it.
  unfoldable pub call : {A : Type 0} → (W → (A ⊎ Error) × W) → Act (PeerSession W Raw) A
  call f s =
      let s' = callbacks s in let (r, w) = f s'.world in (from_call r, record s' { world = w })

  unfoldable pub run_call : (W → Option Error × W) → Act (PeerSession W Raw) (Unit {0})
  run_call f = call (λ w. let (r, w') = f w in (or_fail r, w'))

  pub made : Option Error × W → Act (PeerSession W Raw) (Unit {0})
  made (none, w) s = (ok tt, record s { world = w; peer = live })
  made (some e, w) s = (err e, record s { world = w })

  -- `newAPI().NewPeerConnection`, which has no callback yet.
  unfoldable pub new_peer : List (List ℕ) → Act (PeerSession W Raw) (Unit {0})
  unfolding made
  new_peer servers s = made (pion.new_peer_connection servers s.world) s

  -- `dc.OnOpen(…)`
  unfoldable pub set_on_open : Act (PeerSession W Raw) (Unit {0})
  set_on_open s = (ok tt, record s { on_open = true })

  -- encodeSDP and decodeSDP
  unfoldable pub encode_sdp : Act (PeerSession W Raw) (List ℕ)
  encode_sdp = call (λ w. (pion.marshal (pion.local_description w), w))

  unfoldable pub decode_sdp : List ℕ → Act (PeerSession W Raw) Sdp
  decode_sdp text = call (λ w. (pion.unmarshal text, w))

-- `if timeout <= 0 { timeout = defaultConnectTimeout }`, in nanoseconds.
abbrev default_connect_timeout : ℤ
default_connect_timeout = pos 20000000000

unfoldable pub timeout_or_default : ℤ → ℤ
timeout_or_default (pos zero) = default_connect_timeout
timeout_or_default (negsuc n) = default_connect_timeout
timeout_or_default (pos (suc n)) = pos (suc n)

-- Before the call; and conn.Close, which closes the data channel and then the peer connection.
unfoldable pub no_peer : {W Raw : Type 0} → W → PeerSession W Raw
no_peer w = record { world = w; peer = unmade; on_open = false; conn_ch = none }

unfoldable pub close_conn :
    {W Raw : Type 0}
    → (Raw → W → Option Error × W)
    → Raw
    → PeerSession W Raw
    → Option Error × PeerSession W Raw
unfolding close_peer
close_conn close_raw raw s =
    let (e, w) = close_raw raw s.world in (e, close_peer (record s { world = w }))
