-- ===== src/Webrtc/Dial.antt =====
-- Dial of webrtc.go.
pub mod Safe
use obfs.Base.{List, ℕ, ℤ, Bool, Option, none, some, Error, ok, err, Outcome, ◌⊎◌, if◌then◌else◌}
use obfs.Act.{Act, ◌>>=◌, on_error}
use obfs.Webrtc.{
  Pion, PeerSession, close_peer, callbacks, call, run_call, new_peer, set_on_open, encode_sdp,
  decode_sdp, timeout_or_default, no_peer,
}

-- `exchange` is the Signaler; `done_first` is the choice of the last select, if both cases are ready.
module _ {W Sdp Raw : Type 0} (pion : Pion W Sdp Raw) (exchange : List ℕ → W → (List ℕ ⊎ Error) × W)
    (done_first : W → Bool) (ctx_err : W → Error) where
  pub received : Option Raw → Act (PeerSession W Raw) Raw
  received (some raw) s =
      if done_first s.world then (err (ctx_err s.world), close_peer s) else (ok raw, s)
  received none s = (err (ctx_err s.world), close_peer s)

  -- The last select: a context with a deadline ends the wait if no connection does.
  pub await_conn : Act (PeerSession W Raw) Raw
  unfolding received
  await_conn s = let s' = callbacks pion s in received s'.conn_ch s'

  -- With `pc.Close()` on each error behind NewPeerConnection.
  pub dial_steps : List (List ℕ) → Act (PeerSession W Raw) Raw
  unfolding await_conn
  dial_steps servers = do
    _ ← new_peer pion servers
    _ ← on_error close_peer (run_call pion pion.create_data_channel)
    _ ← set_on_open pion
    offer ← on_error close_peer (call pion pion.create_offer)
    _ ← on_error close_peer (run_call pion (pion.set_local offer))
    _ ← on_error close_peer (run_call pion pion.gathered)
    offer_sdp ← on_error close_peer (encode_sdp pion)
    answer_sdp ← on_error close_peer (call pion (exchange offer_sdp))
    answer ← on_error close_peer (decode_sdp pion answer_sdp)
    _ ← on_error close_peer (run_call pion (pion.set_remote answer))
    await_conn

  unfoldable pub dial : List (List ℕ) → ℤ → W → Outcome Raw × PeerSession W Raw
  unfolding dial_steps
  dial servers timeout w =
      dial_steps servers (no_peer (pion.with_timeout (timeout_or_default timeout) w))
