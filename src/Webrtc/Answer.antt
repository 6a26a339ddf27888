-- ===== src/Webrtc/Answer.antt =====
-- answer of webrtc.go, the listener's side of one offer.
pub mod Safe
use obfs.Base.{List, ℕ, ℤ, Bool, Option, none, some, Error, ok, err, Outcome, ◌⊎◌, if◌then◌else◌}
use obfs.Act.{Act, ◌>>=◌, on_error}
use obfs.Webrtc.{
  Pion, PeerSession, close_peer, callbacks, call, run_call, new_peer, set_on_open, encode_sdp,
  decode_sdp, no_peer, close_conn,
}

-- `reply` is the callback of the OfferSource; `timer_first` says that the timer or the listener's
-- context came before the connection, and `accepting` that Accept takes it before Close.
module _ {W Sdp Raw : Type 0} (pion : Pion W Sdp Raw) (reply : List ℕ → W → Option Error × W)
    (timer_first accepting : W → Bool) (close_raw : Raw → W → Option Error × W) where
  -- `case l.conns <- acceptResult{c, nil}: case <-l.ctx.Done(): c.Close()`
  pub handed : Raw → Act (PeerSession W Raw) (Option Raw)
  handed raw s =
      if accepting s.world then (ok (some raw), s) else (ok none, (close_conn close_raw raw s).1)

  pub take_opened : Option Raw → Act (PeerSession W Raw) (Option Raw)
  unfolding handed
  take_opened (some raw) s = if timer_first s.world then (ok none, close_peer s) else handed raw s
  take_opened none s = (ok none, close_peer s)

  pub await_opened : Act (PeerSession W Raw) (Option Raw)
  unfolding take_opened
  await_opened s = let s' = callbacks pion s in take_opened s'.conn_ch s'

  pub answer_steps : List (List ℕ) → List ℕ → Act (PeerSession W Raw) (Option Raw)
  unfolding await_opened
  answer_steps servers offer_sdp = do
    _ ← new_peer pion servers
    _ ← set_on_open pion
    offer ← on_error close_peer (decode_sdp pion offer_sdp)
    _ ← on_error close_peer (run_call pion (pion.set_remote offer))
    answer ← on_error close_peer (call pion pion.create_answer)
    _ ← on_error close_peer (run_call pion (pion.set_local answer))
    _ ← on_error close_peer (run_call pion pion.gathered)
    answer_sdp ← on_error close_peer (encode_sdp pion)
    _ ← on_error close_peer (run_call pion (reply answer_sdp))
    await_opened

  -- `some` when the connection went to Accept.
  unfoldable pub answer : List (List ℕ) → List ℕ → W → Outcome (Option Raw) × PeerSession W Raw
  unfolding answer_steps
  answer servers offer_sdp w = answer_steps servers offer_sdp (no_peer w)
