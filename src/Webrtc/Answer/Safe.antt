-- ===== src/Webrtc/Answer/Safe.antt =====
-- How answer ends.
use obfs.Base.{List, ℕ, Bool, true, false, Bool-cases, Option, none, some, Error, inl, inr, refl}
use obfs.Act.{Ended, ended_ok, Ended-and_then}
use obfs.Webrtc.{
  Pion, PeerSession, Peer, unmade, live, shut, close_peer, close_conn, callbacks, run_call,
  encode_sdp, decode_sdp,
}
use obfs.Webrtc.Safe.{
  AgreesWith, Agrees, IsReleased, HandedOn, callbacks-Agrees, agreeing-Ended, new_peer-Ended,
  set_on_open-Ended,
}
use obfs.Webrtc.Answer.{handed, take_opened, await_opened, answer_steps, answer}

-- The connection went to Accept on a live peer connection, or that is closed.
abbrev pub Settled : {W Raw : Type 0} → Option Raw → PeerSession W Raw → Type 0
Settled (some raw) s = HandedOn raw s
Settled none s = IsReleased s.peer

module _ {W Sdp Raw : Type 0} (pion : Pion W Sdp Raw) (reply : List ℕ → W → Option Error × W)
    (timer_first accepting : W → Bool) (close_raw : Raw → W → Option Error × W) where
  handed-Ended :
      (w : W) (raw : Raw)
      → Ended Settled
          (λ s'. IsReleased s'.peer)
          (handed pion reply timer_first accepting close_raw raw
            (record { world = w; peer = live; on_open = false; conn_ch = some raw }))
  unfolding handed close_conn close_peer
  handed-Ended w raw = elim (Bool-cases (accepting w)) [
    | inl taken ↦ rw taken (ended_ok (refl, refl))
    | inr gone ↦ rw gone (ended_ok tt)
  ]

  take_opened-Ended :
      (w : W) (p : Peer) (b : Bool) (c : Option Raw)
      → AgreesWith b p c
      → Ended Settled
          (λ s'. IsReleased s'.peer)
          (take_opened pion reply timer_first accepting close_raw c
            (record { world = w; peer = p; on_open = b; conn_ch = c }))
  unfolding take_opened close_peer
  take_opened-Ended w p b none h = ended_ok tt
  take_opened-Ended w unmade b (some raw) h = absurd h
  take_opened-Ended w shut true (some raw) h = absurd h
  take_opened-Ended w shut false (some raw) h = absurd h
  take_opened-Ended w live true (some raw) h = absurd h
  take_opened-Ended w live false (some raw) h = elim (Bool-cases (timer_first w)) [
    | inl late ↦ rw late (ended_ok tt)
    | inr first ↦ rw first (handed-Ended w raw)
  ]

  await_opened-Ended :
      (s : PeerSession W Raw)
      → Agrees s
      → Ended Settled
          (λ s'. IsReleased s'.peer)
          (await_opened pion reply timer_first accepting close_raw s)
  unfolding await_opened
  await_opened-Ended s h =
      let s' = callbacks pion s in
      take_opened-Ended s'.world s'.peer s'.on_open s'.conn_ch (callbacks-Agrees pion s h)

  -- When answer returns, the connection has gone to Accept on a peer connection that is not closed,
  -- or no peer connection was made or it is closed.
  pub answer-Ended :
      (servers : List (List ℕ)) (offer_sdp : List ℕ) (w : W)
      → Ended Settled
          (λ s'. IsReleased s'.peer)
          (answer pion reply timer_first accepting close_raw servers offer_sdp w)
  unfolding answer answer_steps encode_sdp decode_sdp run_call
  answer-Ended servers offer_sdp w = Ended-and_then (new_peer-Ended pion servers _) (λ _ s₁ h₁.
      Ended-and_then (set_on_open-Ended pion s₁ h₁) (λ _ s₂ h₂.
        Ended-and_then (agreeing-Ended pion _ s₂ h₂) (λ _ s₃ h₃.
          Ended-and_then (agreeing-Ended pion _ s₃ h₃) (λ _ s₄ h₄.
            Ended-and_then (agreeing-Ended pion _ s₄ h₄) (λ _ s₅ h₅.
              Ended-and_then (agreeing-Ended pion _ s₅ h₅) (λ _ s₆ h₆.
                Ended-and_then (agreeing-Ended pion _ s₆ h₆) (λ _ s₇ h₇.
                  Ended-and_then (agreeing-Ended pion _ s₇ h₇) (λ _ s₈ h₈.
                    Ended-and_then (agreeing-Ended pion _ s₈ h₈)
                      (λ _ s h. await_opened-Ended s h)))))))))
