-- ===== src/Webrtc/Dial/Safe.antt =====
-- How Dial ends.
use obfs.Base.{
  List, ℕ, ℤ, Bool, true, false, Bool-cases, Option, none, some, Error, ◌⊎◌, inl, inr, refl,
}
use obfs.Act.{Ended, ended_ok, ended_err, Ended-and_then}
use obfs.Webrtc.{
  Pion, PeerSession, Peer, unmade, live, shut, close_peer, callbacks, run_call, encode_sdp,
  decode_sdp,
}
use obfs.Webrtc.Safe.{
  AgreesWith, Agrees, IsReleased, HandedOn, callbacks-Agrees, agreeing-Ended, new_peer-Ended,
  run_call-IsMade, set_on_open-Ended,
}
use obfs.Webrtc.Dial.{received, await_conn, dial_steps, dial}

module _ {W Sdp Raw : Type 0} (pion : Pion W Sdp Raw) (exchange : List ℕ → W → (List ℕ ⊎ Error) × W)
    (done_first : W → Bool) (ctx_err : W → Error) where
  received-Ended :
      (w : W) (p : Peer) (b : Bool) (c : Option Raw)
      → AgreesWith b p c
      → Ended HandedOn
          (λ s'. IsReleased s'.peer)
          (received pion exchange done_first ctx_err c
            (record { world = w; peer = p; on_open = b; conn_ch = c }))
  unfolding received close_peer
  received-Ended w p b none h = ended_err tt
  received-Ended w unmade b (some raw) h = absurd h
  received-Ended w shut true (some raw) h = absurd h
  received-Ended w shut false (some raw) h = absurd h
  received-Ended w live true (some raw) h = absurd h
  received-Ended w live false (some raw) h = elim (Bool-cases (done_first w)) [
    | inl done ↦ rw done (ended_err tt)
    | inr first ↦ rw first (ended_ok (refl, refl))
  ]

  await_conn-Ended :
      (s : PeerSession W Raw)
      → Agrees s
      → Ended HandedOn (λ s'. IsReleased s'.peer) (await_conn pion exchange done_first ctx_err s)
  unfolding await_conn
  await_conn-Ended s h =
      let s' = callbacks pion s in
      received-Ended s'.world s'.peer s'.on_open s'.conn_ch (callbacks-Agrees pion s h)

  -- A connection that Dial returns is the detached data channel, on a peer connection that is not
  -- closed; and whenever Dial returns an error, no peer connection was made or it is closed.
  pub dial-Ended :
      (servers : List (List ℕ)) (timeout : ℤ) (w : W)
      → Ended HandedOn
          (λ s'. IsReleased s'.peer)
          (dial pion exchange done_first ctx_err servers timeout w)
  unfolding dial dial_steps encode_sdp decode_sdp run_call
  dial-Ended servers timeout w = Ended-and_then (new_peer-Ended pion servers _) (λ _ s₁ h₁.
      Ended-and_then (run_call-IsMade pion pion.create_data_channel s₁ h₁) (λ _ s₂ h₂.
        Ended-and_then (set_on_open-Ended pion s₂ h₂) (λ _ s₃ h₃.
          Ended-and_then (agreeing-Ended pion _ s₃ h₃) (λ _ s₄ h₄.
            Ended-and_then (agreeing-Ended pion _ s₄ h₄) (λ _ s₅ h₅.
              Ended-and_then (agreeing-Ended pion _ s₅ h₅) (λ _ s₆ h₆.
                Ended-and_then (agreeing-Ended pion _ s₆ h₆) (λ _ s₇ h₇.
                  Ended-and_then (agreeing-Ended pion _ s₇ h₇) (λ _ s₈ h₈.
                    Ended-and_then (agreeing-Ended pion _ s₈ h₈) (λ _ s₉ h₉.
                      Ended-and_then (agreeing-Ended pion _ s₉ h₉)
                        (λ _ s h. await_conn-Ended s h))))))))))
