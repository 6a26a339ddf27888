-- ===== src/Webrtc/Loop/Accepted.antt =====
-- Accept of webrtc's listener returns connections of live peers.
use obfs.Base.{ℤ, refl, subst, Bool, true, Option, some, Error, ok}
use obfs.Act.{Ended, ended_ok}
use obfs.Gate.{Gate}
use obfs.Gate.Keeps.{Accepts, Steps-Accepts}
use obfs.Webrtc.{Pion, PeerSession, timeout_or_default}
use obfs.Webrtc.Safe.{IsReleased, HandedOn}
use obfs.Webrtc.Answer.Safe.{Settled, answer-Ended}
use obfs.Webrtc.Loop.{Config, Offer, new_listener, close_listener, Answers, connects, Runs}

module _ {W Raw : Type 0} where
  abbrev pub IsLive : Offer W → Raw × PeerSession W Raw → Type 0
  IsLive o (raw, s) = HandedOn raw s

  Ended-HandedOn :
      (raw : Raw) (s : PeerSession W Raw)
      → Ended Settled (λ s'. IsReleased s'.peer) (ok (some raw), s)
      → HandedOn raw s
  Ended-HandedOn raw s (ended_ok h) = h

module _ {W Sdp Raw : Type 0} (pion : Pion W Sdp Raw) (timer_first : ℤ → W → Bool)
    (close_raw : Raw → W → Option Error × W) (cfg : Config) where
  Answers-IsLive :
      (o : Offer W) (c : Raw × PeerSession W Raw)
      → Answers pion timer_first close_raw cfg o (some c)
      → IsLive o c
  Answers-IsLive o c (connects raw s h) = Ended-HandedOn raw s (
      subst (λ r. Ended Settled (λ s'. IsReleased s'.peer) r) h
        (answer-Ended pion o.reply (timer_first (timeout_or_default cfg.connect_timeout))
          (λ w. true) close_raw cfg.ice_servers o.offer_sdp o.world))

  -- In every interleaving of the accept loop, the goroutines of answer, Accept and Close, each
  -- connection that Accept has returned is the data channel that the callback opened while its
  -- offer was answered, on a peer connection that was not closed.
  pub accepted-IsLive :
      {s : Gate (Offer W) (Raw × PeerSession W Raw)}
      → Runs pion timer_first close_raw cfg (new_listener pion timer_first close_raw cfg) s
      → Accepts IsLive s.results
  accepted-IsLive {s} x =
      Steps-Accepts (Answers pion timer_first close_raw cfg)
        (close_listener pion timer_first close_raw cfg) (λ g. (g.base_open, refl)) IsLive
        Answers-IsLive s x
