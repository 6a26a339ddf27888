-- ===== src/Webrtc/Loop.antt =====
-- webrtc.go: Listener, acceptLoop, Accept and Close, over answer.
pub mod Accepted
mod Tests
use obfs.Base.{ℕ, ℤ, ◌≡◌, List, Bool, true, false, Option, none, some, Error, ok, err}
use obfs.Gate.{Gate, opened, Steps}
use obfs.Webrtc.{Pion, PeerSession, timeout_or_default}
use obfs.Webrtc.Answer.{answer}

-- What `l.src.Next(l.ctx)` returns, with the state of the library when a goroutine answers it.
pub record Offer (W : Type 0) : Type 0 where
  pub offer_sdp : List ℕ
  pub reply : List ℕ → W → Option Error × W
  pub world : W

pub record Config : Type 0 where
  pub ice_servers : List (List ℕ)
  pub connect_timeout : ℤ

-- `timer_first` is that of answer, for the timeout of the timer.
module _ {W Sdp Raw : Type 0} (pion : Pion W Sdp Raw) (timer_first : ℤ → W → Bool)
    (close_raw : Raw → W → Option Error × W) (cfg : Config) where
  -- Listener, without `go l.acceptLoop()`.
  abbrev pub new_listener : Gate (Offer W) (Raw × PeerSession W Raw)
  new_listener = opened

  -- `l.once.Do(func() { l.cancel() })`; the OfferSource is not closed.
  abbrev pub close_listener :
      Gate (Offer W) (Raw × PeerSession W Raw) → Gate (Offer W) (Raw × PeerSession W Raw)
  close_listener l = record l { done = true }

  -- What a goroutine of answer comes to: it offers its connection at the `select`, or it returns.
  pub data Answers (o : Offer W) : Option (Raw × PeerSession W Raw) → Type 0 where
    connects :
        (raw : Raw) (s : PeerSession W Raw)
        → answer pion o.reply
            (timer_first (timeout_or_default cfg.connect_timeout))
            (λ w. true)
            close_raw
            cfg.ice_servers
            o.offer_sdp
            o.world
          ≡ (ok (some raw), s)
        → Answers o (some (raw, s))
    gives_up :
        (s : PeerSession W Raw)
        → answer pion o.reply
            (timer_first (timeout_or_default cfg.connect_timeout))
            (λ w. true)
            close_raw
            cfg.ice_servers
            o.offer_sdp
            o.world
          ≡ (ok none, s)
        → Answers o none
    breaks :
        (e : Error) (s : PeerSession W Raw)
        → answer pion o.reply
            (timer_first (timeout_or_default cfg.connect_timeout))
            (λ w. true)
            close_raw
            cfg.ice_servers
            o.offer_sdp
            o.world
          ≡ (err e, s)
        → Answers o none

  -- What the goroutines of a listener, its Accept and its Close do, in any order.
  abbrev pub Runs :
      Gate (Offer W) (Raw × PeerSession W Raw) → Gate (Offer W) (Raw × PeerSession W Raw) → Type 0
  Runs s t = Steps Answers close_listener s t
