-- ===== src/Webrtc/Loop/Tests.antt =====
-- An offer that becomes a connection, and the error of an OfferSource behind it.
use obfs.Base.{◌≡◌, refl, pos, ℕ, suc, [], ◌∷◌, true, false, none, some, ok, other}
use obfs.Gate.{
  Gate, stopped, got_conn, got_error, arrived, failed, reported, offered_up, taken, no_steps,
  more_steps,
}
use obfs.Webrtc.{
  PeerSession, live, new_peer, run_call, call, set_on_open, encode_sdp, decode_sdp, callbacks,
  no_peer,
}
use obfs.Webrtc.Tests.{toy}
use obfs.Webrtc.Answer.{answer}
use obfs.Webrtc.Loop.{Config, Offer, new_listener, connects, Runs}

abbrev offered : Offer ℕ
offered = record { offer_sdp = 3 ∷ []; reply = λ text w. (none, suc (suc w)); world = 0 }

abbrev plain : Config
plain = record { ice_servers = []; connect_timeout = pos 0 }

abbrev session : PeerSession ℕ ℕ
session = record { world = 7; peer = live; on_open = false; conn_ch = some 70 }

answers_offer :
    answer (toy 100) offered.reply (λ w. false) (λ w. true) (λ raw w. (none, w)) [] (3 ∷ []) 0
    ≡ (ok (some 70), session)
unfolding answer new_peer run_call call set_on_open encode_sdp decode_sdp callbacks no_peer
answers_offer = refl

abbrev at_end : Gate (Offer ℕ) (ℕ × PeerSession ℕ ℕ)
at_end = record {
  loop = stopped;
  handling = [];
  offering = [];
  gone = [];
  results = got_conn offered (70, session) ∷ got_error (other 1) ∷ [];
  done = false;
  base_open = true;
}

-- The source fails while the connection is still to be opened; Accept returns both.
serves_offer :
    Runs
      (toy 100)
      (λ t w. false)
      (λ raw w. (none, w))
      plain
      (new_listener (toy 100) (λ t w. false) (λ raw w. (none, w)) plain)
      at_end
serves_offer =
    let refused_more =
      more_steps
        (more_steps (more_steps no_steps (arrived offered refl refl)) (failed (other 1) refl))
        (reported (other 1) refl) in
    more_steps
      (more_steps refused_more
        (offered_up [] offered [] (70, session) refl (connects 70 session answers_offer)))
      (taken [] offered (70, session) [] refl)
