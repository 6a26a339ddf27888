-- ===== src/Webrtc/Tests.antt =====
-- A toy library whose state counts the calls: runs of Dial and answer, and of a Dial that fails.
use obfs.Base.{
  List, [], ◌∷◌, ℕ, suc, pos, false, true, ltb, if◌then◌else◌, none, some, Error, other, eof, ok,
  err, ◌⊎◌, inl, ◌≡◌, refl,
}
use obfs.Act.{Ended}
use obfs.Webrtc.{
  Pion, live, shut, close_peer, timeout_or_default, new_peer, run_call, call, set_on_open,
  encode_sdp, decode_sdp, callbacks, no_peer,
}
use obfs.Webrtc.Safe.{IsReleased, HandedOn}
use obfs.Webrtc.Dial.{dial}
use obfs.Webrtc.Dial.Safe.{dial-Ended}
use obfs.Webrtc.Answer.{answer}
use obfs.Webrtc.Answer.Safe.{Settled, answer-Ended}

-- The data channel opens behind the seventh call; `bad` is the number of a call of SetRemoteDescription
-- that fails.
abbrev pub toy : ℕ → Pion ℕ (List ℕ) ℕ
toy bad = record {
  with_timeout = λ t w. w;
  new_peer_connection = λ servers w. (none, suc w);
  create_data_channel = λ w. (none, suc w);
  create_offer = λ w. (inl (1 ∷ []), suc w);
  create_answer = λ w. (inl (2 ∷ []), suc w);
  set_local = λ sdp w. (none, suc w);
  set_remote = λ sdp w. (if ltb w bad then none else some (other 1), suc w);
  gathered = λ w. (none, suc w);
  local_description = λ w. w ∷ [];
  marshal = λ sdp. inl (0x22 ∷ sdp);
  unmarshal = λ text. inl text;
  opens = λ w. (if ltb w 7 then none else some (inl 70), w);
}

abbrev exchange : List ℕ → ℕ → (List ℕ ⊎ Error) × ℕ
exchange text w = (inl text, suc w)

dial-opens :
    dial (toy 100) exchange (λ w. false) (λ w. eof) [] (pos 0) 0
    ≡ (ok 70, record { world = 7; peer = live; on_open = false; conn_ch = some 70 })
unfolding dial timeout_or_default new_peer run_call call set_on_open encode_sdp decode_sdp callbacks
    no_peer
dial-opens = refl

dial-fails :
    dial (toy 0) exchange (λ w. false) (λ w. eof) [] (pos 0) 0
    ≡ (err (other 1), record { world = 7; peer = shut; on_open = true; conn_ch = none })
unfolding dial timeout_or_default new_peer run_call call set_on_open encode_sdp decode_sdp callbacks
    no_peer close_peer
dial-fails = refl

dial-Ended_example :
    Ended HandedOn
      (λ s'. IsReleased s'.peer)
      (dial (toy 100) exchange (λ w. false) (λ w. eof) [] (pos 0) 0)
dial-Ended_example = dial-Ended (toy 100) exchange (λ w. false) (λ w. eof) [] (pos 0) 0

answer-Ended_example :
    Ended Settled
      (λ s'. IsReleased s'.peer)
      (answer
        (toy 100)
        (λ text w. (none, suc w))
        (λ w. false)
        (λ w. true)
        (λ raw w. (none, w))
        []
        (3 ∷ [])
        0)
answer-Ended_example =
    answer-Ended (toy 100) (λ text w. (none, suc w)) (λ w. false) (λ w. true) (λ raw w. (none, w))
      [] (3 ∷ []) 0
