-- ===== src/Webrtc/Safe.antt =====
-- No peer connection is left open: a call of Dial or answer ends with the peer closed, or hands the
-- connection on.
use obfs.Base.{List, ℕ, Bool, true, false, Option, none, some, Error, ◌⊎◌, inl, inr, ◌≡◌, refl}
use obfs.Act.{on_error, Ended, ended_ok, ended_err, Ended-call, Ended-cleaned}
use obfs.Webrtc.{
  Pion, PeerSession, Peer, unmade, live, shut, close_peer, fired, callbacks, call, run_call,
  new_peer, set_on_open, made, no_peer,
}

-- Behind NewPeerConnection: the callback waits or has run, and what it sent is a connection of a
-- live peer.
abbrev pub AgreesWith : {Raw : Type 0} → Bool → Peer → Option Raw → Type 0
AgreesWith b unmade c = ⊥
AgreesWith b live none = Unit {0}
AgreesWith true live (some raw) = ⊥
AgreesWith false live (some raw) = Unit {0}
AgreesWith true shut c = ⊥
AgreesWith false shut none = Unit {0}
AgreesWith false shut (some raw) = ⊥

abbrev pub Agrees : {W Raw : Type 0} → PeerSession W Raw → Type 0
Agrees s = AgreesWith s.on_open s.peer s.conn_ch

abbrev pub IsReleased : Peer → Type 0
IsReleased unmade = Unit {0}
IsReleased live = ⊥
IsReleased shut = Unit {0}

-- The connection that is handed on is what the callback made, on a peer that is not closed.
abbrev pub HandedOn : {W Raw : Type 0} → Raw → PeerSession W Raw → Type 0
HandedOn raw s = (s.peer ≡ live) × (s.conn_ch ≡ some raw)

fired-Agrees :
    {W Raw : Type 0} (r : Option (Raw ⊎ Error)) (p : Peer) (c : Option Raw) (w : W)
    → AgreesWith true p c
    → Agrees (fired r (record { world = w; peer = p; on_open = true; conn_ch = c }))
unfolding fired
fired-Agrees none p c w h = h
fired-Agrees (some x) unmade c w h = absurd h
fired-Agrees (some (inl raw)) live none w h = tt
fired-Agrees (some (inr e)) live none w h = tt
fired-Agrees (some x) live (some raw) w h = absurd h
fired-Agrees (some x) shut c w h = absurd h

module _ {W Sdp Raw : Type 0} (pion : Pion W Sdp Raw) where
  callbacks-AgreesWith :
      (w : W) (p : Peer) (b : Bool) (c : Option Raw)
      → AgreesWith b p c
      → Agrees (callbacks pion (record { world = w; peer = p; on_open = b; conn_ch = c }))
  unfolding callbacks
  callbacks-AgreesWith w p true c h = fired-Agrees (pion.opens w).0 p c (pion.opens w).1 h
  callbacks-AgreesWith w p false c h = h

  pub callbacks-Agrees : (s : PeerSession W Raw) → Agrees s → Agrees (callbacks pion s)
  callbacks-Agrees s h = callbacks-AgreesWith s.world s.peer s.on_open s.conn_ch h

  -- A call that closes the peer connection on an error.
  pub closing-Ended :
      {A : Type 0} (P : PeerSession W Raw → Type 0) (f : W → (A ⊎ Error) × W)
      (s : PeerSession W Raw)
      → ((w : W) → P (record (callbacks pion s) { world = w }))
      → Ended (λ _ s'. P s') (λ s'. IsReleased s'.peer) (on_error close_peer (call pion f) s)
  unfolding call close_peer
  closing-Ended P f s h =
      let s' = callbacks pion s in
      Ended-cleaned {Mid = λ _. Unit {0}} close_peer
        (Ended-call (f s'.world).0 (record s' { world = (f s'.world).1 }) (λ _. h (f s'.world).1)
          tt)
        (λ _ _. tt)

  pub agreeing-Ended :
      {A : Type 0} (f : W → (A ⊎ Error) × W) (s : PeerSession W Raw)
      → Agrees s
      → Ended (λ _ s'. Agrees s') (λ s'. IsReleased s'.peer) (on_error close_peer (call pion f) s)
  agreeing-Ended f s h = closing-Ended Agrees f s (λ _. callbacks-Agrees s h)

  -- The peer connection is there, without a callback yet.
  abbrev pub IsMade : PeerSession W Raw → Type 0
  IsMade s = (s.peer ≡ live) × (s.on_open ≡ false) × (s.conn_ch ≡ none)

  pub new_peer-Ended :
      (servers : List (List ℕ)) (w : W)
      → Ended (λ _ s'. IsMade s') (λ s'. IsReleased s'.peer) (new_peer pion servers (no_peer w))
  unfolding new_peer no_peer made
  new_peer-Ended servers w = made-Ended (pion.new_peer_connection servers w)
    where
      made-Ended :
          (r : Option Error × W)
          → Ended (λ _ s'. IsMade s') (λ s'. IsReleased s'.peer) (made pion r (no_peer w))
      made-Ended (none, w') = ended_ok (refl, refl, refl)
      made-Ended (some e, w') = ended_err tt

  pub run_call-IsMade :
      (f : W → Option Error × W) (s : PeerSession W Raw)
      → IsMade s
      → Ended
          (λ _ s'. IsMade s')
          (λ s'. IsReleased s'.peer)
          (on_error close_peer (run_call pion f) s)
  unfolding run_call callbacks
  run_call-IsMade f s h = closing-Ended IsMade _ s (λ w. rw h.1 (h.0, refl, h.2))

  pub set_on_open-Ended :
      (s : PeerSession W Raw)
      → IsMade s
      → Ended (λ _ s'. Agrees s') (λ s'. IsReleased s'.peer) (set_on_open pion s)
  unfolding set_on_open
  set_on_open-Ended s h = ended_ok (rw (h.0, h.2) tt)
