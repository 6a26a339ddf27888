-- ===== src/Shaper/Pacer/RoundTrip.antt =====
-- The reader of a paced connection.
use obfs.Base.{ℕ, ◌≤◌, ◌<◌, ◌≡◌, refl, List, [], length, All, Bool, false, Error, inl, inr}
use obfs.Shaper.{Shaped}
use obfs.Shaper.Frame.{Framed-nil, Split-nil}
use obfs.Shaper.Mode.{IsUsable}
use obfs.Shaper.Session.{receive, reader_of}
use obfs.Shaper.Session.RoundTrip.{receive_exact, reader_of-HoldsFor}
use obfs.Shaper.Pacer.{Pacer, close_paced}
use obfs.Shaper.Pacer.Writing.{Session}
use obfs.Shaper.Pacer.Carried.{InOrder, AliveInOrder, Session-AliveInOrder, close_paced-Framed}

module _ {W F : Type 0} (c : Shaped W F) where
  fresh-InOrder : (p : Pacer) → p.sink.sent ≡ [] → p.send_q ≡ [] → InOrder c [] p
  fresh-InOrder p s q = record {
    sent_data = [];
    queued_data = [];
    sent = rw s Framed-nil;
    waiting = rw q Split-nil;
    in_order = refl;
  }

  alive-InOrder :
      (d : List ℕ) (p : Pacer) → AliveInOrder c d p → p.pace_dead ≡ false → InOrder c d p
  alive-InOrder d p (inl dead) alive = absurd (cc)
  alive-InOrder d p (inr x) alive = x

  -- For a paced connection in morpher mode, or in fixed mode with cells of 3 to 65537 bytes: after
  -- any session of successful writes and rounds of the pacer on a fresh wire, interleaved in any
  -- way, and Close, if no write to the base connection has failed or fails in Close, a peer with the
  -- same configuration that reads often enough, with any non-empty buffers, is handed exactly the
  -- messages, in order.
  pub receive-paced :
      (v : IsUsable c) (depth : ℕ) (no_pad : Bool) (p q : Pacer) (d rooms : List ℕ) (e : Error)
      → p.sink.sent ≡ []
      → p.send_q ≡ []
      → Session c depth no_pad p d q
      → q.pace_dead ≡ false
      → q.sink.faults ≡ []
      → All (λ room. 0 < room) rooms
      → length d ≤ length rooms
      → (receive c rooms (reader_of (close_paced q).sink.sent e)).0 ≡ d
  receive-paced v depth no_pad p q d rooms e s w session alive h ne enough =
      receive_exact c v rooms _ e d ne
        (reader_of-HoldsFor c _ e d (
          close_paced-Framed c v depth no_pad d q h (
            alive-InOrder d q (Session-AliveInOrder c v depth no_pad (fresh-InOrder p s w) session)
              alive)))
        enough
