-- ===== src/Shaper/Pacer/Completes.antt =====
-- A Write on a paced connection is never stuck behind a full queue: a round of the pacer makes room.
use obfs.Base.{
  ℕ, ◌≤◌, ◌<◌, ◌≡◌, refl, subst, List, [], ◌∷◌, ◌++◌, arith, length, length-append, ltb, lt→ltb,
  ltb→le, ltb→lt, Bool, false, Bool-cases, some, ok, inl, inr,
}
use obfs.Wire.Laws.{base_write-healthy}
use obfs.Shaper.{Shaped}
use obfs.Shaper.Mode.{cover_for}
use obfs.Shaper.Pacer.{Pacer, offer_cell, pacing_round, release, written_cell}
use obfs.Shaper.Pacer.Writing.{Writing, all_queued, queued, paced}

-- The queue holds at most its capacity, the pacer runs, and the base connection takes all writes.
pub record IsHealthy (depth : ℕ) (p : Pacer) : Type 0 where
  pub within : length p.send_q ≤ depth
  pub alive : p.pace_dead ≡ false
  pub no_faults : p.sink.faults ≡ []

module _ {W F : Type 0} (c : Shaped W F) (depth : ℕ) (no_pad : Bool) where
  -- What a round leaves when a cell waits.
  abbrev behind_round : List ℕ → List (List ℕ) → Pacer → Pacer
  behind_round cell q p = record p {
    send_q = q;
    sink = record p.sink { sent = p.sink.sent ++ cell };
  }

  pacing_round-waiting :
      (cover cell : List ℕ) (q : List (List ℕ)) (p : Pacer)
      → p.send_q ≡ cell ∷ q
      → IsHealthy depth p
      → pacing_round no_pad cover p ≡ some (behind_round cell q p)
  unfolding pacing_round release written_cell
  pacing_round-waiting cover cell q p e v =
      rw (v.alive, e, base_write-healthy cell p.sink v.no_faults)

  offer_cell-room :
      (cell : List ℕ) (p : Pacer)
      → length p.send_q < depth
      → offer_cell depth cell p ≡ some (record p { send_q = p.send_q ++ (cell ∷ []) })
  unfolding offer_cell
  offer_cell-room cell p h = rw (lt→ltb (length p.send_q) depth h)

  module _ (w : W) (n : ℕ) (cell : List ℕ) (cells : List (List ℕ)) (room : 0 < depth)
      (others : (p : Pacer)
        → IsHealthy depth p
        → (q : Pacer) × Writing c depth no_pad n cells p (ok n) q) where
    offered-completes :
        (p : Pacer)
        → length p.send_q < depth
        → IsHealthy depth p
        → (q : Pacer) × Writing c depth no_pad n (cell ∷ cells) p (ok n) q
    offered-completes p h v =
        let size = length-append p.send_q (cell ∷ []) in
        let (q, x) =
          others (record p { send_q = p.send_q ++ (cell ∷ []) })
            (record { within = omega arith; alive = v.alive; no_faults = v.no_faults }) in
        (q, queued (offer_cell-room cell p h) x)

    full-completes :
        (l : List (List ℕ)) (p : Pacer)
        → p.send_q ≡ l
        → depth ≤ length l
        → IsHealthy depth p
        → (q : Pacer) × Writing c depth no_pad n (cell ∷ cells) p (ok n) q
    full-completes [] p e h v = absurd (omega arith)
    full-completes (first ∷ l) p e h v =
        let size : length (first ∷ l) ≤ depth = subst (λ q. length q ≤ depth) e v.within in
        let (q, x) =
          offered-completes (behind_round first l p) (omega arith)
            (record { within = omega arith; alive = v.alive; no_faults = v.no_faults }) in
        (q, paced w (pacing_round-waiting (cover_for c c.size_sampler w).0 first l p e v) x)

  -- From any state in which the pacer runs and the base connection takes all writes, some
  -- interleaving lets the loop of writePaced queue all its cells, if the queue has a capacity.
  pub Writing-completes :
      (w : W) (n : ℕ) (cells : List (List ℕ)) (p : Pacer)
      → 0 < depth
      → IsHealthy depth p
      → (q : Pacer) × Writing c depth no_pad n cells p (ok n) q
  Writing-completes w n [] p h v = (p, all_queued)
  Writing-completes w n (cell ∷ cells) p h v =
      let others : (p' : Pacer)
          → IsHealthy depth p'
          → (q : Pacer) × Writing c depth no_pad n cells p' (ok n) q =
        λ p' v'. Writing-completes w n cells p' h v' in
      elim (Bool-cases (ltb (length p.send_q) depth)) [
        | inl room ↦ offered-completes w n cell cells h others p (ltb→lt _ _ room) v
        | inr full ↦ full-completes w n cell cells h others p.send_q p refl (ltb→le _ _ full) v
      ]
