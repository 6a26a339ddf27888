-- ===== src/Shaper/Pacer/Writing.antt =====
-- writePaced of conn.go: a Write on a paced connection, and a session of such writes. Each `select`
-- takes any case that is ready, and the rounds of the pacer come in between.
use obfs.Base.{ℕ, ◌≡◌, refl, List, [], ◌∷◌, ◌++◌, length, Bool, true, Option, none, some}
use obfs.Base.{Error, closed, Outcome, ok, err}
use obfs.Shaper.{Shaped}
use obfs.Shaper.Mode.{cells_for, cover_for}
use obfs.Shaper.Pacer.{Pacer, offer_cell, pacing_round, start_burst}

-- `if err := c.pacedErr(); err != nil { return 0, err }; return 0, net.ErrClosed`
abbrev pub dead_error : Option Error → Error
dead_error none = closed
dead_error (some e) = e

module _ {W F : Type 0} (c : Shaped W F) where
  begun : Option Error → List ℕ → W → Outcome (List (List ℕ)) × W
  begun (some e) msg w = (err e, w)
  begun none msg w = cells_for c c.size_sampler msg w

  -- writePaced up to its loop: the cells to queue. An empty message queues none.
  unfoldable pub begin_write : List ℕ → Option Error → W → Outcome (List (List ℕ)) × W
  unfolding begun
  begin_write [] pace_err w = (ok [], w)
  begin_write (b ∷ bs) pace_err w = begun pace_err (b ∷ bs) w

  module _ (depth : ℕ) (no_pad : Bool) where
    -- The loop of writePaced over the cells of a message of `n` bytes: what it returns, and the
    -- pacer then. `paced` is a round of pacingLoop, and `shut` is Close by someone else.
    pub data Writing (n : ℕ) : List (List ℕ) → Pacer → Outcome ℕ → Pacer → Type 0 where
      all_queued : {p : Pacer} → Writing n [] p (ok n) p
      queued :
          {cell : List ℕ} {cells : List (List ℕ)} {p p' q : Pacer} {o : Outcome ℕ}
          → offer_cell depth cell p ≡ some p'
          → Writing n cells p' o q
          → Writing n (cell ∷ cells) p o q
      saw_dead :
          {cell : List ℕ} {cells : List (List ℕ)} {p : Pacer}
          → p.pace_dead ≡ true
          → Writing n (cell ∷ cells) p (err (dead_error p.pace_err)) p
      saw_done :
          {cell : List ℕ} {cells : List (List ℕ)} {p : Pacer}
          → p.done ≡ true
          → Writing n (cell ∷ cells) p (err closed) p
      paced :
          {cells : List (List ℕ)} {p p' q : Pacer} {o : Outcome ℕ} (w : W)
          → pacing_round no_pad (cover_for c c.size_sampler w).0 p ≡ some p'
          → Writing n cells p' o q
          → Writing n cells p o q
      shut :
          {cells : List (List ℕ)} {p q : Pacer} {o : Outcome ℕ}
          → Writing n cells (record p { done = true }) o q
          → Writing n cells p o q

    -- A Write from its start to its return, at a time `now`.
    pub data Writes (msg : List ℕ) (now : ℕ) (p : Pacer) : Outcome ℕ → Pacer → Type 0 where
      refused :
          (e : Error) (w : W)
          → (begin_write msg p.pace_err w).0 ≡ err e
          → Writes msg now p (err e) p
      runs :
          {cells : List (List ℕ)} {q : Pacer} {o : Outcome ℕ} (w : W)
          → (begin_write msg p.pace_err w).0 ≡ ok cells
          → Writing (length msg) cells (start_burst now p) o q
          → Writes msg now p o q

    -- Writes that succeed and rounds of the pacer, in any order, with the bytes written so far.
    pub data Session (p : Pacer) : List ℕ → Pacer → Type 0 where
      unused : Session p [] p
      wrote :
          {d msg : List ℕ} {q q' : Pacer} {n now : ℕ}
          → Session p d q
          → Writes msg now q (ok n) q'
          → Session p (d ++ msg) q'
      round :
          {d : List ℕ} {q q' : Pacer} (w : W)
          → Session p d q
          → pacing_round no_pad (cover_for c c.size_sampler w).0 q ≡ some q'
          → Session p d q'

    -- The ways in which the loop of writePaced can end: the length of the message, or an error that
    -- says why, of a pacer that has stopped on a write error or of a connection that was closed.
    pub data Ended (n : ℕ) (o : Outcome ℕ) (q : Pacer) : Type 0 where
      in_full : o ≡ ok n → Ended n o q
      by_error : q.pace_dead ≡ true → o ≡ err (dead_error q.pace_err) → Ended n o q
      by_close : q.done ≡ true → o ≡ err closed → Ended n o q

    -- Whatever the interleaving, the loop of writePaced ends in one of these ways.
    pub Writing-Ended :
        {n : ℕ} {cells : List (List ℕ)} {p q : Pacer} {o : Outcome ℕ}
        → Writing n cells p o q
        → Ended n o q
    Writing-Ended all_queued = in_full refl
    Writing-Ended (queued h x) = Writing-Ended x
    Writing-Ended (saw_dead h) = by_error h refl
    Writing-Ended (saw_done h) = by_close h refl
    Writing-Ended (paced w h x) = Writing-Ended x
    Writing-Ended (shut x) = Writing-Ended x
