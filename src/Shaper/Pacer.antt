-- ===== src/Shaper/Pacer.antt =====
-- The pacer of conn.go: the queue that writePaced fills, the rounds of pacingLoop, flushQueue and
-- Close. Each function is one atomic step; a list of events is one interleaving of Write's sends and
-- the pacer's timer. Writing has writePaced itself.
pub mod Order
pub mod Writing
pub mod Carried
pub mod RoundTrip
pub mod Completes
pub mod Interval
mod Tests
use obfs.Base.{
  ℕ, ◌≡◌, List, [], ◌∷◌, ◌++◌, length, ltb, if◌then◌else◌, Bool, true, false, Option, none, some,
  Error,
}
use obfs.Wire.{Sink, base_write}
use obfs.Shaper.{Shaped}
use obfs.Shaper.Mode.{cover_for}

-- sendQ, the base connection, paceErrV, paceDead, done and paceStart.
pub record Pacer : Type 0 where
  pub send_q : List (List ℕ)
  pub sink : Sink
  pub pace_err : Option Error
  pub pace_dead : Bool
  pub done : Bool
  pub pace_start : ℕ

-- A cell that Write sends to the queue, and the timer, with the world in which coverCell draws.
pub data Event (W : Type 0) : Type 0 where
  offer : List ℕ → Event W
  timer : W → Event W

-- `c.sendQ <- cell`; `none` while the queue is full.
pub offer_cell : ℕ → List ℕ → Pacer → Option Pacer
offer_cell depth cell p =
    if ltb (length p.send_q) depth
    then some (record p { send_q = p.send_q ++ (cell ∷ []) })
    else none

-- setPaceErr keeps the first error.
set_pace_err : Error → Option Error → Option Error
set_pace_err e none = some e
set_pace_err e (some first) = some first

-- Behind `c.base.Write(cell)`.
written_cell : Pacer → Option Error × Sink → Pacer
unfolding set_pace_err
written_cell p (none, k) = record p { sink = k }
written_cell p (some e, k) = record p {
  sink = k;
  pace_err = set_pace_err e p.pace_err;
  pace_dead = true;
}

-- The cell of a round: the head of the queue, or a cover cell, or nothing under NoPad.
pub release : Bool → List ℕ → List (List ℕ) → Pacer → Pacer
unfolding written_cell
release no_pad cover (cell ∷ q) p = written_cell (record p { send_q = q }) (base_write cell p.sink)
release true cover [] p = p
release false cover [] p = written_cell p (base_write cover p.sink)

-- `none` when the loop has ended.
pub pacing_round : Bool → List ℕ → Pacer → Option Pacer
unfolding release
pacing_round no_pad cover p = if p.pace_dead then none else some (release no_pad cover p.send_q p)

module _ {W F : Type 0} (c : Shaped W F) (depth : ℕ) (no_pad : Bool) where
  -- What `c.coverCell()` draws.
  abbrev pub cover_draw : W → List ℕ
  cover_draw w = (cover_for c c.size_sampler w).0

  step : Event W → Pacer → Option Pacer
  unfolding offer_cell pacing_round
  step (offer cell) p = offer_cell depth cell p
  step (timer w) p = pacing_round no_pad (cover_draw w) p

  unfoldable pub run : List (Event W) → Pacer → Option Pacer
  unfolding step
  run [] p = some p
  run (e ∷ es) p = elim (step e p) [ none ↦ none | some p' ↦ run es p' ]

-- flushQueue: what is left of the queue, and the connection.
unfoldable pub flush_queue : List (List ℕ) → Sink → List (List ℕ) × Sink
flush_queue [] k = ([], k)
flush_queue (cell ∷ q) k =
    let rest = flush_queue q (base_write cell k).1 in
    elim (base_write cell k).0 [ none ↦ rest | some e ↦ (q, (base_write cell k).1) ]

-- Close, when the loops have ended.
unfoldable pub close_paced : Pacer → Pacer
unfolding flush_queue
close_paced p =
    let (q, k) = flush_queue p.send_q p.sink in record p { send_q = q; sink = k; done = true }

-- resetSurge and surgeStart
pub reset_surge : ℕ → Pacer → Pacer
reset_surge now p = record p { pace_start = now }

abbrev pub surge_start : Pacer → ℕ
surge_start p = p.pace_start

-- `if len(c.sendQ) == 0 { c.resetSurge() }`
unfoldable pub start_burst : ℕ → Pacer → Pacer
unfolding reset_surge
start_burst now p = elim p.send_q [ [] ↦ reset_surge now p | _ ∷ _ ↦ p ]
