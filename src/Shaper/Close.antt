-- ===== src/Shaper/Close.antt =====
-- Close of conn.go, with the goroutines that it waits for and the calls of Close by others. A step is
-- what one goroutine does next.
pub mod Orderly
mod Tests
use obfs.Base.{
  ℕ, suc, ◌+◌, ◌≡◌, List, [], ◌∷◌, ◌++◌, Bool, true, false, if◌then◌else◌, Option, none, some,
  Error,
}
use obfs.Wire.{Sink}
use obfs.Shaper.Pacer.{flush_queue}

-- `c.closeOnce`: not called, behind `close(c.done)`, behind `c.wg.Wait()` and flushQueue, and over.
pub data Once : Type 0 where
  untouched : Once
  awaiting : Once
  flushed_all : Once
  settled : Once

-- `loops` counts the goroutines that have not called `c.wg.Done()`, `base_closes` the calls of
-- `c.base.Close()`, and `returned` holds what the calls of Close have returned.
pub record Lifecycle : Type 0 where
  pub paced : Bool
  pub once : Once
  pub done : Bool
  pub loops : ℕ
  pub send_q : List (List ℕ)
  pub sink : Sink
  pub base_closes : ℕ
  pub close_err : Option Error
  pub returned : List (Option Error)

-- Behind newShapedConn, which has started `loops` goroutines.
abbrev pub new_lifecycle : Bool → ℕ → List (List ℕ) → Sink → Lifecycle
new_lifecycle paced loops send_q sink = record {
  paced = paced;
  once = untouched;
  done = false;
  loops = loops;
  send_q = send_q;
  sink = sink;
  base_closes = 0;
  close_err = none;
  returned = [];
}

abbrev pub flushed_state : Lifecycle → Lifecycle
flushed_state s = record s {
  once = flushed_all;
  send_q = if s.paced then (flush_queue s.send_q s.sink).0 else s.send_q;
  sink = if s.paced then (flush_queue s.send_q s.sink).1 else s.sink;
}

-- Write on a paced connection may queue a cell at any time. A loop that runs may change the queue and the wire; it ends when it sees `done`, or by itself. A
-- call of Close that is not the first waits in closeOnce until that is over.
pub data Turn (s : Lifecycle) : Lifecycle → Type 0 where
  enqueues :
      (cell : List ℕ) → s.paced ≡ true → Turn s (record s { send_q = s.send_q ++ (cell ∷ []) })
  loop_works :
      (n : ℕ) (send_q : List (List ℕ)) (sink : Sink)
      → s.loops ≡ suc n
      → Turn s (record s { send_q = send_q; sink = sink })
  loop_ends : (n : ℕ) → s.loops ≡ suc n → Turn s (record s { loops = n })
  first_closes : s.once ≡ untouched → Turn s (record s { once = awaiting; done = true })
  flushes : s.once ≡ awaiting → s.loops ≡ 0 → Turn s (flushed_state s)
  closes_base :
      (e : Option Error)
      → s.once ≡ flushed_all
      → Turn s (record s { once = settled; base_closes = s.base_closes + 1; close_err = e })
  close_returns : s.once ≡ settled → Turn s (record s { returned = s.close_err ∷ s.returned })

pub data Turns (s : Lifecycle) : Lifecycle → Type 0 where
  no_turns : Turns s s
  and_turn : {t u : Lifecycle} → Turns s t → Turn t u → Turns s u
