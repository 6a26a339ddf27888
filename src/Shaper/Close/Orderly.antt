-- ===== src/Shaper/Close/Orderly.antt =====
-- Close closes the base connection once, behind all loops, and every call returns the same.
use obfs.Base.{
  Bool, ℕ, zero, suc, ◌+◌, ◌≡◌, refl, sym, ap, List, [], ◌∷◌, ◌++◌, All, true, false, none, arith,
  subst,
}
use obfs.Wire.{Sink}
use obfs.Shaper.Close.{
  Once, untouched, awaiting, flushed_all, settled, Lifecycle, new_lifecycle, flushed_state, Turn,
  enqueues, loop_works, loop_ends, first_closes, flushes, closes_base, close_returns, Turns,
  no_turns, and_turn,
}

-- What holds at each point of closeOnce: of `done`, the loops, the calls of base.Close and the returns.
abbrev pub AtPoint : Once → Lifecycle → Type 0
AtPoint untouched s = (s.done ≡ false) × ((s.base_closes ≡ 0) × (s.returned ≡ []))
AtPoint awaiting s = (s.done ≡ true) × ((s.base_closes ≡ 0) × (s.returned ≡ []))
AtPoint flushed_all s =
    (s.done ≡ true) × ((s.base_closes ≡ 0) × ((s.returned ≡ []) × (s.loops ≡ 0)))
AtPoint settled s =
    (s.done ≡ true)
    × ((s.base_closes ≡ 1) × (All (λ e. e ≡ s.close_err) s.returned × (s.loops ≡ 0)))

abbrev pub IsOrderly : Lifecycle → Type 0
IsOrderly s = AtPoint s.once s

unchanged :
    (k : Once) (s : Lifecycle) (send_q : List (List ℕ)) (sink : Sink)
    → AtPoint k s
    → AtPoint k (record s { send_q = send_q; sink = sink })
unchanged untouched s q w h = h
unchanged awaiting s q w h = h
unchanged flushed_all s q w h = h
unchanged settled s q w h = h

fewer_loops :
    (k : Once) (s : Lifecycle) (n : ℕ)
    → s.loops ≡ suc n
    → AtPoint k s
    → AtPoint k (record s { loops = n })
fewer_loops untouched s n l h = h
fewer_loops awaiting s n l h = h
fewer_loops flushed_all s n l h = absurd (omega (arith, l, h.1.1.1))
fewer_loops settled s n l h = absurd (omega (arith, l, h.1.1.1))

Turn-IsOrderly : {s t : Lifecycle} → Turn s t → IsOrderly s → IsOrderly t
Turn-IsOrderly {s} (enqueues cell p) h = unchanged s.once s (s.send_q ++ (cell ∷ [])) s.sink h
Turn-IsOrderly {s} (loop_works n q w l) h = unchanged s.once s q w h
Turn-IsOrderly {s} (loop_ends n l) h = fewer_loops s.once s n l h
Turn-IsOrderly {s} (first_closes e) h =
    let at : AtPoint untouched s = subst (λ k. AtPoint k s) e h in (refl, at.1)
Turn-IsOrderly {s} (flushes e l) h =
    let at : AtPoint awaiting s = subst (λ k. AtPoint k s) e h in (at.0, (at.1.0, (at.1.1, l)))
Turn-IsOrderly {s} (closes_base x e) h =
    let at : AtPoint flushed_all s = subst (λ k. AtPoint k s) e h in
    (at.0, (ap (λ n. n + 1) at.1.0, (subst (λ l. All (λ y. y ≡ x) l) (sym at.1.1.0) tt, at.1.1.1)))
Turn-IsOrderly {s} (close_returns e) h =
    let at : AtPoint settled s = subst (λ k. AtPoint k s) e h in
    subst (λ k. AtPoint k (record s { returned = s.close_err ∷ s.returned })) (sym e)
      (at.0, (at.1.0, ((refl, at.1.1.0), at.1.1.1)))

Turns-from : {s t : Lifecycle} → Turns s t → IsOrderly s → IsOrderly t
Turns-from no_turns h = h
Turns-from (and_turn x e) h = Turn-IsOrderly e (Turns-from x h)

-- In every interleaving of Write, the loops and any calls of Close, from a new connection: `done` is
-- closed from the first call of Close on; until that is over, no call has returned, and base.Close
-- has not been called; behind its flush no loop runs; and once it is over, base.Close has been called
-- exactly once, and all calls of Close have returned its error.
pub Turns-IsOrderly :
    (paced : Bool) (loops : ℕ) (send_q : List (List ℕ)) (sink : Sink) {t : Lifecycle}
    → Turns (new_lifecycle paced loops send_q sink) t
    → IsOrderly t
Turns-IsOrderly paced loops send_q sink x = Turns-from x (refl, (refl, refl))

-- Close can come to its end: once a call has begun, the loops and then it can all return.
pub record Settles (s : Lifecycle) : Type 0 where
  pub last : Lifecycle
  pub turns : Turns s last
  pub is_settled : last.once ≡ settled

first-Turn : {s t u : Lifecycle} → Turn s t → Turns t u → Turns s u
first-Turn e no_turns = and_turn no_turns e
first-Turn e (and_turn x f) = and_turn (first-Turn e x) f

before-Settles : {s t : Lifecycle} → Turn s t → Settles t → Settles s
before-Settles e h = record {
  last = h.last;
  turns = first-Turn e h.turns;
  is_settled = h.is_settled;
}

flushed-Settles : (s : Lifecycle) → s.once ≡ flushed_all → Settles s
flushed-Settles s e =
    before-Settles (closes_base none e) (record { last = _; turns = no_turns; is_settled = refl })

awaiting-Settles : (n : ℕ) (s : Lifecycle) → s.loops ≡ n → s.once ≡ awaiting → Settles s
awaiting-Settles zero s l e = before-Settles (flushes e l) (flushed-Settles (flushed_state s) refl)
awaiting-Settles (suc n) s l e =
    before-Settles (loop_ends n l) (awaiting-Settles n (record s { loops = n }) refl e)

-- From any state there are turns after which a Close is over.
pub Close-Settles : (k : Once) (s : Lifecycle) → s.once ≡ k → Settles s
Close-Settles untouched s e =
    before-Settles (first_closes e)
      (awaiting-Settles s.loops (record s { once = awaiting; done = true }) refl refl)
Close-Settles awaiting s e = awaiting-Settles s.loops s refl e
Close-Settles flushed_all s e = flushed-Settles s e
Close-Settles settled s e = record { last = s; turns = no_turns; is_settled = e }
