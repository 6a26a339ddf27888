-- ===== src/Shaper/Pacer/Order.antt =====
-- The pacer keeps the order of the cells that Write has queued, and loses at most one, to the error
-- that ends it.
use obfs.Base.{concat}
use obfs.Base.{
  ℕ, ◌≡◌, refl, sym, ◌⊎◌, inl, inr, ap, subst, ◌∙◌, List, [], ◌∷◌, ◌++◌, arith, append-nil,
  append_assoc, if◌then◌else◌, Bool, true, false, Option, none, some, Error,
}
use obfs.Wire.{Sink, base_write}
use obfs.Wire.Laws.{Wrote, base_write-Wrote}
use obfs.Shaper.{Shaped}
use obfs.Shaper.Mode.{cover_for}
use obfs.Shaper.Pacer.{
  Pacer, Event, offer, timer, offer_cell, written_cell, release, pacing_round, step, run,
  flush_queue,
}

-- A cell on the wire, queued by Write, or drawn by the pacer in a world.
pub data Sent (W : Type 0) : Type 0 where
  data_cell : List ℕ → Sent W
  cover_cell : W → Sent W

abbrev pub data_cells : {W : Type 0} → List (Sent W) → List (List ℕ)
data_cells [] = []
data_cells (data_cell bs ∷ w) = bs ∷ data_cells w
data_cells (cover_cell x ∷ w) = data_cells w

abbrev pub cover_worlds : {W : Type 0} → List (Sent W) → List W
cover_worlds [] = []
cover_worlds (data_cell bs ∷ w) = cover_worlds w
cover_worlds (cover_cell x ∷ w) = x ∷ cover_worlds w

abbrev pub offered : {W : Type 0} → List (Event W) → List (List ℕ)
offered [] = []
offered (offer cell ∷ es) = cell ∷ offered es
offered (timer x ∷ es) = offered es

abbrev pub timers : {W : Type 0} → List (Event W) → List W
timers [] = []
timers (offer cell ∷ es) = timers es
timers (timer x ∷ es) = x ∷ timers es

-- The worlds of the first list are some of those of the second, in their order.
pub data Among {W : Type 0} : List W → List W → Type 0 where
  none_of : Among [] []
  one_more : {xs ys : List W} (y : W) → Among xs ys → Among xs (ys ++ (y ∷ []))
  one_of : {xs ys : List W} (y : W) → Among xs ys → Among (xs ++ (y ∷ [])) (ys ++ (y ∷ []))

module _ {W F : Type 0} (c : Shaped W F) where
  abbrev pub cell_of : W → List ℕ
  cell_of x = (cover_for c c.size_sampler x).0

  abbrev pub on_wire : List (Sent W) → List ℕ
  on_wire [] = []
  on_wire (data_cell bs ∷ w) = bs ++ on_wire w
  on_wire (cover_cell x ∷ w) = cell_of x ++ on_wire w

  -- What a pacer has lost, and what stands behind the whole cells on the wire: nothing, or if a
  -- write has failed, its cell, which may be a cover cell, and the front of it that was written.
  abbrev pub LostFor : Bool → List (List ℕ) → List ℕ → Type 0
  LostFor false lost part = (lost ≡ []) × (part ≡ [])
  LostFor true lost part =
      (rest : List ℕ) × ((lost ≡ (part ++ rest) ∷ [])
        ⊎ ((lost ≡ []) × ((x : W) × (part ++ rest ≡ cell_of x))))

  -- The wire holds the first of the accepted cells in their order, and between them cells that
  -- coverCell has drawn on some of the timers, in their order; the others are queued; and only a
  -- pacer that a write error has ended lacks one, of which the wire may hold a front.
  pub record IsFifo (cells : List (List ℕ)) (worlds : List W) (p : Pacer) : Type 0 where
    pub whole : List (Sent W)
    pub lost : List (List ℕ)
    pub part : List ℕ
    pub sent : p.sink.sent ≡ on_wire whole ++ part
    pub in_order : data_cells whole ++ (lost ++ p.send_q) ≡ cells
    pub draws : Among (cover_worlds whole) worlds
    pub losses : LostFor p.pace_dead lost part

data_cells-append :
    {W : Type 0} (w v : List (Sent W)) → data_cells (w ++ v) ≡ data_cells w ++ data_cells v
data_cells-append [] v = refl
data_cells-append (data_cell bs ∷ w) v = ap (λ l. bs ∷ l) (data_cells-append w v)
data_cells-append (cover_cell x ∷ w) v = data_cells-append w v

cover_worlds-append :
    {W : Type 0} (w v : List (Sent W)) → cover_worlds (w ++ v) ≡ cover_worlds w ++ cover_worlds v
cover_worlds-append [] v = refl
cover_worlds-append (data_cell bs ∷ w) v = cover_worlds-append w v
cover_worlds-append (cover_cell x ∷ w) v = ap (λ l. x ∷ l) (cover_worlds-append w v)

on_wire-append :
    {W F : Type 0} (c : Shaped W F) (w v : List (Sent W))
    → on_wire c (w ++ v) ≡ on_wire c w ++ on_wire c v
on_wire-append c [] v = refl
on_wire-append c (data_cell bs ∷ w) v = simp (on_wire-append c w v, append_assoc)
on_wire-append c (cover_cell x ∷ w) v = simp (on_wire-append c w v, append_assoc)

-- A cell is queued at the end.
pub offer_cell-some :
    (depth : ℕ) (cell : List ℕ) (p p' : Pacer)
    → offer_cell depth cell p ≡ some p'
    → record p { send_q = p.send_q ++ (cell ∷ []) } ≡ p'
unfolding offer_cell
offer_cell-some depth cell p p' h = ground arith

module _ {W F : Type 0} (c : Shaped W F) where
  offer_cell-IsFifo :
      (depth : ℕ) (cell : List ℕ) (cells : List (List ℕ)) (worlds : List W) (p p' : Pacer)
      → IsFifo c cells worlds p
      → offer_cell depth cell p ≡ some p'
      → IsFifo c (cells ++ (cell ∷ [])) worlds p'
  offer_cell-IsFifo depth cell cells worlds p p' f h =
      subst (IsFifo c (cells ++ (cell ∷ [])) worlds) (offer_cell-some depth cell p p' h) (record {
        whole = f.whole;
        lost = f.lost;
        part = f.part;
        sent = f.sent;
        in_order = simp (← f.in_order, append_assoc);
        draws = f.draws;
        losses = f.losses;
      })

  module _ (cells : List (List ℕ)) (worlds : List W) (whole : List (Sent W)) (x : W)
      (draws : Among (cover_worlds whole) worlds) where
    sent_data :
        (cell : List ℕ) (q : List (List ℕ)) (p : Pacer) (r : Option Error × Sink)
        → p.sink.sent ≡ on_wire c whole
        → data_cells whole ++ (cell ∷ q) ≡ cells
        → p.pace_dead ≡ false
        → Wrote cell p.sink r
        → IsFifo c cells (worlds ++ (x ∷ [])) (written_cell (record p { send_q = q }) r)
    unfolding written_cell
    sent_data cell q p (none, k) s d alive h = record {
      whole = whole ++ (data_cell cell ∷ []);
      lost = [];
      part = [];
      sent = simp (h, s, on_wire-append c whole (data_cell cell ∷ []), append-nil);
      in_order = simp (← d, data_cells-append whole (data_cell cell ∷ []), append_assoc);
      draws = rw (cover_worlds-append, append-nil) (one_more x draws);
      losses = rw alive (refl, refl);
    }
    sent_data cell q p (some e, k) s d alive (part, (rest, (split, h))) = record {
      whole = whole;
      lost = cell ∷ [];
      part = part;
      sent = h ∙ ap (λ l. l ++ part) s;
      in_order = d;
      draws = one_more x draws;
      losses = (rest, inl (ap (λ l. l ∷ []) (sym split)));
    }

    sent_cover :
        (p : Pacer) (r : Option Error × Sink)
        → p.sink.sent ≡ on_wire c whole
        → data_cells whole ++ p.send_q ≡ cells
        → p.pace_dead ≡ false
        → Wrote (cell_of c x) p.sink r
        → IsFifo c cells (worlds ++ (x ∷ [])) (written_cell p r)
    unfolding written_cell
    sent_cover p (none, k) s d alive h = record {
      whole = whole ++ (cover_cell x ∷ []);
      lost = [];
      part = [];
      sent = simp (h, s, on_wire-append c whole (cover_cell x ∷ []), append-nil);
      in_order = simp (← d, data_cells-append whole (cover_cell x ∷ []), append-nil);
      draws = rw cover_worlds-append (one_of x draws);
      losses = rw alive (refl, refl);
    }
    sent_cover p (some e, k) s d alive (part, (rest, (split, h))) = record {
      whole = whole;
      lost = [];
      part = part;
      sent = h ∙ ap (λ l. l ++ part) s;
      in_order = d;
      draws = one_more x draws;
      losses = (rest, inr (refl, (x, split)));
    }

    release-IsFifo :
        (no_pad : Bool) (q : List (List ℕ)) (p : Pacer)
        → p.send_q ≡ q
        → p.sink.sent ≡ on_wire c whole
        → data_cells whole ++ p.send_q ≡ cells
        → p.pace_dead ≡ false
        → IsFifo c cells (worlds ++ (x ∷ [])) (release no_pad (cell_of c x) q p)
    unfolding release
    release-IsFifo no_pad (cell ∷ q) p e s d alive =
        sent_data cell q p (base_write cell p.sink) s (rw e at d) alive
          (base_write-Wrote cell p.sink)
    release-IsFifo true [] p e s d alive = record {
      whole = whole;
      lost = [];
      part = [];
      sent = s ∙ sym (append-nil (on_wire c whole));
      in_order = d;
      draws = one_more x draws;
      losses = rw alive (refl, refl);
    }
    release-IsFifo false [] p e s d alive =
        sent_cover p (base_write (cell_of c x) p.sink) s d alive
          (base_write-Wrote (cell_of c x) p.sink)

unless_some :
    (b : Bool) (x y : Pacer) → (if b then none else some x) ≡ some y → (b ≡ false) × (x ≡ y)
unless_some true x y h = absurd (cc)
unless_some false x y h = (refl, cc)

-- A round is one of a pacer that has not stopped.
pub pacing_round-some :
    (no_pad : Bool) (cover : List ℕ) (p p' : Pacer)
    → pacing_round no_pad cover p ≡ some p'
    → (p.pace_dead ≡ false) × (release no_pad cover p.send_q p ≡ p')
unfolding pacing_round
pacing_round-some no_pad cover p p' h =
    unless_some p.pace_dead (release no_pad cover p.send_q p) p' h

module _ {W F : Type 0} (c : Shaped W F) (depth : ℕ) (no_pad : Bool) where
  pacing_round-IsFifo :
      (x : W) (cells : List (List ℕ)) (worlds : List W) (p p' : Pacer)
      → IsFifo c cells worlds p
      → pacing_round no_pad (cell_of c x) p ≡ some p'
      → IsFifo c cells (worlds ++ (x ∷ [])) p'
  pacing_round-IsFifo x cells worlds p p' f h =
      let (alive, same) = pacing_round-some no_pad (cell_of c x) p p' h in
      let nothing : (f.lost ≡ []) × (f.part ≡ []) = rw alive at f.losses in
      let sent : p.sink.sent ≡ on_wire c f.whole = rw (nothing.1, append-nil) at f.sent in
      subst (IsFifo c cells (worlds ++ (x ∷ []))) same (
        release-IsFifo c cells worlds f.whole x f.draws no_pad p.send_q p refl sent
          (rw nothing.0 at f.in_order) alive)

  step-IsFifo :
      (e : Event W) (cells : List (List ℕ)) (worlds : List W) (p p' : Pacer)
      → IsFifo c cells worlds p
      → step c depth no_pad e p ≡ some p'
      → IsFifo c (cells ++ offered (e ∷ [])) (worlds ++ timers (e ∷ [])) p'
  unfolding step
  step-IsFifo (offer cell) cells worlds p p' f h =
      rw (append-nil worlds) (offer_cell-IsFifo c depth cell cells worlds p p' f h)
  step-IsFifo (timer x) cells worlds p p' f h =
      rw (append-nil cells) (pacing_round-IsFifo x cells worlds p p' f h)

  offered_cons :
      (e : Event W) (es : List (Event W)) → offered (e ∷ []) ++ offered es ≡ offered (e ∷ es)
  offered_cons (offer cell) es = refl
  offered_cons (timer x) es = refl

  timers_cons : (e : Event W) (es : List (Event W)) → timers (e ∷ []) ++ timers es ≡ timers (e ∷ es)
  timers_cons (offer cell) es = refl
  timers_cons (timer x) es = refl

  some_step :
      (o : Option Pacer) (es : List (Event W)) (p' : Pacer)
      → elim o [ none ↦ none | some q ↦ run c depth no_pad es q ] ≡ some p'
      → (q : Pacer) × ((o ≡ some q) × (run c depth no_pad es q ≡ some p'))
  some_step none es p' h = absurd (cc)
  some_step (some q) es p' h = (q, (refl, h))

  -- In every interleaving of the cells that writes queue and the rounds of the pacer, from a pacer
  -- in order: the wire holds the queued cells in their order, up to those that still wait, and
  -- between them whole cells that coverCell has drawn, one at most for each timer and in the order
  -- of the timers; none is lost, but the one whose write failed and so ended the pacer, and of that
  -- cell, or of a cover cell whose write failed, the wire may hold a front at its end.
  pub run-IsFifo :
      (es : List (Event W)) (cells : List (List ℕ)) (worlds : List W) (p p' : Pacer)
      → IsFifo c cells worlds p
      → run c depth no_pad es p ≡ some p'
      → IsFifo c (cells ++ offered es) (worlds ++ timers es) p'
  unfolding run
  run-IsFifo [] cells worlds p p' f h =
      let same : p ≡ p' = cc in
      rw (append-nil cells, append-nil worlds) (subst (IsFifo c cells worlds) same f)
  run-IsFifo (e ∷ es) cells worlds p p' f h =
      let (q, (e₁, h₁)) = some_step (step c depth no_pad e p) es p' h in
      let f₁ = step-IsFifo e cells worlds p q f e₁ in
      rw (← offered_cons e es, ← timers_cons e es, ← append_assoc, ← append_assoc)
        (run-IsFifo es (cells ++ offered (e ∷ [])) (worlds ++ timers (e ∷ [])) q p' f₁ h₁)

pub flush_queue-sent :
    (q : List (List ℕ)) (k : Sink)
    → k.faults ≡ []
    → flush_queue q k ≡ ([], record { sent = k.sent ++ concat q; faults = [] })
unfolding flush_queue base_write
flush_queue-sent [] k h = rw (append-nil k.sent, ← h)
flush_queue-sent (cell ∷ q) k h =
    rw (h, flush_queue-sent q (record { sent = k.sent ++ cell; faults = [] }) refl, append_assoc)
