-- ===== src/Shaper/Pacer/Carried.antt =====
-- A paced connection from end to end: cells of successful writes reach the wire whole and in order,
-- with cover cells between them, and a reader gets exactly the messages.
use obfs.Base.{
  ℕ, ◌≡◌, refl, sym, ap, subst, ◌∙◌, List, [], ◌∷◌, ◌++◌, arith, append-nil, append_assoc, concat,
  Bool, true, false, Option, none, some, Error, Outcome, ok, ◌⊎◌, inl, inr,
}
use obfs.Wire.{Sink, base_write}
use obfs.Wire.Laws.{Wrote, base_write-Wrote}
use obfs.Shaper.{Shaped}
use obfs.Shaper.Frame.{
  Framed, Framed-append, Split, Split-append, Split-one, Split-uncons, Split-none, Split-nil,
  Split-Framed,
}
use obfs.Shaper.Mode.{ValidAs, bytes_as, cells_for-CellsFor, cover_for-Framed, IsUsable}
use obfs.Shaper.Pacer.{
  Pacer, offer_cell, pacing_round, written_cell, release, start_burst, close_paced,
}
use obfs.Shaper.Pacer.Order.{offer_cell-some, pacing_round-some, flush_queue-sent}
use obfs.Shaper.Pacer.Writing.{
  begin_write, Writing, all_queued, queued, saw_dead, saw_done, paced, shut, Writes, refused, runs,
  Session, unused, wrote, round,
}

module _ {W F : Type 0} (c : Shaped W F) where
  abbrev pub FramedFor : List ℕ → List ℕ → Type 0
  FramedFor = Framed (ValidAs c c.size_sampler) (bytes_as c c.size_sampler)

  abbrev pub SplitFor : List (List ℕ) → List ℕ → Type 0
  SplitFor = Split (ValidAs c c.size_sampler) (bytes_as c c.size_sampler)

  -- The bytes `d` are on the wire up to those whose cells wait in the queue.
  pub record InOrder (d : List ℕ) (p : Pacer) : Type 0 where
    pub sent_data : List ℕ
    pub queued_data : List ℕ
    pub sent : FramedFor p.sink.sent sent_data
    pub waiting : SplitFor p.send_q queued_data
    pub in_order : sent_data ++ queued_data ≡ d

  -- In order, unless a write error has ended the pacer.
  abbrev pub AliveInOrder : List ℕ → Pacer → Type 0
  AliveInOrder d p = (p.pace_dead ≡ true) ⊎ InOrder d p

  offer_cell-AliveInOrder :
      (depth : ℕ) (cell part d : List ℕ) (p p' : Pacer)
      → FramedFor cell part
      → offer_cell depth cell p ≡ some p'
      → AliveInOrder d p
      → AliveInOrder (d ++ part) p'
  offer_cell-AliveInOrder depth cell part d p p' f h (inl dead) =
      inl (ap (λ (q : Pacer). q.pace_dead) (sym (offer_cell-some depth cell p p' h)) ∙ dead)
  offer_cell-AliveInOrder depth cell part d p p' f h (inr x) =
      subst (AliveInOrder (d ++ part)) (offer_cell-some depth cell p p' h) (
        inr (record {
          sent_data = x.sent_data;
          queued_data = x.queued_data ++ part;
          sent = x.sent;
          waiting = Split-append x.waiting (Split-one f);
          in_order =
              sym (append_assoc x.sent_data x.queued_data part) ∙ ap (λ l. l ++ part) x.in_order;
        }))

  sent_data_cell :
      (cell part rest : List ℕ) (q : List (List ℕ)) (d : List ℕ) (p : Pacer)
      (r : Option Error × Sink) (x : InOrder d p)
      → Wrote cell p.sink r
      → FramedFor cell part
      → SplitFor q rest
      → part ++ rest ≡ x.queued_data
      → AliveInOrder d (written_cell (record p { send_q = q }) r)
  unfolding written_cell
  sent_data_cell cell part rest q d p (none, k) x h f y e = inr (record {
    sent_data = x.sent_data ++ part;
    queued_data = rest;
    sent = rw h (Framed-append x.sent f);
    waiting = y;
    in_order = append_assoc x.sent_data part rest ∙ (ap (λ l. x.sent_data ++ l) e ∙ x.in_order);
  })
  sent_data_cell cell part rest q d p (some e', k) x h f y e = inl refl

  sent_cover_cell :
      (cover d : List ℕ) (p : Pacer) (r : Option Error × Sink)
      → Wrote cover p.sink r
      → FramedFor cover []
      → InOrder d p
      → AliveInOrder d (written_cell p r)
  unfolding written_cell
  sent_cover_cell cover d p (none, k) h f x = inr (record {
    sent_data = x.sent_data;
    queued_data = x.queued_data;
    sent = rw h (rw append-nil at (Framed-append x.sent f));
    waiting = x.waiting;
    in_order = x.in_order;
  })
  sent_cover_cell cover d p (some e, k) h f x = inl refl

  release-AliveInOrder :
      (no_pad : Bool) (cover d : List ℕ) (q : List (List ℕ)) (p : Pacer)
      → p.send_q ≡ q
      → FramedFor cover []
      → InOrder d p
      → AliveInOrder d (release no_pad cover q p)
  unfolding release
  release-AliveInOrder no_pad cover d (cell ∷ q) p e f x =
      let waiting : SplitFor (cell ∷ q) x.queued_data =
        subst (λ l. SplitFor l x.queued_data) e x.waiting in
      let (part, (rest, (g, (y, whole)))) = Split-uncons waiting in
      sent_data_cell cell part rest q d p (base_write cell p.sink) x (base_write-Wrote cell p.sink)
        g y whole
  release-AliveInOrder true cover d [] p e f x = inr x
  release-AliveInOrder false cover d [] p e f x =
      sent_cover_cell cover d p (base_write cover p.sink) (base_write-Wrote cover p.sink) f x

  pacing_round-AliveInOrder :
      (no_pad : Bool) (cover d : List ℕ) (p p' : Pacer)
      → FramedFor cover []
      → pacing_round no_pad cover p ≡ some p'
      → AliveInOrder d p
      → AliveInOrder d p'
  pacing_round-AliveInOrder no_pad cover d p p' f h (inl dead) =
      let alive : p.pace_dead ≡ false = (pacing_round-some no_pad cover p p' h).0 in absurd (cc)
  pacing_round-AliveInOrder no_pad cover d p p' f h (inr x) =
      subst (AliveInOrder d) (pacing_round-some no_pad cover p p' h).1
        (release-AliveInOrder no_pad cover d p.send_q p refl f x)

  shut-AliveInOrder :
      (d : List ℕ) (p : Pacer) → AliveInOrder d p → AliveInOrder d (record p { done = true })
  shut-AliveInOrder d p (inl dead) = inl dead
  shut-AliveInOrder d p (inr x) = inr (record {
    sent_data = x.sent_data;
    queued_data = x.queued_data;
    sent = x.sent;
    waiting = x.waiting;
    in_order = x.in_order;
  })

  -- What writePaced queues for a message carries it.
  begin_write-Split :
      (msg : List ℕ) (pace_err : Option Error) (w : W) (cells : List (List ℕ))
      → IsUsable c
      → (begin_write c msg pace_err w).0 ≡ ok cells
      → SplitFor cells msg
  unfolding begin_write
  begin_write-Split [] pace_err w cells v h =
      let none_queued : [] ≡ cells = cc in subst (λ l. SplitFor l []) none_queued Split-nil
  begin_write-Split (b ∷ bs) (some e) w cells v h = absurd (cc)
  begin_write-Split (b ∷ bs) none w cells v h =
      let m = cells_for-CellsFor c c.size_sampler (b ∷ bs) w v in
      let r = m.returned in
      let same : m.cells ≡ cells = cc in subst (λ l. SplitFor l (b ∷ bs)) same m.split

  start_burst-AliveInOrder :
      (now : ℕ) (d : List ℕ) (p : Pacer) → AliveInOrder d p → AliveInOrder d (start_burst now p)
  unfolding start_burst
  start_burst-AliveInOrder now d p (inl dead) = inl (ground arith)
  start_burst-AliveInOrder now d p (inr x) = restarted p.send_q
    where
      restarted :
          (l : List (List ℕ))
          → AliveInOrder d (elim l [ [] ↦ record p { pace_start = now } | _ ∷ _ ↦ p ])
      restarted (cell ∷ q) = inr x
      restarted [] = inr (record {
        sent_data = x.sent_data;
        queued_data = x.queued_data;
        sent = x.sent;
        waiting = x.waiting;
        in_order = x.in_order;
      })

  module _ (v : IsUsable c) (depth : ℕ) (no_pad : Bool) where
    -- The loop of writePaced, when it succeeds, has queued all of what its cells carry.
    Writing-AliveInOrder :
        {n m : ℕ} {cells : List (List ℕ)} {p q : Pacer} {o : Outcome ℕ} (d part : List ℕ)
        → Writing c depth no_pad n cells p o q
        → o ≡ ok m
        → SplitFor cells part
        → AliveInOrder d p
        → AliveInOrder (d ++ part) q
    Writing-AliveInOrder {q} d part all_queued e s x =
        subst (λ l. AliveInOrder l q) (sym (append-nil d) ∙ ap (λ l. d ++ l) (sym (Split-none s))) x
    Writing-AliveInOrder {q} d part (queued h y) e s x =
        let (first, (rest, (f, (s', whole)))) = Split-uncons s in
        let x' = offer_cell-AliveInOrder depth _ first d _ _ f h x in
        subst (λ l. AliveInOrder l q) (append_assoc d first rest ∙ ap (λ l. d ++ l) whole)
          (Writing-AliveInOrder (d ++ first) rest y e s' x')
    Writing-AliveInOrder d part (saw_dead h) e s x = absurd (cc)
    Writing-AliveInOrder d part (saw_done h) e s x = absurd (cc)
    Writing-AliveInOrder d part (paced w h y) e s x =
        Writing-AliveInOrder d part y e s
          (pacing_round-AliveInOrder no_pad _ d _ _ (cover_for-Framed c c.size_sampler w v) h x)
    Writing-AliveInOrder d part (shut y) e s x =
        Writing-AliveInOrder d part y e s (shut-AliveInOrder d _ x)

    Writes-AliveInOrder :
        {msg d : List ℕ} {now n : ℕ} {p q : Pacer} {o : Outcome ℕ}
        → Writes c depth no_pad msg now p o q
        → o ≡ ok n
        → AliveInOrder d p
        → AliveInOrder (d ++ msg) q
    Writes-AliveInOrder (refused e w h) r x = absurd (cc)
    Writes-AliveInOrder {msg} {d} {now} {p} (runs w h y) r x =
        Writing-AliveInOrder d msg y r (begin_write-Split msg p.pace_err w _ v h)
          (start_burst-AliveInOrder now d p x)

    -- After any session of successful writes and rounds of the pacer, the wire carries the messages
    -- in order, up to those that wait in the queue, unless a write error has ended the pacer.
    pub Session-AliveInOrder :
        {p : Pacer} {d : List ℕ} {q : Pacer}
        → InOrder [] p
        → Session c depth no_pad p d q
        → AliveInOrder d q
    Session-AliveInOrder x unused = inr x
    Session-AliveInOrder x (wrote s y) = Writes-AliveInOrder y refl (Session-AliveInOrder x s)
    Session-AliveInOrder {d = d} x (round w s h) =
        pacing_round-AliveInOrder no_pad _ d _ _ (cover_for-Framed c c.size_sampler w v) h
          (Session-AliveInOrder x s)

    -- Close brings the rest of the queue to the wire.
    pub close_paced-Framed :
        (d : List ℕ) (p : Pacer)
        → p.sink.faults ≡ []
        → InOrder d p
        → FramedFor (close_paced p).sink.sent d
    unfolding close_paced
    close_paced-Framed d p h x = rw (flush_queue-sent p.send_q p.sink h) (
        subst (FramedFor (p.sink.sent ++ concat p.send_q)) x.in_order
          (Framed-append x.sent (Split-Framed x.waiting)))
