-- ===== src/Hop/Multi/Fan/Keeps.antt =====
-- No accepted connection is lost between the loops and Accept.
use mathlib.Core.List.{Perm, perm_middle}
use mathlib.Core.List.Perm
use obfs.Base.{◌≡◌, refl, sym, subst, List, [], ◌∷◌, ◌++◌, append_assoc, true}
use obfs.Hop.Multi.Fan.{Fanned, Step, arrived, returned, gave_up, shut, Steps, none_yet, then_step}

module _ {C : Type 0} where
  abbrev pub held : Fanned C → List C
  held s = s.offered ++ (s.delivered ++ s.dropped)

  abbrev newly : {s t : Fanned C} → Step s t → List C
  newly (arrived c) = c ∷ []
  newly (returned front c back h) = []
  newly (gave_up front c back d h) = []
  newly shut = []

  -- What the listeners have accepted meanwhile, the last one first.
  abbrev pub arrivals : {s t : Fanned C} → Steps s t → List C
  arrivals none_yet = []
  arrivals (then_step x e) = newly e ++ arrivals x

  moved-Perm :
      (front back rest offered : List C) (c : C)
      → offered ≡ front ++ (c ∷ back)
      → Perm ((front ++ back) ++ (c ∷ rest)) (offered ++ rest)
  moved-Perm front back rest offered c h =
      subst (λ l. Perm ((front ++ back) ++ (c ∷ rest)) (l ++ rest)) (sym h)
        (Perm.trans (perm_middle (front ++ back) rest)
          (Perm.symm (Perm.append_right rest (perm_middle front back))))

  step-Perm : {s t : Fanned C} (e : Step s t) → Perm (held t) (newly e ++ held s)
  step-Perm {s} (arrived c) =
      let rest : List C = s.delivered ++ s.dropped in
      subst (λ l. Perm l (c ∷ (s.offered ++ rest))) (sym (append_assoc s.offered (c ∷ []) rest))
        (perm_middle s.offered rest)
  step-Perm {s} (returned front c back h) =
      moved-Perm front back (s.delivered ++ s.dropped) s.offered c h
  step-Perm {s} (gave_up front c back d h) =
      Perm.trans (Perm.append_left (front ++ back) (perm_middle s.delivered s.dropped))
        (moved-Perm front back (s.delivered ++ s.dropped) s.offered c h)
  step-Perm {s} shut = Perm.refl (held s)

  step-Perm_after :
      {s t : Fanned C} (e : Step s t) (l : List C) → Perm (held s) l → Perm (held t) (newly e ++ l)
  step-Perm_after e l p = Perm.trans (step-Perm e) (Perm.append_left (newly e) p)

  -- In every interleaving, the connections that loops offer, that Accept has returned and that loops
  -- have closed are those at the start and those that the listeners have accepted since.
  pub Steps-Perm : {s t : Fanned C} (x : Steps s t) → Perm (held t) (arrivals x ++ held s)
  Steps-Perm {s} none_yet = Perm.refl (held s)
  Steps-Perm {s} {t} (then_step x e) =
      subst (λ l. Perm (held t) l) (sym (append_assoc (newly e) (arrivals x) (held s)))
        (step-Perm_after e (arrivals x ++ held s) (Steps-Perm x))

  first_step : {s t u : Fanned C} → Step s t → Steps t u → Steps s u
  first_step e none_yet = then_step none_yet e
  first_step e (then_step x e') = then_step (first_step e x) e'

  drains :
      (offered : List C) (delivered dropped : List C)
      → (t : Fanned C) × (Steps
            (record { offered = offered; delivered = delivered; dropped = dropped; done = true })
            t
          × ((t.offered ≡ []) × (t.delivered ≡ delivered)))
  drains [] delivered dropped = (_, (none_yet, (refl, refl)))
  drains (c ∷ offered) delivered dropped =
      let (t, (x, h)) = drains offered delivered (c ∷ dropped) in
      (t, (first_step (gave_up [] c offered refl refl) x, h))

  -- From any state, Close lets the loops end: with no further Accept, every connection that is still
  -- offered can be closed.
  pub shut-drains :
      (s : Fanned C)
      → (t : Fanned C) × (Steps s t × ((t.offered ≡ []) × (t.delivered ≡ s.delivered)))
  shut-drains s =
      let (t, (x, h)) = drains s.offered s.delivered s.dropped in (t, (first_step shut x, h))
