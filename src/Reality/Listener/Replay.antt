-- ===== src/Reality/Listener/Replay.antt =====
-- reality.go: the Read of prefixConn.
use obfs.Base.{
  ℕ, ◌≡◌, refl, sym, ap, ◌∙◌, List, [], ◌∷◌, ◌++◌, append_assoc, take, drop, take-append-drop, ◌⊎◌,
  inl, inr, Error,
}
use obfs.Wire.{Stream}
use obfs.Xreality.Peek.{BaseRead}
use obfs.Reality.Listener.{Replayed, pending}

module _ (base : BaseRead) where
  replay_past : ℕ → List ℕ → Stream → (List ℕ ⊎ Error) × Replayed
  replay_past room (b ∷ bs) s =
      (inl (take room (b ∷ bs)), record { prefix = drop room (b ∷ bs); conn = s })
  replay_past room [] s = let (r, s') = base.read room s in (r, record { prefix = []; conn = s' })

  unfoldable pub replay_read : ℕ → Replayed → (List ℕ ⊎ Error) × Replayed
  unfolding replay_past
  replay_read room c = replay_past room c.prefix c.conn

  abbrev Delivers : List ℕ → (List ℕ ⊎ Error) × Replayed → Type 0
  Delivers whole (inl b, c) = b ++ pending c ≡ whole
  Delivers whole (inr e, c) = pending c ≡ whole

  base-Delivers :
      (s : Stream) (r : List ℕ ⊎ Error) (room : ℕ)
      → (base.read room s).0 ≡ r
      → Delivers s.bytes (r, record { prefix = []; conn = (base.read room s).1 })
  base-Delivers s (inl b) room h = base.keeps_order room s b h
  base-Delivers s (inr e) room h = base.keeps_on_error room s e h

  replay_past-Delivers :
      (room : ℕ) (prefix : List ℕ) (s : Stream)
      → Delivers (prefix ++ s.bytes) (replay_past room prefix s)
  unfolding replay_past
  replay_past-Delivers room [] s = base-Delivers s (base.read room s).0 room refl
  replay_past-Delivers room (b ∷ bs) s =
      sym (append_assoc (take room (b ∷ bs)) (drop room (b ∷ bs)) s.bytes)
      ∙ ap (λ l. l ++ s.bytes) (take-append-drop room (b ∷ bs))

  -- A Read delivers the next bytes of what is pending, the peeked ClientHello first, and leaves the
  -- rest; a Read that fails takes nothing.
  pub replay_read-Delivers : (room : ℕ) (c : Replayed) → Delivers (pending c) (replay_read room c)
  unfolding replay_read
  replay_read-Delivers room c = replay_past-Delivers room c.prefix c.conn
