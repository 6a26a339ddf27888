-- ===== src/Shaper/Read/Refines.antt =====
-- Read refines a plain byte stream: over any framing, for any buffer sizes.
use obfs.Base.{ℕ, zero, suc, ◌≤◌, ◌<◌, ◌≡◌, refl, ap, List, [], ◌∷◌, ◌++◌, arith}
use obfs.Base.{length, length-take, take, drop, append_assoc, All, take-append-drop}
use obfs.Base.{Error, Outcome, ok, err, panic, stuck, Returns, Returns-ok, Returns-err}
use obfs.Wire.{Stream}
use obfs.Wire.Laws.{stream}
use obfs.Shaper.Frame.{Frame, wire, payload}
use obfs.Shaper.Framing.{NextCell, Framing}
use obfs.Shaper.Read.{Reader, on_cell, fill_pending, deliver, read_with}

module _ (Valid : Frame → Type 0) (enc : Frame → List ℕ) where
  -- A reader that has `data_bytes` still to deliver and then fails by `e`: the plain byte stream.
  pub record Holds (r : Reader) (e : Error) (data_bytes : List ℕ) : Type 0 where
    pub frames : List Frame
    pub valid : All Valid frames
    pub on_wire : r.base ≡ stream (wire enc frames) e
    pub carries : r.pending ++ payload frames ≡ data_bytes

  -- What a Read of `room` bytes does to such a stream.
  pub data Reads (room : ℕ) (e : Error) (data_bytes : List ℕ) (o : Outcome (List ℕ)) (r : Reader)
      : Type 0 where
    -- It delivers a prefix that is not empty (unless `room` is 0), and the rest stays.
    delivers :
        (out rest : List ℕ)
        → o ≡ ok out
        → out ++ rest ≡ data_bytes
        → length out ≤ room
        → (0 < room → 0 < length out)
        → Holds r e rest
        → Reads room e data_bytes o r
    -- Nothing is left, and the error of the base connection comes back.
    fails : o ≡ err e → data_bytes ≡ [] → Holds r e [] → Reads room e data_bytes o r

module _ {next : NextCell} {Valid : Frame → Type 0} {enc : Frame → List ℕ}
    (fr : Framing next Valid enc) where
  deliver-Reads :
      (room : ℕ) (b : ℕ) (bs : List ℕ) (fs : List Frame) (e : Error)
      → All Valid fs
      → Reads Valid enc room e
          ((b ∷ bs) ++ payload fs)
          (deliver room (ok (b ∷ bs), stream (wire enc fs) e)).0
          (deliver room (ok (b ∷ bs), stream (wire enc fs) e)).1
  unfolding deliver
  deliver-Reads room b bs fs e v =
      delivers (take room (b ∷ bs)) (drop room (b ∷ bs) ++ payload fs) refl
        (simp (← append_assoc, take-append-drop)) (omega (arith, length-take room (b ∷ bs)))
        (λ h. omega (arith, length-take room (b ∷ bs)))
        (record { frames = fs; valid = v; on_wire = refl; carries = refl })

  wire-shrinks :
      (f : Frame) (fs : List Frame) (e : Error)
      → Valid f
      → length (wire enc fs) < length (wire enc (f ∷ fs))
  wire-shrinks f fs e v =
      let whole = fr.takes_frame f (wire enc fs) e v in
      rw whole at (fr.takes_byte (stream (enc f ++ wire enc fs) e) f.body (ap (λ x. x.0) whole))

  fill-Reads :
      (room fuel : ℕ) (pending : List ℕ) (fs : List Frame) (e : Error)
      → length (wire enc fs) < fuel
      → All Valid fs
      → Reads Valid enc room e
          (pending ++ payload fs)
          (deliver room (fill_pending next fuel pending (stream (wire enc fs) e))).0
          (deliver room (fill_pending next fuel pending (stream (wire enc fs) e))).1
  unfolding fill_pending
  fill-Reads room fuel (b ∷ bs) fs e h v = deliver-Reads room b bs fs e v
  fill-Reads room zero [] fs e h v = absurd (omega arith)
  fill-Reads room (suc fuel) [] [] e h v = rw (fr.ends e) (
      unfold deliver in
      fails refl refl (record { frames = []; valid = tt; on_wire = refl; carries = refl }))
  fill-Reads room (suc fuel) [] (f ∷ fs) e h v =
      rw (fr.takes_frame f (wire enc fs) e v.0)
        (fill-Reads room fuel f.body fs e (omega (arith, wire-shrinks f fs e v.0)) v.1)

  pub read_with-Reads :
      {r : Reader} {e : Error} {data_bytes : List ℕ} (room : ℕ)
      → Holds Valid enc r e data_bytes
      → Reads Valid enc room e data_bytes (read_with next room r).0 (read_with next room r).1
  unfolding read_with
  read_with-Reads {r} {e} room h =
      rw (h.on_wire, ← h.carries)
        (fill-Reads room (suc (length (wire enc h.frames))) r.pending h.frames e (omega arith)
          h.valid)

  on_cell-Returns :
      (again : List ℕ → Stream → Outcome (List ℕ) × Stream) (c : Outcome (List ℕ) × Stream)
      → Returns c.0
      → ((p : List ℕ) → c.0 ≡ ok p → Returns (again p c.1).0)
      → Returns (on_cell again c).0
  unfolding on_cell
  on_cell-Returns again (ok p, s) r h = h p refl
  on_cell-Returns again (err e, s) r h = Returns-err e
  on_cell-Returns again (panic, s) r h = absurd (r.1 refl)
  on_cell-Returns again (stuck, s) r h = absurd (r.0 refl)

  fill_pending-Returns :
      (fuel : ℕ) (pending : List ℕ) (s : Stream)
      → length s.bytes < fuel
      → Returns (fill_pending next fuel pending s).0
  unfolding fill_pending
  fill_pending-Returns fuel (b ∷ bs) s h = Returns-ok (b ∷ bs)
  fill_pending-Returns zero [] s h = absurd (omega arith)
  fill_pending-Returns (suc fuel) [] s h =
      on_cell-Returns (fill_pending next fuel) (next s) (fr.returns s)
        (λ p e. fill_pending-Returns fuel p (next s).1 (omega (arith, fr.takes_byte s p e)))

  deliver-Returns :
      (room : ℕ) (c : Outcome (List ℕ) × Stream) → Returns c.0 → Returns (deliver room c).0
  unfolding deliver
  deliver-Returns room (ok p, s) h = Returns-ok (take room p)
  deliver-Returns room (err e, s) h = Returns-err e
  deliver-Returns room (panic, s) h = absurd (h.1 refl)
  deliver-Returns room (stuck, s) h = absurd (h.0 refl)

  pub read_with-Returns : (room : ℕ) (r : Reader) → Returns (read_with next room r).0
  unfolding read_with
  read_with-Returns room r =
      deliver-Returns room _
        (fill_pending-Returns (suc (length r.base.bytes)) r.pending r.base (omega arith))
