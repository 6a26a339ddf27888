-- ===== src/Shaper/Front/Emits.antt =====
-- What frontLoop leaves on the wire.
use obfs.Base.{ℕ, suc, ◌≡◌, refl, List, [], ◌∷◌, Bool, Bool-cases, ℤ, pos, inl, inr, ok}
use obfs.Shaper.{Shaped, FrontConfig, Float64}
use obfs.Shaper.Mode.{IsUsable}
use obfs.Shaper.Write.{Runtime, Writer, emit}
use obfs.Shaper.Write.Effects.{Carries, Covers, emit-Covers}
use obfs.Shaper.Front.{FrontMath, emit_at, started, front_loop}
use obfs.Shaper.Front.Schedule.{IsBelow, schedule-IsSchedule}

module _ {W F : Type 0} (fl : Float64 F) (fm : FrontMath W F) (rt : Runtime W) (c : Shaped W F)
    (shut_before : ℕ → ℤ → W → Bool × W) where
  emit_at-Covers :
      (data_bytes : List ℕ) (start : ℕ) (ts : List ℤ) (st : Writer W)
      → IsUsable c
      → Covers rt c data_bytes st
      → Covers rt c data_bytes (emit_at fl fm rt c shut_before start ts st)
  unfolding emit_at
  emit_at-Covers data_bytes start [] st v framed = framed
  emit_at-Covers data_bytes start (t ∷ ts) st v framed =
      let w : W = (shut_before start t st.world).1 in
      let rest =
        emit_at-Covers data_bytes start ts (emit rt c (record st { world = w })) v
          (emit-Covers rt c data_bytes (record st { world = w }) v framed) in
      elim (Bool-cases (shut_before start t st.world).0) [
        | inl shut ↦ rw shut framed
        | inr fires ↦ rw fires rest
      ]

  -- If MaxCount is positive and rand.Intn stays below its argument, frontLoop on a usable connection
  -- whose base does not fail comes to its end, and what the wire carries is as it was, whenever the
  -- connection is closed.
  pub front_loop-Carries :
      (cfg : FrontConfig) (m : ℕ) (data_bytes : List ℕ) (st : Writer W)
      → IsUsable c
      → IsBelow fl fm
      → cfg.max_count ≡ pos (suc m)
      → Carries c st data_bytes
      → st.sink.faults ≡ []
      → (st' : Writer W) × ((front_loop fl fm rt c shut_before cfg st ≡ ok st')
          × Carries c st' data_bytes)
  unfolding front_loop started
  front_loop-Carries cfg m data_bytes st v below h framed healthy =
      let (ts, (w, (e, _))) = schedule-IsSchedule fl fm cfg m st.world below h in
      (
        emit_at fl fm rt c shut_before (rt.now w).0 ts (record st { world = (rt.now w).1 }),
        (
          rw e refl,
          (emit_at-Covers data_bytes (rt.now w).0 ts (record st { world = (rt.now w).1 }) v
              (framed, healthy)).0,
        ),
      )
