-- ===== src/Shaper/Write.antt =====
-- The write side without a pacer: Write, writeMorph, applyDelay, applyJitter, and one tick of
-- coverLoop. writeMu makes each of them one step.
pub mod Effects
use obfs.Base.{ℕ, suc, ◌+◌, ◌-◌, List, [], ◌∷◌, length, concat, ℤ, pos, negsuc, Option, none, some}
use obfs.Base.{ltb, leb, if◌then◌else◌, Error, Outcome, ok, err, panic, stuck, Bool, false}
use obfs.Wire.{Sink, base_write}
use obfs.Shaper.{Shaped, Sampler, positive}
use obfs.Shaper.Fixed.{fixed_cells}
use obfs.Shaper.Morph.{morph_cells}
use obfs.Shaper.Mode.{cells_for, cover_for}

-- rand.Int63n, time.Now in nanoseconds and time.Sleep.
pub record Runtime (W : Type 0) : Type 0 where
  pub int63n : ℕ → W → ℕ × W
  pub now : W → ℕ × W
  pub sleep : ℕ → W → W

pub record Writer (W : Type 0) : Type 0 where
  pub world : W
  pub sink : Sink
  pub last_write : ℕ

module _ {W F : Type 0} (rt : Runtime W) (c : Shaped W F) where
  open rt use {int63n, now, sleep}

  sleep_if_positive : ℤ → W → W
  sleep_if_positive (pos d) w = if ltb 0 d then sleep d w else w
  sleep_if_positive (negsuc d) w = w

  apply_jitter : ℤ → W → W
  apply_jitter (negsuc n) w = w
  apply_jitter (pos n) w = if ltb 0 n then (let (d, w') = int63n (n + 1) w in sleep d w') else w

  apply_delay : Option (Sampler W) → W → W
  unfolding sleep_if_positive apply_jitter
  apply_delay none w = apply_jitter c.jitter w
  apply_delay (some g) w = let (d, w') = g w in sleep_if_positive d w'

  -- Behind `c.base.Write(buf)`: its error, or `c.lastWrite = time.Now()` and `n`.
  unfoldable pub flushed : ℕ → Writer W → Option Error × Sink → Outcome ℕ × Writer W
  flushed n st (none, sink') =
      let (t, w') = now st.world in (ok n, record { world = w'; sink = sink'; last_write = t })
  flushed n st (some e, sink') = (err e, record st { sink = sink' })

  unfoldable pub flush : List ℕ → ℕ → Writer W → Outcome ℕ × Writer W
  unfolding flushed
  flush buf n st = flushed n st (base_write buf st.sink)

  pub flush_cells : ℕ → Outcome (List (List ℕ)) × W → Writer W → Outcome ℕ × Writer W
  unfolding flush apply_delay
  flush_cells n (ok cells, w) st =
      flush (concat cells) n (record st { world = apply_delay c.delay_sampler w })
  flush_cells n (err e, w) st = (err e, record st { world = w })
  flush_cells n (panic, w) st = (panic, record st { world = w })
  flush_cells n (stuck, w) st = (stuck, record st { world = w })

  -- Write and writeMorph, where no pacer runs.
  unfoldable pub write_direct : List ℕ → Writer W → Outcome ℕ × Writer W
  unfolding flush_cells
  write_direct [] st = (ok 0, st)
  write_direct (b ∷ bs) st =
      flush_cells (length (b ∷ bs)) (cells_for c c.size_sampler (b ∷ bs) st.world) st

  -- One tick of coverLoop: a cover cell if nothing was written for `interval`.
  unfoldable pub cover_tick : ℕ → Writer W → Writer W
  unfolding flush
  cover_tick interval st =
      let (t, w₁) = now st.world in
      let (cell, w₂) = cover_for c c.size_sampler w₁ in
      if leb interval (t - st.last_write)
      then (flush cell 0 (record st { world = w₂ })).1
      else record st { world = w₁ }

  -- A timer of frontLoop: `_, _ = c.base.Write(c.coverCell())`, and the stamp if it succeeds.
  unfoldable pub emit : Writer W → Writer W
  unfolding flush
  emit st =
      let (cell, w) = cover_for c c.size_sampler st.world in
      (flush cell 0 (record st { world = w })).1
