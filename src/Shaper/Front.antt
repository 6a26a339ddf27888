-- ===== src/Shaper/Front.antt =====
-- frontLoop of conn.go: a random number of cover cells at random times near the start.
pub mod Schedule
pub mod Emits
mod Tests
use obfs.Base.{
  ℕ, zero, suc, ◌+◌, List, [], ◌∷◌, ltb, if◌then◌else◌, Bool, true, false, ℤ, pos, negsuc, Outcome,
  ok, err, panic, stuck, ◌>>=◌,
}
use obfs.Shaper.{Shaped, FrontConfig, Float64}
use obfs.Shaper.Write.{Runtime, Writer, emit}

-- math/rand and the formulas on floats: `scale_of window u` is line 234, and `rayleigh sigma u` is
-- `time.Duration(sigma * math.Sqrt(-2*math.Log(u)))`.
pub record FrontMath (W F : Type 0) : Type 0 where
  pub intn : ℕ → W → ℕ × W
  pub float64 : W → F × W
  pub smallest : F
  pub scale_of : ℤ → F → F
  pub rayleigh : F → F → ℤ

unfoldable pub lt_int : ℤ → ℤ → Bool
lt_int (pos a) (pos b) = ltb a b
lt_int (pos a) (negsuc b) = false
lt_int (negsuc a) (pos b) = true
lt_int (negsuc a) (negsuc b) = ltb b a

-- sort.Slice, by `<`.
pub insert : ℤ → List ℤ → List ℤ
unfolding lt_int
insert t [] = t ∷ []
insert t (s ∷ ts) = if lt_int s t then s ∷ insert t ts else t ∷ s ∷ ts

pub sorted : List ℤ → List ℤ
unfolding insert
sorted [] = []
sorted (t ∷ ts) = insert t (sorted ts)

module _ {W F : Type 0} (fl : Float64 F) (fm : FrontMath W F) where
  -- `1 + rand.Intn(cfg.MaxCount)`, which panics on an argument that is not positive.
  pub budget : ℤ → W → Outcome (ℕ × W)
  budget (pos zero) w = panic
  budget (negsuc n) w = panic
  budget (pos (suc m)) w = let (k, w') = fm.intn (suc m) w in ok (1 + k, w')

  -- `if u <= 0 { u = math.SmallestNonzeroFloat64 }`
  nonzero : F → F
  nonzero u = if fl.le_f u fl.zero_f then fm.smallest else u

  pub clamped : ℤ → ℤ → ℤ
  unfolding lt_int
  clamped window t = if lt_int window t then window else t

  pub sample_times : ℕ → ℤ → F → W → List ℤ × W
  unfolding nonzero clamped
  sample_times zero window sigma w = ([], w)
  sample_times (suc n) window sigma w =
      let (u, w₁) = fm.float64 w in
      let (ts, w₂) = sample_times n window sigma w₁ in
      (clamped window (fm.rayleigh sigma (nonzero u)) ∷ ts, w₂)

  pub drawn : ℤ → ℕ × W → Outcome (List ℤ × W)
  unfolding sample_times sorted
  drawn window (n, w) =
      let (u, w₁) = fm.float64 w in
      let (ts, w₂) = sample_times n window (fm.scale_of window u) w₁ in ok (sorted ts, w₂)

  -- The send times, up to the sort.
  unfoldable pub schedule : FrontConfig → W → Outcome (List ℤ × W)
  unfolding budget drawn
  schedule cfg w = do drawing ← budget cfg.max_count w; drawn cfg.window drawing

  -- `shut_before start t` is the select: true if the connection is closed before the timer.
  module _ (rt : Runtime W) (c : Shaped W F) (shut_before : ℕ → ℤ → W → Bool × W) where
    pub emit_at : ℕ → List ℤ → Writer W → Writer W
    unfolding emit
    emit_at start [] st = st
    emit_at start (t ∷ ts) st =
        let (shut, w) = shut_before start t st.world in
        let rest = emit_at start ts (emit rt c (record st { world = w })) in
        if shut then record st { world = w } else rest

    pub started : Writer W → Outcome (List ℤ × W) → Outcome (Writer W)
    unfolding emit_at
    started st (ok (ts, w)) =
        let (start, w') = rt.now w in ok (emit_at start ts (record st { world = w' }))
    started st (err e) = err e
    started st panic = panic
    started st stuck = stuck

    unfoldable pub front_loop : FrontConfig → Writer W → Outcome (Writer W)
    unfolding started schedule
    front_loop cfg st = started st (schedule cfg st.world)
