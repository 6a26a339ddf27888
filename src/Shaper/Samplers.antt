-- ===== src/Shaper/Samplers.antt =====
-- UniformSize, SampledSize and PoissonDelay of morph.go.
pub mod Weighted
pub mod Uniform
mod Tests
use obfs.Base.{
  ℕ, zero, suc, ◌+◌, ◌-◌, List, [], ◌∷◌, if◌then◌else◌, Bool, true, false, ℤ, pos, negsuc, ltb,
}
use obfs.Shaper.{Float64, Sampler, positive}
use obfs.Shaper.Front.{lt_int}

-- What the samplers do with floats; `delay_of mean u` is `time.Duration(-float64(mean) * math.Log(u))`.
pub record SamplerMath (W F : Type 0) : Type 0 where
  pub float64 : W → F × W
  pub smallest : F
  pub add_f : F → F → F
  pub mul_f : F → F → F
  pub delay_of : ℤ → F → ℤ

-- `max - min`, for sizes in order.
pub gap : ℤ → ℤ → ℕ
gap (pos a) (pos b) = b - a
gap (pos a) (negsuc b) = 0
gap (negsuc a) (pos b) = b + suc a
gap (negsuc a) (negsuc b) = a - b

-- `min + k`
pub plus : ℤ → ℕ → ℤ
plus (pos a) k = pos (a + k)
plus (negsuc a) k = if ltb a k then pos (k - suc a) else negsuc (a - k)

-- UniformSize, where `intn` is rand.Intn. `span <= 1` holds when the sizes are the same.
module _ {W : Type 0} (intn : ℕ → W → ℕ × W) where
  pub draw_between : ℤ → ℕ → Sampler W
  unfolding plus
  draw_between min zero w = (min, w)
  draw_between min (suc d) w = let (k, w') = intn (suc d + 1) w in (plus min k, w')

  unfoldable pub uniform_size : ℤ → ℤ → Sampler W
  unfolding draw_between gap lt_int
  uniform_size min max =
      if lt_int max min then draw_between max (gap max min) else draw_between min (gap min max)

abbrev pub default_cell_size : ℤ
default_cell_size = pos 512

module _ {W F : Type 0} (fl : Float64 F) (sm : SamplerMath W F) where
  -- `sort.Ints(sizes)`, with the weight of each size.
  pub insert_size : ℤ × F → List (ℤ × F) → List (ℤ × F)
  unfolding lt_int
  insert_size e [] = e ∷ []
  insert_size e (f ∷ fs) = if lt_int f.0 e.0 then f ∷ insert_size e fs else e ∷ f ∷ fs

  pub by_size : List (ℤ × F) → List (ℤ × F)
  unfolding insert_size
  by_size [] = []
  by_size (e ∷ es) = insert_size e (by_size es)

  -- The cumulative table over the positive weights, and the total.
  pub table_from : F → List (ℤ × F) → List (ℤ × F) × F
  table_from total [] = ([], total)
  table_from total ((size, weight) ∷ es) =
      let cum = sm.add_f total weight in
      let (more, last) = table_from cum es in
      let skipped = table_from total es in
      if fl.lt_f fl.zero_f weight then ((size, cum) ∷ more, last) else skipped

  -- The first bucket that the draw falls into, or the last one.
  pub pick_size : F → ℤ → List (ℤ × F) → ℤ
  pick_size x last [] = last
  pick_size x last ((size, cum) ∷ t) = if fl.lt_f x cum then size else pick_size x size t

  pub draw_size : List (ℤ × F) × F → Sampler W
  unfolding pick_size
  draw_size ([], total) w = (default_cell_size, w)
  draw_size ((size, cum) ∷ t, total) w =
      let (u, w') = sm.float64 w in (pick_size (sm.mul_f u total) size ((size, cum) ∷ t), w')

  -- The entries of the map, in any order.
  unfoldable pub sampled_size : List (ℤ × F) → Sampler W
  unfolding by_size table_from draw_size
  sampled_size weights = draw_size (table_from fl.zero_f (by_size weights))

  pub poisson_draw : ℤ → F × W → ℤ × W
  poisson_draw mean (u, w) = (sm.delay_of mean (if fl.le_f u fl.zero_f then sm.smallest else u), w)

  -- `if mean <= 0`
  unfoldable pub poisson_delay : ℤ → Sampler W
  unfolding poisson_draw
  poisson_delay mean w = if positive mean then poisson_draw mean (sm.float64 w) else (pos 0, w)
