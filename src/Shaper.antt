-- ===== src/Shaper.antt =====
-- The configuration of a shaped connection: the types of obfs.go, and newShapedConn of conn.go.
-- `W` is the state behind the callbacks and the random source: a sampler or a fill function may
-- depend on it and change it. `F` is Go's float64.
pub mod Frame
pub mod Framing
pub mod Fixed
pub mod Morph
pub mod Mode
pub mod Start
pub mod Read
pub mod Write
pub mod Session
pub mod Pacer
pub mod Front
pub mod Samplers
pub mod Wraps
pub mod Close
pub mod Tests
use obfs.Base.{ℕ, zero, suc, ◌-◌, ◌≡◌, List, ℤ, pos, negsuc, Option, none, some, ltb, leb}
use obfs.Base.{Bool, true, false, ◌&&◌, ◌||◌, not, length, All, IsByte, if◌then◌else◌}

-- FillFunc fills a slice of bytes in place, so the slice keeps its length.
pub record FillFunc (W : Type 0) : Type 0 where
  pub fill : List ℕ → W → List ℕ × W
  pub fill_length : (p : List ℕ) (w : W) → length (fill p w).0 ≡ length p
  pub fill_range : (p : List ℕ) (w : W) → All IsByte (fill p w).0

-- `func() int` and `func() time.Duration`.
abbrev pub Sampler : Type 0 → Type 0
Sampler W = W → ℤ × W

-- What the shaper uses of float64. A NaN is below nothing, and nothing is below it.
pub record Float64 (F : Type 0) : Type 0 where
  pub zero_f : F
  pub one_f : F
  pub lt_f : F → F → Bool
  pub le_f : F → F → Bool

pub record FrontConfig : Type 0 where
  pub window : ℤ
  pub max_count : ℤ

pub record PacedConfig (F : Type 0) : Type 0 where
  pub rate : F
  pub decay : F
  pub min_rate : F
  pub queue : ℤ
  pub no_pad : Bool

pub record Policy (W F : Type 0) : Type 0 where
  pub cell_size : ℤ
  pub jitter : ℤ
  pub cover_every : ℤ
  pub fill : Option (FillFunc W)
  pub size_sampler : Option (Sampler W)
  pub delay_sampler : Option (Sampler W)
  pub front : Option FrontConfig
  pub paced : Option (PacedConfig F)

-- const hdrSize = 2
abbrev pub hdr_size : ℕ
hdr_size = 2

-- `n > 0`
abbrev pub positive : ℤ → Bool
positive (pos n) = ltb 0 n
positive (negsuc n) = false

-- The immutable part of shapedConn. `c.morph` is `SizeSampler != nil`, and `c.paced` is that
-- `pace` is there. `cover` and `front` hold the arguments of the loops that newShapedConn starts.
pub record Shaped (W F : Type 0) : Type 0 where
  pub cell_size : ℕ
  pub max_data : ℕ
  pub filler : FillFunc W
  pub jitter : ℤ
  pub size_sampler : Option (Sampler W)
  pub delay_sampler : Option (Sampler W)
  pub pace : Option (PacedConfig F)
  pub cover : Option ℤ
  pub front_loop : Option FrontConfig

pub is_some {ℓ} : {A : Type ℓ} → Option A → Bool
is_some none = false
is_some (some a) = true

module _ {W F : Type 0} (fl : Float64 F) (random_fill : FillFunc W) where
  open fl use {zero_f, one_f, lt_f, le_f}

  -- withDefaults; `minRate` is float64(1) and the queue 1024.
  pub with_defaults : PacedConfig F → PacedConfig F
  with_defaults cfg = record cfg {
    decay = if le_f cfg.decay zero_f || lt_f one_f cfg.decay then one_f else cfg.decay;
    min_rate = if le_f cfg.min_rate zero_f then one_f else cfg.min_rate;
    queue = if positive cfg.queue then cfg.queue else pos 1024;
  }

  enabled_pace : Option (PacedConfig F) → Option (PacedConfig F)
  enabled_pace none = none
  enabled_pace (some cfg) = if lt_f zero_f cfg.rate then some (with_defaults cfg) else none

  enabled_front : Option FrontConfig → Option FrontConfig
  enabled_front none = none
  enabled_front (some cfg) =
      if positive cfg.window && positive cfg.max_count then some cfg else none

  or_random : Option (FillFunc W) → FillFunc W
  or_random none = random_fill
  or_random (some f) = f

  -- `p.CellSize <= hdrSize`
  disables : ℤ → Bool
  disables (pos n) = leb n hdr_size
  disables (negsuc n) = true

  -- A CellSize below zero reaches the connection in morpher mode only, which does not read it.
  cells_of : ℤ → ℕ
  cells_of (pos n) = n
  cells_of (negsuc n) = 0

  shaped_of : Policy W F → Shaped W F
  unfolding enabled_pace enabled_front or_random cells_of is_some with_defaults
  shaped_of p =
      let pace = enabled_pace p.paced in
      record {
        cell_size = cells_of p.cell_size;
        max_data = cells_of p.cell_size - hdr_size;
        filler = or_random p.fill;
        jitter = p.jitter;
        size_sampler = p.size_sampler;
        delay_sampler = p.delay_sampler;
        pace = pace;
        cover = if not (is_some pace) && positive p.cover_every then some p.cover_every else none;
        front_loop = if is_some pace then none else enabled_front p.front;
      }

  -- newShapedConn: `none` is the unshaped `base`.
  unfoldable pub new_shaped_conn : Policy W F → Option (Shaped W F)
  unfolding shaped_of disables
  new_shaped_conn p =
      if not (is_some p.size_sampler) && disables p.cell_size then none else some (shaped_of p)
