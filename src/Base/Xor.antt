-- ===== src/Base/Xor.antt =====
-- Exclusive or on bytes, by a table that is checked by evaluation.
use Prim.Native.Nat.{ℕ, zero, suc, ◌<◌, bit_xor}
use mathlib.Core.Path.{◌≡◌, refl}
use mathlib.Core.Bool.{Bool, true, ◌&&◌}
use obfs.Base.Tests.{◌==◌}
use native.Mathlib.Omega.{arith}

-- Masking by `mask` twice gives back each value under `count`.
restores : ℕ → ℕ → Bool
restores mask zero = true
restores mask (suc count) = (bit_xor (bit_xor count mask) mask == count) && restores mask count

-- The same for each mask under `masks`, on the values under `width`.
all_restore : ℕ → ℕ → Bool
unfolding restores
all_restore width zero = true
all_restore width (suc masks) = restores masks width && all_restore width masks

restores-value :
    (count mask b : ℕ) → b < count → restores mask count ≡ true → bit_xor (bit_xor b mask) mask ≡ b
unfolding restores
restores-value zero mask b lt h = absurd (omega arith)
restores-value (suc count) mask b lt h = ground (arith, restores-value count mask b)

all_restore-mask :
    (width masks mask : ℕ)
    → mask < masks
    → all_restore width masks ≡ true
    → restores mask width ≡ true
unfolding all_restore
all_restore-mask width zero mask lt h = absurd (omega arith)
all_restore-mask width (suc masks) mask lt h = ground (arith, all_restore-mask width masks mask)

bytes_restore : all_restore 256 256 ≡ true
unfolding all_restore
bytes_restore = refl

-- A byte that is masked twice by one byte is itself again.
pub bit_xor_twice : (x k : ℕ) → x < 256 → k < 256 → bit_xor (bit_xor x k) k ≡ x
bit_xor_twice x k hx hk = restores-value 256 k x hx (all_restore-mask 256 256 k hk bytes_restore)
