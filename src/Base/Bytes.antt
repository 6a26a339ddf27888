-- ===== src/Base/Bytes.antt =====
-- Bytes and the big-endian fields of encoding/binary. A byte slice is a list of numbers.
use Prim.Native.Nat.{ℕ, zero, suc, ◌+◌, ◌*◌, ◌/◌, ◌%◌, ◌^◌, ◌<◌}
use native.Mathlib.Numerals.{unary_clauses}
use obfs.Base.Lists.{length, length-append}
use mathlib.Core.Path.{◌≡◌, refl}
use mathlib.Core.List.{List, [], ◌∷◌, ◌++◌}
use native.Mathlib.Omega.{arith}

abbrev pub IsByte : ℕ → Type 0
IsByte b = b < 256

-- `uint16(n)` of a non-negative `int`.
abbrev pub uint16 : ℕ → ℕ
uint16 n = n % 65536

-- `binary.BigEndian.PutUint16(b, v)`: the two bytes that it writes.
abbrev pub put_uint16 : ℕ → List ℕ
put_uint16 v = (v / 256 % 256) ∷ (v % 256) ∷ []

-- `int(b[0])<<8 | int(b[1])`; the low byte leaves the bits of the high one free.
abbrev pub join16 : ℕ → ℕ → ℕ
join16 hi lo = hi * 256 + lo

-- `binary.BigEndian.Uint16(b)` on a slice of two bytes at least.
abbrev pub get_uint16 : List ℕ → ℕ
get_uint16 (hi ∷ lo ∷ rest) = join16 hi lo
get_uint16 _ = 0

pub join16-put : (v : ℕ) → v < 65536 → join16 (v / 256 % 256) (v % 256) ≡ v
join16-put v h = omega arith

-- The `n` lowest bytes of a number, the highest first: `binary.BigEndian.PutUint64` for 8.
abbrev pub be_bytes : ℕ → ℕ → List ℕ
be_bytes zero v = []
be_bytes (suc n) v = be_bytes n (v / 256) ++ ((v % 256) ∷ [])

-- What the bytes mean behind the bytes of `acc`: `binary.BigEndian.Uint64` of 8 bytes behind 0.
abbrev pub be_value : ℕ → List ℕ → ℕ
be_value acc [] = acc
be_value acc (b ∷ bs) = be_value (acc * 256 + b) bs

be_value-append :
    (acc : ℕ) (xs ys : List ℕ) → be_value acc (xs ++ ys) ≡ be_value (be_value acc xs) ys
be_value-append acc [] ys = refl
be_value-append acc (b ∷ xs) ys = be_value-append (acc * 256 + b) xs ys

pub be_value-be_bytes : (n v : ℕ) → v < 256 ^ n → be_value 0 (be_bytes n v) ≡ v
be_value-be_bytes zero v h = omega arith
be_value-be_bytes (suc n) v h =
    let power : 256 ^ suc n ≡ 256 ^ n * 256 = simp unary_clauses in
    let small : v / 256 < 256 ^ n = omega arith in
    rw
      (
        be_value-append 0 (be_bytes n (v / 256)) ((v % 256) ∷ []),
        be_value-be_bytes n (v / 256) small,
      )
      (omega arith)

pub length-be_bytes : (n v : ℕ) → length (be_bytes n v) ≡ n
length-be_bytes zero v = refl
length-be_bytes (suc n) v =
    omega
      (arith, length-append (be_bytes n (v / 256)) ((v % 256) ∷ []), length-be_bytes n (v / 256))
