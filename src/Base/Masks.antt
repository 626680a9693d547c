-- ===== src/Base/Masks.antt =====
-- `|` of disjoint fields, `&` with x mask of low bits, and `&` with one bit, as arithmetic.
use Prim.Native.Nat.{
  ℕ, zero, suc, ◌+◌, ◌*◌, ◌/◌, ◌%◌, ◌^◌, ◌≤◌, ◌<◌, min, max, bit_and, bit_or, bit_and-bitwise,
  bit_or-bitwise,
}
use mathlib.Core.Path.{◌≡◌, refl, ap}
use native.Mathlib.Omega.{arith}
use native.Mathlib.Nat.{pow-suc}
use esp32aging.Base.Bits.{bitwise-suc}

pub bit_or_step : (x y : ℕ) → bit_or x y ≡ bit_or (x / 2) (y / 2) * 2 + max (x % 2) (y % 2)
bit_or_step zero y = omega (arith, bit_or-bitwise 0 y, bit_or-bitwise 0 (y / 2))
bit_or_step (suc x) y = omega (
  arith,
  bit_or-bitwise (suc x) y,
  bit_or-bitwise (suc x / 2) (y / 2),
  bitwise-suc (λ y. y) max x y,
)

pub bit_and_step : (x y : ℕ) → bit_and x y ≡ bit_and (x / 2) (y / 2) * 2 + min (x % 2) (y % 2)
bit_and_step zero y = omega (arith, bit_and-bitwise 0 y, bit_and-bitwise 0 (y / 2))
bit_and_step (suc x) y = omega (
  arith,
  bit_and-bitwise (suc x) y,
  bit_and-bitwise (suc x / 2) (y / 2),
  bitwise-suc (λ y. 0) min x y,
)

bit_or-zero_below : (x n : ℕ) → x ≤ n → bit_or x 0 ≡ x
bit_or-zero_below zero n h = refl
bit_or-zero_below (suc x) zero h = absurd (omega arith)
bit_or-zero_below (suc x) (suc n) h =
    omega (arith, bit_or_step (suc x) 0, bit_or-zero_below (suc x / 2) n (omega arith))

pub bit_or-zero : (x : ℕ) → bit_or x 0 ≡ x
bit_or-zero x = bit_or-zero_below x x (omega arith)

bit_and-zero_below : (x n : ℕ) → x ≤ n → bit_and x 0 ≡ 0
bit_and-zero_below zero n h = refl
bit_and-zero_below (suc x) zero h = absurd (omega arith)
bit_and-zero_below (suc x) (suc n) h =
    omega (arith, bit_and_step (suc x) 0, bit_and-zero_below (suc x / 2) n (omega arith))

pub bit_and-zero : (x : ℕ) → bit_and x 0 ≡ 0
bit_and-zero x = bit_and-zero_below x x (omega arith)

shifted_double : (q k : ℕ) → q * 2 ^ suc k ≡ 2 * (q * 2 ^ k)
shifted_double q k = omega (arith, ap (λ (t : ℕ). q * t) (pow-suc 2 k))

-- A field of `k` low bits and a field above it add up.
pub bit_or_disjoint : (k q r : ℕ) → r < 2 ^ k → bit_or (q * 2 ^ k) r ≡ q * 2 ^ k + r
bit_or_disjoint zero q r h = ground (arith, bit_or-zero q)
bit_or_disjoint (suc k) q r h = ground (
  arith,
  pow-suc 2 k,
  shifted_double q k,
  bit_or_step (q * 2 ^ suc k) r,
  bit_or_disjoint k q (r / 2) (omega (arith, pow-suc 2 k)),
)

pub bit_and-one : (x : ℕ) → bit_and x 1 ≡ x % 2
bit_and-one x = omega (arith, bit_and_step x 1, bit_and-zero (x / 2))

pub bit_and_3 : (x : ℕ) → bit_and x 3 ≡ x % 4
bit_and_3 x = omega (arith, bit_and_step x 3, bit_and-one (x / 2))

pub bit_and_15 : (x : ℕ) → bit_and x 15 ≡ x % 16
bit_and_15 x = omega (arith, bit_and_step x 15, bit_and_step (x / 2) 7, bit_and_3 (x / 2 / 2))

bit_and_63 : (x : ℕ) → bit_and x 63 ≡ x % 64
bit_and_63 x = omega (arith, bit_and_step x 63, bit_and_step (x / 2) 31, bit_and_15 (x / 2 / 2))

-- `x & 0xFF` keeps the low byte.
pub bit_and-byte : (x : ℕ) → bit_and x 0xff ≡ x % 256
bit_and-byte x = omega (arith, bit_and_step x 255, bit_and_step (x / 2) 127, bit_and_63 (x / 2 / 2))

bit_and_16 : (x : ℕ) → bit_and x 16 ≡ x / 16 % 2 * 16
bit_and_16 x = omega (
  arith,
  bit_and_step x 16,
  bit_and_step (x / 2) 8,
  bit_and_step (x / 2 / 2) 4,
  bit_and_step (x / 2 / 2 / 2) 2,
  bit_and-one (x / 2 / 2 / 2 / 2),
)

-- `x & 0x80` is bit 7.
pub bit_and-bit7 : (x : ℕ) → bit_and x 0x80 ≡ x / 128 % 2 * 128
bit_and-bit7 x = omega (
  arith,
  bit_and_step x 128,
  bit_and_step (x / 2) 64,
  bit_and_step (x / 2 / 2) 32,
  bit_and_16 (x / 2 / 2 / 2),
)

bit_or_comm_fuel : (n x y : ℕ) → x ≤ n → y ≤ n → bit_or x y ≡ bit_or y x
bit_or_comm_fuel zero zero zero p q = refl
bit_or_comm_fuel zero (suc x) y p q = absurd (omega arith)
bit_or_comm_fuel zero zero (suc y) p q = absurd (omega arith)
bit_or_comm_fuel (suc n) x y p q = omega (
  arith,
  bit_or_step x y,
  bit_or_step y x,
  bit_or_comm_fuel n (x / 2) (y / 2) (omega arith) (omega arith),
)

pub bit_or_comm : (x y : ℕ) → bit_or x y ≡ bit_or y x
bit_or_comm x y = bit_or_comm_fuel (x + y) x y (omega arith) (omega arith)

bit_and-double : (x m : ℕ) → bit_and x (2 * m) ≡ bit_and (x / 2) m * 2
bit_and-double x m = omega (arith, bit_and_step x (2 * m), ap (bit_and (x / 2)) (halved m))
  where
    halved : (x : ℕ) → 2 * x / 2 ≡ x
    halved x = omega arith

-- `x & 0x8000` is bit 15.
pub bit_and-bit15 : (x : ℕ) → bit_and x 0x8000 ≡ x / 2 ^ 15 % 2 * 2 ^ 15
bit_and-bit15 x = omega (
  arith,
  bit_and-double x 0x4000,
  bit_and-double (x / 2) 0x2000,
  bit_and-double (x / 2 / 2) 0x1000,
  bit_and-double (x / 2 / 2 / 2) 0x800,
  bit_and-double (x / 2 / 2 / 2 / 2) 0x400,
  bit_and-double (x / 2 / 2 / 2 / 2 / 2) 0x200,
  bit_and-double (x / 2 / 2 / 2 / 2 / 2 / 2) 0x100,
  bit_and-double (x / 2 / 2 / 2 / 2 / 2 / 2 / 2) 0x80,
  bit_and-bit7 (x / 2 / 2 / 2 / 2 / 2 / 2 / 2 / 2),
)
