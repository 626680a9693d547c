-- ===== src/Base/Xor.antt =====
-- The laws of the exclusive or that the checksums use: one equation for the lowest digit, and
-- from it the others by induction on a bound.
use Prim.Native.Nat.{
  ℕ, zero, suc, ◌+◌, ◌*◌, ◌/◌, ◌%◌, ◌^◌, ◌≤◌, ◌<◌, bit_xor, bit_xor-bitwise, differ,
}
use mathlib.Core.Path.{◌≡◌, refl, sym, ap, ap₂, ◌∙◌}
use native.Mathlib.Omega.{arith}
use native.Mathlib.Nat.{le_refl, pow-suc}
use esp32aging.Base.Bits.{bitwise-suc}

pub zero-bit_xor : (b : ℕ) → bit_xor 0 b ≡ b
zero-bit_xor b = bit_xor-bitwise 0 b

differ-eq-parity : (x y : ℕ) → x < 2 → y < 2 → differ x y ≡ (x + y) % 2
differ-eq-parity zero zero p q = refl
differ-eq-parity zero (suc zero) p q = refl
differ-eq-parity (suc zero) zero p q = refl
differ-eq-parity (suc zero) (suc zero) p q = refl
differ-eq-parity (suc (suc x)) y p q = absurd (omega arith)
differ-eq-parity zero (suc (suc y)) p q = absurd (omega arith)
differ-eq-parity (suc zero) (suc (suc y)) p q = absurd (omega arith)

pub bit_xor_step : (a b : ℕ) → bit_xor a b ≡ bit_xor (a / 2) (b / 2) * 2 + (a + b) % 2
bit_xor_step zero b = omega (arith, zero-bit_xor b, zero-bit_xor (b / 2))
bit_xor_step (suc a) b = omega (
  arith,
  bit_xor-bitwise (suc a) b,
  bit_xor-bitwise (suc a / 2) (b / 2),
  bitwise-suc (λ y. y) differ a b,
  differ-eq-parity (suc a % 2) (b % 2) (omega arith) (omega arith),
)

pub bit_xor-half : (a b : ℕ) → bit_xor a b / 2 ≡ bit_xor (a / 2) (b / 2)
bit_xor-half a b = omega (arith, bit_xor_step a b)

pub bit_xor-parity : (a b : ℕ) → bit_xor a b % 2 ≡ (a + b) % 2
bit_xor-parity a b = omega (arith, bit_xor_step a b)

-- Two numbers with the same half and the same parity are equal.
same_digits : (a b : ℕ) → a / 2 ≡ b / 2 → a % 2 ≡ b % 2 → a ≡ b
same_digits a b h p = omega arith

bit_xor_comm_fuel : (n a b : ℕ) → a ≤ n → b ≤ n → bit_xor a b ≡ bit_xor b a
bit_xor_comm_fuel zero zero zero p q = refl
bit_xor_comm_fuel zero (suc a) b p q = absurd (omega arith)
bit_xor_comm_fuel zero zero (suc b) p q = absurd (omega arith)
bit_xor_comm_fuel (suc n) a b p q = omega (
  arith,
  bit_xor_step a b,
  bit_xor_step b a,
  bit_xor_comm_fuel n (a / 2) (b / 2) (omega arith) (omega arith),
)

pub bit_xor_comm : (a b : ℕ) → bit_xor a b ≡ bit_xor b a
bit_xor_comm a b = bit_xor_comm_fuel (a + b) a b (omega arith) (omega arith)

pub bit_xor-zero : (a : ℕ) → bit_xor a 0 ≡ a
bit_xor-zero a = bit_xor_comm a 0 ∙ zero-bit_xor a

bit_xor_assoc_fuel :
    (n a b c : ℕ) → a ≤ n → b ≤ n → c ≤ n → bit_xor (bit_xor a b) c ≡ bit_xor a (bit_xor b c)
bit_xor_assoc_fuel zero zero zero zero p q r = refl
bit_xor_assoc_fuel zero (suc a) b c p q r = absurd (omega arith)
bit_xor_assoc_fuel zero zero (suc b) c p q r = absurd (omega arith)
bit_xor_assoc_fuel zero zero zero (suc c) p q r = absurd (omega arith)
bit_xor_assoc_fuel (suc n) a b c p q r =
    same_digits _ _
      (rw
        (
          bit_xor-half (bit_xor a b) c,
          bit_xor-half a b,
          bit_xor-half a (bit_xor b c),
          bit_xor-half b c,
        )
        (bit_xor_assoc_fuel n (a / 2) (b / 2) (c / 2) (omega arith) (omega arith) (omega arith)))
      (omega (
        arith,
        bit_xor-parity (bit_xor a b) c,
        bit_xor-parity a b,
        bit_xor-parity a (bit_xor b c),
        bit_xor-parity b c,
      ))

pub bit_xor_assoc : (a b c : ℕ) → bit_xor (bit_xor a b) c ≡ bit_xor a (bit_xor b c)
bit_xor_assoc a b c = bit_xor_assoc_fuel (a + b + c) a b c (omega arith) (omega arith) (omega arith)

bit_xor_self_fuel : (n a : ℕ) → a ≤ n → bit_xor a a ≡ 0
bit_xor_self_fuel zero zero p = refl
bit_xor_self_fuel zero (suc a) p = absurd (omega arith)
bit_xor_self_fuel (suc n) a p =
    omega (arith, bit_xor_step a a, bit_xor_self_fuel n (a / 2) (omega arith))

pub bit_xor_self : (a : ℕ) → bit_xor a a ≡ 0
bit_xor_self a = bit_xor_self_fuel a a (le_refl a)

-- A common operand can be cancelled.
pub bit_xor_cancel : (a b c : ℕ) → bit_xor a c ≡ bit_xor b c → a ≡ b
bit_xor_cancel a b c e = sym (twice a) ∙ ap (λ (t : ℕ). bit_xor t c) e ∙ twice b
  where
    twice : (x : ℕ) → bit_xor (bit_xor x c) c ≡ x
    twice x = rw (bit_xor_assoc x c c, bit_xor_self c) (bit_xor-zero x)

double-lt : (x y k r : ℕ) → x < 2 ^ k → r < 2 → y ≡ x * 2 + r → y < 2 ^ suc k
double-lt x y k r h hr e = omega (arith, pow-suc 2 k)

half-lt : (x k : ℕ) → x < 2 ^ suc k → x / 2 < 2 ^ k
half-lt x k h = omega (arith, pow-suc 2 k)

pub bit_xor-lt : (k a b : ℕ) → a < 2 ^ k → b < 2 ^ k → bit_xor a b < 2 ^ k
bit_xor-lt zero a b p q = omega (arith, bit_xor_zeros a b (omega arith) (omega arith))
  where
    bit_xor_zeros : (x y : ℕ) → x ≡ 0 → y ≡ 0 → bit_xor x y ≡ 0
    bit_xor_zeros x y e d = rw (e, d)
bit_xor-lt (suc k) a b p q =
    double-lt (bit_xor (a / 2) (b / 2)) _ k ((a + b) % 2)
      (bit_xor-lt k (a / 2) (b / 2) (half-lt a k p) (half-lt b k q)) (omega arith)
      (bit_xor_step a b)

halves8 : (a : ℕ) → a / 2 / 2 / 2 / 2 / 2 / 2 / 2 / 2 ≡ a / 256
halves8 a = omega arith

pub bit_xor-high : (a b : ℕ) → bit_xor a b / 256 ≡ bit_xor (a / 256) (b / 256)
bit_xor-high a b =
    sym (halves8 (bit_xor a b)) ∙ simp bit_xor-half refl ∙ ap₂ bit_xor (halves8 a) (halves8 b)

shifted_double : (q k : ℕ) → q * 2 ^ suc k ≡ 2 * (q * 2 ^ k)
shifted_double q k = omega (arith, ap (λ (t : ℕ). q * t) (pow-suc 2 k))

-- A field of `k` low bits and a field above it add up.
pub bit_xor_disjoint : (k q r : ℕ) → r < 2 ^ k → bit_xor (q * 2 ^ k) r ≡ q * 2 ^ k + r
bit_xor_disjoint zero q r h = ground (arith, bit_xor-zero q)
bit_xor_disjoint (suc k) q r h = ground (
  arith,
  pow-suc 2 k,
  shifted_double q k,
  bit_xor_step (q * 2 ^ suc k) r,
  bit_xor_disjoint k q (r / 2) (omega (arith, pow-suc 2 k)),
)
