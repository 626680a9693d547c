-- ===== src/Base/Bits.antt =====
-- The native bit operations stand for `bitwise`, a recursion on binary digits with a count of
-- digits to go. Here the count is dropped.
use Prim.Native.Nat.{ℕ, zero, suc, ◌+◌, ◌*◌, ◌/◌, ◌%◌, ◌≤◌, digits, bitwise}
use mathlib.Core.Path.{◌≡◌, refl, ◌∙◌, subst}
use native.Mathlib.Omega.{arith}
use native.Mathlib.Decide.{ℕ_discrete}

module _ (low : ℕ → ℕ) (join : ℕ → ℕ → ℕ) where
  -- A count that covers the number may grow by one.
  count-grows :
      (count x y : ℕ) → x ≤ count → digits low join (suc count) x y ≡ digits low join count x y
  count-grows zero (suc x) y small = absurd (omega arith)
  count-grows zero zero y small = refl
  count-grows (suc count) (suc x) y small =
      rw (count-grows count (suc x / 2) (y / 2) (omega arith)) refl
  count-grows (suc count) zero y small = refl

  -- So any larger count gives the same number.
  count-irrelevant :
      (large count x y : ℕ)
      → x ≤ count
      → count ≤ large
      → digits low join large x y ≡ digits low join count x y
  count-irrelevant zero zero x y small below = refl
  count-irrelevant zero (suc count) x y small below = absurd (omega arith)
  count-irrelevant (suc large) count x y small below = elim (ℕ_discrete (suc large) count) [
    | yes same ↦ subst (λ k. digits low join (suc large) x y ≡ digits low join k x y) same refl
    | no other ↦
        count-grows large x y (omega arith) ∙ count-irrelevant large count x y small (omega arith)
  ]

  pub bitwise-suc :
      (x y : ℕ)
      → bitwise low join (suc x) y
        ≡ bitwise low join (suc x / 2) (y / 2) * 2 + join (suc x % 2) (y % 2)
  bitwise-suc x y =
      omega (arith, count-irrelevant x (suc x / 2) (suc x / 2) (y / 2) (omega arith) (omega arith))
