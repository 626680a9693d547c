-- ===== src/Base/Fault.antt =====
-- Code that reads or writes memory: `none` is an access outside of a buffer, which C leaves
-- undefined.
use Prim.Native.Nat.{ℕ, zero, suc, ◌+◌, ◌≤◌, ◌<◌}
use mathlib.Core.Path.{◌≡◌, refl, ap, ◌∙◌, subst₂}
use mathlib.Core.List.{List, [], ◌∷◌, ◌++◌, append_assoc}
use mathlib.Core.Option.{Option, none, some}
use native.Mathlib.Omega.{arith}
use esp32aging.Base.Lists.{length, drop, length-append}

infixl 5 ◌>>=◌
abbrev pub ◌>>=◌ {ℓ κ} : {A : Type ℓ} {B : Type κ} → Option A → (A → Option B) → Option B
none >>= f = none
some a >>= f = f a

-- Inversion of a run that does not fault.
pub >>=-eq-some {ℓ κ} :
    {A : Type ℓ} {B : Type κ} (m : Option A) (f : A → Option B) {b : B}
    → (m >>= f) ≡ some b
    → (a : A) × (m ≡ some a) × (f a ≡ some b)
>>=-eq-some none f h = cc
>>=-eq-some (some a) f h = (a, refl, h)

module _ {ℓ} {A : Type ℓ} where
  -- `buf[i] = v`.
  unfoldable pub store : List A → ℕ → A → Option (List A)
  store [] i v = none
  store (x ∷ xs) zero v = some (v ∷ xs)
  store (x ∷ xs) (suc i) v = store xs i v >>= λ ys. some (x ∷ ys)

  -- `buf[i++] = v` for each value in turn.
  unfoldable pub fill : List A → ℕ → List A → Option (List A)
  fill buf i [] = some buf
  fill buf i (v ∷ vs) = store buf i v >>= λ buf'. fill buf' (i + 1) vs

  store_lem : (xs ys : List A) (y v : A) → store (xs ++ y ∷ ys) (length xs) v ≡ some (xs ++ v ∷ ys)
  unfolding store
  store_lem [] ys y v = refl
  store_lem (x ∷ xs) ys y v = rw (store_lem xs ys y v)

  -- Values stored one after the other lie side by side, if there is room.
  pub fill_lem :
      (xs vs ys : List A)
      → length vs ≤ length ys
      → fill (xs ++ ys) (length xs) vs ≡ some (xs ++ (vs ++ drop (length vs) ys))
  unfolding fill
  fill_lem xs [] ys h = refl
  fill_lem xs (v ∷ vs) [] h = absurd (omega arith)
  fill_lem xs (v ∷ vs) (y ∷ ys) h = rw (store_lem xs ys y v) (
      subst₂ (λ b i. fill b i vs ≡ some (xs ++ (v ∷ (vs ++ drop (length vs) ys))))
        (append_assoc xs (v ∷ []) ys) (length-append xs (v ∷ []))
        (fill_lem (xs ++ v ∷ []) vs ys (omega arith)
          ∙ ap some (append_assoc xs (v ∷ []) (vs ++ drop (length vs) ys))))

  -- Values that fit are stored, and the buffer keeps its length.
  store-fits :
      (xs : List A) (i : ℕ) (v : A)
      → i < length xs
      → (ys : List A) × (store xs i v ≡ some ys) × (length ys ≡ length xs)
  unfolding store
  store-fits [] i v h = elim h [ ]
  store-fits (x ∷ xs) zero v h = (v ∷ xs, refl, refl)
  store-fits (x ∷ xs) (suc i) v h =
      let rest = store-fits xs i v (omega arith) in (x ∷ rest.0, rw rest.1 refl, ap suc rest.2)

  pub fill-fits :
      (buf : List A) (i : ℕ) (vs : List A)
      → i + length vs ≤ length buf
      → (ys : List A) × (fill buf i vs ≡ some ys) × (length ys ≡ length buf)
  unfolding fill
  fill-fits buf i [] h = (buf, refl, refl)
  fill-fits buf i (v ∷ vs) h =
      let one = store-fits buf i v (omega arith) in
      let rest = fill-fits one.0 (i + 1) vs (omega (arith, one.2)) in
      (rest.0, rw one.1 rest.1, rest.2 ∙ one.2)
