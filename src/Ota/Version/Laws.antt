-- ===== src/Ota/Version/Laws.antt =====
-- The order of the versions.
use esp32aging.Base.{
  ℕ, ◌+◌, ◌<◌, ◌≡◌, sym, ap, ◌↔◌, ◌⊎◌, inl, inr, true, Option, some, List, arith, ℤ, pos, negsuc,
  pos_part, neg_part,
}
use esp32aging.Ota.Version.{
  Scan, Semver, eq_ℤ, compare_semver, parse_semver, simple_ota_compare_versions,
}

-- The order of the integers, and of the versions by the first number in which they differ.
abbrev pub IsLess : ℤ → ℤ → Type 0
IsLess a b = pos_part a + neg_part b < pos_part b + neg_part a

abbrev pub IsOlder : Semver → Semver → Type 0
IsOlder a b =
    IsLess a.major b.major
    ⊎ (a.major ≡ b.major) × (IsLess a.minor b.minor ⊎ (a.minor ≡ b.minor) × IsLess a.patch b.patch)

eq_ℤ_iff : (a b : ℤ) → (eq_ℤ a b ≡ true) ↔ (a ≡ b)
eq_ℤ_iff (pos m) (pos n) = ground arith
eq_ℤ_iff (pos m) (negsuc n) = ground arith
eq_ℤ_iff (negsuc m) (pos n) = ground arith
eq_ℤ_iff (negsuc m) (negsuc n) = ground arith

-- Two integers are the same or one is less.
three_ways : (a b : ℤ) → (a ≡ b) ⊎ IsLess a b ⊎ IsLess b a
three_ways (pos m) (pos n) = ground arith
three_ways (pos m) (negsuc n) = ground arith
three_ways (negsuc m) (pos n) = ground arith
three_ways (negsuc m) (negsuc n) = ground arith

module _ (a b : Semver) where
  compare_semver-cases :
      (compare_semver a b ≡ negsuc 0) × IsOlder a b
      ⊎ (compare_semver a b ≡ pos 1) × IsOlder b a
      ⊎ (compare_semver a b ≡ pos 0) × (a ≡ b)
  unfolding compare_semver
  compare_semver-cases = ground (
    arith,
    eq_ℤ_iff a.major b.major,
    eq_ℤ_iff a.minor b.minor,
    eq_ℤ_iff a.patch b.patch,
    three_ways a.major b.major,
    three_ways a.minor b.minor,
    three_ways a.patch b.patch,
  )

  IsOlder-asym : IsOlder a b → IsOlder b a → ⊥
  IsOlder-asym h k = ground arith

  IsOlder-irrefl : a ≡ b → IsOlder a b → ⊥
  IsOlder-irrefl e h = ground (arith, ap (λ v. v.major) e, ap (λ v. v.minor) e, ap (λ v. v.patch) e)

IsOlder-trans : (a b c : Semver) → IsOlder a b → IsOlder b c → IsOlder a c
IsOlder-trans a b c h k = ground arith

module _ (sscanf : List ℕ → Scan) (left right : List ℕ) (a b : Semver) where
  abbrev pub compare_versions : Option ℤ
  compare_versions = (simple_ota_compare_versions sscanf (some left) (some right) true).1

  compare_versions_lem :
      parse_semver sscanf (some left) ≡ some a
      → parse_semver sscanf (some right) ≡ some b
      → compare_versions ≡ some (compare_semver a b)
  unfolding simple_ota_compare_versions
  compare_versions_lem h k = cc (h, k)

  -- Whatever `sscanf` finds: where it finds three numbers in both texts that are not negative,
  -- the comparison is -1 exactly if the first version is older, 1 exactly if the second one is,
  -- and 0 exactly if the numbers are the same. A version is older if its number is less in the
  -- first place where the two differ.
  pub compare_versions-eq-order :
      parse_semver sscanf (some left) ≡ some a
      → parse_semver sscanf (some right) ≡ some b
      → ((compare_versions ≡ some (negsuc 0)) ↔ IsOlder a b)
        × ((compare_versions ≡ some (pos 1)) ↔ IsOlder b a)
        × ((compare_versions ≡ some (pos 0)) ↔ (a ≡ b))
  compare_versions-eq-order h k = rw (compare_versions_lem h k) (elim (compare_semver-cases a b) [
    | inl (e, older) ↦ (
      (λ h. older, λ h. ap some e),
      (λ h. cc (e, h), λ newer. absurd (IsOlder-asym a b older newer)),
      (λ h. cc (e, h), λ same. absurd (IsOlder-irrefl a b same older)),
    )
    | inr (inl (e, newer)) ↦ (
      (λ h. cc (e, h), λ older. absurd (IsOlder-asym a b older newer)),
      (λ h. newer, λ h. ap some e),
      (λ h. cc (e, h), λ same. absurd (IsOlder-irrefl b a (sym same) newer)),
    )
    | inr (inr (e, same)) ↦ (
      (λ h. cc (e, h), λ older. absurd (IsOlder-irrefl a b same older)),
      (λ h. cc (e, h), λ newer. absurd (IsOlder-irrefl b a (sym same) newer)),
      (λ h. same, λ h. ap some e),
    )
  ])
