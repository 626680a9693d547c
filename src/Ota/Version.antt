-- ===== src/Ota/Version.antt =====
-- main/APP/OTA/ota.c: the numbers of a version and their order.
pub mod Laws
use esp32aging.Base.{
  ℕ, Bool, false, not, ◌||◌, Option, none, some, List, ◌==◌, if◌then◌else◌, ℤ, pos, negsuc, ltb_ℤ,
}
use esp32aging.Ota.{Err, ok, invalid_version}

-- What `sscanf(text, "%d.%d.%d%c", ...)` returns and the numbers afterwards, -1 where it stored
-- none.
pub record Scan : Type 0 where
  pub count : ℤ
  pub major : ℤ
  pub minor : ℤ
  pub patch : ℤ

-- `ota_semver_t`
pub record Semver : Type 0 where
  pub major : ℤ
  pub minor : ℤ
  pub patch : ℤ

abbrev pub eq_ℤ : ℤ → ℤ → Bool
eq_ℤ (pos m) (pos n) = m == n
eq_ℤ (pos m) (negsuc n) = false
eq_ℤ (negsuc m) (pos n) = false
eq_ℤ (negsuc m) (negsuc n) = m == n

-- `compare_semver`
unfoldable pub compare_semver : Semver → Semver → ℤ
compare_semver a b =
    if not (eq_ℤ a.major b.major)
    then if ltb_ℤ b.major a.major then pos 1 else negsuc 0
    else if not (eq_ℤ a.minor b.minor)
    then if ltb_ℤ b.minor a.minor then pos 1 else negsuc 0
    else if not (eq_ℤ a.patch b.patch)
    then if ltb_ℤ b.patch a.patch then pos 1 else negsuc 0
    else pos 0

module _ (sscanf : List ℕ → Scan) where
  -- `parse_semver`; `none` for the text is NULL.
  unfoldable pub parse_semver : Option (List ℕ) → Option Semver
  parse_semver none = none
  parse_semver (some text) =
      let scan = sscanf text in
      if not (eq_ℤ scan.count (pos 3))
        || ltb_ℤ scan.major (pos 0)
        || ltb_ℤ scan.minor (pos 0)
        || ltb_ℤ scan.patch (pos 0)
      then none
      else some (record { major = scan.major; minor = scan.minor; patch = scan.patch })

  -- `simple_ota_compare_versions`; the second result is `*comparison`, where it is written.
  unfoldable pub simple_ota_compare_versions :
      Option (List ℕ) → Option (List ℕ) → Bool → Err × Option ℤ
  simple_ota_compare_versions left right out_given =
      if not out_given then (invalid_version, none) else elim (parse_semver left) [
        | none ↦ (invalid_version, none)
        | some a ↦ elim (parse_semver right) [
          | none ↦ (invalid_version, none)
          | some b ↦ (ok, some (compare_semver a b))
        ]
      ]
