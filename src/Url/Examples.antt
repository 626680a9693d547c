-- ===== src/Url/Examples.antt =====
-- The URL of a template.
use esp32aging.Base.{
  ℕ, ◌<◌, ◌≡◌, refl, ap, ◌∙◌, ◌↔◌, true, some, List, [], ◌∷◌, ◌++◌, arith, ◌==◌, if◌then◌else◌,
  str_eq,
}
use esp32aging.Ota.{has_part, has_any, is_one_of, starts_with}
use esp32aging.Url.{ok, path, lg_url_build, build_url, validate_firmware_filename}
use esp32aging.Url.Files.{IsFileUrl, build_url-IsFileUrl}
use esp32aging.Url.Laws.{IsFormat, IsUrl, has_no_percent, lg_url_build_iff}

-- `snprintf` on the templates that are accepted.
abbrev fill : List ℕ → List ℕ → List ℕ
fill [] argument = []
fill (c ∷ []) argument = c ∷ []
fill (c ∷ d ∷ rest) argument =
    let next = fill (d ∷ rest) argument in if c == b'%' then argument ++ rest else c ∷ next

fill-template :
    (before after argument : List ℕ)
    → has_no_percent before ≡ true
    → fill (before ++ b'%' ∷ b's' ∷ after) argument ≡ before ++ (argument ++ after)
fill-template [] after argument h = refl
fill-template (c ∷ []) after argument h = ground (arith, fill-template [] after argument refl)
fill-template (c ∷ d ∷ rest) after argument h =
    ground (arith, fill-template (d ∷ rest) after argument (ground arith))

fill-IsFormat : IsFormat fill
fill-IsFormat url_fmt before after argument t =
    ap (λ (text : List ℕ). fill text argument) t.parts
    ∙ fill-template before after argument t.before_plain

lg_url_build_iff_example :
    (lg_url_build fill (some (b'1' ∷ b'0' ∷ [])) (some (b'a' ∷ b'%' ∷ b's' ∷ b'z' ∷ [])) true 5
      ≡ (ok, some (b'a' ∷ b'1' ∷ b'0' ∷ b'z' ∷ [])))
    ↔ IsUrl (b'1' ∷ b'0' ∷ []) (b'a' ∷ b'%' ∷ b's' ∷ b'z' ∷ []) 5 (b'a' ∷ b'1' ∷ b'0' ∷ b'z' ∷ [])
lg_url_build_iff_example =
    lg_url_build_iff fill fill-IsFormat (b'1' ∷ b'0' ∷ []) (b'a' ∷ b'%' ∷ b's' ∷ b'z' ∷ []) 5
      (b'a' ∷ b'1' ∷ b'0' ∷ b'z' ∷ [])

abbrev base : List ℕ
base = b'h' ∷ b'/' ∷ b'o' ∷ []

abbrev file_name : List ℕ
file_name = b'a' ∷ b'.' ∷ b'b' ∷ b'i' ∷ b'n' ∷ []

accepted : validate_firmware_filename (some file_name) ≡ true
unfolding validate_firmware_filename has_part has_any is_one_of starts_with str_eq
accepted = refl

built : build_url (some base) (some file_name) path true 10 ≡ (ok, some (base ++ b'/' ∷ file_name))
unfolding build_url
built = refl

build_url-IsFileUrl_example : (9 < 10) × IsFileUrl base file_name path (base ++ b'/' ∷ file_name)
build_url-IsFileUrl_example =
    build_url-IsFileUrl base file_name (base ++ b'/' ∷ file_name) path 10 accepted built
