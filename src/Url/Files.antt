-- ===== src/Url/Files.antt =====
-- main/APP/OTA/ota.c: the URL of a firmware file whose name is accepted.
use esp32aging.Base.{
  ℕ, ◌+◌, ◌<◌, ◌≡◌, refl, ap, ◌∙◌, subst, ◌⊎◌, inl, inr, Bool, true, false, ◌||◌, Option, none,
  some, List, [], ◌∷◌, ◌++◌, arith, leb, ◌==◌, if◌then◌else◌, length, some_inj, if_cases,
}
use esp32aging.Ota.{is_one_of, has_any}
use esp32aging.Url.{
  Err, ok, invalid_arg, invalid_size, UrlStyle, path, query, is_query, ends_in_slash, build_url,
  validate_firmware_filename,
}

abbrev slash : List ℕ
slash = b'/' ∷ []

-- What stands behind the last '/'.
unfoldable pub last_segment : List ℕ → List ℕ
last_segment [] = []
last_segment (c ∷ cs) = if has_any slash (c ∷ cs) then last_segment cs else c ∷ cs

-- How many bytes begin or separate the parts of a query.
unfoldable pub delimiters : List ℕ → ℕ
delimiters [] = 0
delimiters (c ∷ cs) = (if is_one_of c (b'?' ∷ b'&' ∷ b'#' ∷ []) then 1 else 0) + delimiters cs

-- The bytes that the name of a file may not have.
abbrev refused_bytes : List ℕ
refused_bytes = b'/' ∷ b'\\' ∷ b'?' ∷ b'&' ∷ b'#' ∷ []

has_any-slash : (xs : List ℕ) → has_any refused_bytes xs ≡ false → has_any slash xs ≡ false
unfolding has_any is_one_of
has_any-slash [] h = refl
has_any-slash (c ∷ cs) h = ground (arith, has_any-slash cs)

delimiters-none : (xs : List ℕ) → has_any refused_bytes xs ≡ false → delimiters xs ≡ 0
unfolding has_any is_one_of delimiters
delimiters-none [] h = refl
delimiters-none (c ∷ cs) h = ground (arith, delimiters-none cs)

delimiters-append : (xs ys : List ℕ) → delimiters (xs ++ ys) ≡ delimiters xs + delimiters ys
unfolding delimiters
delimiters-append [] ys = omega arith
delimiters-append (c ∷ cs) ys = omega (arith, delimiters-append cs ys)

delimiters-slash : (xs : List ℕ) → delimiters (b'/' ∷ xs) ≡ delimiters xs
unfolding delimiters is_one_of
delimiters-slash xs = omega arith

last_segment-plain : (xs : List ℕ) → has_any slash xs ≡ false → last_segment xs ≡ xs
unfolding last_segment
last_segment-plain [] h = refl
last_segment-plain (c ∷ cs) h = rw h refl

has_any-append : (xs ys : List ℕ) → has_any slash ys ≡ true → has_any slash (xs ++ ys) ≡ true
unfolding has_any
has_any-append [] ys h = h
has_any-append (c ∷ cs) ys h = ground (arith, has_any-append cs ys h)

has_any-here : (xs : List ℕ) → has_any slash (b'/' ∷ xs) ≡ true
unfolding has_any is_one_of
has_any-here xs = refl

-- The name behind a '/' is the last segment.
last_segment-slash :
    (base name : List ℕ) → has_any slash name ≡ false → last_segment (base ++ b'/' ∷ name) ≡ name
unfolding last_segment
last_segment-slash [] name h = rw (has_any-here name) (last_segment-plain name h)
last_segment-slash (c ∷ cs) name h =
    rw (has_any-append (c ∷ cs) (b'/' ∷ name) (has_any-here name)) (last_segment-slash cs name h)

-- A text that ends in '/', without it.
split_slash :
    (base : List ℕ)
    → ends_in_slash base ≡ true
    → (start : List ℕ) × ((name : List ℕ) → base ++ name ≡ start ++ b'/' ∷ name)
split_slash [] h = cc
split_slash (c ∷ []) h = ([], λ name. ap (λ (d : ℕ). d ∷ name) {x = c} {y = b'/'} (ground arith))
split_slash (c ∷ d ∷ rest) h =
    let found = split_slash (d ∷ rest) h in (c ∷ found.0, λ name. ap (◌∷◌ c) (found.1 name))

file_name-plain :
    (name : List ℕ)
    → validate_firmware_filename (some name) ≡ true
    → has_any refused_bytes name ≡ false
unfolding validate_firmware_filename
file_name-plain name h = ground arith

-- The URL: the base with the name, behind a '/' in path style, where it is the last segment; the name
-- adds nothing to the query.
pub record IsFileUrl (base_url name : List ℕ) (url_style : UrlStyle) (url : List ℕ) : Type 0 where
  pub joined : (url ≡ base_url ++ name) ⊎ (url ≡ base_url ++ b'/' ∷ name)
  pub as_query : url_style ≡ query → url ≡ base_url ++ name
  pub as_path : url_style ≡ path → last_segment url ≡ name
  pub same_query : delimiters url ≡ delimiters base_url

module _ (base_url name : List ℕ) (url_style : UrlStyle)
    (plain : has_any refused_bytes name ≡ false) where
  joins : Bool
  joins = is_query url_style || ends_in_slash base_url

  direct-IsFileUrl : joins ≡ true → IsFileUrl base_url name url_style (base_url ++ name)
  unfolding joins
  direct-IsFileUrl h = record {
    joined = inl refl;
    as_query = λ e. refl;
    as_path = λ e.
        let found = split_slash base_url (rw e at h) in
        ap last_segment (found.1 name) ∙ last_segment-slash found.0 name (has_any-slash name plain);
    same_query = omega (arith, delimiters-append base_url name, delimiters-none name plain);
  }

  behind-IsFileUrl : joins ≡ false → IsFileUrl base_url name url_style (base_url ++ b'/' ∷ name)
  unfolding joins
  behind-IsFileUrl h = record {
    joined = inr refl;
    as_query = λ e. cc (rw e at h);
    as_path = λ e. last_segment-slash base_url name (has_any-slash name plain);
    same_query = omega (
      arith,
      delimiters-append base_url (b'/' ∷ name),
      delimiters-slash name,
      delimiters-none name plain,
    );
  }

-- A URL is built of an accepted file name, the base and the style. It fits with its NUL. It is the
-- base, a '/' where one is missing in path style, and the name; in path style the name is what stands
-- behind the last '/'; and it has no more of '?', '&' and '#' than the base.
pub build_url-IsFileUrl :
    (base_url name url : List ℕ) (url_style : UrlStyle) (out_size : ℕ)
    → validate_firmware_filename (some name) ≡ true
    → build_url (some base_url) (some name) url_style true out_size ≡ (ok, some url)
    → (length url < out_size) × IsFileUrl base_url name url_style url
unfolding build_url joins
build_url-IsFileUrl base_url name url url_style out_size valid =
    if_cases P (out_size == 0) (invalid_arg, none) sized (λ e h. cc (error h))
      (λ e.
        if_cases P (leb out_size (length built)) (invalid_size, none) (ok, some built)
          (λ k h. cc (error h))
          (λ k h. subst_url (some_inj (ap (λ (x : Err × Option (List ℕ)). x.1) h)) (ground arith)))
  where
    P : Err × Option (List ℕ) → Type 0
    P x = x ≡ (ok, some url) → (length url < out_size) × IsFileUrl base_url name url_style url

    built : List ℕ
    built =
        if is_query url_style || ends_in_slash base_url
        then base_url ++ name
        else base_url ++ b'/' ∷ name

    error : {x : Err × Option (List ℕ)} → x ≡ (ok, some url) → x.0 ≡ ok
    error h = ap (λ (y : Err × Option (List ℕ)). y.0) h

    sized : Err × Option (List ℕ)
    sized = if leb out_size (length built) then (invalid_size, none) else (ok, some built)

    plain : has_any refused_bytes name ≡ false
    plain = file_name-plain name valid

    built-IsFileUrl : IsFileUrl base_url name url_style built
    built-IsFileUrl =
        if_cases (IsFileUrl base_url name url_style) (is_query url_style || ends_in_slash base_url)
          (base_url ++ name) (base_url ++ b'/' ∷ name)
          (direct-IsFileUrl base_url name url_style plain)
          (behind-IsFileUrl base_url name url_style plain)

    subst_url :
        built ≡ url
        → length built < out_size
        → (length url < out_size) × IsFileUrl base_url name url_style url
    subst_url e k =
        (omega (arith, ap length e), subst (IsFileUrl base_url name url_style) e built-IsFileUrl)
