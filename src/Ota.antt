-- ===== src/Ota.antt =====
-- main/APP/OTA: what ota.c and ota_cache.c share, the error codes and the C library's tests of
-- strings. An array of `char` is the list of its bytes.
pub mod Version
pub mod Cache
pub mod Image
pub mod Examples
use esp32aging.Base.{
  ℕ, ◌≡◌, refl, ap, Bool, true, false, ◌&&◌, ◌||◌, List, [], ◌∷◌, ◌==◌, if◌then◌else◌, is_empty,
}

pub data Err : Type 0 where
  ok fail invalid_arg invalid_size not_found invalid_response invalid_version nvs_not_found : Err
  other : ℕ → Err

-- `err == ESP_OK`, `err == ESP_ERR_NVS_NOT_FOUND` and so on.
abbrev pub is_ok : Err → Bool
is_ok ok = true
is_ok fail = false
is_ok invalid_arg = false
is_ok invalid_size = false
is_ok not_found = false
is_ok invalid_response = false
is_ok invalid_version = false
is_ok nvs_not_found = false
is_ok (other n) = false

abbrev pub is_nvs_not_found : Err → Bool
is_nvs_not_found ok = false
is_nvs_not_found fail = false
is_nvs_not_found invalid_arg = false
is_nvs_not_found invalid_size = false
is_nvs_not_found not_found = false
is_nvs_not_found invalid_response = false
is_nvs_not_found invalid_version = false
is_nvs_not_found nvs_not_found = true
is_nvs_not_found (other n) = false

abbrev pub is_not_found : Err → Bool
is_not_found ok = false
is_not_found fail = false
is_not_found invalid_arg = false
is_not_found invalid_size = false
is_not_found not_found = true
is_not_found invalid_response = false
is_not_found invalid_version = false
is_not_found nvs_not_found = false
is_not_found (other n) = false

abbrev pub is_invalid_response : Err → Bool
is_invalid_response ok = false
is_invalid_response fail = false
is_invalid_response invalid_arg = false
is_invalid_response invalid_size = false
is_invalid_response not_found = false
is_invalid_response invalid_response = true
is_invalid_response invalid_version = false
is_invalid_response nvs_not_found = false
is_invalid_response (other n) = false

-- The bytes before the first NUL.
unfoldable pub c_str : List ℕ → List ℕ
c_str [] = []
c_str (c ∷ cs) = if c == 0 then [] else c ∷ c_str cs

unfoldable pub terminated : List ℕ → Bool
terminated [] = false
terminated (c ∷ cs) = c == 0 || terminated cs

-- `strpbrk(text, chars) != NULL`
unfoldable pub is_one_of : ℕ → List ℕ → Bool
is_one_of c [] = false
is_one_of c (d ∷ ds) = c == d || is_one_of c ds

unfoldable pub has_any : List ℕ → List ℕ → Bool
has_any chars [] = false
has_any chars (c ∷ cs) = is_one_of c chars || has_any chars cs

-- `strstr(text, part) != NULL`
unfoldable pub starts_with : List ℕ → List ℕ → Bool
starts_with [] text = true
starts_with (c ∷ cs) [] = false
starts_with (c ∷ cs) (d ∷ ds) = c == d && starts_with cs ds

unfoldable pub has_part : List ℕ → List ℕ → Bool
has_part part [] = is_empty part
has_part part (c ∷ cs) = starts_with part (c ∷ cs) || has_part part cs

pub is_ok→ok : (e : Err) → is_ok e ≡ true → e ≡ ok
is_ok→ok ok h = refl
is_ok→ok fail h = cc
is_ok→ok invalid_arg h = cc
is_ok→ok invalid_size h = cc
is_ok→ok not_found h = cc
is_ok→ok invalid_response h = cc
is_ok→ok invalid_version h = cc
is_ok→ok nvs_not_found h = cc
is_ok→ok (other n) h = cc

pub refused {ℓ} : {A : Type ℓ} (e : Err) → is_ok e ≡ false → e ≡ ok → A
refused e h k = cc (ap is_ok k)

pub is_nvs_not_found→eq : (e : Err) → is_nvs_not_found e ≡ true → e ≡ nvs_not_found
is_nvs_not_found→eq ok h = cc
is_nvs_not_found→eq fail h = cc
is_nvs_not_found→eq invalid_arg h = cc
is_nvs_not_found→eq invalid_size h = cc
is_nvs_not_found→eq not_found h = cc
is_nvs_not_found→eq invalid_response h = cc
is_nvs_not_found→eq invalid_version h = cc
is_nvs_not_found→eq nvs_not_found h = refl
is_nvs_not_found→eq (other n) h = cc

pub is_not_found→eq : (e : Err) → is_not_found e ≡ true → e ≡ not_found
is_not_found→eq ok h = cc
is_not_found→eq fail h = cc
is_not_found→eq invalid_arg h = cc
is_not_found→eq invalid_size h = cc
is_not_found→eq not_found h = refl
is_not_found→eq invalid_response h = cc
is_not_found→eq invalid_version h = cc
is_not_found→eq nvs_not_found h = cc
is_not_found→eq (other n) h = cc
