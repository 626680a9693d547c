-- ===== src/Url.antt =====
-- main/Task/service_urls.c: the address of the server put into a template; and main/APP/OTA/ota.c: the
-- checks of the configuration and of the name of a firmware file, and the URL of a file.
pub mod Laws
pub mod Files
mod Examples
use esp32aging.Base.{
  ℕ, ◌-◌, Bool, true, false, not, ◌&&◌, ◌||◌, Option, none, some, List, [], ◌∷◌, ◌++◌, ltb, leb,
  ◌==◌, if◌then◌else◌, length, drop, str_eq, is_empty,
}
use esp32aging.Ota.{has_part, has_any}

pub data Err : Type 0 where
  ok invalid_arg invalid_state invalid_size : Err

-- `url_fmt_has_single_ip_placeholder` from a place of the template on.
unfoldable pub placeholder_from : Bool → List ℕ → Bool
placeholder_from found [] = found
placeholder_from found (c ∷ []) = if not (c == b'%') then found else false
placeholder_from found (c ∷ d ∷ rest) =
    let behind = placeholder_from true rest in
    let next = placeholder_from found (d ∷ rest) in
    if not (c == b'%')
    then next
    else if not (d == b's')
    then false
    else if found
    then false
    else behind

unfoldable pub url_fmt_has_single_ip_placeholder : List ℕ → Bool
url_fmt_has_single_ip_placeholder url_fmt = placeholder_from false url_fmt

-- "default"
abbrev pub server_ip_unset : List ℕ
server_ip_unset = b'd' ∷ b'e' ∷ b'f' ∷ b'a' ∷ b'u' ∷ b'l' ∷ b't' ∷ []

abbrev pub text_or_empty : Option (List ℕ) → List ℕ
text_or_empty none = []
text_or_empty (some text) = text

-- `lg_url_build`: `format` is what `snprintf` makes of a template and one argument, `none` is NULL,
-- and the second result is the URL, where it is complete.
unfoldable pub lg_url_build :
    (List ℕ → List ℕ → List ℕ)
    → Option (List ℕ)
    → Option (List ℕ)
    → Bool
    → ℕ
    → Err × Option (List ℕ)
lg_url_build format server_ip none out_given out_size = (invalid_arg, none)
lg_url_build format server_ip (some url_fmt) out_given out_size =
    let ip = text_or_empty server_ip in
    let url = format url_fmt ip in
    if not out_given || out_size == 0
    then (invalid_arg, none)
    else if not (url_fmt_has_single_ip_placeholder url_fmt)
    then (invalid_arg, none)
    else if is_empty ip || str_eq ip server_ip_unset
    then (invalid_state, none)
    else if leb out_size (length url)
    then (invalid_size, none)
    else (ok, some url)

-- `simple_ota_url_style_t`
pub data UrlStyle : Type 0 where
  path query : UrlStyle

-- What the check reads of `simple_ota_config_t`.
pub record OtaConfig : Type 0 where
  pub base_url : Option (List ℕ)
  pub metadata_file : Option (List ℕ)
  pub url_style : UrlStyle

abbrev is_query : UrlStyle → Bool
is_query path = false
is_query query = true

-- `validate_config`
unfoldable pub validate_config : Option OtaConfig → Err
validate_config none = invalid_arg
validate_config (some config) =
    let base_url = text_or_empty config.base_url in
    let metadata_file = text_or_empty config.metadata_file in
    if is_empty base_url
    then invalid_arg
    else if is_empty metadata_file
    then invalid_arg
    else if has_part (b'.' ∷ b'.' ∷ []) metadata_file || has_any (b'/' ∷ b'\\' ∷ []) metadata_file
    then invalid_arg
    else if is_query config.url_style
        && (not (has_part (b':' ∷ b'/' ∷ b'/' ∷ []) base_url) || not (has_any (b'?' ∷ []) base_url))
    then invalid_arg
    else ok

abbrev ends_in_slash : List ℕ → Bool
ends_in_slash [] = false
ends_in_slash (c ∷ []) = c == b'/'
ends_in_slash (c ∷ d ∷ rest) = ends_in_slash (d ∷ rest)

-- `build_url`
unfoldable pub build_url :
    Option (List ℕ) → Option (List ℕ) → UrlStyle → Bool → ℕ → Err × Option (List ℕ)
build_url none name url_style out_given out_size = (invalid_arg, none)
build_url (some base_url) none url_style out_given out_size = (invalid_arg, none)
build_url (some base_url) (some name) url_style out_given out_size =
    let url =
      if is_query url_style || ends_in_slash base_url
      then base_url ++ name
      else base_url ++ b'/' ∷ name in
    if not out_given || out_size == 0
    then (invalid_arg, none)
    else if leb out_size (length url)
    then (invalid_size, none)
    else (ok, some url)

-- `validate_firmware_filename`
unfoldable pub validate_firmware_filename : Option (List ℕ) → Bool
validate_firmware_filename none = false
validate_firmware_filename (some file) =
    let len = length file in
    if is_empty file
    then false
    else if has_part (b'.' ∷ b'.' ∷ []) file
        || has_part (b':' ∷ b'/' ∷ b'/' ∷ []) file
        || has_any (b'/' ∷ b'\\' ∷ b'?' ∷ b'&' ∷ b'#' ∷ []) file
    then false
    else ltb 4 len && str_eq (drop (len - 4) file) (b'.' ∷ b'b' ∷ b'i' ∷ b'n' ∷ [])
