-- ===== src/Ble.antt =====
-- main/Communication/Ble_control/ble_target.c: the Bluetooth target of a product, parsed from a
-- command and kept across restarts. Strings are the bytes before their NUL. cJSON and the
-- non-volatile storage are not modelled: what they return is an argument.
pub mod Laws
mod Examples
use esp32aging.Base.{
  ℕ, zero, suc, ◌+◌, ◌-◌, ◌*◌, ◌/◌, ◌%◌, ◌^◌, ◌≤◌, ◌<◌, bit_and, bit_or, bit_xor, ◌≡◌, refl, sym,
  ap, ap₂, ◌∙◌, subst, ◌≢◌, ◌↔◌, ◌⊎◌, inl, inr, Bool, true, false, not, ◌&&◌, ◌||◌, Option, none,
  some, List, [], ◌∷◌, ◌++◌, map, arith, ltb, leb, ◌==◌, ==_iff, if◌then◌else◌, Bool-cases,
  Option-cases, length, get_elem?, get_or, set, take, drop, replicate, u8, u16, u32, ◌<<<◌, ◌>>>◌,
  ◌>>=◌, fill, dec_lt, dec_le, ℕ_discrete, ℤ, pos, negsuc, signed16, signed32, some_inj, if_cases,
  ltb_ℤ, suc_ℤ, int_max, str_eq, str_eq_iff, is_empty,
}

-- `BleTarget`; `bda` has six bytes.
pub record Target : Type 0 where
  pub use_mac : Bool
  pub bda : List ℕ
  pub addr_type : ℕ

-- `BleTargetRecord`; `pn` is the buffer of 64 bytes.
pub record TargetRecord : Type 0 where
  pub version : ℕ
  pub use_mac : ℕ
  pub addr_type : ℕ
  pub bda : List ℕ
  pub pn : List ℕ

-- What cJSON says of an item: a string, whose pointer may be NULL, a number, which is whole or not,
-- or something else.
pub data Item : Type 0 where
  string : Option (List ℕ) → Item
  number : Option ℤ → Item
  other : Item

abbrev pub pn_bytes : ℕ
pn_bytes = 64

abbrev pub record_version : ℕ
record_version = 1

abbrev pub blank_target : Target
blank_target = record { use_mac = false; bda = replicate 6 0; addr_type = 0 }

-- `ble_target_hex`; `none` is -1.
unfoldable pub ble_target_hex : ℕ → Option ℕ
ble_target_hex ch =
    if leb 48 ch && leb ch 57
    then some (ch - 48)
    else if leb 97 ch && leb ch 102
    then some (ch - 97 + 10)
    else if leb 65 ch && leb ch 70
    then some (ch - 65 + 10)
    else none

-- The loop over the address, from byte `i`, with `n` bytes left.
unfoldable pub parse_bytes : List ℕ → ℕ → ℕ → Option (List ℕ)
parse_bytes mac i zero = some []
parse_bytes mac i (suc n) = ble_target_hex (get_or mac (i * 3) 0) >>= λ high.
    ble_target_hex (get_or mac (i * 3 + 1) 0) >>= λ low.
    if ltb i 5 && not (get_or mac (i * 3 + 2) 0 == 58)
    then none
    else parse_bytes mac (i + 1) n >>= λ rest. some (u8 (bit_or (high <<< 4) low) ∷ rest)

-- The part of `ble_target_parse` on the address.
unfoldable pub parse_mac : Option Item → Option Target
parse_mac none = some blank_target
parse_mac (some (number n)) = none
parse_mac (some other) = none
parse_mac (some (string none)) = none
parse_mac (some (string (some mac))) =
    if not (length mac == 17)
    then none
    else parse_bytes mac 0 6 >>= λ bytes.
        some (record { use_mac = true; bda = bytes; addr_type = 0 })

-- And on the type of the address.
unfoldable pub parse_type : Target → Option Item → Option Target
parse_type parsed none = some parsed
parse_type parsed (some (string s)) = none
parse_type parsed (some other) = none
parse_type parsed (some (number none)) = none
parse_type parsed (some (number (some (negsuc n)))) = none
parse_type parsed (some (number (some (pos n)))) =
    if not parsed.use_mac || ltb 1 n then none else some (record parsed { addr_type = u8 n })

-- `ble_target_parse`; `none` is ESP_ERR_INVALID_ARG, after which `*out` is as before.
unfoldable pub ble_target_parse : Bool → Bool → Option Item → Option Item → Option Target
ble_target_parse is_object out_given mac type =
    if not is_object || not out_given
    then none
    else parse_mac mac >>= λ parsed. parse_type parsed type

abbrev pub flag : Bool → ℕ
flag true = 1
flag false = 0

-- The record that `ble_target_save` hands to the storage; `none` is ESP_ERR_INVALID_ARG.
unfoldable pub target_record : List ℕ → Target → Option TargetRecord
target_record pn target =
    if leb pn_bytes (length pn) || ltb 1 target.addr_type
    then none
    else some (record {
      version = record_version;
      use_mac = flag target.use_mac;
      addr_type = target.addr_type;
      bda = target.bda;
      pn = pn ++ replicate (pn_bytes - length pn) 0;
    })

-- The blobs of the storage, by their keys: `true` is "ready", and `false` "current".
abbrev pub Store : Type 0
Store = Bool → Option TargetRecord

-- `nvs_set_blob`
unfoldable pub nvs_set_blob : Bool → TargetRecord → Store → Store
nvs_set_blob true r store true = some r
nvs_set_blob true r store false = store false
nvs_set_blob false r store true = store true
nvs_set_blob false r store false = some r

-- ESP_OK, ESP_ERR_INVALID_ARG, and an error of the storage.
pub data Saved : Type 0 where
  save_ok save_invalid_arg save_failed : Saved

-- `ble_target_save`; the first three arguments are that the calls of the storage return ESP_OK.
unfoldable pub ble_target_save : Bool → Bool → Bool → Bool → List ℕ → Target → Store → Store × Saved
ble_target_save opens sets commits ready pn target store = elim (target_record pn target) [
  | none ↦ (store, save_invalid_arg)
  | some r ↦
      if not opens || not sets
      then (store, save_failed)
      else if not commits
      then (nvs_set_blob ready r store, save_failed)
      else (nvs_set_blob ready r store, save_ok)
]

-- The results of `nvs_open` and `nvs_get_blob`.
pub data Nvs : Type 0 where
  done not_found failed : Nvs

pub data Loaded : Type 0 where
  loaded : Target → Loaded
  storage_error invalid_state : Loaded

-- `memchr` for the NUL, and the string before it.
unfoldable pub c_string : List ℕ → Option (List ℕ)
c_string [] = none
c_string (c ∷ cs) = let rest = c_string cs in if c == 0 then some [] else rest >>= λ s. some (c ∷ s)

-- The check of a record that was read.
unfoldable pub restore : List ℕ → TargetRecord → Loaded
restore pn r =
    if not (r.version == record_version) || ltb 1 r.use_mac || ltb 1 r.addr_type
    then invalid_state
    else elim (c_string r.pn) [
      | none ↦ invalid_state
      | some s ↦
          if str_eq s pn
          then loaded (record { use_mac = r.use_mac == 1; bda = r.bda; addr_type = r.addr_type })
          else invalid_state
    ]

-- `ble_target_load`, where `nvs_open` and `nvs_get_blob` return these results; a key without a record
-- stands for a blob that has not its size.
unfoldable pub ble_target_load : Bool → List ℕ → Nvs → Nvs → Store → Loaded
ble_target_load ready pn failed get store = storage_error
ble_target_load ready pn not_found get store = loaded blank_target
ble_target_load ready pn done failed store = storage_error
ble_target_load ready pn done not_found store = loaded blank_target
ble_target_load ready pn done done store = elim (store ready) [
  | none ↦ invalid_state
  | some r ↦ restore pn r
]
