-- ===== src/Ble/Examples.antt =====
-- A target saved and loaded, and an address parsed.
use esp32aging.Base.{
  ℕ, ◌%◌, ◌==◌, Bool, ◌≡◌, refl, true, false, none, some, [], ◌∷◌, arith, if◌then◌else◌, replicate,
  pos, str_eq,
}
use esp32aging.Ble.{
  Target, TargetRecord, string, number, done, loaded, invalid_state, ble_target_parse, Store,
  nvs_set_blob, save_ok, target_record, ble_target_save, ble_target_load,
}
use esp32aging.Ble.Laws.{mac_text, load-save, ble_target_parse-mac_text}

abbrev sensor : Target
sensor = record { use_mac = true; bda = 1 ∷ 2 ∷ 3 ∷ 4 ∷ 5 ∷ 255 ∷ []; addr_type = 1 }

abbrev sensor_record : TargetRecord
sensor_record = record {
  version = 1;
  use_mac = 1;
  addr_type = 1;
  bda = 1 ∷ 2 ∷ 3 ∷ 4 ∷ 5 ∷ 255 ∷ [];
  pn = 80 ∷ 49 ∷ replicate 62 0;
}

abbrev no_records : Store
no_records ready = none

sensor_saved :
    ble_target_save true true true true (80 ∷ 49 ∷ []) sensor no_records
    ≡ (nvs_set_blob true sensor_record no_records, save_ok)
unfolding ble_target_save target_record
sensor_saved = refl

load-save_example :
    (ble_target_load true (80 ∷ 50 ∷ []) done done (nvs_set_blob true sensor_record no_records)
      ≡ (if str_eq (80 ∷ 49 ∷ []) (80 ∷ 50 ∷ []) then loaded sensor else invalid_state))
    × (nvs_set_blob true sensor_record no_records false ≡ none)
load-save_example =
    load-save true true true true (80 ∷ 49 ∷ []) (80 ∷ 50 ∷ []) sensor no_records
      (nvs_set_blob true sensor_record no_records) (omega arith) sensor_saved

-- Capitals at the even digits.
abbrev is_capital : ℕ → Bool
is_capital i = i % 2 == 0

ble_target_parse-mac_text_example :
    ble_target_parse true true
      (some (string (some (mac_text is_capital 0 (1 ∷ 2 ∷ 3 ∷ 4 ∷ 5 ∷ 255 ∷ [])))))
      (some (number (some (pos 1))))
    ≡ some sensor
ble_target_parse-mac_text_example =
    ble_target_parse-mac_text is_capital 1 2 3 4 5 255 1 (omega arith) (omega arith)
