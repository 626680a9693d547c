-- ===== src/Modbus/Examples.antt =====
-- Frames built, checked and parsed at concrete values.
use esp32aging.Base.{
  ℕ, ◌/◌, ◌≡◌, refl, ◌≢◌, ◌⊎◌, true, false, none, some, List, [], ◌∷◌, arith, get_or, set, pos,
  negsuc,
}
use esp32aging.Modbus.{
  ModbusFrame, modbus_generate03, modbus_generate10, modbus_check_crc, modbus_crc16,
}
unfoldable use esp32aging.Crc.{modbus_crc16, crc16_loop, crc16_step}
use esp32aging.Crc.Table.{crc_tbl}
use esp32aging.Modbus.Frames.{
  sealed_frame, request, write_request, with_crc, modbus_generate03_lem, modbus_generate10_lem,
}
use esp32aging.Modbus.Detect.{modbus_check_crc-set}
use esp32aging.Modbus.Parse.{
  parse03_word, parse03_double, simple_payload, parse03_header, parse03_function,
  modbus_parse03_raw_value, modbus_parse03_response_simple,
}
use esp32aging.Modbus.Parse.Laws.{modbus_parse03_no_fault, simple-eq-raw_value}
use esp32aging.Modbus.Parse.RoundTrip.{word_response, double_response, raw_value-response}

abbrev no_frame : ModbusFrame
no_frame = record { data_ptr = none; len = 0 }

-- A response of the slave 1 with the word 0xfffe, and its checksum.
abbrev response : List ℕ
response = 1 ∷ 3 ∷ 2 ∷ 0xff ∷ 0xfe ∷ 0x78 ∷ 0x34 ∷ []

response-accepted : modbus_check_crc (some response) 7 ≡ some true
unfolding modbus_check_crc modbus_crc16 crc16_loop crc16_step crc_tbl
response-accepted = refl

response-parsed : modbus_parse03_response_simple (some response) 7 true ≡ some (some (negsuc 1))
unfolding modbus_parse03_response_simple parse03_word parse03_double simple_payload parse03_header
    parse03_function modbus_check_crc modbus_crc16 crc16_loop crc16_step crc_tbl
response-parsed = refl

modbus_check_crc-set_example : modbus_check_crc (some (set response 4 0xff)) 7 ≡ some false
modbus_check_crc-set_example =
    modbus_check_crc-set response 7 4 0xff (omega arith) (omega arith) (omega arith)
      response-accepted (omega arith) (omega arith) (omega arith)

modbus_generate03_lem_example :
    (modbus_generate03 true 1 256 2 (some no_frame)
      ≡ some (true, some (sealed_frame (request 1 3 256 2))))
    × (modbus_check_crc (some (with_crc (request 1 3 256 2))) 8 ≡ some true)
modbus_generate03_lem_example =
    modbus_generate03_lem 1 256 2 no_frame (omega arith) (omega arith) (omega arith) (omega arith)

modbus_generate10_lem_example :
    (modbus_generate10 true 1 256 2 (some (7 ∷ 0x1234 ∷ 9 ∷ [])) (some no_frame)
      ≡ some (true, some (sealed_frame (write_request 1 256 (7 ∷ 0x1234 ∷ [])))))
    × (modbus_check_crc (some (with_crc (write_request 1 256 (7 ∷ 0x1234 ∷ [])))) 13 ≡ some true)
modbus_generate10_lem_example =
    modbus_generate10_lem 1 256 2 (7 ∷ 0x1234 ∷ 9 ∷ []) no_frame (omega arith) (omega arith)
      (omega arith) (omega arith) (omega arith) (omega arith)

modbus_parse03_no_fault_example :
    (modbus_parse03_raw_value (some response) 7 1 false true ≢ none)
    × (modbus_parse03_response_simple (some response) 7 true ≢ none)
modbus_parse03_no_fault_example =
    modbus_parse03_no_fault response 7 1 false true (omega arith) (omega arith) (omega arith)

abbrev response_count : ℕ
response_count = get_or response 2 0 / 2

simple-eq-raw_value_example :
    (modbus_parse03_raw_value (some response) 7 1 false true ≡ some (some (negsuc 1)))
    × ((response_count ≡ 1) ⊎ (response_count ≡ 2))
simple-eq-raw_value_example =
    simple-eq-raw_value response 7 true (negsuc 1) (omega arith) (omega arith) (omega arith)
      response-parsed

raw_value-response_example :
    (modbus_parse03_raw_value (some (with_crc (word_response 1 0xfffe))) 7 1 true true
      ≡ some (some (pos 0xfffe)))
    × (modbus_parse03_raw_value (some (with_crc (double_response 1 0xfffffffe))) 9 2 true true
        ≡ some (some (negsuc 1)))
raw_value-response_example =
    raw_value-response 1 0xfffe 0xfffffffe true (omega arith) (omega arith) (omega arith)
