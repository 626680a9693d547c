-- ===== src/Modbus/Parse/RoundTrip.antt =====
-- What a device encodes in a response is what the parser reads.
use esp32aging.Base.{
  ℕ, ◌/◌, ◌%◌, ◌^◌, ◌<◌, ◌≡◌, refl, ap, ◌∙◌, Bool, true, none, some, List, [], ◌∷◌, arith,
  if◌then◌else◌, pos, signed16, signed32, IsBytes,
}
use esp32aging.Modbus.{ModbusFrame}
use esp32aging.Modbus.Parse.Laws.{
  word_value, double_value, raw_payload_word, raw_payload_double, raw_value_accepted,
}
use esp32aging.Modbus.Frames.{crc_of-lt, with_crc, check-with_crc}
use esp32aging.Modbus.Parse.{modbus_parse03_raw_value}

-- The response of a device that holds a register or a pair of registers.
abbrev pub word_response : ℕ → ℕ → List ℕ
word_response slave w = slave ∷ 3 ∷ 2 ∷ w / 256 ∷ w % 256 ∷ []

abbrev pub double_response : ℕ → ℕ → List ℕ
double_response slave w =
    slave ∷ 3 ∷ 4 ∷ w / 2 ^ 24 ∷ w / 2 ^ 16 % 256 ∷ w / 2 ^ 8 % 256 ∷ w % 256 ∷ []

abbrev any_frame : ModbusFrame
any_frame = record { data_ptr = none; len = 0 }

word_response_lem :
    (slave w : ℕ) (u : Bool)
    → slave < 256
    → w < 2 ^ 16
    → modbus_parse03_raw_value (some (with_crc (word_response slave w))) 7 1 u true
      ≡ some (some (if u then pos w else signed16 w))
word_response_lem slave w u hs hw =
    raw_value_accepted whole 7 bytes (omega arith) (omega arith) 1 u
      (check-with_crc any_frame (word_response slave w) (omega arith) (omega arith) (omega arith))
      (omega arith) refl (omega arith) (omega arith)
    ∙ raw_payload_word whole 7 bytes (omega arith) (omega arith) 1 u 2 refl (omega arith)
        (omega arith)
    ∙ ap (λ (t : ℕ). some (some (if u then pos t else signed16 t)))
        (unfold word_value in omega arith)
  where
    whole : List ℕ
    whole = with_crc (word_response slave w)

    bytes : IsBytes whole
    bytes = omega (arith, crc_of-lt (word_response slave w) (omega arith))

double_response_lem :
    (slave d : ℕ) (u : Bool)
    → slave < 256
    → d < 2 ^ 32
    → modbus_parse03_raw_value (some (with_crc (double_response slave d))) 9 2 u true
      ≡ some (some (signed32 d))
double_response_lem slave d u hs hd =
    raw_value_accepted whole 9 bytes (omega arith) (omega arith) 2 u
      (check-with_crc any_frame (double_response slave d) (omega arith) (omega arith) (omega arith))
      (omega arith) refl (omega arith) (omega arith)
    ∙ raw_payload_double whole 9 bytes (omega arith) (omega arith) 2 u 4 refl (omega arith)
        (omega arith)
    ∙ ap (λ (t : ℕ). some (some (signed32 t))) (unfold double_value in omega arith)
  where
    whole : List ℕ
    whole = with_crc (double_response slave d)

    bytes : IsBytes whole
    bytes = omega (arith, crc_of-lt (double_response slave d) (omega arith))

-- From a response with one register, the parser reads its 16 bits as an unsigned number if the value
-- is declared unsigned, and otherwise in two's complement; from a response with two registers, it reads
-- their 32 bits in two's complement, also if the value is declared unsigned.
pub raw_value-response :
    (slave w d : ℕ) (is_unsigned : Bool)
    → slave < 256
    → w < 2 ^ 16
    → d < 2 ^ 32
    → (modbus_parse03_raw_value (some (with_crc (word_response slave w))) 7 1 is_unsigned true
        ≡ some (some (if is_unsigned then pos w else signed16 w)))
      × (modbus_parse03_raw_value (some (with_crc (double_response slave d))) 9 2 is_unsigned true
          ≡ some (some (signed32 d)))
raw_value-response slave w d is_unsigned hs hw hd =
    (word_response_lem slave w is_unsigned hs hw, double_response_lem slave d is_unsigned hs hd)
