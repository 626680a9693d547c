-- ===== src/Modbus/Parse.antt =====
-- main/Protocol/ModBus/modbus_cmd.c: reading the value out of a response. A result `none` is a read
-- outside of the response, `some none` the return of false, and `some (some v)` the return of true
-- with `v` stored through `out_raw_value`.
pub mod Laws
pub mod RoundTrip
use esp32aging.Base.{
  ℕ, zero, suc, ◌+◌, ◌-◌, ◌*◌, ◌/◌, ◌%◌, ◌^◌, ◌≤◌, ◌<◌, bit_and, bit_or, bit_xor, ◌≡◌, refl, sym,
  ap, ap₂, ◌∙◌, subst, ◌≢◌, ◌↔◌, ◌⊎◌, inl, inr, Bool, true, false, not, ◌&&◌, ◌||◌, Option, none,
  some, List, [], ◌∷◌, ◌++◌, map, arith, ltb, leb, ◌==◌, ==_iff, if◌then◌else◌, Bool-cases,
  Option-cases, length, get_elem?, get_or, set, take, drop, replicate, u8, u16, u32, ◌<<<◌, ◌>>>◌,
  ◌>>=◌, fill, dec_lt, dec_le, ℕ_discrete, ℤ, pos, negsuc, signed16, signed32,
}
use esp32aging.Modbus.{modbus_check_crc}

abbrev pub Parsed : Type 0
Parsed = Option (Option ℤ)

-- `sign_extend`
pub sign_extend : ℕ → ℕ → ℤ
sign_extend value bits =
    if bits == 16
    then (if bit_and value 0x8000 == 0 then signed32 value else signed32 (bit_or value 0xffff0000))
    else signed32 value

abbrev pub join16 : ℕ → ℕ → ℕ
join16 hi lo = bit_or (hi <<< 8) lo

-- The four shifted bytes of a big-endian word.
abbrev pub join32 : ℕ → ℕ → ℕ → ℕ → ℕ
join32 a b c d = bit_or (bit_or (bit_or (a <<< 24) (b <<< 16)) (c <<< 8)) d

-- The function code and the count of bytes, in an accepted frame.
unfoldable pub parse03_function : List ℕ → ℕ → (ℕ → Parsed) → Parsed
parse03_function response response_len keep = do
  func ← get_elem? response 1
  byte_count ← get_elem? response 2
  if not (bit_and func 0x80 == 0)
      then some none
      else if not (func == 0x03)
      then some none
      else if ltb response_len (3 + byte_count + 2)
      then some none
      else keep byte_count

-- The part of both parsers that looks at the frame: `keep` goes on with the count of data bytes.
unfoldable pub parse03_header : List ℕ → ℕ → (ℕ → Parsed) → Parsed
parse03_header response response_len keep = do
  accepted ← modbus_check_crc (some response) response_len
  if not accepted then some none else parse03_function response response_len keep

unfoldable pub parse03_word : List ℕ → (ℕ → ℤ) → Parsed
parse03_word response read = do
  hi ← get_elem? response 3
  lo ← get_elem? response 4
  some (some (read (join16 hi lo)))

unfoldable pub parse03_double : List ℕ → (ℕ → ℤ) → Parsed
parse03_double response read = do
  a ← get_elem? response 3
  b ← get_elem? response 4
  c ← get_elem? response 5
  d ← get_elem? response 6
  some (some (read (join32 a b c d)))

-- The value of the data bytes, by the number of registers that the caller asks for.
pub raw_payload : List ℕ → ℕ → Bool → ℕ → Parsed
raw_payload response reg_len is_unsigned byte_count =
    if ltb byte_count (reg_len * 2)
    then some none
    else if reg_len == 1
    then parse03_word response
        (λ raw16. if is_unsigned then signed32 raw16 else sign_extend raw16 16)
    else if reg_len == 2
    then parse03_double response
        (λ raw32. if is_unsigned then signed32 raw32 else sign_extend raw32 32)
    else some none

-- `Modbus_Parse03RawValue`; `has_out` is whether `out_raw_value` is not NULL.
pub modbus_parse03_raw_value : Option (List ℕ) → ℕ → ℕ → Bool → Bool → Parsed
modbus_parse03_raw_value none response_len reg_len is_unsigned has_out = some none
modbus_parse03_raw_value (some response) response_len reg_len is_unsigned has_out =
    if not has_out || reg_len == 0
    then some none
    else if ltb response_len 5
    then some none
    else parse03_header response response_len (raw_payload response reg_len is_unsigned)

-- The value of the data bytes, by their count.
unfoldable pub simple_payload : List ℕ → ℕ → Parsed
simple_payload response byte_count =
    if byte_count / 2 == 0 || not (byte_count % 2 == 0)
    then some none
    else if byte_count / 2 == 1
    then parse03_word response signed16
    else if byte_count / 2 == 2
    then parse03_double response signed32
    else some none

-- `Modbus_Parse03Response_Simple`
unfoldable pub modbus_parse03_response_simple : Option (List ℕ) → ℕ → Bool → Parsed
modbus_parse03_response_simple none response_len has_out = some none
modbus_parse03_response_simple (some response) response_len has_out =
    if not has_out || ltb response_len 5
    then some none
    else parse03_header response response_len (simple_payload response)
