-- ===== src/Modbus/Parse/Laws.antt =====
-- The parsers of responses: they stay inside of the response, agree with one another, and read
-- back what a device encodes.
use esp32aging.Base.{
  ℕ, ◌+◌, ◌-◌, ◌*◌, ◌/◌, ◌^◌, ◌≤◌, ◌<◌, bit_and, bit_or, ◌≡◌, refl, ap, ◌≢◌, ◌⊎◌, Bool, true, false,
  ◌&&◌, none, some, List, arith, leb, ◌==◌, if◌then◌else◌, length, get_elem?, get_or, take, ℤ, pos,
  signed16, signed32, bit_or_disjoint, bit_or_comm, IsBytes, bit_and-bit15, get_elem?-eq-get_or,
}
use esp32aging.Modbus.{modbus_check_crc}
use esp32aging.Modbus.Frames.{crc_of}
use esp32aging.Modbus.Detect.{modbus_check_crc_lem, received, get_or-lt}
use esp32aging.Modbus.Parse.{
  Parsed, sign_extend, join16, join32, parse03_header, parse03_word, parse03_double, raw_payload,
  simple_payload, modbus_parse03_raw_value, modbus_parse03_response_simple, parse03_function,
}

join16_lem : (hi lo : ℕ) → lo < 256 → join16 hi lo ≡ hi * 256 + lo
join16_lem hi lo h = bit_or_disjoint 8 hi lo h

join32_lem :
    (a b c d : ℕ)
    → b < 256
    → c < 256
    → d < 256
    → join32 a b c d ≡ a * 2 ^ 24 + b * 2 ^ 16 + c * 2 ^ 8 + d
join32_lem a b c d hb hc hd =
    rw
      (
        bit_or_disjoint 24 a (b * 2 ^ 16) (omega arith),
        regroup16,
        bit_or_disjoint 16 (a * 2 ^ 8 + b) (c * 2 ^ 8) (omega arith),
        regroup8,
        bit_or_disjoint 8 ((a * 2 ^ 8 + b) * 2 ^ 8 + c) d (omega arith),
      )
      (omega arith)
  where
    regroup16 : a * 2 ^ 24 + b * 2 ^ 16 ≡ (a * 2 ^ 8 + b) * 2 ^ 16
    regroup16 = omega arith

    regroup8 : (a * 2 ^ 8 + b) * 2 ^ 16 + c * 2 ^ 8 ≡ ((a * 2 ^ 8 + b) * 2 ^ 8 + c) * 2 ^ 8
    regroup8 = omega arith

-- Extending the sign of a 16-bit pattern gives the number that it stands for.
sign_extend_lem : (w : ℕ) → w < 2 ^ 16 → sign_extend w 16 ≡ signed16 w
unfolding sign_extend
sign_extend_lem w h = ground (arith, bit_and-bit15 w, extended)
  where
    extended : bit_or w 0xffff0000 ≡ 0xffff0000 + w
    extended = omega (arith, bit_or_comm w 0xffff0000, bit_or_disjoint 16 0xffff w h)

sign_extend32 : (w : ℕ) → sign_extend w 32 ≡ signed32 w
unfolding sign_extend
sign_extend32 w = refl

module _ (response : List ℕ) (len : ℕ) (hb : IsBytes response) (fits : len ≤ length response)
    (hw : len < 2 ^ 16) where
  at_index : (i : ℕ) → i < len → get_elem? response i ≡ some (get_or response i 0)
  at_index i h = get_elem?-eq-get_or response i 0 (omega arith)

  -- The conditions on a frame that both parsers go on with.
  accepts : Bool
  accepts =
      (crc_of (take (len - 2) response) == received response len)
      && (bit_and (get_or response 1 0) 0x80 == 0)
      && (get_or response 1 0 == 3)
      && leb (3 + get_or response 2 0 + 2) len

  accepts-fits : accepts ≡ true → 3 + get_or response 2 0 + 2 ≤ len
  unfolding accepts
  accepts-fits h = ground arith

  header_lem :
      (keep : ℕ → Parsed)
      → 5 ≤ len
      → parse03_header response len keep
        ≡ (if accepts then keep (get_or response 2 0) else some none)
  unfolding parse03_header parse03_function accepts
  header_lem keep h = ground (
    arith,
    modbus_check_crc_lem response len hb fits hw (omega arith),
    at_index 1 (omega arith),
    at_index 2 (omega arith),
  )

  -- The words that the two parsers read, in big-endian order.
  unfoldable pub word_value : ℕ
  word_value = get_or response 3 0 * 256 + get_or response 4 0

  unfoldable pub double_value : ℕ
  double_value =
      get_or response 3 0 * 2 ^ 24
      + get_or response 4 0 * 2 ^ 16
      + get_or response 5 0 * 2 ^ 8
      + get_or response 6 0

  word_value-lt : word_value < 2 ^ 16
  unfolding word_value
  word_value-lt = omega (arith, get_or-lt response 3 hb, get_or-lt response 4 hb)

  word_lem : (read : ℕ → ℤ) → 5 ≤ len → parse03_word response read ≡ some (some (read word_value))
  unfolding parse03_word word_value
  word_lem read h =
      rw (at_index 3 (omega arith), at_index 4 (omega arith))
        (ap (λ (t : ℕ). some (some (read t))) (join16_lem _ _ (get_or-lt response 4 hb)))

  double_lem :
      (read : ℕ → ℤ) → 7 ≤ len → parse03_double response read ≡ some (some (read double_value))
  unfolding parse03_double double_value
  double_lem read h =
      rw
        (
          at_index 3 (omega arith),
          at_index 4 (omega arith),
          at_index 5 (omega arith),
          at_index 6 (omega arith),
        )
        (ap (λ (t : ℕ). some (some (read t)))
          (join32_lem _ _ _ _ (get_or-lt response 4 hb) (get_or-lt response 5 hb)
            (get_or-lt response 6 hb)))

  read16_lem :
      (u : Bool) (w : ℕ)
      → w < 2 ^ 16
      → (if u then signed32 w else sign_extend w 16) ≡ (if u then pos w else signed16 w)
  read16_lem true w h = ground arith
  read16_lem false w h = sign_extend_lem w h

  read32_lem : (u : Bool) (w : ℕ) → (if u then signed32 w else sign_extend w 32) ≡ signed32 w
  read32_lem true w = refl
  read32_lem false w = sign_extend32 w

  -- What the data bytes of an accepted frame are read as.
  raw_payload_lem :
      (n : ℕ) (u : Bool) (count : ℕ)
      → 3 + count + 2 ≤ len
      → ((n ≡ 1)
          × (raw_payload response n u count
              ≡ some (some (if u then pos word_value else signed16 word_value))))
        ⊎ ((n ≡ 2) × (raw_payload response n u count ≡ some (some (signed32 double_value))))
        ⊎ (raw_payload response n u count ≡ some none)
  unfolding raw_payload
  raw_payload_lem n u count h = ground (
    arith,
    word_lem (λ raw16. if u then signed32 raw16 else sign_extend raw16 16),
    double_lem (λ raw32. if u then signed32 raw32 else sign_extend raw32 32),
    read16_lem u word_value word_value-lt,
    read32_lem u double_value,
  )

  -- The same by their count.
  simple_payload_lem :
      (count : ℕ)
      → 3 + count + 2 ≤ len
      → ((count ≡ 2) × (simple_payload response count ≡ some (some (signed16 word_value))))
        ⊎ ((count ≡ 4) × (simple_payload response count ≡ some (some (signed32 double_value))))
        ⊎ (simple_payload response count ≡ some none)
  unfolding simple_payload
  simple_payload_lem count h = ground (arith, word_lem signed16, double_lem signed32)

  pub raw_payload_word :
      (n : ℕ) (u : Bool) (count : ℕ)
      → n ≡ 1
      → 5 ≤ len
      → 2 ≤ count
      → raw_payload response n u count
        ≡ some (some (if u then pos word_value else signed16 word_value))
  unfolding raw_payload
  raw_payload_word n u count e h hc = ground (
    arith,
    word_lem (λ raw16. if u then signed32 raw16 else sign_extend raw16 16),
    read16_lem u word_value word_value-lt,
  )

  pub raw_payload_double :
      (n : ℕ) (u : Bool) (count : ℕ)
      → n ≡ 2
      → 7 ≤ len
      → 4 ≤ count
      → raw_payload response n u count ≡ some (some (signed32 double_value))
  unfolding raw_payload
  raw_payload_double n u count e h hc = ground (
    arith,
    double_lem (λ raw32. if u then signed32 raw32 else sign_extend raw32 32),
    read32_lem u double_value,
  )

  -- A frame that passes the check, with function 3 and room for its count, is gone on with.
  accepts_lem :
      modbus_check_crc (some response) len ≡ some true
      → 5 ≤ len
      → get_or response 1 0 ≡ 3
      → 3 + get_or response 2 0 + 2 ≤ len
      → accepts ≡ true
  unfolding accepts
  accepts_lem ok h f r = ground (
    arith,
    modbus_check_crc_lem response len hb fits hw (omega arith),
    ap (λ (t : ℕ). bit_and t 0x80) f,
  )

  pub raw_value_accepted :
      (n : ℕ) (u : Bool)
      → modbus_check_crc (some response) len ≡ some true
      → 5 ≤ len
      → get_or response 1 0 ≡ 3
      → 3 + get_or response 2 0 + 2 ≤ len
      → n ≢ 0
      → modbus_parse03_raw_value (some response) len n u true
        ≡ raw_payload response n u (get_or response 2 0)
  unfolding modbus_parse03_raw_value
  raw_value_accepted n u ok h f r ne =
      ground (arith, header_lem (raw_payload response n u), accepts_lem ok h f r)

  raw_value_no_fault :
      (n : ℕ) (u o : Bool) → modbus_parse03_raw_value (some response) len n u o ≢ none
  unfolding modbus_parse03_raw_value
  raw_value_no_fault n u o = ground (
    arith,
    header_lem (raw_payload response n u),
    accepts-fits,
    raw_payload_lem n u (get_or response 2 0),
  )

  simple_no_fault : (o : Bool) → modbus_parse03_response_simple (some response) len o ≢ none
  unfolding modbus_parse03_response_simple
  simple_no_fault o = ground (
    arith,
    header_lem (simple_payload response),
    accepts-fits,
    simple_payload_lem (get_or response 2 0),
  )

-- No response of fewer than 2^16 bytes, whatever they are, makes a parser read outside of it.
pub modbus_parse03_no_fault :
    (response : List ℕ) (len reg_len : ℕ) (is_unsigned has_out : Bool)
    → IsBytes response
    → len ≤ length response
    → len < 2 ^ 16
    → (modbus_parse03_raw_value (some response) len reg_len is_unsigned has_out ≢ none)
      × (modbus_parse03_response_simple (some response) len has_out ≢ none)
modbus_parse03_no_fault response len reg_len is_unsigned has_out hb fits hw = (
  raw_value_no_fault response len hb fits hw reg_len is_unsigned has_out,
  simple_no_fault response len hb fits hw has_out,
)

-- Where the parser that takes the count of registers from the response, of fewer than 2^16 bytes,
-- returns a value, the one that is told the count returns the same for that count, as a signed number.
pub simple-eq-raw_value :
    (response : List ℕ) (len : ℕ) (has_out : Bool) (v : ℤ)
    → IsBytes response
    → len ≤ length response
    → len < 2 ^ 16
    → modbus_parse03_response_simple (some response) len has_out ≡ some (some v)
    → let n = get_or response 2 0 / 2 in
      (modbus_parse03_raw_value (some response) len n false has_out ≡ some (some v))
      × ((n ≡ 1) ⊎ (n ≡ 2))
unfolding modbus_parse03_raw_value modbus_parse03_response_simple
simple-eq-raw_value response len has_out v hb fits hw h = ground (
  arith,
  header_lem response len hb fits hw (simple_payload response),
  header_lem response len hb fits hw (raw_payload response (get_or response 2 0 / 2) false),
  accepts-fits response len hb fits hw,
  simple_payload_lem response len hb fits hw (get_or response 2 0),
  raw_payload_word response len hb fits hw (get_or response 2 0 / 2) false (get_or response 2 0),
  raw_payload_double response len hb fits hw (get_or response 2 0 / 2) false (get_or response 2 0),
)
