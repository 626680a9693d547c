-- ===== src/Modbus/Frames.antt =====
-- What the builders of frames produce, and what the check of the checksum accepts and refuses.
use esp32aging.Base.{
  ℕ, zero, suc, ◌+◌, ◌*◌, ◌/◌, ◌%◌, ◌^◌, ◌≤◌, ◌<◌, bit_or, ◌≡◌, refl, ap, ◌∙◌, ◌≢◌, true, some,
  List, [], ◌∷◌, ◌++◌, arith, length, take, drop, replicate, fill, IsBytes, bit_and-byte,
  length-append, take-length-append, length-drop, fill_lem, length-replicate, drop_all, bit_or_comm,
  bit_or_disjoint, get_elem?-append,
}
use esp32aging.Crc.{modbus_crc16}
use esp32aging.Crc.Bitwise.{crc16_bits, modbus_crc16-eq-bits, crc16_bits-lt}
use esp32aging.Modbus.{
  ModbusFrame, modbus_alloc_frame, emit_frame, high_byte, low_byte, modbus_generate03,
  modbus_generate06, modbus_generate10, word_bytes, modbus_check_crc,
}

-- The checksum that the Modbus standard asks for.
abbrev pub crc_of : List ℕ → ℕ
crc_of body = crc16_bits 0xffff body

-- A frame with its checksum, low byte first.
abbrev pub with_crc : List ℕ → List ℕ
with_crc body = body ++ crc_of body % 256 ∷ crc_of body / 256 ∷ []

pub IsBytes-append : (xs ys : List ℕ) → IsBytes xs → IsBytes ys → IsBytes (xs ++ ys)
IsBytes-append [] ys hx hy = hy
IsBytes-append (x ∷ xs) ys hx hy = (hx.0, IsBytes-append xs ys hx.1 hy)

IsBytes-zeros : (n : ℕ) → IsBytes (replicate n 0)
IsBytes-zeros zero = tt
IsBytes-zeros (suc n) = (omega arith, IsBytes-zeros n)

pub IsBytes-drop : (n : ℕ) (xs : List ℕ) → IsBytes xs → IsBytes (drop n xs)
IsBytes-drop zero xs h = h
IsBytes-drop (suc n) [] h = tt
IsBytes-drop (suc n) (x ∷ xs) h = IsBytes-drop n xs h.1

pub crc_of-lt : (body : List ℕ) → IsBytes body → crc_of body < 2 ^ 16
crc_of-lt body hb = crc16_bits-lt body 0xffff (omega arith) hb

-- The checksum of the first bytes of a buffer.
pub modbus_crc16-append :
    (body rest : List ℕ)
    → IsBytes body
    → IsBytes rest
    → length body < 2 ^ 16
    → modbus_crc16 (body ++ rest) (length body) ≡ some (crc_of body)
modbus_crc16-append body rest hb hr h =
    modbus_crc16-eq-bits (body ++ rest) (length body) (IsBytes-append body rest hb hr)
      (omega (arith, length-append body rest)) h
    ∙ ap (λ (t : List ℕ). some (crc_of t)) (take-length-append body rest)

pub low_byte-eq : (w : ℕ) → low_byte w ≡ w % 256
low_byte-eq w = ground (arith, bit_and-byte w)

pub high_byte-eq : (w : ℕ) → w < 2 ^ 16 → high_byte w ≡ w / 256
high_byte-eq w h = ground (arith, bit_and-byte (w / 256))

module _ (out : ModbusFrame) (body : List ℕ) (hb : IsBytes body) (short : length body < 2 ^ 16)
    (long : 2 ≤ length body) where
  room : List ℕ
  room = drop (length body) (replicate (length body + 2) 0)

  length-room : length room ≡ 2
  unfolding room
  length-room = omega (
    arith,
    length-drop {A = ℕ} (length body) (replicate (length body + 2) 0),
    length-replicate {A = ℕ} (length body + 2) 0,
  )

  filled : fill (replicate (length body + 2) 0) 0 body ≡ some (body ++ room)
  unfolding room
  filled =
      fill_lem [] body (replicate (length body + 2) 0)
        (omega (arith, length-replicate {A = ℕ} (length body + 2) 0))

  IsBytes-room : IsBytes room
  unfolding room
  IsBytes-room = IsBytes-drop (length body) _ (IsBytes-zeros (length body + 2))

  summed : modbus_crc16 (body ++ room) (length body) ≡ some (crc_of body)
  summed = modbus_crc16-append body room hb IsBytes-room short

  closed :
      (lo hi : ℕ) → fill (body ++ room) (length body) (lo ∷ hi ∷ []) ≡ some (body ++ lo ∷ hi ∷ [])
  closed lo hi =
      fill_lem body (lo ∷ hi ∷ []) room (omega (arith, length-room))
      ∙ ap (λ (t : List ℕ). some (body ++ lo ∷ hi ∷ t)) (drop_all 2 room length-room)

  -- With a block to hold them, the bytes come out in order, followed by their checksum.
  emit_frame_lem :
      emit_frame true out (length body + 2) body
      ≡ some (true, record { data_ptr = some (with_crc body); len = length body + 2 })
  unfolding emit_frame modbus_alloc_frame
  emit_frame_lem = ground (
    arith,
    filled,
    summed,
    low_byte-eq (crc_of body),
    high_byte-eq (crc_of body) (crc_of-lt body hb),
    closed (crc_of body % 256) (crc_of body / 256),
  )

  -- Such a frame passes the check.
  pub check-with_crc : modbus_check_crc (some (with_crc body)) (length body + 2) ≡ some true
  unfolding modbus_check_crc
  check-with_crc = ground (
    arith,
    modbus_crc16-append body (crc_of body % 256 ∷ crc_of body / 256 ∷ []) hb last_two short,
    get_elem?-append body (crc_of body % 256 ∷ crc_of body / 256 ∷ []) 0,
    get_elem?-append body (crc_of body % 256 ∷ crc_of body / 256 ∷ []) 1,
    joined,
    crc_of-lt body hb,
  )
    where
      last_two : IsBytes (crc_of body % 256 ∷ crc_of body / 256 ∷ [])
      last_two = omega (arith, crc_of-lt body hb)

      joined : bit_or (crc_of body % 256) (crc_of body / 256 * 2 ^ 8) ≡ crc_of body
      joined = omega (
        arith,
        bit_or_comm (crc_of body % 256) (crc_of body / 256 * 2 ^ 8),
        bit_or_disjoint 8 (crc_of body / 256) (crc_of body % 256) (omega arith),
      )

-- The bytes of a request: the slave, the function and two words.
abbrev pub request : ℕ → ℕ → ℕ → ℕ → List ℕ
request slave function a b = slave ∷ function ∷ a / 256 ∷ a % 256 ∷ b / 256 ∷ b % 256 ∷ []

abbrev pub sealed_frame : List ℕ → ModbusFrame
sealed_frame body = record { data_ptr = some (with_crc body); len = length body + 2 }

-- Given its block, a read request for at least one register holds exactly the slave, function 3,
-- the address and the count, high bytes first, and a checksum that the check accepts.
pub modbus_generate03_lem :
    (slave reg_addr quantity : ℕ) (out : ModbusFrame)
    → slave < 256
    → reg_addr < 2 ^ 16
    → quantity < 2 ^ 16
    → quantity ≢ 0
    → let f = sealed_frame (request slave 3 reg_addr quantity) in
      (modbus_generate03 true slave reg_addr quantity (some out) ≡ some (true, some f))
      × (modbus_check_crc f.data_ptr f.len ≡ some true)
unfolding modbus_generate03
modbus_generate03_lem slave reg_addr quantity out hs hr hq ne = (
  ground (
    arith,
    low_byte-eq reg_addr,
    high_byte-eq reg_addr hr,
    low_byte-eq quantity,
    high_byte-eq quantity hq,
    emit_frame_lem out body (omega arith) (omega arith) (omega arith),
  ),
  check-with_crc out body (omega arith) (omega arith) (omega arith),
)
  where
    body : List ℕ
    body = request slave 3 reg_addr quantity

-- Given its block, a write request holds exactly the slave, function 6, the address and the value,
-- high bytes first, and a checksum that the check accepts.
pub modbus_generate06_lem :
    (slave reg_addr value : ℕ) (out : ModbusFrame)
    → slave < 256
    → reg_addr < 2 ^ 16
    → value < 2 ^ 16
    → let f = sealed_frame (request slave 6 reg_addr value) in
      (modbus_generate06 true slave reg_addr value (some out) ≡ some (true, some f))
      × (modbus_check_crc f.data_ptr f.len ≡ some true)
unfolding modbus_generate06
modbus_generate06_lem slave reg_addr value out hs hr hv = (
  ground (
    arith,
    low_byte-eq reg_addr,
    high_byte-eq reg_addr hr,
    low_byte-eq value,
    high_byte-eq value hv,
    emit_frame_lem out body (omega arith) (omega arith) (omega arith),
  ),
  check-with_crc out body (omega arith) (omega arith) (omega arith),
)
  where
    body : List ℕ
    body = request slave 6 reg_addr value

-- The big-endian bytes of a sequence of words.
abbrev pub big_endian : List ℕ → List ℕ
big_endian [] = []
big_endian (w ∷ ws) = w / 256 ∷ w % 256 ∷ big_endian ws

abbrev pub AreWords : List ℕ → Type 0
AreWords [] = Unit {0}
AreWords (w ∷ ws) = (w < 2 ^ 16) × AreWords ws

word_bytes_lem :
    (n : ℕ) (ws : List ℕ)
    → AreWords ws
    → n ≤ length ws
    → word_bytes n ws ≡ some (big_endian (take n ws))
unfolding word_bytes
word_bytes_lem zero ws hw hn = refl
word_bytes_lem (suc n) [] hw hn = absurd (omega arith)
word_bytes_lem (suc n) (w ∷ ws) hw hn =
    rw (word_bytes_lem n ws hw.1 (omega arith), low_byte-eq w, high_byte-eq w hw.0) refl

big_endian-IsBytes : (ws : List ℕ) → AreWords ws → IsBytes (big_endian ws)
big_endian-IsBytes [] h = tt
big_endian-IsBytes (w ∷ ws) h = (omega arith, (omega arith, big_endian-IsBytes ws h.1))

length-big_endian : (ws : List ℕ) → length (big_endian ws) ≡ 2 * length ws
length-big_endian [] = refl
length-big_endian (w ∷ ws) = omega (arith, length-big_endian ws)

AreWords-take : (n : ℕ) (ws : List ℕ) → AreWords ws → AreWords (take n ws)
AreWords-take zero ws h = tt
AreWords-take (suc n) [] h = tt
AreWords-take (suc n) (w ∷ ws) h = (h.0, AreWords-take n ws h.1)

pub length-take : (n : ℕ) (ws : List ℕ) → n ≤ length ws → length (take n ws) ≡ n
length-take zero ws h = refl
length-take (suc n) [] h = absurd (omega arith)
length-take (suc n) (w ∷ ws) h = ap suc (length-take n ws (omega arith))

-- The bytes of a request to write several registers.
abbrev pub write_request : ℕ → ℕ → List ℕ → List ℕ
write_request slave reg_addr ws =
    request slave 0x10 reg_addr (length ws) ++ (2 * length ws) ∷ big_endian ws

-- Given its block, a request to write 1 to 123 registers, whose words are all given, holds the slave, function 16, the address, the count, the
-- count of bytes and the words, high bytes first, and passes the check; nothing is stored outside
-- of the block, and nothing is read behind the words.
pub modbus_generate10_lem :
    (slave reg_addr quantity : ℕ) (words : List ℕ) (out : ModbusFrame)
    → slave < 256
    → reg_addr < 2 ^ 16
    → 0 < quantity
    → quantity ≤ 123
    → quantity ≤ length words
    → AreWords words
    → let f = sealed_frame (write_request slave reg_addr (take quantity words)) in
      (modbus_generate10 true slave reg_addr quantity (some words) (some out) ≡ some (true, some f))
      × (modbus_check_crc f.data_ptr f.len ≡ some true)
unfolding modbus_generate10
modbus_generate10_lem slave reg_addr quantity words out hs hr h0 most hl hw = (
  ground (
    arith,
    word_bytes_lem quantity words hw hl,
    low_byte-eq reg_addr,
    high_byte-eq reg_addr hr,
    low_byte-eq quantity,
    high_byte-eq quantity (omega arith),
    count,
    size,
    emit_frame_lem out body bytes (omega (arith, size)) (omega (arith, size)),
  ),
  check-with_crc out body bytes (omega (arith, size)) (omega (arith, size)),
)
  where
    ws : List ℕ
    ws = take quantity words

    count : length ws ≡ quantity
    count = length-take quantity words hl

    body : List ℕ
    body = write_request slave reg_addr ws

    size : length body ≡ 7 + 2 * quantity
    size = omega (arith, count, length-big_endian ws)

    bytes : IsBytes body
    bytes =
        IsBytes-append (request slave 0x10 reg_addr (length ws)) ((2 * length ws) ∷ big_endian ws)
          (omega (arith, count))
          (omega (arith, count), big_endian-IsBytes ws (AreWords-take quantity words hw))
