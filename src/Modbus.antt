-- ===== src/Modbus.antt =====
-- main/Protocol/ModBus/modbus_cmd.c: building and checking Modbus frames. The heap behind
-- `app_malloc_prefer_psram` is the argument `granted`: whether it gives the block. `none` as a
-- result is an access outside of a buffer; `none` as a pointer is NULL.
pub mod Frames
pub mod Detect
mod Examples
pub mod Parse
pub mod Points
use esp32aging.Base.{
  ℕ, zero, suc, ◌+◌, ◌-◌, ◌*◌, ◌/◌, ◌%◌, ◌^◌, ◌≤◌, ◌<◌, bit_and, bit_or, bit_xor, ◌≡◌, refl, sym,
  ap, ap₂, ◌∙◌, subst, ◌≢◌, ◌↔◌, ◌⊎◌, inl, inr, Bool, true, false, not, ◌&&◌, ◌||◌, Option, none,
  some, List, [], ◌∷◌, ◌++◌, map, arith, ltb, leb, ◌==◌, ==_iff, if◌then◌else◌, Bool-cases,
  Option-cases, length, get_elem?, get_or, set, take, drop, replicate, u8, u16, u32, ◌<<<◌, ◌>>>◌,
  ◌>>=◌, fill, ℤ, pos, negsuc, signed16, signed32,
}
use esp32aging.Crc.{modbus_crc16}

pub record ModbusFrame : Type 0 where
  pub data_ptr : Option (List ℕ)
  pub len : ℕ

-- `modbus_alloc_frame`, whose callers have checked `out_frame`.
pub modbus_alloc_frame : Bool → ModbusFrame → ℕ → Bool × ModbusFrame
modbus_alloc_frame granted out len =
    if len == 0
    then (false, out)
    else if granted
    then (true, record { data_ptr = some (replicate len 0); len = len })
    else (false, record { data_ptr = none; len = 0 })

-- The high and the low byte of a word, as each builder takes them.
abbrev pub high_byte : ℕ → ℕ
high_byte w = u8 (bit_and (w >>> 8) 0xff)

abbrev pub low_byte : ℕ → ℕ
low_byte w = u8 (bit_and w 0xff)

-- The part that the builders share: take a block, store the bytes, then their checksum, low byte
-- first.
pub emit_frame : Bool → ModbusFrame → ℕ → List ℕ → Option (Bool × ModbusFrame)
emit_frame granted out len body =
    let (done, f) = modbus_alloc_frame granted out len in
    if done
    then (do
      buf ← f.data_ptr
      filled ← fill buf 0 body
      crc ← modbus_crc16 filled (length body)
      whole ← fill filled (length body) (low_byte crc ∷ high_byte crc ∷ [])
      some (true, record f { data_ptr = some whole }))
    else some (false, f)

-- The result of a builder: its flag, and what `out_frame` points to.
abbrev pub Built : Type 0
Built = Option (Bool × Option ModbusFrame)

abbrev built : Option (Bool × ModbusFrame) → Built
built m = m >>= λ r. some (r.0, some r.1)

pub modbus_generate03 : Bool → ℕ → ℕ → ℕ → Option ModbusFrame → Built
modbus_generate03 granted slave reg_addr quantity none = some (false, none)
modbus_generate03 granted slave reg_addr quantity (some out) =
    if quantity == 0
    then some (false, some out)
    else built (
        emit_frame granted out 8 (
          slave
          ∷ 0x03
          ∷ high_byte reg_addr
          ∷ low_byte reg_addr
          ∷ high_byte quantity
          ∷ low_byte quantity
          ∷ []))

pub modbus_generate06 : Bool → ℕ → ℕ → ℕ → Option ModbusFrame → Built
modbus_generate06 granted slave reg_addr value none = some (false, none)
modbus_generate06 granted slave reg_addr value (some out) = built (
    emit_frame granted out 8 (
      slave
      ∷ 0x06
      ∷ high_byte reg_addr
      ∷ low_byte reg_addr
      ∷ high_byte value
      ∷ low_byte value
      ∷ []))

-- The loop over the registers to write, high byte first.
pub word_bytes : ℕ → List ℕ → Option (List ℕ)
word_bytes zero words = some []
word_bytes (suc left) [] = none
word_bytes (suc left) (w ∷ words) = do
  rest ← word_bytes left words
  some (high_byte w ∷ low_byte w ∷ rest)

pub modbus_generate10 : Bool → ℕ → ℕ → ℕ → Option (List ℕ) → Option ModbusFrame → Built
modbus_generate10 granted slave reg_addr quantity words none = some (false, none)
modbus_generate10 granted slave reg_addr quantity none (some out) = some (false, some out)
modbus_generate10 granted slave reg_addr quantity (some words) (some out) =
    if quantity == 0
    then some (false, some out)
    else if ltb 123 quantity
    then some (false, some out)
    else if not granted
    then built (emit_frame false out (9 + quantity * 2) [])
    else (do
      payload ← word_bytes quantity words
      built (
          emit_frame granted out (9 + quantity * 2) (
            slave
            ∷ 0x10
            ∷ high_byte reg_addr
            ∷ low_byte reg_addr
            ∷ high_byte quantity
            ∷ low_byte quantity
            ∷ u8 (quantity * 2)
            ∷ payload)))

pub modbus_free_frame : Option ModbusFrame → Option ModbusFrame
modbus_free_frame none = none
modbus_free_frame (some f) = some (record { data_ptr = none; len = 0 })

-- `Modbus_CheckCrc` on the bytes from `frame` on.
pub modbus_check_crc : Option (List ℕ) → ℕ → Option Bool
modbus_check_crc none len = some false
modbus_check_crc (some frame) len = if ltb len 4 then some false else (do
  crc_calc ← modbus_crc16 frame (len - 2)
  lo ← get_elem? frame (len - 2)
  hi ← get_elem? frame (len - 1)
  some (crc_calc == u16 (bit_or lo (hi <<< 8))))
