-- ===== src/Modbus/Points.antt =====
-- main/Protocol/ModBus/modbus_cmd.c: the frames of the point protocol, written to a buffer of the
-- caller. `none` is an access outside of a buffer.
pub mod Laws
pub mod Build
use esp32aging.Base.{
  ℕ, zero, suc, ◌+◌, ◌-◌, ◌*◌, ◌/◌, ◌%◌, ◌^◌, ◌≤◌, ◌<◌, bit_and, bit_or, bit_xor, ◌≡◌, refl, sym,
  ap, ap₂, ◌∙◌, subst, ◌≢◌, ◌↔◌, ◌⊎◌, inl, inr, Bool, true, false, not, ◌&&◌, ◌||◌, Option, none,
  some, List, [], ◌∷◌, ◌++◌, map, arith, ltb, leb, ◌==◌, ==_iff, if◌then◌else◌, Bool-cases,
  Option-cases, length, get_elem?, get_or, set, take, drop, replicate, u8, u16, u32, ◌<<<◌, ◌>>>◌,
  ◌>>=◌, fill, dec_lt, dec_le, ℕ_discrete, ℤ, pos, negsuc, signed16, signed32, some_inj, if_cases,
  ltb_ℤ, suc_ℤ, int_max, str_eq, str_eq_iff, is_empty,
}
use esp32aging.Crc.{modbus_crc16}
use esp32aging.Modbus.{low_byte, high_byte}

-- The first bytes of a number, from the lowest, as they lie in memory or are shifted out.
unfoldable pub little_endian : ℕ → ℕ → List ℕ
little_endian zero value = []
little_endian (suc n) value = u8 (bit_and value 0xff) ∷ little_endian n (value >>> 8)

-- The part that the builders share: the bytes, then their checksum, low byte first; the number is
-- the length that is returned.
unfoldable pub build_frame : List ℕ → List ℕ → Option (List ℕ × ℕ)
build_frame out_buf body = do
  filled ← fill out_buf 0 body
  crc ← modbus_crc16 filled (length body)
  whole ← fill filled (length body) (low_byte crc ∷ high_byte crc ∷ [])
  some (whole, length body + 2)

-- `memcpy` of `n` bytes from the string.
unfoldable pub copy_bytes : ℕ → List ℕ → Option (List ℕ)
copy_bytes n str_data = if ltb (length str_data) n then none else some (take n str_data)

-- `Modbus_BuildFrame_PN`
unfoldable pub modbus_build_frame_pn : List ℕ → ℕ → List ℕ → Option (List ℕ × ℕ)
modbus_build_frame_pn str_data long_data out_buf = do
  str ← copy_bytes 12 str_data
  build_frame out_buf (0x01 ∷ 0x03 ∷ 0x14 ∷ str ++ little_endian 8 long_data)

-- `Modbus_BuildFrame_Type`
unfoldable pub modbus_build_frame_type : List ℕ → List ℕ → Option (List ℕ × ℕ)
modbus_build_frame_type str_data out_buf = do
  str ← copy_bytes 12 str_data
  build_frame out_buf (0x01 ∷ 0x03 ∷ 0x0c ∷ str)

-- `Modbus_BuildFrame_SafeCode`
unfoldable pub modbus_build_frame_safe_code : ℕ → List ℕ → Option (List ℕ × ℕ)
modbus_build_frame_safe_code value out_buf =
    build_frame out_buf (0x01 ∷ 0x03 ∷ 0x08 ∷ little_endian 8 value)

-- `Modbus_BuildCmd_0110`
unfoldable pub modbus_build_cmd_0110 : ℕ → List ℕ → Option (List ℕ × ℕ)
modbus_build_cmd_0110 byte4 out_buf =
    build_frame out_buf (0x01 ∷ 0x10 ∷ 0x00 ∷ byte4 ∷ 0x00 ∷ 0x04 ∷ [])

-- The loop of `Modbus_ExtractU64` from byte `i`, with `n` to go.
unfoldable pub extract_loop : ℕ → ℕ → ℕ → List ℕ → Option ℕ
extract_loop zero i value bytes = some value
extract_loop (suc n) i value [] = none
extract_loop (suc n) i value (b ∷ bytes) =
    extract_loop n (i + 1) (bit_or value (b <<< (i * 8))) bytes

-- `Modbus_ExtractU64`, which starts at the eighth byte.
unfoldable pub modbus_extract_u64 : List ℕ → Option ℕ
modbus_extract_u64 buf = extract_loop 8 0 0 (drop 7 buf)
