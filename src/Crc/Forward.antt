-- ===== src/Crc/Forward.antt =====
-- main/Tool/app_crc.c: the two checksums that run from the highest bit, by table.
mod Tables
pub mod Laws
pub mod Bits
use esp32aging.Base.{
  ℕ, zero, suc, ◌+◌, ◌-◌, ◌*◌, ◌/◌, ◌%◌, ◌^◌, ◌≤◌, ◌<◌, bit_and, bit_or, bit_xor, ◌≡◌, refl, sym,
  ap, ap₂, ◌∙◌, subst, ◌≢◌, ◌↔◌, ◌⊎◌, inl, inr, Bool, true, false, not, ◌&&◌, ◌||◌, Option, none,
  some, List, [], ◌∷◌, ◌++◌, map, arith, ltb, leb, ◌==◌, ==_iff, if◌then◌else◌, Bool-cases,
  Option-cases, length, get_elem?, get_or, set, take, drop, replicate, u8, u16, u32, ◌<<<◌, ◌>>>◌,
  ◌>>=◌, fill, dec_lt, dec_le, ℕ_discrete, ℤ, pos, negsuc, signed16, signed32, some_inj, if_cases,
  ltb_ℤ, suc_ℤ, int_max, str_eq, str_eq_iff, is_empty,
}
unfoldable use Tables.{xm_crc_tbl, crc32_mpeg2_table}

-- One round of the loop of `Xmodem_Crc16Cal`.
unfoldable pub xmodem_step : ℕ → ℕ → ℕ
xmodem_step crc b =
    u16 (bit_xor (u16 (crc <<< 8)) (get_or xm_crc_tbl (bit_and (bit_xor (crc >>> 8) b) 0xff) 0))

-- The loops with `left` bytes to go; `none` is a read past the end of the buffer.
unfoldable pub xmodem_loop : ℕ → List ℕ → ℕ → Option ℕ
xmodem_loop zero ptr crc = some crc
xmodem_loop (suc left) [] crc = none
xmodem_loop (suc left) (b ∷ ptr) crc = xmodem_loop left ptr (xmodem_step crc b)

-- `Xmodem_Crc16Cal`
unfoldable pub xmodem_crc16_cal : List ℕ → ℕ → Option ℕ
xmodem_crc16_cal ptr len = xmodem_loop len ptr 0

-- One round of the loop of `calcu_crc32`.
unfoldable pub crc32_step : ℕ → ℕ → ℕ
crc32_step crc b =
    bit_xor (get_or crc32_mpeg2_table (bit_and (bit_xor (crc >>> 24) b) 0xff) 0) (u32 (crc <<< 8))

unfoldable pub crc32_loop : ℕ → List ℕ → ℕ → Option ℕ
crc32_loop zero data_ptr crc = some crc
crc32_loop (suc left) [] crc = none
crc32_loop (suc left) (b ∷ data_ptr) crc = crc32_loop left data_ptr (crc32_step crc b)

-- `calcu_crc32`
unfoldable pub calcu_crc32 : ℕ → List ℕ → ℕ → Option ℕ
calcu_crc32 icrc data_ptr len = crc32_loop len data_ptr icrc >>= λ crc. some (bit_xor crc 0)
