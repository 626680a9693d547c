-- ===== src/Crc.antt =====
-- main/Tool/app_crc.c: the checksum of the Modbus frames, by table.
pub mod Table
pub mod Bitwise
pub mod Forward
pub mod Detect
mod Examples
unfoldable use Table.{crc_tbl}
use esp32aging.Base.{
  ℕ, zero, suc, List, [], ◌∷◌, Option, none, some, bit_and, bit_xor, get_or, u16, ◌>>>◌,
}

-- One round of the loop. The index is masked to a byte, so the table is never read out of range.
unfoldable pub crc16_step : ℕ → ℕ → ℕ
crc16_step crc b =
    u16 (bit_xor (bit_and (crc >>> 8) 0xff) (get_or crc_tbl (bit_and (bit_xor crc b) 0xff) 0))

-- The loop with `left` bytes to go; `none` is a read past the end of the buffer.
unfoldable pub crc16_loop : ℕ → List ℕ → ℕ → Option ℕ
crc16_loop zero ptr crc = some crc
crc16_loop (suc left) [] crc = none
crc16_loop (suc left) (b ∷ ptr) crc = crc16_loop left ptr (crc16_step crc b)

-- `Modbus_Crc16Cal`: the length is cut to 16 bits by its assignment to `c2`.
unfoldable pub modbus_crc16 : List ℕ → ℕ → Option ℕ
modbus_crc16 ptr len = crc16_loop (u16 len) ptr 0xffff
