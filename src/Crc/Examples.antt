-- ===== src/Crc/Examples.antt =====
-- Checksums of concrete requests.
use esp32aging.Base.{ℕ, ◌≡◌, refl, some, List, [], ◌∷◌, arith, take}
use esp32aging.Crc.{modbus_crc16, crc16_loop, crc16_step, crc_tbl}
use esp32aging.Crc.Bitwise.{crc16_bits, modbus_crc16-eq-bits}
use esp32aging.Crc.Forward.{calcu_crc32}
use esp32aging.Crc.Forward.Bits.{crc32_bits, calcu_crc32-eq-bits}

-- Read one register at 0 of the slave 1.
abbrev read_one : List ℕ
read_one = 1 ∷ 3 ∷ 0 ∷ 0 ∷ 0 ∷ 1 ∷ []

read_one-crc : modbus_crc16 read_one 6 ≡ some 0xa84
unfolding modbus_crc16 crc16_loop crc16_step crc_tbl
read_one-crc = refl

modbus_crc16-eq-bits_example : modbus_crc16 read_one 6 ≡ some (crc16_bits 0xffff (take 6 read_one))
modbus_crc16-eq-bits_example =
    modbus_crc16-eq-bits read_one 6 (omega arith) (omega arith) (omega arith)

calcu_crc32-eq-bits_example :
    calcu_crc32 0xffffffff (1 ∷ 2 ∷ 3 ∷ []) 3 ≡ some (crc32_bits 0xffffffff (1 ∷ 2 ∷ 3 ∷ []))
calcu_crc32-eq-bits_example =
    calcu_crc32-eq-bits 0xffffffff (1 ∷ 2 ∷ 3 ∷ []) 3 (omega arith) (omega arith) (omega arith)
