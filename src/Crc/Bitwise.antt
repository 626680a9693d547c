-- ===== src/Crc/Bitwise.antt =====
-- The checksum as the polynomial division that the table stands for, one bit at a time.
use esp32aging.Base.{
  ℕ, zero, suc, ◌+◌, ◌*◌, ◌/◌, ◌%◌, ◌^◌, ◌≤◌, ◌<◌, bit_xor, ◌≡◌, refl, sym, ap, ap₂, ◌∙◌, true,
  some, List, [], ◌∷◌, arith, ◌==◌, ==_iff, if◌then◌else◌, length, get_or, take, holds_below,
  holds_below_sound, bit_xor-half, bit_xor-lt, bit_xor_disjoint, bit_xor-high, bit_and-byte,
  IsBytes, bit_xor-parity, bit_xor-zero, bit_xor_assoc,
}
use native.Mathlib.Nat.{mod-eq_of_lt}
use esp32aging.Crc.Table.{crc_tbl}
use esp32aging.Crc.{crc16_step, crc16_loop, modbus_crc16}

-- One bit of the division by the reflected polynomial 0xA001.
pub bit_step : ℕ → ℕ
bit_step crc = if crc % 2 == 1 then bit_xor (crc / 2) 0xa001 else crc / 2

-- Eight of them.
abbrev pub byte_steps : ℕ → ℕ
byte_steps x =
    bit_step (bit_step (bit_step (bit_step (bit_step (bit_step (bit_step (bit_step x)))))))

-- The checksum of a sequence of bytes.
pub crc16_bits : ℕ → List ℕ → ℕ
crc16_bits crc [] = crc
crc16_bits crc (b ∷ bs) = crc16_bits (byte_steps (bit_xor crc b)) bs

table_rows : holds_below 256 (λ i. get_or crc_tbl i 0 == byte_steps i) ≡ true
unfolding crc_tbl bit_step
table_rows = refl

-- Row i of the table is what eight steps make of i.
pub crc_tbl-eq-byte_steps : (i : ℕ) → i < 256 → get_or crc_tbl i 0 ≡ byte_steps i
crc_tbl-eq-byte_steps i h =
    (==_iff _ _).0 (holds_below_sound 256 (λ i. get_or crc_tbl i 0 == byte_steps i) i table_rows h)

-- A step only looks at the lowest digit, so an even part passes through it as its half.
bit_step-xor : (h l : ℕ) → bit_step (bit_xor (h * 2) l) ≡ bit_xor h (bit_step l)
unfolding bit_step
bit_step-xor h l = ground (
  arith,
  bit_xor-half (h * 2) l,
  bit_xor-parity (h * 2) l,
  bit_xor_assoc h (l / 2) 0xa001,
  ap (λ (t : ℕ). bit_xor t (l / 2)) (halved h),
)
  where
    halved : (x : ℕ) → x * 2 / 2 ≡ x
    halved x = omega arith

-- So eight steps divide the high part by 256 and leave it as it is.
byte_steps-xor :
    (h l : ℕ)
    → byte_steps (bit_xor (h * 2 * 2 * 2 * 2 * 2 * 2 * 2 * 2) l) ≡ bit_xor h (byte_steps l)
byte_steps-xor h l = simp bit_step-xor

bit_step-lt : (x : ℕ) → x < 2 ^ 16 → bit_step x < 2 ^ 16
unfolding bit_step
bit_step-lt x h = ground (arith, bit_xor-lt 16 (x / 2) 0xa001 (omega arith) (omega arith))

pub byte_steps-lt : (x : ℕ) → x < 2 ^ 16 → byte_steps x < 2 ^ 16
byte_steps-lt x h = search (bit_step-lt, h) depth 9

byte_steps_split : (x : ℕ) → byte_steps x ≡ bit_xor (x / 256) (byte_steps (x % 256))
byte_steps_split x = ap byte_steps (split x) ∙ byte_steps-xor (x / 256) (x % 256)
  where
    doubled : (h l : ℕ) → l < 256 → bit_xor (h * 2 * 2 * 2 * 2 * 2 * 2 * 2 * 2) l ≡ h * 256 + l
    doubled h l p = ap (λ (t : ℕ). bit_xor t l) (omega arith) ∙ bit_xor_disjoint 8 h l p

    split : (y : ℕ) → y ≡ bit_xor (y / 256 * 2 * 2 * 2 * 2 * 2 * 2 * 2 * 2) (y % 256)
    split y = omega (arith, doubled (y / 256) (y % 256) (omega arith))

-- The high byte of the register is not touched by a data byte.
pub bit_xor-data_high : (crc b : ℕ) → b < 256 → bit_xor crc b / 256 ≡ crc / 256
bit_xor-data_high crc b h =
    bit_xor-high crc b ∙ ap (bit_xor (crc / 256)) (omega arith) ∙ bit_xor-zero (crc / 256)

-- The round in plain arithmetic.
pub crc16_step_lem :
    (crc b : ℕ)
    → crc < 2 ^ 16
    → b < 256
    → crc16_step crc b ≡ bit_xor (crc / 256) (get_or crc_tbl (bit_xor crc b % 256) 0)
unfolding crc16_step
crc16_step_lem crc b hc hb = ground (
  arith,
  bit_and-byte (crc / 256),
  bit_and-byte (bit_xor crc b),
  crc_tbl-eq-byte_steps (bit_xor crc b % 256),
  byte_steps-lt (bit_xor crc b % 256),
  bit_xor-lt 16 (crc / 256) (byte_steps (bit_xor crc b % 256)),
)

-- One lookup does what eight bit steps do.
pub crc16_step-eq-byte_steps :
    (crc b : ℕ) → crc < 2 ^ 16 → b < 256 → crc16_step crc b ≡ byte_steps (bit_xor crc b)
crc16_step-eq-byte_steps crc b hc hb =
    crc16_step_lem crc b hc hb
    ∙ ap₂ bit_xor (sym (bit_xor-data_high crc b hb))
        (crc_tbl-eq-byte_steps (bit_xor crc b % 256) (omega arith))
    ∙ sym (byte_steps_split (bit_xor crc b))

-- Every register value stays within 16 bits.
pub crc16_step-lt : (crc b : ℕ) → crc16_step crc b < 2 ^ 16
unfolding crc16_step
crc16_step-lt crc b = omega arith

crc16_loop-eq-bits :
    (n : ℕ) (buf : List ℕ) (crc : ℕ)
    → crc < 2 ^ 16
    → IsBytes buf
    → n ≤ length buf
    → crc16_loop n buf crc ≡ some (crc16_bits crc (take n buf))
unfolding crc16_loop crc16_bits
crc16_loop-eq-bits zero buf crc h hb hn = refl
crc16_loop-eq-bits (suc n) [] crc h hb hn = absurd (omega arith)
crc16_loop-eq-bits (suc n) (b ∷ buf) crc h hb hn =
    crc16_loop-eq-bits n buf (crc16_step crc b) (crc16_step-lt crc b) hb.1 (omega arith)
    ∙ ap (λ (c : ℕ). some (crc16_bits c (take n buf))) (crc16_step-eq-byte_steps crc b h hb.0)

-- The checksum by table is the division of the first `len` bytes by the reflected polynomial
-- 0xA001, from the register 0xffff, whenever these bytes lie in the buffer and `len` fits 16 bits.
pub modbus_crc16-eq-bits :
    (buf : List ℕ) (len : ℕ)
    → IsBytes buf
    → len ≤ length buf
    → len < 2 ^ 16
    → modbus_crc16 buf len ≡ some (crc16_bits 0xffff (take len buf))
unfolding modbus_crc16
modbus_crc16-eq-bits buf len hb hl hw =
    rw (mod-eq_of_lt hw) (crc16_loop-eq-bits len buf 0xffff (omega arith) hb hl)

bit_step-byte-lt : (c b : ℕ) → c < 2 ^ 16 → b < 256 → bit_xor c b < 2 ^ 16
bit_step-byte-lt c b hc hb = bit_xor-lt 16 c b hc (omega arith)

pub crc16_bits-lt : (bs : List ℕ) (c : ℕ) → c < 2 ^ 16 → IsBytes bs → crc16_bits c bs < 2 ^ 16
unfolding crc16_bits
crc16_bits-lt [] c h hb = h
crc16_bits-lt (b ∷ bs) c h hb =
    crc16_bits-lt bs _ (byte_steps-lt (bit_xor c b) (bit_step-byte-lt c b h hb.0)) hb.1
