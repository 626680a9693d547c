-- ===== src/Crc/Forward/Bits.antt =====
-- The 32-bit checksum as the polynomial division that the table stands for, one bit at a time.
use esp32aging.Base.{
  ℕ, zero, suc, ◌+◌, ◌*◌, ◌/◌, ◌%◌, ◌^◌, ◌≤◌, ◌<◌, bit_xor, bit_and, ◌≡◌, refl, sym, ap, ap₂, ◌∙◌,
  true, false, ◌-◌, some, List, [], ◌∷◌, arith, ltb, ◌==◌, ==_iff, if◌then◌else◌, length, get_or,
  take, ◌<<<◌, ◌>>>◌, u32, holds_below, holds_below_sound, bit_xor-zero, bit_xor_assoc,
  bit_xor_comm, bit_xor_disjoint, bit_xor-lt, bit_xor_step, bit_and-byte, IsBytes, dec_lt,
}
use native.Mathlib.Nat.{pow-suc}
use esp32aging.Crc.Forward.Tables.{crc32_mpeg2_table}
use esp32aging.Crc.Forward.{crc32_step, crc32_loop, calcu_crc32}

-- One bit of the division by the polynomial 0x04C11DB7, from the highest bit.
pub divide_bit : ℕ → ℕ
divide_bit x = if ltb x (2 ^ 31) then x * 2 else bit_xor (x * 2 - 2 ^ 32) 0x04c11db7

abbrev pub divide_byte : ℕ → ℕ
divide_byte x =
    divide_bit
      (divide_bit (divide_bit (divide_bit (divide_bit (divide_bit (divide_bit (divide_bit x)))))))

-- The remainder of a sequence of bytes, each added at the top of the register.
pub crc32_bits : ℕ → List ℕ → ℕ
crc32_bits crc [] = crc
crc32_bits crc (b ∷ bs) = crc32_bits (divide_byte (bit_xor crc (b * 2 ^ 24))) bs

doubled : (a b : ℕ) → bit_xor (a * 2) (b * 2) ≡ bit_xor a b * 2
doubled a b = omega (arith, bit_xor_step (a * 2) (b * 2), ap₂ bit_xor (halved a) (halved b))
  where
    halved : (x : ℕ) → x * 2 / 2 ≡ x
    halved x = omega arith

shift_suc : (q k : ℕ) → q * 2 ^ suc k ≡ q * 2 ^ k * 2
shift_suc q k = omega (arith, ap (λ (t : ℕ). q * t) (pow-suc 2 k))

shifted : (k a b : ℕ) → bit_xor (a * 2 ^ k) (b * 2 ^ k) ≡ bit_xor a b * 2 ^ k
shifted zero a b = ap₂ bit_xor (once a) (once b) ∙ sym (once (bit_xor a b))
  where
    once : (x : ℕ) → x * 2 ^ 0 ≡ x
    once x = omega arith
shifted (suc k) a b =
    ap₂ bit_xor (shift_suc a k) (shift_suc b k)
    ∙ doubled (a * 2 ^ k) (b * 2 ^ k)
    ∙ ap (λ (t : ℕ). t * 2) (shifted k a b)
    ∙ sym (shift_suc (bit_xor a b) k)

swap_last : (a b c : ℕ) → bit_xor (bit_xor a b) c ≡ bit_xor (bit_xor a c) b
swap_last a b c =
    bit_xor_assoc a b c ∙ ap (bit_xor a) (bit_xor_comm b c) ∙ sym (bit_xor_assoc a c b)

divide_low : (x : ℕ) → x < 2 ^ 31 → divide_bit x ≡ x * 2
unfolding divide_bit
divide_low x h = ground arith

divide_high : (r : ℕ) → r < 2 ^ 31 → divide_bit (2 ^ 31 + r) ≡ bit_xor (r * 2) 0x04c11db7
unfolding divide_bit
divide_high r h = rw tested (ap (λ (t : ℕ). bit_xor t 0x04c11db7) left)
  where
    tested : ltb (2 ^ 31 + r) (2 ^ 31) ≡ false
    tested = ground arith

    left : (2 ^ 31 + r) * 2 - 2 ^ 32 ≡ r * 2
    left = omega arith

divide_bit-lt : (x : ℕ) → x < 2 ^ 32 → divide_bit x < 2 ^ 32
unfolding divide_bit
divide_bit-lt x h =
    ground (arith, bit_xor-lt 32 (x * 2 - 2 ^ 32) 0x04c11db7 (omega arith) (omega arith))

-- The low bits pass through a step.
divide_bit-xor :
    (h l : ℕ) → h < 2 ^ 32 → l < 2 ^ 31 → divide_bit (bit_xor h l) ≡ bit_xor (divide_bit h) (l * 2)
divide_bit-xor h l hh hl = elim (dec_lt h (2 ^ 31)) [
  | yes low ↦
      divide_low (bit_xor h l) (bit_xor-lt 31 h l low hl)
      ∙ sym (doubled h l)
      ∙ ap (λ (t : ℕ). bit_xor t (l * 2)) (sym (divide_low h low))
  | no high ↦ top (h - 2 ^ 31) (omega arith) (omega arith)
]
  where
    added : (x : ℕ) → x < 2 ^ 31 → bit_xor (2 ^ 31) x ≡ 2 ^ 31 + x
    added x lt = bit_xor_disjoint 31 1 x lt

    top :
        (r : ℕ)
        → h ≡ 2 ^ 31 + r
        → r < 2 ^ 31
        → divide_bit (bit_xor h l) ≡ bit_xor (divide_bit h) (l * 2)
    top r e lt =
        ap divide_bit whole
        ∙ divide_high (bit_xor r l) (bit_xor-lt 31 r l lt hl)
        ∙ ap (λ (t : ℕ). bit_xor t 0x04c11db7) (sym (doubled r l))
        ∙ swap_last (r * 2) (l * 2) 0x04c11db7
        ∙ ap (λ (t : ℕ). bit_xor t (l * 2)) (sym (ap divide_bit e ∙ divide_high r lt))
      where
        whole : bit_xor h l ≡ 2 ^ 31 + bit_xor r l
        whole =
            ap (λ (t : ℕ). bit_xor t l) (e ∙ sym (added r lt))
            ∙ bit_xor_assoc (2 ^ 31) r l
            ∙ added (bit_xor r l) (bit_xor-lt 31 r l lt hl)

abbrev IsSum : ℕ → ℕ → ℕ → Type 0
IsSum x h l = (x ≡ bit_xor h l) × (h < 2 ^ 32)

next-IsSum : (x h l : ℕ) → l < 2 ^ 31 → IsSum x h l → IsSum (divide_bit x) (divide_bit h) (l * 2)
next-IsSum x h l hl s = (ap divide_bit s.0 ∙ divide_bit-xor h l s.1 hl, divide_bit-lt h s.1)

divide_byte-IsSum :
    (h l : ℕ)
    → h < 2 ^ 32
    → l < 2 ^ 24
    → IsSum (divide_byte (bit_xor h l)) (divide_byte h) (l * 2 * 2 * 2 * 2 * 2 * 2 * 2 * 2)
divide_byte-IsSum h l hh hl = next-IsSum _ _ _ (omega arith) (
    next-IsSum _ _ _ (omega arith) (
      next-IsSum _ _ _ (omega arith) (
        next-IsSum _ _ _ (omega arith) (
          next-IsSum _ _ _ (omega arith) (
            next-IsSum _ _ _ (omega arith) (
              next-IsSum _ _ _ (omega arith)
                (next-IsSum (bit_xor h l) h l (omega arith) (refl, hh))))))))

table_rows : holds_below 256 (λ i. get_or crc32_mpeg2_table i 0 == divide_byte (i * 2 ^ 24)) ≡ true
unfolding crc32_mpeg2_table divide_bit
table_rows = refl

-- Row i of the table is what eight steps make of i at the top of the register.
table-eq-divide_byte : (i : ℕ) → i < 256 → get_or crc32_mpeg2_table i 0 ≡ divide_byte (i * 2 ^ 24)
table-eq-divide_byte i h = (==_iff _ _).0 (
    holds_below_sound 256 (λ i. get_or crc32_mpeg2_table i 0 == divide_byte (i * 2 ^ 24)) i
      table_rows h)

-- One lookup does what eight steps do.
crc32_step-eq-divide_byte :
    (crc b : ℕ) → crc < 2 ^ 32 → b < 256 → crc32_step crc b ≡ divide_byte (bit_xor crc (b * 2 ^ 24))
unfolding crc32_step
crc32_step-eq-divide_byte crc b hc hb =
    ap₂ bit_xor (ap (λ (k : ℕ). get_or crc32_mpeg2_table k 0) masked) low
    ∙ ap₂ bit_xor (table-eq-divide_byte i small) (omega arith)
    ∙ sym (divide_byte-IsSum (i * 2 ^ 24) lo (omega (arith, small)) (omega arith)).0
    ∙ ap divide_byte joined
  where
    hi : ℕ
    hi = crc / 2 ^ 24

    lo : ℕ
    lo = crc % 2 ^ 24

    i : ℕ
    i = bit_xor hi b

    small : i < 256
    small = bit_xor-lt 8 hi b (omega arith) hb

    masked : bit_and (bit_xor (crc >>> 24) b) 0xff ≡ i
    masked = omega (arith, bit_and-byte i, small)

    low : u32 (crc <<< 8) ≡ lo * 256
    low = omega arith

    joined : bit_xor (i * 2 ^ 24) lo ≡ bit_xor crc (b * 2 ^ 24)
    joined =
        ap (λ (t : ℕ). bit_xor t lo) (sym (shifted 24 hi b))
        ∙ swap_last (hi * 2 ^ 24) (b * 2 ^ 24) lo
        ∙ ap (λ (t : ℕ). bit_xor t (b * 2 ^ 24))
            (bit_xor_disjoint 24 hi lo (omega arith) ∙ omega arith)

divide_byte-lt : (x : ℕ) → x < 2 ^ 32 → divide_byte x < 2 ^ 32
divide_byte-lt x h = (divide_byte-IsSum x 0 h (omega arith)).1

crc32_loop-eq-bits :
    (n : ℕ) (data_ptr : List ℕ) (crc : ℕ)
    → crc < 2 ^ 32
    → IsBytes data_ptr
    → n ≤ length data_ptr
    → crc32_loop n data_ptr crc ≡ some (crc32_bits crc (take n data_ptr))
unfolding crc32_loop crc32_bits
crc32_loop-eq-bits zero data_ptr crc h hb hn = refl
crc32_loop-eq-bits (suc n) [] crc h hb hn = absurd (omega arith)
crc32_loop-eq-bits (suc n) (b ∷ data_ptr) crc h hb hn =
    ap (crc32_loop n data_ptr) step
    ∙ crc32_loop-eq-bits n data_ptr (divide_byte (bit_xor crc (b * 2 ^ 24)))
        (divide_byte-lt (bit_xor crc (b * 2 ^ 24))
          (bit_xor-lt 32 crc (b * 2 ^ 24) h (omega (arith, hb.0))))
        hb.1 (omega arith)
  where
    step : crc32_step crc b ≡ divide_byte (bit_xor crc (b * 2 ^ 24))
    step = crc32_step-eq-divide_byte crc b h hb.0

-- The 32-bit checksum by table, from any 32-bit register, is the division of the first `len` bytes by
-- the polynomial 0x04C11DB7, one bit at a time from the highest, whenever these bytes lie in the
-- buffer.
pub calcu_crc32-eq-bits :
    (icrc : ℕ) (data_ptr : List ℕ) (len : ℕ)
    → icrc < 2 ^ 32
    → IsBytes data_ptr
    → len ≤ length data_ptr
    → calcu_crc32 icrc data_ptr len ≡ some (crc32_bits icrc (take len data_ptr))
unfolding calcu_crc32
calcu_crc32-eq-bits icrc data_ptr len h hb hn =
    rw (crc32_loop-eq-bits len data_ptr icrc h hb hn)
      (ap some (bit_xor-zero (crc32_bits icrc (take len data_ptr))))
