-- ===== src/Crc/Forward/Laws.antt =====
-- The tables hold the remainders of the polynomials, and a checksum can be continued.
use esp32aging.Base.{
  ℕ, zero, suc, ◌+◌, ◌-◌, ◌*◌, ◌%◌, ◌^◌, ◌<◌, bit_xor, ◌≡◌, refl, ap, ◌∙◌, inl, inr, true, List, [],
  ◌∷◌, ◌++◌, arith, ltb, ◌==◌, ==_iff, if◌then◌else◌, Option-cases, length, ◌<<<◌, ◌>>=◌,
  holds_below, holds_below_sound, bit_xor-zero,
}
use esp32aging.Crc.Forward.Tables.{xm_crc_tbl, crc32_mpeg2_table}
use esp32aging.Crc.Forward.{xmodem_step, crc32_step, crc32_loop, calcu_crc32}

-- One bit of the division of a number of `width` bits by a polynomial, from the highest bit.
pub shift_step : ℕ → ℕ → ℕ → ℕ
shift_step width poly x =
    if ltb x (2 ^ (width - 1)) then x * 2 else bit_xor ((x * 2) % 2 ^ width) poly

pub shift_steps : ℕ → ℕ → ℕ → ℕ → ℕ
shift_steps zero width poly x = x
shift_steps (suc n) width poly x = shift_steps n width poly (shift_step width poly x)

xmodem_rows : holds_below 256 (λ b. xmodem_step 0 b == shift_steps 8 16 0x1021 (b <<< 8)) ≡ true
unfolding xmodem_step xm_crc_tbl shift_steps shift_step
xmodem_rows = refl

crc32_rows : holds_below 256 (λ b. crc32_step 0 b == shift_steps 8 32 0x04c11db7 (b <<< 24)) ≡ true
unfolding crc32_step crc32_mpeg2_table shift_steps shift_step
crc32_rows = refl

-- A round of either checksum from an empty register divides the byte by the polynomial, 0x1021 in
-- 16 bits and 0x04C11DB7 in 32, one bit at a time.
pub first_step-eq-shift_steps :
    (b : ℕ)
    → b < 256
    → (xmodem_step 0 b ≡ shift_steps 8 16 0x1021 (b <<< 8))
      × (crc32_step 0 b ≡ shift_steps 8 32 0x04c11db7 (b <<< 24))
first_step-eq-shift_steps b h = (
  (==_iff _ _).0 (
      holds_below_sound 256 (λ x. xmodem_step 0 x == shift_steps 8 16 0x1021 (x <<< 8)) b
        xmodem_rows h),
  (==_iff _ _).0 (
      holds_below_sound 256 (λ x. crc32_step 0 x == shift_steps 8 32 0x04c11db7 (x <<< 24)) b
        crc32_rows h),
)

count-eq : (m n : ℕ) (xs : List ℕ) (crc : ℕ) → m ≡ n → crc32_loop m xs crc ≡ crc32_loop n xs crc
count-eq m n xs crc e = ap (λ (k : ℕ). crc32_loop k xs crc) e

crc32_loop-append :
    (xs ys : List ℕ) (n crc : ℕ)
    → crc32_loop (length xs + n) (xs ++ ys) crc
      ≡ (crc32_loop (length xs) xs crc >>= λ mid. crc32_loop n ys mid)
unfolding crc32_loop
crc32_loop-append [] ys n crc = count-eq (0 + n) n ys crc (omega arith)
crc32_loop-append (x ∷ xs) ys n crc =
    count-eq (suc (length xs) + n) (suc (length xs + n)) (x ∷ xs ++ ys) crc (omega arith)
    ∙ crc32_loop-append xs ys n (crc32_step crc x)

-- The checksum of two parts of a buffer, the second of any length, is the checksum of the second
-- part continued from the checksum of the first.
calcu_crc32-append :
    (xs ys : List ℕ) (n icrc : ℕ)
    → calcu_crc32 icrc (xs ++ ys) (length xs + n)
      ≡ (calcu_crc32 icrc xs (length xs) >>= λ mid. calcu_crc32 mid ys n)
unfolding calcu_crc32
calcu_crc32-append xs ys n icrc = elim (Option-cases (crc32_loop (length xs) xs icrc)) [
  | inl out ↦ rw (crc32_loop-append xs ys n icrc, out) refl
  | inr (mid, reached) ↦ rw (crc32_loop-append xs ys n icrc, reached, bit_xor-zero mid) refl
]
