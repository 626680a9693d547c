-- ===== src/Crc/Detect.antt =====
-- What the checksum detects: one changed byte changes it, whatever follows.
use esp32aging.Base.{
  ℕ, zero, suc, ◌/◌, ◌%◌, ◌^◌, ◌≤◌, ◌<◌, bit_xor, ◌≡◌, refl, sym, ap, ◌∙◌, ◌≢◌, true, List, [], ◌∷◌,
  arith, ◌==◌, ==_iff, if◌then◌else◌, length, get_or, set, holds_below, holds_below_sound,
  bit_xor-high, bit_xor_cancel, IsBytes, zero-bit_xor, bit_xor_comm,
}
use native.Mathlib.Nat.{mod-eq_of_lt}
use esp32aging.Crc.Table.{crc_tbl}
use esp32aging.Crc.Bitwise.{crc16_step_lem, bit_xor-data_high, crc16_step-lt}
use esp32aging.Crc.{crc16_step, crc16_loop, modbus_crc16}

-- The row whose high byte is `v`, by search from `n - 1` down.
row_with_high : ℕ → ℕ → ℕ
row_with_high zero v = 0
row_with_high (suc n) v =
    let rest = row_with_high n v in if get_or crc_tbl n 0 / 256 == v then n else rest

high_bytes : holds_below 256 (λ i. row_with_high 256 (get_or crc_tbl i 0 / 256) == i) ≡ true
unfolding crc_tbl row_with_high
high_bytes = refl

-- No two rows of the table share their high byte.
crc_tbl-high_injective :
    (i j : ℕ) → i < 256 → j < 256 → get_or crc_tbl i 0 / 256 ≡ get_or crc_tbl j 0 / 256 → i ≡ j
crc_tbl-high_injective i j hi hj e = sym (found i hi) ∙ ap (row_with_high 256) e ∙ found j hj
  where
    found : (k : ℕ) → k < 256 → row_with_high 256 (get_or crc_tbl k 0 / 256) ≡ k
    found k hk = (==_iff _ _).0 (
        holds_below_sound 256 (λ i. row_with_high 256 (get_or crc_tbl i 0 / 256) == i) k high_bytes
          hk)

crc16_step-high :
    (crc b : ℕ)
    → crc < 2 ^ 16
    → b < 256
    → crc16_step crc b / 256 ≡ get_or crc_tbl (bit_xor crc b % 256) 0 / 256
crc16_step-high crc b hc hb =
    ap (λ (t : ℕ). t / 256) (crc16_step_lem crc b hc hb)
    ∙ bit_xor-high (crc / 256) (get_or crc_tbl (bit_xor crc b % 256) 0)
    ∙ ap (λ (t : ℕ). bit_xor t (get_or crc_tbl (bit_xor crc b % 256) 0 / 256)) (omega arith)
    ∙ zero-bit_xor (get_or crc_tbl (bit_xor crc b % 256) 0 / 256)

-- The round shows which row it used.
crc16_step-row :
    (c d b e : ℕ)
    → c < 2 ^ 16
    → d < 2 ^ 16
    → b < 256
    → e < 256
    → crc16_step c b ≡ crc16_step d e
    → bit_xor c b % 256 ≡ bit_xor d e % 256
crc16_step-row c d b e hc hd hb he eq = crc_tbl-high_injective _ _ (omega arith) (omega arith) (
    omega (arith, ap (λ (t : ℕ). t / 256) eq, crc16_step-high c b hc hb, crc16_step-high d e hd he))

-- Hence the whole word that was shifted in.
crc16_step-word :
    (c d b e : ℕ)
    → c < 2 ^ 16
    → d < 2 ^ 16
    → b < 256
    → e < 256
    → crc16_step c b ≡ crc16_step d e
    → bit_xor c b ≡ bit_xor d e
crc16_step-word c d b e hc hd hb he eq = omega (
  arith,
  bit_xor_cancel (c / 256) (d / 256) (get_or crc_tbl (bit_xor c b % 256) 0) same,
  bit_xor-data_high c b hb,
  bit_xor-data_high d e he,
  rows,
)
  where
    rows : bit_xor c b % 256 ≡ bit_xor d e % 256
    rows = crc16_step-row c d b e hc hd hb he eq

    same :
        bit_xor (c / 256) (get_or crc_tbl (bit_xor c b % 256) 0)
        ≡ bit_xor (d / 256) (get_or crc_tbl (bit_xor c b % 256) 0)
    same =
        sym (crc16_step_lem c b hc hb)
        ∙ eq
        ∙ crc16_step_lem d e hd he
        ∙ ap (λ (t : ℕ). bit_xor (d / 256) (get_or crc_tbl t 0)) (sym rows)

-- A round is injective in the register ...
crc16_step-injective :
    (c d b : ℕ) → c < 2 ^ 16 → d < 2 ^ 16 → b < 256 → crc16_step c b ≡ crc16_step d b → c ≡ d
crc16_step-injective c d b hc hd hb eq =
    bit_xor_cancel c d b (crc16_step-word c d b b hc hd hb hb eq)

-- ... and in the byte.
crc16_step-byte_injective :
    (c b e : ℕ) → c < 2 ^ 16 → b < 256 → e < 256 → crc16_step c b ≡ crc16_step c e → b ≡ e
crc16_step-byte_injective c b e hc hb he eq =
    bit_xor_cancel b e c
      (bit_xor_comm b c ∙ crc16_step-word c c b e hc hc hb he eq ∙ bit_xor_comm c e)

crc16_loop-injective :
    (n : ℕ) (buf : List ℕ) (c d : ℕ)
    → c < 2 ^ 16
    → d < 2 ^ 16
    → IsBytes buf
    → n ≤ length buf
    → crc16_loop n buf c ≡ crc16_loop n buf d
    → c ≡ d
unfolding crc16_loop
crc16_loop-injective zero buf c d hc hd hb hn eq = cc
crc16_loop-injective (suc n) [] c d hc hd hb hn eq = absurd (omega arith)
crc16_loop-injective (suc n) (b ∷ buf) c d hc hd hb hn eq =
    crc16_step-injective c d b hc hd hb.0
      (crc16_loop-injective n buf _ _ (crc16_step-lt c b) (crc16_step-lt d b) hb.1 (omega arith) eq)

crc16_loop-set :
    (n : ℕ) (buf : List ℕ) (i v c : ℕ)
    → c < 2 ^ 16
    → IsBytes buf
    → v < 256
    → i < n
    → n ≤ length buf
    → get_or buf i 0 ≢ v
    → crc16_loop n (set buf i v) c ≢ crc16_loop n buf c
unfolding crc16_loop
crc16_loop-set zero buf i v c hc hb hv hi hn ne eq = absurd (omega arith)
crc16_loop-set (suc n) [] i v c hc hb hv hi hn ne eq = absurd (omega arith)
crc16_loop-set (suc n) (b ∷ buf) zero v c hc hb hv hi hn ne eq = ne (
    sym (
      crc16_step-byte_injective c v b hc hv hb.0 (
        crc16_loop-injective n buf _ _ (crc16_step-lt c v) (crc16_step-lt c b) hb.1 (omega arith)
          eq)))
crc16_loop-set (suc n) (b ∷ buf) (suc i) v c hc hb hv hi hn ne eq =
    crc16_loop-set n buf i v _ (crc16_step-lt c b) hb.1 hv (omega arith) (omega arith) ne eq

-- Changing any one of the summed bytes to another byte changes the checksum.
pub modbus_crc16-set :
    (buf : List ℕ) (len i v : ℕ)
    → IsBytes buf
    → len ≤ length buf
    → len < 2 ^ 16
    → i < len
    → v < 256
    → get_or buf i 0 ≢ v
    → modbus_crc16 (set buf i v) len ≢ modbus_crc16 buf len
unfolding modbus_crc16
modbus_crc16-set buf len i v hb hl hw hi hv ne =
    rw (mod-eq_of_lt hw) (crc16_loop-set len buf i v 0xffff (omega arith) hb hv hi hl ne)

-- Bytes outside the summed range do not count.
pub crc16_loop-set_outside :
    (n : ℕ) (buf : List ℕ) (i v c : ℕ) → n ≤ i → crc16_loop n (set buf i v) c ≡ crc16_loop n buf c
unfolding crc16_loop
crc16_loop-set_outside zero buf i v c h = refl
crc16_loop-set_outside (suc n) [] i v c h = refl
crc16_loop-set_outside (suc n) (b ∷ buf) zero v c h = absurd (omega arith)
crc16_loop-set_outside (suc n) (b ∷ buf) (suc i) v c h =
    crc16_loop-set_outside n buf i v (crc16_step c b) (omega arith)
