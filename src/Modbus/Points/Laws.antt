-- ===== src/Modbus/Points/Laws.antt =====
-- What the point frames hold, and the value that is read from one.
use esp32aging.Base.{
  ℕ, zero, suc, ◌+◌, ◌*◌, ◌/◌, ◌%◌, ◌^◌, ◌≤◌, ◌<◌, bit_and, bit_or, ◌≡◌, refl, sym, ap, ◌∙◌, subst,
  some, List, [], ◌∷◌, ◌++◌, arith, length, drop, u8, ◌<<<◌, bit_and-byte, bit_or_comm,
  bit_or_disjoint,
}
use esp32aging.Modbus.Points.{little_endian, extract_loop, modbus_extract_u64}
use native.Mathlib.Nat.{pow-suc, div-add-mod', mul-le-mul_right}

next_power : (i : ℕ) → 2 ^ ((i + 1) * 8) ≡ 256 * 2 ^ (i * 8)
next_power i = ap (λ (k : ℕ). 2 ^ k) (the_sum i) ∙ eight (i * 8)
  where
    the_sum : (j : ℕ) → (j + 1) * 8 ≡ suc (suc (suc (suc (suc (suc (suc (suc (j * 8))))))))
    the_sum j = omega arith

    eight : (m : ℕ) → 2 ^ suc (suc (suc (suc (suc (suc (suc (suc m))))))) ≡ 256 * 2 ^ m
    eight m = omega (
      arith,
      pow-suc 2 m,
      pow-suc 2 (suc m),
      pow-suc 2 (suc (suc m)),
      pow-suc 2 (suc (suc (suc m))),
      pow-suc 2 (suc (suc (suc (suc m)))),
      pow-suc 2 (suc (suc (suc (suc (suc m))))),
      pow-suc 2 (suc (suc (suc (suc (suc (suc m)))))),
      pow-suc 2 (suc (suc (suc (suc (suc (suc (suc m))))))),
    )

-- A number times a power is the sum of its lowest byte and the rest, each times it.
carried : (p w : ℕ) → w % 256 * p + w / 256 * (256 * p) ≡ w * p
carried p w = omega (arith, ap (λ (t : ℕ). t * p) (div-add-mod' w 256))

byte-fits : (b p value : ℕ) → b < 256 → value < p → value + b * p < 256 * p
byte-fits b p value hb hv = omega (arith, mul-le-mul_right p below)
  where
    below : b ≤ 255
    below = omega arith

low_byte-mod : (w : ℕ) → u8 (bit_and w 255) ≡ w % 256
low_byte-mod w = omega (arith, bit_and-byte w)

extract_loop_lem :
    (n i value w : ℕ) (rest : List ℕ)
    → value < 2 ^ (i * 8)
    → w < 2 ^ (n * 8)
    → extract_loop n i value (little_endian n w ++ rest) ≡ some (value + w * 2 ^ (i * 8))
unfolding extract_loop little_endian
extract_loop_lem zero i value w rest hv hw = ap some (none_left w (2 ^ (i * 8)) hw)
  where
    none_left : (v p : ℕ) → v < 1 → value ≡ value + v * p
    none_left zero p h = omega arith
    none_left (suc v) p h = absurd (omega arith)
extract_loop_lem (suc n) i value w rest hv hw =
    ap (λ (v : ℕ). extract_loop n (i + 1) v (little_endian n (w / 256) ++ rest)) joined
    ∙ extract_loop_lem n (i + 1) (value + w % 256 * p) (w / 256) rest
        (subst (λ k. value + w % 256 * p < k) (sym (next_power i))
          (byte-fits (w % 256) p value (omega arith) hv))
        shorter
    ∙ ap some total
  where
    p : ℕ
    p = 2 ^ (i * 8)

    joined : bit_or value (u8 (bit_and w 255) <<< (i * 8)) ≡ value + w % 256 * p
    joined =
        rw (low_byte-mod w, bit_or_comm value (w % 256 * 2 ^ (i * 8)))
          (bit_or_disjoint (i * 8) (w % 256) value hv ∙ omega arith)

    sum_eq : (j : ℕ) → suc j * 8 ≡ (j + 1) * 8
    sum_eq j = omega arith

    grown : w < 256 * 2 ^ (n * 8)
    grown = subst (λ (k : ℕ). w < k) (ap (λ (k : ℕ). 2 ^ k) (sum_eq n) ∙ next_power n) hw

    shorter : w / 256 < 2 ^ (n * 8)
    shorter = omega (arith, grown)

    total : value + w % 256 * p + w / 256 * 2 ^ ((i + 1) * 8) ≡ value + w * p
    total = rw (next_power i) (omega (arith, carried p w))

drop-append : (xs ys : List ℕ) → drop (length xs) (xs ++ ys) ≡ ys
drop-append [] ys = refl
drop-append (x ∷ xs) ys = drop-append xs ys

-- The eight bytes of a number below 2^64, lowest first, that stand in a buffer behind any seven
-- bytes are read back as that number.
pub modbus_extract_u64-little_endian :
    (front rest : List ℕ) (v : ℕ)
    → length front ≡ 7
    → v < 2 ^ 64
    → modbus_extract_u64 (front ++ (little_endian 8 v ++ rest)) ≡ some v
unfolding modbus_extract_u64
modbus_extract_u64-little_endian front rest v h hv =
    ap (extract_loop 8 0 0) behind
    ∙ extract_loop_lem 8 0 0 v rest (omega arith) hv
    ∙ ap some (omega arith)
  where
    behind : drop 7 (front ++ (little_endian 8 v ++ rest)) ≡ little_endian 8 v ++ rest
    behind =
        subst (λ k. drop k (front ++ (little_endian 8 v ++ rest)) ≡ little_endian 8 v ++ rest) h
          (drop-append front (little_endian 8 v ++ rest))
