-- ===== src/Modbus/Detect.antt =====
-- The check of the checksum on frames with a changed byte.
use esp32aging.Base.{
  ℕ, zero, suc, ◌+◌, ◌-◌, ◌*◌, ◌^◌, ◌≤◌, ◌<◌, ◌≡◌, refl, sym, ap, ◌∙◌, ◌≢◌, ◌⊎◌, inl, inr, true,
  false, some, List, [], ◌∷◌, arith, ◌==◌, length, get_or, set, take, dec_lt, IsBytes,
  get_elem?-eq-get_or, length-set, get_or-set_self, bit_or_comm, get_or-set_ne, bit_or_disjoint,
}
use esp32aging.Modbus.Frames.{crc_of}
use esp32aging.Crc.Bitwise.{modbus_crc16-eq-bits}
use esp32aging.Crc.Detect.{modbus_crc16-set}
use esp32aging.Modbus.{modbus_check_crc}

pub IsBytes-set : (xs : List ℕ) (i v : ℕ) → IsBytes xs → v < 256 → IsBytes (set xs i v)
IsBytes-set [] i v h hv = tt
IsBytes-set (x ∷ xs) zero v h hv = (hv, h.1)
IsBytes-set (x ∷ xs) (suc i) v h hv = (h.0, IsBytes-set xs i v h.1 hv)

pub get_or-lt : (xs : List ℕ) (i : ℕ) → IsBytes xs → get_or xs i 0 < 256
get_or-lt [] i h = omega arith
get_or-lt (x ∷ xs) zero h = h.0
get_or-lt (x ∷ xs) (suc i) h = get_or-lt xs i h.1

-- The checksum that a frame of `len` bytes carries.
abbrev pub received : List ℕ → ℕ → ℕ
received frame len = get_or frame (len - 2) 0 + get_or frame (len - 1) 0 * 256

-- On a frame that is long enough and lies in its buffer the check compares the two checksums.
pub modbus_check_crc_lem :
    (frame : List ℕ) (len : ℕ)
    → IsBytes frame
    → len ≤ length frame
    → len < 2 ^ 16
    → 4 ≤ len
    → modbus_check_crc (some frame) len ≡ some (crc_of (take (len - 2) frame) == received frame len)
unfolding modbus_check_crc
modbus_check_crc_lem frame len hb hl hw long = ground (
  arith,
  modbus_crc16-eq-bits frame (len - 2) hb (omega arith) (omega arith),
  get_elem?-eq-get_or frame (len - 2) 0 (omega arith),
  get_elem?-eq-get_or frame (len - 1) 0 (omega arith),
  bit_or_comm (get_or frame (len - 2) 0) (get_or frame (len - 1) 0 * 2 ^ 8),
  bit_or_disjoint 8 (get_or frame (len - 1) 0) (get_or frame (len - 2) 0)
      (get_or-lt frame (len - 2) hb),
  get_or-lt frame (len - 1) hb,
  get_or-lt frame (len - 2) hb,
)

pub modbus_check_crc-long :
    (frame : List ℕ) (len : ℕ) → modbus_check_crc (some frame) len ≡ some true → 4 ≤ len
unfolding modbus_check_crc
modbus_check_crc-long frame len ok = ground arith

take-set_outside : (n : ℕ) (xs : List ℕ) (i v : ℕ) → n ≤ i → take n (set xs i v) ≡ take n xs
take-set_outside zero xs i v h = refl
take-set_outside (suc n) [] i v h = refl
take-set_outside (suc n) (x ∷ xs) zero v h = absurd (omega arith)
take-set_outside (suc n) (x ∷ xs) (suc i) v h = ap (◌∷◌ x) (take-set_outside n xs i v (omega arith))

module _ (frame : List ℕ) (len i v : ℕ) (hb : IsBytes frame) (hl : len ≤ length frame)
    (hw : len < 2 ^ 16) (hv : v < 256) (long : 4 ≤ len) (hi : i < len)
    (ne : get_or frame i 0 ≢ v) where
  changed : List ℕ
  changed = set frame i v

  -- Within the summed bytes the computed checksum changes, and the received one stays.
  set_inside :
      i < len - 2
      → (crc_of (take (len - 2) changed) ≢ crc_of (take (len - 2) frame))
        × (received changed len ≡ received frame len)
  unfolding changed
  set_inside h = (
    λ e. modbus_crc16-set frame (len - 2) i v hb (omega arith) (omega arith) h hv ne (
        modbus_crc16-eq-bits changed (len - 2) (IsBytes-set frame i v hb hv)
          (omega (arith, length-set frame i v)) (omega arith)
        ∙ ap some e
        ∙ sym (modbus_crc16-eq-bits frame (len - 2) hb (omega arith) (omega arith))),
    omega (
      arith,
      get_or-set_ne frame i (len - 2) v 0 (omega arith),
      get_or-set_ne frame i (len - 1) v 0 (omega arith),
    ),
  )

  -- In the last two bytes it is the other way round.
  set_outside :
      len - 2 ≤ i
      → (crc_of (take (len - 2) changed) ≡ crc_of (take (len - 2) frame))
        × (received changed len ≢ received frame len)
  unfolding changed
  set_outside h = (
    ap crc_of (take-set_outside (len - 2) frame i v h),
    ground (
      arith,
      get_or-set_self frame i v 0 (omega arith),
      get_or-set_ne frame i (len - 2) v 0,
      get_or-set_ne frame i (len - 1) v 0,
      get_or-lt frame (len - 2) hb,
      get_or-lt frame (len - 1) hb,
    ),
  )

-- Equal numbers of which one alone is changed are no longer equal.
one_side :
    (a b c d : ℕ) → (a == b) ≡ true → ((c ≢ a) × (d ≡ b)) ⊎ ((c ≡ a) × (d ≢ b)) → (c == d) ≡ false
one_side a b c d e h = ground arith

-- One byte of an accepted frame of fewer than 2^16 bytes, the checksum's included, changed to any
-- other byte: the check refuses it.
pub modbus_check_crc-set :
    (frame : List ℕ) (len i v : ℕ)
    → IsBytes frame
    → len ≤ length frame
    → len < 2 ^ 16
    → modbus_check_crc (some frame) len ≡ some true
    → i < len
    → v < 256
    → get_or frame i 0 ≢ v
    → modbus_check_crc (some (set frame i v)) len ≡ some false
modbus_check_crc-set frame len i v hb hl hw ok hi hv ne =
    modbus_check_crc_lem (set frame i v) len (IsBytes-set frame i v hb hv)
      (omega (arith, length-set frame i v)) hw long
    ∙ ap some differs
  where
    long : 4 ≤ len
    long = modbus_check_crc-long frame len ok

    agreed : (crc_of (take (len - 2) frame) == received frame len) ≡ true
    agreed = cc (modbus_check_crc_lem frame len hb hl hw long)

    differs : (crc_of (take (len - 2) (set frame i v)) == received (set frame i v) len) ≡ false
    differs = elim (dec_lt i (len - 2)) [
      | yes h ↦
          one_side _ _ _ _ agreed
            (inl (unfold changed in set_inside frame len i v hb hl hw hv long hi ne h))
      | no h ↦
          one_side _ _ _ _ agreed
            (inr (unfold changed in set_outside frame len i v hb hl hw hv long hi ne (omega arith)))
    ]
