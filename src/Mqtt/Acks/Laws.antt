-- ===== src/Mqtt/Acks/Laws.antt =====
-- The table of early answers: a mark is found again under its number, and nowhere else.
pub mod Register
use esp32aging.Base.{
  ℕ, zero, suc, ◌+◌, ◌-◌, ◌*◌, ◌/◌, ◌%◌, ◌^◌, ◌≤◌, ◌<◌, bit_and, bit_or, bit_xor, ◌≡◌, refl, sym,
  ap, ap₂, ◌∙◌, subst, ◌≢◌, ◌↔◌, ◌⊎◌, inl, inr, Bool, true, false, not, ◌&&◌, ◌||◌, Option, none,
  some, List, [], ◌∷◌, ◌++◌, map, arith, ltb, leb, ◌==◌, ==_iff, if◌then◌else◌, Bool-cases,
  Option-cases, length, get_elem?, get_or, set, take, drop, replicate, u8, u16, u32, ◌<<<◌, ◌>>>◌,
  ◌>>=◌, fill, dec_lt, dec_le, ℕ_discrete, ℤ, pos, negsuc, signed16, signed32, some_inj, if_cases,
  ltb_ℤ, suc_ℤ, int_max, str_eq, str_eq_iff, is_empty, bit_and_3, bit_or_step, bit_or-zero, max,
}
use esp32aging.Mqtt.{EventAck}
use esp32aging.Mqtt.Acks.{
  Ack, published, deleted, ack_flag, in_range, id_of, eq_ℤ, mark, marked, mqtt_event_ack_event,
  mqtt_event_ack_reset, mqtt_event_ack_begin, mqtt_event_ack_register,
}

-- The k-th pair of bits.
field : ℕ → ℕ → ℕ
field zero w = w % 4
field (suc k) w = field k (w / 4)

put : ℕ → ℕ → ℕ
put zero f = f
put (suc j) f = put j f * 4

field-shift : (k w : ℕ) → k < 4 → bit_and (u8 w >>> (k * 2)) 3 ≡ field k w
unfolding field
field-shift zero w h = omega (arith, bit_and_3 (w % 256 / 1))
field-shift (suc zero) w h = omega (arith, bit_and_3 (w % 256 / 4))
field-shift (suc (suc zero)) w h = omega (arith, bit_and_3 (w % 256 / 16))
field-shift (suc (suc (suc zero))) w h = omega (arith, bit_and_3 (w % 256 / 64))
field-shift (suc (suc (suc (suc k)))) w h = absurd (omega arith)

put-shift : (j f : ℕ) → j < 4 → f <<< (j * 2) ≡ put j f
unfolding put
put-shift zero f h = omega arith
put-shift (suc zero) f h = omega arith
put-shift (suc (suc zero)) f h = omega arith
put-shift (suc (suc (suc zero))) f h = omega arith
put-shift (suc (suc (suc (suc j)))) f h = absurd (omega arith)

-- The two bits after a flag is set.
abbrev pub raised : Ack → ℕ → ℕ
raised published v = v / 2 * 2 + 1
raised deleted v = v % 2 + 2

bit_or-quarter : (x y : ℕ) → bit_or x y / 4 ≡ bit_or (x / 4) (y / 4)
bit_or-quarter x y =
    omega (arith, bit_or_step x y, bit_or_step (x / 2) (y / 2), ap₂ bit_or (quarter x) (quarter y))
  where
    quarter : (n : ℕ) → n / 2 / 2 ≡ n / 4
    quarter n = omega arith

bit_or-low : (x y : ℕ) → bit_or x y % 4 ≡ max (x / 2 % 2) (y / 2 % 2) * 2 + max (x % 2) (y % 2)
bit_or-low x y = omega (arith, bit_or_step x y, bit_or_step (x / 2) (y / 2))

field-or_same :
    (k w : ℕ) (ack : Ack) → field k (bit_or w (put k (ack_flag ack))) ≡ raised ack (field k w)
unfolding field put
field-or_same zero w published = omega (arith, bit_or-low w 1)
field-or_same zero w deleted = omega (arith, bit_or-low w 2)
field-or_same (suc k) w ack =
    ap (field k) (
      bit_or-quarter w (put k (ack_flag ack) * 4)
      ∙ ap (bit_or (w / 4)) (quotient (put k (ack_flag ack))))
    ∙ field-or_same k (w / 4) ack
  where
    quotient : (n : ℕ) → n * 4 / 4 ≡ n
    quotient n = omega arith

field-or_other :
    (k j w : ℕ) (ack : Ack) → k ≢ j → field k (bit_or w (put j (ack_flag ack))) ≡ field k w
unfolding field put
field-or_other zero zero w ack ne = absurd (ne refl)
field-or_other zero (suc j) w ack ne = omega (arith, bit_or-low w (put j (ack_flag ack) * 4))
field-or_other (suc k) zero w published ne = ap (field k) (bit_or-quarter w 1 ∙ bit_or-zero (w / 4))
field-or_other (suc k) zero w deleted ne = ap (field k) (bit_or-quarter w 2 ∙ bit_or-zero (w / 4))
field-or_other (suc k) (suc j) w ack ne =
    ap (field k) (
      bit_or-quarter w (put j (ack_flag ack) * 4)
      ∙ ap (bit_or (w / 4)) (quotient (put j (ack_flag ack))))
    ∙ field-or_other k j (w / 4) ack (λ e. ne (ap suc e))
  where
    quotient : (n : ℕ) → n * 4 / 4 ≡ n
    quotient n = omega arith

-- The table keeps bytes.
field-eq-marked :
    (table : ℕ → ℕ) (id : ℕ)
    → table (id / 4) < 256
    → marked table id ≡ field (id % 4) (table (id / 4))
unfolding marked
field-eq-marked table id h =
    ap (λ (w : ℕ). bit_and (w >>> (id % 4 * 2)) 3) {y = u8 (table (id / 4))} (omega arith)
    ∙ field-shift (id % 4) (table (id / 4)) (omega arith)

field-byte : (k w : ℕ) → k < 4 → field k (u8 w) ≡ field k w
unfolding field
field-byte zero w h = omega arith
field-byte (suc zero) w h = omega arith
field-byte (suc (suc zero)) w h = omega arith
field-byte (suc (suc (suc zero))) w h = omega arith
field-byte (suc (suc (suc (suc k)))) w h = absurd (omega arith)

abbrev pub AllBytes : (ℕ → ℕ) → Type 0
AllBytes table = (i : ℕ) → table i < 256

module _ (table : ℕ → ℕ) (id : ℕ) (ack : Ack) where
  mark-same :
      (i : ℕ)
      → i ≡ id / 4
      → mark table id (ack_flag ack) i ≡ u8 (bit_or (table i) (put (id % 4) (ack_flag ack)))
  unfolding mark
  mark-same i e =
      rw (mark, (==_iff i (id / 4)).1 e)
        (ap (λ (f : ℕ). u8 (bit_or (table i) f)) (put-shift (id % 4) (ack_flag ack) (omega arith)))

  mark-other : (i : ℕ) → i ≢ id / 4 → mark table id (ack_flag ack) i ≡ table i
  unfolding mark
  mark-other i ne = ground arith

  pub mark-AllBytes : AllBytes table → AllBytes (mark table id (ack_flag ack))
  mark-AllBytes h i = elim (ℕ_discrete i (id / 4)) [
    | yes e ↦ omega (arith, mark-same i e)
    | no ne ↦ omega (arith, mark-other i ne, h i)
  ]

-- A mark changes the two bits of its own number, and of no other.
module _ (table : ℕ → ℕ) (id : ℕ) (ack : Ack) (h : AllBytes table) where
  marked-eq-field :
      (other : ℕ)
      → marked (mark table other (ack_flag ack)) id
        ≡ field (id % 4) (mark table other (ack_flag ack) (id / 4))
  marked-eq-field other =
      field-eq-marked (mark table other (ack_flag ack)) id
        (mark-AllBytes table other ack h (id / 4))

  pub marked-mark_self : marked (mark table id (ack_flag ack)) id ≡ raised ack (marked table id)
  marked-mark_self =
      marked-eq-field id
      ∙ ap (field (id % 4)) (mark-same table id ack (id / 4) refl)
      ∙ field-byte (id % 4) (bit_or (table (id / 4)) (put (id % 4) (ack_flag ack))) (omega arith)
      ∙ field-or_same (id % 4) (table (id / 4)) ack
      ∙ ap (raised ack) (sym (field-eq-marked table id (h (id / 4))))

  pub marked-mark_other :
      (other : ℕ) → other ≢ id → marked (mark table other (ack_flag ack)) id ≡ marked table id
  marked-mark_other other ne =
      marked-eq-field other
      ∙ elim (ℕ_discrete (id / 4) (other / 4)) [
        | yes e ↦
            ap (field (id % 4)) (mark-same table other ack (id / 4) e)
            ∙ field-byte (id % 4) (bit_or (table (id / 4)) (put (other % 4) (ack_flag ack)))
                (omega arith)
            ∙ field-or_other (id % 4) (other % 4) (table (id / 4)) ack (λ q. ne (omega arith))
        | no off ↦ ap (field (id % 4)) (mark-other table other ack (id / 4) off)
      ]
      ∙ sym (field-eq-marked table id (h (id / 4)))
