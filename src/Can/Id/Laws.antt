-- ===== src/Can/Id/Laws.antt =====
-- The fields of an identifier are read back, so a device's response is taken.
use esp32aging.Base.{
  ℕ, ◌+◌, ◌*◌, ◌/◌, ◌%◌, ◌^◌, ◌<◌, bit_and, bit_or, ◌≡◌, refl, ◌⊎◌, true, arith, bit_and_step,
  bit_or_disjoint, bit_and-one, bit_and_3, bit_and-byte,
}
use esp32aging.Can.{Transfer, can_proto_source_or_default}
use esp32aging.Can.Id.{
  can_ext_create_id, can_ext_get_priority, can_ext_get_ext_data_page, can_ext_get_data_page,
  can_ext_get_pdu_format, can_ext_get_pdu_specific, can_ext_get_source_addr, can_match_response_id,
}

bit_and_7 : (x : ℕ) → bit_and x 7 ≡ x % 8
bit_and_7 x = omega (arith, bit_and_step x 7, bit_and_3 (x / 2))

-- Two disjoint fields, the upper of which has no bits below 2^k.
joined : (k q x r : ℕ) → x ≡ q * 2 ^ k → r < 2 ^ k → bit_or x r ≡ x + r
joined k q x r e h = rw e (bit_or_disjoint k q r h)

-- The identifier as a sum of its fields.
pub create_id_sum :
    (p e d f s a : ℕ)
    → can_ext_create_id p e d f s a
      ≡ p % 8 * 67108864
        + e % 2 * 33554432
        + d % 2 * 16777216
        + f % 256 * 65536
        + s % 256 * 256
        + a % 256
unfolding can_ext_create_id
create_id_sum p e d f s a =
    rw (bit_and_7 p, bit_and-one e, bit_and-one d, bit_and-byte f, bit_and-byte s, bit_and-byte a)
      (rw
        (
          joined 26 (p % 8) (p % 8 * 67108864) (e % 2 * 33554432) (omega arith) (omega arith),
          joined 25 (p % 8 * 2 + e % 2) (p % 8 * 67108864 + e % 2 * 33554432) (d % 2 * 16777216)
              (omega arith) (omega arith),
          joined 24 (p % 8 * 4 + e % 2 * 2 + d % 2)
              (p % 8 * 67108864 + e % 2 * 33554432 + d % 2 * 16777216) (f % 256 * 65536)
              (omega arith) (omega arith),
          joined 16 (p % 8 * 1024 + e % 2 * 512 + d % 2 * 256 + f % 256)
              (p % 8 * 67108864 + e % 2 * 33554432 + d % 2 * 16777216 + f % 256 * 65536)
              (s % 256 * 256) (omega arith) (omega arith),
          joined 8 (p % 8 * 262144 + e % 2 * 131072 + d % 2 * 65536 + f % 256 * 256 + s % 256)
              (p % 8 * 67108864
                + e % 2 * 33554432
                + d % 2 * 16777216
                + f % 256 * 65536
                + s % 256 * 256)
              (a % 256) (omega arith) (omega arith),
        )
        refl)

-- Each field of an identifier that `can_ext_create_id` makes is read back.
pub can_ext_create_id_fields :
    (p e d f s a : ℕ)
    → p < 8
    → e < 2
    → d < 2
    → f < 256
    → s < 256
    → a < 256
    → let id = can_ext_create_id p e d f s a in
      (can_ext_get_priority id ≡ p)
      × (can_ext_get_ext_data_page id ≡ e)
      × (can_ext_get_data_page id ≡ d)
      × (can_ext_get_pdu_format id ≡ f)
      × (can_ext_get_pdu_specific id ≡ s)
      × (can_ext_get_source_addr id ≡ a)
unfolding can_ext_get_priority can_ext_get_ext_data_page can_ext_get_data_page
    can_ext_get_pdu_format can_ext_get_pdu_specific can_ext_get_source_addr
can_ext_create_id_fields p e d f s a hp he hd hf hs ha = rw (create_id_sum p e d f s a) (
  omega (arith, bit_and_7 (sum / 67108864)),
  omega (arith, bit_and-one (sum / 33554432)),
  omega (arith, bit_and-one (sum / 16777216)),
  omega (arith, bit_and-byte (sum / 65536)),
  omega (arith, bit_and-byte (sum / 256)),
  omega (arith, bit_and-byte sum),
)
  where
    sum : ℕ
    sum =
        p % 8 * 67108864
        + e % 2 * 33554432
        + d % 2 * 16777216
        + f % 256 * 65536
        + s % 256 * 256
        + a % 256

-- The identifier of a response: from a device to the master of the transfer.
abbrev pub response_id : Transfer → ℕ → ℕ → ℕ
response_id transfer pf device =
    can_ext_create_id 2 0 0 pf (can_proto_source_or_default transfer.source_addr) device

-- A response of the device that is asked is taken, and if none is named, of any device.
pub can_match-response_id :
    (transfer : Transfer) (pf device : ℕ)
    → pf < 256
    → can_proto_source_or_default transfer.source_addr < 256
    → device < 256
    → (transfer.target_addr ≡ 0) ⊎ (transfer.target_addr ≡ device)
    → can_match_response_id (response_id transfer pf device) transfer pf ≡ true
unfolding can_match_response_id
can_match-response_id transfer pf device hf hs hd h = ground (
  arith,
  can_ext_create_id_fields 2 0 0 pf (can_proto_source_or_default transfer.source_addr) device
      (omega arith) (omega arith) (omega arith) hf hs hd,
)
