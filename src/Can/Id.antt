-- ===== src/Can/Id.antt =====
-- main/Communication/Can/can_extended.h: the fields of a 29-bit identifier, and which responses a
-- transfer takes.
pub mod Laws
use esp32aging.Base.{
  ℕ, zero, suc, ◌+◌, ◌-◌, ◌*◌, ◌/◌, ◌%◌, ◌^◌, ◌≤◌, ◌<◌, bit_and, bit_or, bit_xor, ◌≡◌, refl, sym,
  ap, ap₂, ◌∙◌, subst, ◌≢◌, ◌↔◌, ◌⊎◌, inl, inr, Bool, true, false, not, ◌&&◌, ◌||◌, Option, none,
  some, List, [], ◌∷◌, ◌++◌, map, arith, ltb, leb, ◌==◌, ==_iff, if◌then◌else◌, Bool-cases,
  Option-cases, length, get_elem?, get_or, set, take, drop, replicate, u8, u16, u32, ◌<<<◌, ◌>>>◌,
  ◌>>=◌, fill, dec_lt, dec_le, ℕ_discrete, ℤ, pos, negsuc, signed16, signed32, some_inj, if_cases,
  ltb_ℤ, suc_ℤ, int_max, str_eq, str_eq_iff, is_empty,
}
use esp32aging.Can.{Transfer, Message, can_proto_source_or_default, frame_data_len}

-- `can_ext_create_id`
unfoldable pub can_ext_create_id : ℕ → ℕ → ℕ → ℕ → ℕ → ℕ → ℕ
can_ext_create_id priority ext_data_page data_page pdu_format pdu_specific source_addr =
    bit_or
      (bit_or
        (bit_or
          (bit_or (bit_or (bit_and priority 0x07 <<< 26) (bit_and ext_data_page 0x01 <<< 25))
            (bit_and data_page 0x01 <<< 24))
          (bit_and pdu_format 0xff <<< 16))
        (bit_and pdu_specific 0xff <<< 8))
      (bit_and source_addr 0xff)

unfoldable pub can_ext_get_priority : ℕ → ℕ
can_ext_get_priority id = u8 (bit_and (id >>> 26) 0x07)

unfoldable pub can_ext_get_ext_data_page : ℕ → ℕ
can_ext_get_ext_data_page id = u8 (bit_and (id >>> 25) 0x01)

unfoldable pub can_ext_get_data_page : ℕ → ℕ
can_ext_get_data_page id = u8 (bit_and (id >>> 24) 0x01)

unfoldable pub can_ext_get_pdu_format : ℕ → ℕ
can_ext_get_pdu_format id = u8 (bit_and (id >>> 16) 0xff)

unfoldable pub can_ext_get_pdu_specific : ℕ → ℕ
can_ext_get_pdu_specific id = u8 (bit_and (id >>> 8) 0xff)

unfoldable pub can_ext_get_source_addr : ℕ → ℕ
can_ext_get_source_addr id = u8 (bit_and id 0xff)

-- `can_match_response_id`
unfoldable pub can_match_response_id : ℕ → Transfer → ℕ → Bool
can_match_response_id id transfer pf =
    if not (can_ext_get_pdu_format id == pf)
    then false
    else if not (can_ext_get_ext_data_page id == 0) || not (can_ext_get_data_page id == 0)
    then false
    else if not (can_ext_get_pdu_specific id == can_proto_source_or_default transfer.source_addr)
    then false
    else if not (transfer.target_addr == 0)
        && not (can_ext_get_source_addr id == transfer.target_addr)
    then false
    else true

-- `can_fill_common_frame`; the bytes that the callers then write are `bytes`.
unfoldable pub can_fill_common_frame : ℕ → ℕ → ℕ → List ℕ → Message
can_fill_common_frame pf target_addr source_addr bytes = record {
  id = can_ext_create_id 2 0 0 pf target_addr (can_proto_source_or_default source_addr);
  bytes = bytes;
  data_len = frame_data_len;
  is_remote = false;
}
