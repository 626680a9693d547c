-- ===== src/Can.antt =====
-- main/Communication/Can/can_extended.c and main/Protocol/Can/can_protocol_ext.h: extended CAN
-- frames, and the transfers of whole blocks in frames of six payload bytes.
pub mod Id
pub mod Ticks
pub mod Send
pub mod Receive
pub mod App
mod Examples
use esp32aging.Base.{
  ℕ, zero, suc, ◌+◌, ◌-◌, ◌*◌, ◌/◌, ◌%◌, ◌^◌, ◌≤◌, ◌<◌, bit_and, bit_or, bit_xor, ◌≡◌, refl, sym,
  ap, ap₂, ◌∙◌, subst, ◌≢◌, ◌↔◌, ◌⊎◌, inl, inr, Bool, true, false, not, ◌&&◌, ◌||◌, Option, none,
  some, List, [], ◌∷◌, ◌++◌, map, arith, ltb, leb, ◌==◌, ==_iff, if◌then◌else◌, Bool-cases,
  Option-cases, length, get_elem?, get_or, set, take, drop, replicate, u8, u16, u32, ◌<<<◌, ◌>>>◌,
  ◌>>=◌, fill, dec_lt, dec_le, ℕ_discrete, ℤ, pos, negsuc, signed16, signed32, some_inj, if_cases,
  ltb_ℤ, suc_ℤ, int_max, str_eq, str_eq_iff, is_empty,
}

-- `can_ext_operation_t` and `can_ext_transfer_t`. A pointer is `none` if it is NULL, and otherwise
-- the bytes of its buffer; `total` is the field `length`.
pub data Op : Type 0 where
  nothing read write : Op

pub record Transfer : Type 0 where
  pub op : Op
  pub target_addr : ℕ
  pub source_addr : ℕ
  pub data_type : ℕ
  pub offset : ℕ
  pub total : ℕ
  pub tx_payload : Option (List ℕ)
  pub tx_len : ℕ
  pub rx_payload : Option (List ℕ)
  pub rx_capacity : ℕ
  pub rx_len : ℕ
  pub crc16 : ℕ
  pub error_code : ℕ

-- `can_message_ext_t` and the driver's `twai_message_t`; both have eight bytes.
pub record Message : Type 0 where
  pub id : ℕ
  pub bytes : List ℕ
  pub data_len : ℕ
  pub is_remote : Bool

pub record Twai : Type 0 where
  pub identifier : ℕ
  pub data_length_code : ℕ
  pub rtr : Bool
  pub bytes : List ℕ

abbrev pub frame_data_len : ℕ
frame_data_len = 8

abbrev pub frame_payload_len : ℕ
frame_payload_len = 6

-- `memset` to zero and `memcpy` of the first `n` bytes.
abbrev first_bytes : ℕ → List ℕ → List ℕ
first_bytes n bytes = take n bytes ++ replicate (frame_data_len - n) 0

-- `can_msg_to_twai`
unfoldable pub can_msg_to_twai : Message → Twai
can_msg_to_twai src =
    let n = if ltb frame_data_len src.data_len then frame_data_len else src.data_len in
    record {
      identifier = src.id;
      data_length_code = n;
      rtr = src.is_remote;
      bytes = if src.is_remote then replicate frame_data_len 0 else first_bytes n src.bytes;
    }

-- `twai_to_can_msg`
unfoldable pub twai_to_can_msg : Twai → Message
twai_to_can_msg src =
    let n =
      if ltb frame_data_len src.data_length_code then frame_data_len else src.data_length_code in
    record {
      id = src.identifier;
      bytes = if src.rtr then replicate frame_data_len 0 else first_bytes n src.bytes;
      data_len = n;
      is_remote = src.rtr;
    }

-- `can_proto_get_u16_le` of the bytes from `i` on, `can_proto_put_u16_le` and
-- `can_proto_source_or_default`.
unfoldable pub can_proto_get_u16_le : List ℕ → ℕ → ℕ
can_proto_get_u16_le p i = bit_or (get_or p i 0) (get_or p (i + 1) 0 <<< 8)

unfoldable pub can_proto_put_u16_le : ℕ → List ℕ
can_proto_put_u16_le v = u8 (bit_and v 0xff) ∷ u8 (bit_and (v >>> 8) 0xff) ∷ []

unfoldable pub can_proto_source_or_default : ℕ → ℕ
can_proto_source_or_default source_addr = if source_addr == 0 then 0x10 else source_addr
