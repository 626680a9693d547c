-- ===== src/Can/Send.antt =====
-- main/Communication/Can/can_extended.c: the frames that a transfer sends. `accepts k` is that the
-- driver is ready and takes the k-th frame of the call in time.
pub mod Laws
use esp32aging.Base.{
  ℕ, zero, suc, ◌+◌, ◌-◌, ◌*◌, ◌/◌, ◌%◌, ◌^◌, ◌≤◌, ◌<◌, bit_and, bit_or, bit_xor, ◌≡◌, refl, sym,
  ap, ap₂, ◌∙◌, subst, ◌≢◌, ◌↔◌, ◌⊎◌, inl, inr, Bool, true, false, not, ◌&&◌, ◌||◌, Option, none,
  some, List, [], ◌∷◌, ◌++◌, map, arith, ltb, leb, ◌==◌, ==_iff, if◌then◌else◌, Bool-cases,
  Option-cases, length, get_elem?, get_or, set, take, drop, replicate, u8, u16, u32, ◌<<<◌, ◌>>>◌,
  ◌>>=◌, fill, dec_lt, dec_le, ℕ_discrete, ℤ, pos, negsuc, signed16, signed32, some_inj, if_cases,
  ltb_ℤ, suc_ℤ, int_max, str_eq, str_eq_iff, is_empty,
}
use esp32aging.Crc.{modbus_crc16}
use esp32aging.Can.{
  Transfer, Message, Twai, Op, nothing, read, write, frame_data_len, frame_payload_len,
  can_msg_to_twai, can_proto_put_u16_le,
}
use esp32aging.Can.Id.{can_fill_common_frame}

-- `can_send_msg_ticks`: the frame that goes out, if it does.
unfoldable pub can_send_msg_ticks : Bool → Message → Option Twai
can_send_msg_ticks accepted msg =
    if ltb frame_data_len msg.data_len || not accepted then none else some (can_msg_to_twai msg)

-- What a call leaves: the transfer, the frames that went out, its result, and whether it sets
-- `Use_Send_Flag`.
pub record Sent : Type 0 where
  pub transfer : Transfer
  pub frames : List Twai
  pub result : ℤ
  pub flagged : Bool

abbrev refused : Transfer → List Twai → Sent
refused transfer frames = record {
  transfer = transfer;
  frames = frames;
  result = negsuc 0;
  flagged = false;
}

-- The frame of `can_send_read_start`, and of `send_control_command`.
unfoldable pub read_start_frame : ℕ → ℕ → ℕ → ℕ → ℕ → Message
read_start_frame target_addr source_addr data_type offset total =
    can_fill_common_frame 0x63 target_addr source_addr
      (data_type ∷ (can_proto_put_u16_le offset ++ (can_proto_put_u16_le total ++ 0 ∷ 0 ∷ 0 ∷ [])))

-- `can_send_read_start`
unfoldable pub can_send_read_start : (ℕ → Bool) → Transfer → Sent
can_send_read_start accepts transfer =
    elim (can_send_msg_ticks (accepts 0) (
      read_start_frame transfer.target_addr transfer.source_addr transfer.data_type transfer.offset
        transfer.total)) [
          | none ↦ refused transfer []
          | some frame ↦ record {
            transfer = transfer;
            frames = frame ∷ [];
            result = pos frame_data_len;
            flagged = true;
          }
        ]

-- The frame that opens a write, and the frames of its bytes.
unfoldable pub write_start_frame : Transfer → Message
write_start_frame t = can_fill_common_frame 0x60 t.target_addr t.source_addr (
    t.data_type
    ∷ (can_proto_put_u16_le t.offset
        ++ (can_proto_put_u16_le t.total ++ (can_proto_put_u16_le t.crc16 ++ 0 ∷ []))))

unfoldable pub write_data_frame : Transfer → ℕ → List ℕ → Message
write_data_frame t packet_no chunk =
    can_fill_common_frame 0x61 t.target_addr t.source_addr
      (t.data_type ∷ packet_no ∷ (chunk ++ replicate (frame_payload_len - length chunk) 0))

-- `memcpy` of `n` bytes from the `i`-th on.
unfoldable pub bytes_at : List ℕ → ℕ → ℕ → Option (List ℕ)
bytes_at payload i n = if ltb (length payload) (i + n) then none else some (take n (drop i payload))

abbrev pub chunk_of : ℕ → ℕ
chunk_of left = if ltb frame_payload_len left then frame_payload_len else left

-- The loop over the bytes from `copied` on: the frames that went out, and whether all did. `none` is
-- a read outside of the payload, or that `fuel` rounds were too few; each round is the k-th sending.
unfoldable pub write_loop :
    (ℕ → Bool) → Transfer → List ℕ → ℕ → ℕ → ℕ → ℕ → Option (List Twai × Bool)
write_loop accepts t payload zero copied packet_no k =
    if ltb copied t.total then none else some ([], true)
write_loop accepts t payload (suc fuel) copied packet_no k =
    let chunk = chunk_of (t.total - copied) in
    let rest =
      write_loop accepts t payload fuel (u16 (copied + chunk)) (u8 (packet_no + 1)) (k + 1) in
    if not (ltb copied t.total)
    then some ([], true)
    else (bytes_at payload copied chunk >>= λ bytes.
        elim (can_send_msg_ticks (accepts k) (write_data_frame t packet_no bytes)) [
          | none ↦ some ([], false)
          | some frame ↦ rest >>= λ r. some (frame ∷ r.0, r.1)
        ])

-- The transfer that `can_send_write_sequence` leaves, with its length and checksum set.
abbrev pub announced : Transfer → ℕ → ℕ → Transfer
announced t total crc = record t { total = total; crc16 = crc; error_code = 0 }

abbrev pub total_of : Transfer → ℕ
total_of t = if t.total == 0 then t.tx_len else t.total

-- The part after the checks: the opening frame, then the bytes.
unfoldable pub send_block : (ℕ → Bool) → Transfer → List ℕ → Option Sent
send_block accepts t payload = elim (can_send_msg_ticks (accepts 0) (write_start_frame t)) [
  | none ↦ some (refused t [])
  | some start ↦ write_loop accepts t payload t.total 0 0 1 >>= λ r. some (
      if r.1
      then record {
        transfer = t;
        frames = start ∷ r.0;
        result = pos (frame_data_len * (1 + length r.0));
        flagged = true;
      }
      else refused t (start ∷ r.0))
]

-- `can_send_write_sequence`
unfoldable pub can_send_write_sequence : (ℕ → Bool) → Transfer → Option Sent
can_send_write_sequence accepts t = elim t.tx_payload [
  | none ↦ some (refused t [])
  | some payload ↦
      if t.tx_len == 0 || ltb t.tx_len (total_of t)
      then some (refused t [])
      else (modbus_crc16 payload (total_of t) >>= λ crc.
          send_block accepts (announced t (total_of t) crc) payload)
]
