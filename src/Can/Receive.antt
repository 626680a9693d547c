-- ===== src/Can/Receive.antt =====
-- main/Communication/Can/can_extended.c: what a transfer receives. Each round of a loop reads the
-- tick count and then waits on the driver's queue; `Arrival` is what one round meets.
pub mod Laws
pub mod Safe
pub mod Ends
pub mod RoundTrip
use esp32aging.Base.{
  ℕ, zero, suc, ◌+◌, ◌-◌, ◌*◌, ◌/◌, ◌%◌, ◌^◌, ◌≤◌, ◌<◌, bit_and, bit_or, bit_xor, ◌≡◌, refl, sym,
  ap, ap₂, ◌∙◌, subst, ◌≢◌, ◌↔◌, ◌⊎◌, inl, inr, Bool, true, false, not, ◌&&◌, ◌||◌, Option, none,
  some, List, [], ◌∷◌, ◌++◌, map, arith, ltb, leb, ◌==◌, ==_iff, if◌then◌else◌, Bool-cases,
  Option-cases, length, get_elem?, get_or, set, take, drop, replicate, u8, u16, u32, ◌<<<◌, ◌>>>◌,
  ◌>>=◌, fill, dec_lt, dec_le, ℕ_discrete, ℤ, pos, negsuc, signed16, signed32, some_inj, if_cases,
  ltb_ℤ, suc_ℤ, int_max, str_eq, str_eq_iff, is_empty,
}
use esp32aging.Crc.{modbus_crc16}
use esp32aging.Can.{
  Transfer, Message, Twai, frame_data_len, frame_payload_len, twai_to_can_msg, can_proto_get_u16_le,
}
use esp32aging.Can.Id.{can_match_response_id}
use esp32aging.Can.Ticks.{timed_out}
use esp32aging.Can.Send.{chunk_of}

-- What the queue gives: the driver is not ready, nothing came in time, or a frame.
pub data Received : Type 0 where
  not_ready nothing_came : Received
  came : Twai → Received

pub record Arrival : Type 0 where
  pub now : ℕ
  pub received : Received

-- `Use_Send_Flag` and the transfer.
pub record Link : Type 0 where
  pub use_send_flag : Bool
  pub transfer : Transfer

-- How a call ends, if its arrivals suffice: it returns, or still waits.
pub data Outcome : Type 0 where
  returned : Link → ℤ → Outcome
  waiting : Link → Outcome

-- `can_recv_twai_from_queue`: the flag, the result, and the frame if there is one.
unfoldable pub can_recv_twai_from_queue : Bool → Received → Bool × ℤ × Option Twai
can_recv_twai_from_queue flag not_ready = (flag, negsuc 0, none)
can_recv_twai_from_queue flag nothing_came = (false, (if flag then negsuc 4 else negsuc 0), none)
can_recv_twai_from_queue flag (came msg) = (false, pos msg.data_length_code, some msg)

-- `can_recv_msg_from_queue`
unfoldable pub can_recv_msg_from_queue : Bool → Received → Bool × ℤ × Option Message
can_recv_msg_from_queue flag received =
    let got = can_recv_twai_from_queue flag received in
    elim got.2 [
      | none ↦ (got.0, got.1, none)
      | some twai ↦ let msg = twai_to_can_msg twai in (got.0, pos msg.data_len, some msg)
    ]

abbrev pub with_error : Transfer → ℕ → Transfer
with_error t code = record t { error_code = code }

-- One round: the call ends, or it has a frame to look at.
pub data Round : Type 0 where
  over : Link → ℤ → Round
  look : Link → Message → Round

-- The part that all three loops begin with; 6 is CAN_PROTO_ACK_TIMEOUT.
unfoldable pub wait_round : ℕ → ℕ → Link → Arrival → Round
wait_round deadline timeout_ticks l a =
    if timed_out deadline timeout_ticks a.now
    then over (record { use_send_flag = false; transfer = with_error l.transfer 6 }) (negsuc 4)
    else let got = can_recv_msg_from_queue l.use_send_flag a.received in
      elim got.2 [
        | none ↦ over (record { use_send_flag = got.0; transfer = with_error l.transfer 6 }) got.1
        | some msg ↦ look (record l { use_send_flag = got.0 }) msg
      ]

abbrev set_transfer : Link → Transfer → Link
set_transfer l t = record l { transfer = t }

-- What a loop does with a frame: pass over it, return, or go on to the next part; `faulted` is an
-- access outside of a buffer.
pub data Next : Type 0 where
  skip : Link → Next
  stop : Link → ℤ → Next
  go_on : Link → Next
  faulted : Next

-- A frame while the opening frame of a read is awaited.
unfoldable pub on_start : Link → Message → Next
on_start l msg =
    let t = l.transfer in
    if not (can_match_response_id msg.id t 0x64)
    then skip l
    else if ltb msg.data_len frame_data_len || not (get_or msg.bytes 0 0 == t.data_type)
    then skip l
    else let t' = record t { crc16 = can_proto_get_u16_le msg.bytes 5 } in
      if not (can_proto_get_u16_le msg.bytes 1 == t.offset)
      then stop (set_transfer l (with_error t' 5)) (negsuc 0)
      else if ltb t.rx_capacity (can_proto_get_u16_le msg.bytes 3)
      then stop (set_transfer l (with_error t' 2)) (negsuc 0)
      else go_on (set_transfer l (record t' { total = can_proto_get_u16_le msg.bytes 3 }))

-- `memcpy` of `chunk` bytes into the receive buffer at `rx_len`.
unfoldable pub append_bytes : Link → ℕ → List ℕ → Next
append_bytes l chunk bytes = elim l.transfer.rx_payload [
  | none ↦ faulted
  | some buffer ↦ elim (fill buffer l.transfer.rx_len bytes) [
    | none ↦ faulted
    | some buffer' ↦ go_on (
        set_transfer l (record l.transfer {
          rx_payload = some buffer';
          rx_len = u16 (l.transfer.rx_len + chunk);
        }))
  ]
]

-- A frame while `expected` bytes are awaited, of which `rx_len` are there.
unfoldable pub on_load : ℕ → ℕ → Link → Message → Next
on_load expected packet_no l msg =
    let t = l.transfer in
    if not (can_match_response_id msg.id t 0x65)
    then skip l
    else if ltb msg.data_len 2 || not (get_or msg.bytes 0 0 == t.data_type)
    then skip l
    else if not (get_or msg.bytes 1 0 == packet_no)
    then stop (set_transfer l (with_error t 3)) (negsuc 0)
    else let chunk = chunk_of (expected - t.rx_len) in
      if ltb (msg.data_len - 2) chunk
      then stop (set_transfer l (with_error t 3)) (negsuc 0)
      else append_bytes l chunk (take chunk (drop 2 msg.bytes))

-- The end of a read: the checksum of what came.
unfoldable pub finish_read : Link → Option Outcome
finish_read l =
    let t = l.transfer in
    t.rx_payload >>= λ buffer. modbus_crc16 buffer t.rx_len >>= λ crc. some (
      if not (crc == t.crc16)
      then returned (set_transfer l (with_error t 4)) (negsuc 0)
      else returned l (pos t.rx_len))

unfoldable pub load_round : ℕ → ℕ → ℕ → ℕ → Link → Arrival → Next
load_round deadline timeout_ticks expected packet_no l a =
    elim (wait_round deadline timeout_ticks l a) [
      | over l' r ↦ stop l' r
      | look l' msg ↦ on_load expected packet_no l' msg
    ]

-- The loop over the bytes.
unfoldable pub load_loop : ℕ → ℕ → ℕ → ℕ → Link → List Arrival → Option Outcome
load_loop deadline timeout_ticks expected packet_no l [] =
    if ltb l.transfer.rx_len expected then some (waiting l) else finish_read l
load_loop deadline timeout_ticks expected packet_no l (a ∷ later) =
    elim (ltb l.transfer.rx_len expected) [
      | false ↦ finish_read l
      | true ↦ elim (load_round deadline timeout_ticks expected packet_no l a) [
        | skip l' ↦ load_loop deadline timeout_ticks expected packet_no l' later
        | go_on l' ↦ load_loop deadline timeout_ticks expected (u8 (packet_no + 1)) l' later
        | stop l' r ↦ some (returned l' r)
        | faulted ↦ none
      ]
    ]

unfoldable pub start_round : ℕ → ℕ → Link → Arrival → Next
start_round deadline timeout_ticks l a = elim (wait_round deadline timeout_ticks l a) [
  | over l' r ↦ stop l' r
  | look l' msg ↦ on_start l' msg
]

-- The loop for the opening frame, and what follows it.
unfoldable pub start_loop : ℕ → ℕ → Link → List Arrival → Option Outcome
start_loop deadline timeout_ticks l [] = some (waiting l)
start_loop deadline timeout_ticks l (a ∷ later) = elim (start_round deadline timeout_ticks l a) [
  | skip l' ↦ start_loop deadline timeout_ticks l' later
  | go_on l' ↦ load_loop deadline timeout_ticks l'.transfer.total 0 l' later
  | stop l' r ↦ some (returned l' r)
  | faulted ↦ none
]

-- `can_receive_read_payload`; `none` is an access outside of a buffer.
unfoldable pub can_receive_read_payload : ℕ → ℕ → Link → List Arrival → Option Outcome
can_receive_read_payload deadline timeout_ticks l later =
    let t = l.transfer in
    elim t.rx_payload [
      | none ↦ some (returned l (negsuc 0))
      | some buffer ↦
          if t.rx_capacity == 0
          then some (returned l (negsuc 0))
          else start_loop deadline timeout_ticks
              (set_transfer l (record t { rx_len = 0; error_code = 0 })) later
    ]

abbrev negative : ℕ → ℤ
negative zero = pos 0
negative (suc n) = negsuc n

-- A frame while the response to a write is awaited.
unfoldable pub on_response : Link → Message → Next
on_response l msg =
    let t = l.transfer in
    if not (can_match_response_id msg.id t 0x62)
    then skip l
    else if ltb msg.data_len frame_data_len || not (get_or msg.bytes 0 0 == t.data_type)
    then skip l
    else let code = can_proto_get_u16_le msg.bytes 5 in
      let l' = set_transfer l (with_error t code) in
      if not (can_proto_get_u16_le msg.bytes 1 == t.offset)
        || not (can_proto_get_u16_le msg.bytes 3 == t.total)
      then stop l' (negsuc 0)
      else if not (code == 0)
      then stop l' (negative code)
      else stop l' (pos frame_data_len)

unfoldable pub response_round : ℕ → ℕ → Link → Arrival → Next
response_round deadline timeout_ticks l a = elim (wait_round deadline timeout_ticks l a) [
  | over l' r ↦ stop l' r
  | look l' msg ↦ on_response l' msg
]

-- `can_receive_write_response`
unfoldable pub can_receive_write_response : ℕ → ℕ → Link → List Arrival → Outcome
can_receive_write_response deadline timeout_ticks l [] = waiting l
can_receive_write_response deadline timeout_ticks l (a ∷ later) =
    elim (response_round deadline timeout_ticks l a) [
      | skip l' ↦ can_receive_write_response deadline timeout_ticks l' later
      | go_on l' ↦ waiting l'
      | stop l' r ↦ returned l' r
      | faulted ↦ waiting l
    ]
