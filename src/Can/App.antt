-- ===== src/Can/App.antt =====
-- main/Communication/Can/can_extended.c: the calls that the serial layer makes. A buffer is known by
-- its size.
use esp32aging.Base.{
  ℕ, Bool, true, false, not, ◌||◌, Option, none, some, List, [], ◌∷◌, ltb, if◌then◌else◌, ◌>>=◌, ℤ,
  pos, negsuc,
}
use esp32aging.Can.{Transfer, Message, Twai, nothing, read, write}
use esp32aging.Can.Send.{
  can_send_msg_ticks, Sent, can_send_read_start, can_send_write_sequence, read_start_frame,
}
use esp32aging.Can.Receive.{
  Arrival, Link, Outcome, returned, waiting, can_receive_read_payload, can_receive_write_response,
}

-- `pdata` and its length: NULL, empty or of another size, or one of the three structures.
pub data Buffer : Type 0 where
  invalid : Buffer
  of_transfer : Transfer → Buffer
  of_message : Message → Buffer
  of_twai : Twai → Buffer

-- What a write leaves: the frames that went out, the result, and the flag.
pub record Wrote : Type 0 where
  pub buffer : Buffer
  pub frames : List Twai
  pub result : ℤ
  pub use_send_flag : Bool

-- A call on one frame; `frame` is what went out.
abbrev wrote_one : Bool → Buffer → Option Twai → ℕ → Wrote
wrote_one flag buffer none n = record {
  buffer = buffer;
  frames = [];
  result = negsuc 0;
  use_send_flag = flag;
}
wrote_one flag buffer (some frame) n = record {
  buffer = buffer;
  frames = frame ∷ [];
  result = pos n;
  use_send_flag = true;
}

abbrev wrote_block : Bool → Sent → Wrote
wrote_block flag s = record {
  buffer = of_transfer s.transfer;
  frames = s.frames;
  result = s.result;
  use_send_flag = s.flagged || flag;
}

-- `app_write_Can_data`, with `Use_Send_Flag`; `none` is an access outside of a buffer.
unfoldable pub app_write_can_data : (ℕ → Bool) → Bool → Buffer → Option Wrote
app_write_can_data accepts flag invalid = some (wrote_one flag invalid none 0)
app_write_can_data accepts flag (of_transfer t) = elim t.op [
  | nothing ↦ some (wrote_one flag (of_transfer t) none 0)
  | read ↦ some (wrote_block flag (can_send_read_start accepts t))
  | write ↦ can_send_write_sequence accepts t >>= λ s. some (wrote_block flag s)
]
app_write_can_data accepts flag (of_message msg) =
    some (wrote_one flag (of_message msg) (can_send_msg_ticks (accepts 0) msg) msg.data_len)
app_write_can_data accepts flag (of_twai msg) =
    some (wrote_one flag (of_twai msg) (if accepts 0 then some msg else none) msg.data_length_code)

-- `app_read_Can_data` on a transfer.
unfoldable pub app_read_can_data : ℕ → ℕ → Link → List Arrival → Option Outcome
app_read_can_data deadline timeout_ticks l later = elim l.transfer.op [
  | nothing ↦ some (returned l (negsuc 0))
  | read ↦ can_receive_read_payload deadline timeout_ticks l later
  | write ↦ some (can_receive_write_response deadline timeout_ticks l later)
]

-- `send_control_command`: the frame that it sends.
unfoldable pub send_control_command : Bool → ℕ → ℕ → Option Twai
send_control_command accepted target_addr data_type =
    can_send_msg_ticks accepted (read_start_frame target_addr 0x10 data_type 0x0004 0x000c)

pub data ExchangeResult : Type 0 where
  ok fail timeout pending : ExchangeResult

-- The transfer of `can_ext_send_and_receive`.
abbrev pub exchange_transfer : ℕ → ℕ → List ℕ → ℕ → Transfer
exchange_transfer target_addr cmd send_data send_len = record {
  op = write;
  target_addr = target_addr;
  source_addr = 0x10;
  data_type = cmd;
  offset = 0;
  total = send_len;
  tx_payload = some send_data;
  tx_len = send_len;
  rx_payload = none;
  rx_capacity = 0;
  rx_len = 0;
  crc16 = 0;
  error_code = 0;
}

abbrev is_positive : ℤ → Bool
is_positive (pos n) = ltb 0 n
is_positive (negsuc n) = false

-- `can_ext_send_and_receive` with buffers that are not NULL; `pending` is that the arrivals do not
-- suffice.
unfoldable pub can_ext_send_and_receive :
    (ℕ → Bool) → Bool → ℕ → ℕ → ℕ → ℕ → List ℕ → ℕ → List Arrival → Option ExchangeResult
can_ext_send_and_receive accepts flag deadline timeout_ticks target_addr cmd send_data send_len
      later =
    app_write_can_data accepts flag
      (of_transfer (exchange_transfer target_addr cmd send_data send_len))
    >>= λ w. if not (is_positive w.result) then some fail else elim w.buffer [
      | of_transfer t ↦
          app_read_can_data deadline timeout_ticks
            (record { use_send_flag = w.use_send_flag; transfer = t }) later
          >>= λ o. some (elim o [
            | returned l r ↦ if is_positive r then ok else timeout
            | waiting l ↦ pending
          ])
      | _ ↦ some fail
    ]
