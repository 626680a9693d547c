-- ===== src/Can/Receive/RoundTrip/Read.antt =====
-- The opening frame of a device's answer, and the read as a whole.
use esp32aging.Base.{
  ℕ, ◌*◌, ◌/◌, ◌%◌, ◌^◌, ◌≤◌, ◌<◌, bit_and, bit_or, ◌≡◌, refl, ap, ap₂, ◌∙◌, Bool, true, false, not,
  ◌||◌, Option, none, some, List, [], ◌∷◌, ◌++◌, arith, ltb, ◌==◌, if◌then◌else◌, length, get_or,
  drop, u8, pos, negsuc, bit_and-byte, IsBytes, bit_or_comm, bit_or_disjoint,
}
use esp32aging.Modbus.Frames.{crc_of, crc_of-lt, modbus_crc16-append, IsBytes-drop}
use esp32aging.Can.{
  Transfer, Message, Twai, can_proto_get_u16_le, can_proto_put_u16_le, frame_data_len,
  twai_to_can_msg,
}
use esp32aging.Can.Id.{can_match_response_id}
use esp32aging.Can.Ticks.{timed_out}
use esp32aging.Can.Receive.{
  came, Arrival, Link, Outcome, returned, Next, skip, stop, go_on, faulted, on_start, finish_read,
  load_loop, start_round, start_loop, can_receive_read_payload, set_transfer,
}
use esp32aging.Can.Receive.RoundTrip.{full_frame, Delivers, at, load_loop-Delivers, wait_round-look}

-- The frame that opens an answer.
abbrev pub start_bytes : Transfer → List ℕ → List ℕ
start_bytes t payload =
    t.data_type
    ∷ (can_proto_put_u16_le t.offset
        ++ (can_proto_put_u16_le (length payload)
            ++ (can_proto_put_u16_le (crc_of payload) ++ 0 ∷ [])))

-- The transfer when that frame has come.
abbrev pub opened : Transfer → List ℕ → Transfer
opened t payload = record t {
  rx_len = 0;
  error_code = 0;
  crc16 = crc_of payload;
  total = length payload;
}

-- What comes while a read waits: frames that are not for it, its opening frame, and the bytes.
module _ (t : Transfer) (deadline timeout_ticks : ℕ) (payload : List ℕ) where
  pub data Answers : List Arrival → Type 0 where
    foreign :
        (now : ℕ) (twai : Twai) (later : List Arrival)
        → timed_out deadline timeout_ticks now ≡ false
        → can_match_response_id twai.identifier t 0x64 ≡ false
        → Answers later
        → Answers (record { now = now; received = came twai } ∷ later)
    opening :
        (now id : ℕ) (later : List Arrival)
        → timed_out deadline timeout_ticks now ≡ false
        → can_match_response_id id t 0x64 ≡ true
        → Delivers (opened t payload) deadline timeout_ticks 0 payload later
        → Answers
            (record { now = now; received = came (full_frame id (start_bytes t payload)) } ∷ later)

u16_le :
    (v : ℕ) → v < 2 ^ 16 → bit_or (u8 (bit_and v 0xff)) (u8 (bit_and (v / 256) 0xff) * 2 ^ 8) ≡ v
u16_le v h =
    rw (bit_and-byte v, bit_and-byte (v / 256))
      (bit_or_comm (v % 256 % 256) (v / 256 % 256 % 256 * 2 ^ 8)
        ∙ bit_or_disjoint 8 (v / 256 % 256 % 256) (v % 256 % 256) (omega arith)
        ∙ omega arith)

module _ (t : Transfer) (payload : List ℕ) (id : ℕ) where
  opening_message : Message
  opening_message = twai_to_can_msg (full_frame id (start_bytes t payload))

  -- What the opening frame says is read back.
  opening_message_words :
      t.offset < 2 ^ 16
      → length payload < 2 ^ 16
      → crc_of payload < 2 ^ 16
      → (can_proto_get_u16_le opening_message.bytes 1 ≡ t.offset)
        × (can_proto_get_u16_le opening_message.bytes 3 ≡ length payload)
        × (can_proto_get_u16_le opening_message.bytes 5 ≡ crc_of payload)
  unfolding opening_message twai_to_can_msg can_proto_get_u16_le can_proto_put_u16_le
  opening_message_words h1 h2 h3 =
      (u16_le t.offset h1, u16_le (length payload) h2, u16_le (crc_of payload) h3)

-- A frame that passes the tests opens the answer.
on_start-eq-go_on :
    (l : Link) (msg : Message)
    → not (can_match_response_id msg.id l.transfer 0x64) ≡ false
    → (ltb msg.data_len frame_data_len || not (get_or msg.bytes 0 0 == l.transfer.data_type))
      ≡ false
    → not (can_proto_get_u16_le msg.bytes 1 == l.transfer.offset) ≡ false
    → ltb l.transfer.rx_capacity (can_proto_get_u16_le msg.bytes 3) ≡ false
    → on_start l msg
      ≡ go_on (
          set_transfer l (record l.transfer {
            crc16 = can_proto_get_u16_le msg.bytes 5;
            total = can_proto_get_u16_le msg.bytes 3;
          }))
unfolding on_start
on_start-eq-go_on l msg e1 e2 e3 e4 = rw (on_start, e1, e2, e3, e4) refl

module _ (t : Transfer) (payload : List ℕ) (offset_word : t.offset < 2 ^ 16)
    (capacity : length payload ≤ t.rx_capacity) (word : t.rx_capacity < 2 ^ 16)
    (bytes : IsBytes payload) where
  abbrev begun : Bool → Link
  begun flag = record { use_send_flag = flag; transfer = record t { rx_len = 0; error_code = 0 } }

  match-begun :
      (id pf : ℕ) (flag : Bool)
      → can_match_response_id id (begun flag).transfer pf ≡ can_match_response_id id t pf
  unfolding can_match_response_id
  match-begun id pf flag = refl

  on_start-opens :
      (id : ℕ)
      → can_match_response_id id t 0x64 ≡ true
      → on_start (begun false) (opening_message t payload id)
        ≡ go_on (record { use_send_flag = false; transfer = opened t payload })
  unfolding opening_message twai_to_can_msg
  on_start-opens id m =
      let words =
        opening_message_words t payload id offset_word (omega (arith, capacity, word))
          (crc_of-lt payload bytes) in
      on_start-eq-go_on (begun false) (opening_message t payload id)
        (ap not (match-begun id 0x64 false ∙ m)) (ground arith) (ground (arith, words.0))
        (ground (arith, words.1, capacity))
      ∙ ap₂
          (λ crc total. go_on (record {
            use_send_flag = false;
            transfer = record t { rx_len = 0; error_code = 0; crc16 = crc; total = total };
          }))
          words.2 words.1

  module _ (buffer : List ℕ) (e : t.rx_payload ≡ some buffer)
      (room : length payload ≤ length buffer) (buffer_bytes : IsBytes buffer) where
    abbrev unused : List ℕ
    unused = drop (length payload) buffer

    -- The link at the end.
    abbrev ending : Link
    ending = at (opened t payload) payload unused

    finish_read-ending : finish_read ending ≡ some (returned ending (pos (length payload)))
    unfolding finish_read
    finish_read-ending =
        rw
          (
            finish_read,
            modbus_crc16-append payload unused bytes
                (IsBytes-drop (length payload) buffer buffer_bytes) (omega (arith, capacity, word)),
          )
          (ground arith)

    -- The loop for the opening frame by one round.
    abbrev started : ℕ → ℕ → List Arrival → Next → Option Outcome
    started deadline timeout_ticks later (skip l) = start_loop deadline timeout_ticks l later
    started deadline timeout_ticks later (go_on l) =
        load_loop deadline timeout_ticks l.transfer.total 0 l later
    started deadline timeout_ticks later (stop l r) = some (returned l r)
    started deadline timeout_ticks later faulted = none

    on_start-skips :
        (twai : Twai)
        → can_match_response_id twai.identifier t 0x64 ≡ false
        → on_start (begun false) (twai_to_can_msg twai) ≡ skip (begun false)
    unfolding on_start twai_to_can_msg
    on_start-skips twai m = rw (on_start, match-begun twai.identifier 0x64 false ∙ m) refl

    module _ (deadline timeout_ticks now : ℕ) (flag : Bool)
        (i : timed_out deadline timeout_ticks now ≡ false) where
      start_round-skips :
          (twai : Twai)
          → can_match_response_id twai.identifier t 0x64 ≡ false
          → start_round deadline timeout_ticks
              (begun flag)
              (record { now = now; received = came twai })
            ≡ skip (begun false)
      unfolding start_round
      start_round-skips twai m =
          rw (start_round, wait_round-look deadline timeout_ticks now twai (begun flag) i)
            (on_start-skips twai m)

      start_round-opens :
          (id : ℕ)
          → can_match_response_id id t 0x64 ≡ true
          → start_round deadline timeout_ticks
              (begun flag)
              (record { now = now; received = came (full_frame id (start_bytes t payload)) })
            ≡ go_on (record { use_send_flag = false; transfer = opened t payload })
      unfolding start_round opening_message
      start_round-opens id m =
          rw
            (
              start_round,
              wait_round-look deadline timeout_ticks now (full_frame id (start_bytes t payload))
                  (begun flag) i,
            )
            (on_start-opens id m)

    start_loop-Answers :
        (deadline timeout_ticks : ℕ) (later : List Arrival)
        → Answers t deadline timeout_ticks payload later
        → (flag : Bool) → start_loop deadline timeout_ticks (begun flag) later ≡ finish_read ending
    unfolding start_loop
    start_loop-Answers deadline timeout_ticks _ (foreign now twai later i m d) flag =
        ap (λ n. started deadline timeout_ticks later n)
          (start_round-skips deadline timeout_ticks now flag i twai m)
        ∙ start_loop-Answers deadline timeout_ticks later d false
    start_loop-Answers deadline timeout_ticks _ (opening now id later i m d) flag =
        ap (λ n. started deadline timeout_ticks later n)
          (start_round-opens deadline timeout_ticks now flag i id m)
        ∙ ap
            (λ p.
              load_loop deadline timeout_ticks (length payload) 0
                (record {
                  use_send_flag = false;
                  transfer = record (opened t payload) { rx_payload = p };
                })
                later)
            e
        ∙ load_loop-Delivers (opened t payload) deadline timeout_ticks 0 payload later d
            (length payload) [] buffer (omega arith) (omega (arith, capacity, word)) room

-- A read into a buffer that can take what the device announces returns the number of bytes that the
-- device sends, and they lie at the start of the buffer, whose other bytes are as before; no error
-- code is set. The capacity is not 0, fits 16 bits and is at most the size of the buffer, the offset
-- fits 16 bits, and all frames come in time. They may come between frames that are not for this read, in any number of
-- packets, the numbers of which wrap at 256.
pub can_receive_read_payload_lem :
    (deadline timeout_ticks : ℕ) (flag : Bool) (t : Transfer) (payload buffer : List ℕ)
    (later : List Arrival)
    → Answers t deadline timeout_ticks payload later
    → t.rx_payload ≡ some buffer
    → t.offset < 2 ^ 16
    → 0 < t.rx_capacity
    → length payload ≤ t.rx_capacity
    → t.rx_capacity ≤ length buffer
    → t.rx_capacity < 2 ^ 16
    → IsBytes payload
    → IsBytes buffer
    → (l : Link) × (can_receive_read_payload deadline timeout_ticks
          (record { use_send_flag = flag; transfer = t })
          later
        ≡ some (returned l (pos (length payload))))
      × (l.transfer.rx_payload ≡ some (payload ++ drop (length payload) buffer))
      × (l.transfer.rx_len ≡ length payload)
      × (l.transfer.error_code ≡ 0)
unfolding can_receive_read_payload
can_receive_read_payload_lem deadline timeout_ticks flag t payload buffer later d e ho hz hc hb hw
      bytes buffer_bytes =
    (
      ending t payload ho hc hw bytes buffer e (omega arith) buffer_bytes,
      go t.rx_payload e
          ∙ start_loop-Answers t payload ho hc hw bytes buffer e (omega arith) buffer_bytes deadline
              timeout_ticks later d flag
          ∙ finish_read-ending t payload ho hc hw bytes buffer e (omega arith) buffer_bytes,
      refl,
      refl,
      refl,
    )
  where
    loop : Option Outcome
    loop =
        start_loop deadline timeout_ticks
          (record { use_send_flag = flag; transfer = record t { rx_len = 0; error_code = 0 } })
          later

    refusal : Option Outcome
    refusal = some (returned (record { use_send_flag = flag; transfer = t }) (negsuc 0))

    go :
        (p : Option (List ℕ))
        → p ≡ some buffer
        → elim p [ none ↦ refusal | some b ↦ if t.rx_capacity == 0 then refusal else loop ] ≡ loop
    go none h = cc
    go (some b) h = ground arith
