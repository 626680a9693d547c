-- ===== src/Can/Receive/RoundTrip.antt =====
-- What a device sends in answer to a read arrives, also between the frames of other devices.
pub mod Read
use esp32aging.Base.{
  take_all, drop-drop, ℕ, zero, suc, ◌+◌, ◌-◌, ◌*◌, ◌/◌, ◌%◌, ◌^◌, ◌≤◌, ◌<◌, bit_and, bit_or,
  bit_xor, ◌≡◌, refl, sym, ap, ap₂, ◌∙◌, subst, ◌≢◌, ◌↔◌, ◌⊎◌, inl, inr, Bool, true, false, not,
  ◌&&◌, ◌||◌, Option, none, some, List, [], ◌∷◌, ◌++◌, map, arith, ltb, leb, ◌==◌, ==_iff,
  if◌then◌else◌, Bool-cases, Option-cases, length, get_elem?, get_or, set, take, drop, replicate,
  u8, u16, u32, ◌<<<◌, ◌>>>◌, ◌>>=◌, fill, dec_lt, dec_le, ℕ_discrete, ℤ, pos, negsuc, signed16,
  signed32, some_inj, if_cases, ltb_ℤ, suc_ℤ, int_max, str_eq, str_eq_iff, is_empty, fill_lem,
  length-drop, append_assoc, append-nil, length-append, take-length-append,
}
use esp32aging.Crc.{modbus_crc16}
use esp32aging.Can.{
  Transfer, Message, Twai, can_proto_get_u16_le, can_proto_put_u16_le, frame_data_len,
  frame_payload_len, twai_to_can_msg,
}
use esp32aging.Can.Id.{can_match_response_id}
use esp32aging.Can.Ticks.{timed_out}
use esp32aging.Can.Send.{chunk_of}
use esp32aging.Can.Receive.{
  Received, came, Arrival, Link, Outcome, returned, waiting, Round, over, look, wait_round,
  with_error, Next, skip, stop, go_on, faulted, on_start, on_load, append_bytes, finish_read,
  load_round, load_loop, start_round, start_loop, can_receive_read_payload, can_recv_msg_from_queue,
  can_recv_twai_from_queue, set_transfer,
}

-- A full frame with eight bytes.
abbrev pub full_frame : ℕ → List ℕ → Twai
full_frame id bytes = record { identifier = id; data_length_code = 8; rtr = false; bytes = bytes }

-- A frame that passes the tests is stored.
on_load-eq-append_bytes :
    (expected packet_no : ℕ) (l : Link) (msg : Message)
    → not (can_match_response_id msg.id l.transfer 0x65) ≡ false
    → (ltb msg.data_len 2 || not (get_or msg.bytes 0 0 == l.transfer.data_type)) ≡ false
    → not (get_or msg.bytes 1 0 == packet_no) ≡ false
    → ltb (msg.data_len - 2) (chunk_of (expected - l.transfer.rx_len)) ≡ false
    → let chunk = chunk_of (expected - l.transfer.rx_len) in
      on_load expected packet_no l msg ≡ append_bytes l chunk (take chunk (drop 2 msg.bytes))
unfolding on_load
on_load-eq-append_bytes expected packet_no l msg e1 e2 e3 e4 = rw (e1, e2, e3, e4) refl

-- The loop over the bytes by one round.
abbrev act : ℕ → ℕ → ℕ → ℕ → List Arrival → Next → Option Outcome
act deadline timeout_ticks expected packet_no later (skip l) =
    load_loop deadline timeout_ticks expected packet_no l later
act deadline timeout_ticks expected packet_no later (go_on l) =
    load_loop deadline timeout_ticks expected (u8 (packet_no + 1)) l later
act deadline timeout_ticks expected packet_no later (stop l r) = some (returned l r)
act deadline timeout_ticks expected packet_no later faulted = none

load_loop-more :
    (deadline timeout_ticks expected packet_no : ℕ) (l : Link) (a : Arrival) (later : List Arrival)
    → ltb l.transfer.rx_len expected ≡ true
    → load_loop deadline timeout_ticks expected packet_no l (a ∷ later)
      ≡ act deadline timeout_ticks expected packet_no later
          (load_round deadline timeout_ticks expected packet_no l a)
unfolding load_loop
load_loop-more deadline timeout_ticks expected packet_no l a later more = rw (load_loop, more) refl

load_loop-end :
    (deadline timeout_ticks expected packet_no : ℕ) (l : Link) (later : List Arrival)
    → ltb l.transfer.rx_len expected ≡ false
    → load_loop deadline timeout_ticks expected packet_no l later ≡ finish_read l
unfolding load_loop
load_loop-end deadline timeout_ticks expected packet_no l [] end = rw (load_loop, end) refl
load_loop-end deadline timeout_ticks expected packet_no l (a ∷ later) end = rw (load_loop, end) refl

-- A frame that comes in time is looked at.
pub wait_round-look :
    (deadline timeout_ticks now : ℕ) (twai : Twai) (l : Link)
    → timed_out deadline timeout_ticks now ≡ false
    → wait_round deadline timeout_ticks l (record { now = now; received = came twai })
      ≡ look (record l { use_send_flag = false }) (twai_to_can_msg twai)
unfolding wait_round can_recv_msg_from_queue can_recv_twai_from_queue
wait_round-look deadline timeout_ticks now twai l in_time = rw in_time refl

module _ (t : Transfer) where
  -- The link after the bytes `got`, with `unused` behind them in the buffer.
  abbrev pub at : List ℕ → List ℕ → Link
  at got unused = record {
    use_send_flag = false;
    transfer = record t { rx_payload = some (got ++ unused); rx_len = length got };
  }

  match-at :
      (id pf : ℕ) (got unused : List ℕ)
      → can_match_response_id id (at got unused).transfer pf ≡ can_match_response_id id t pf
  unfolding can_match_response_id
  match-at id pf got unused = refl

  append_bytes-at :
      (got unused chunk : List ℕ)
      → length got + length chunk < 2 ^ 16
      → length chunk ≤ length unused
      → append_bytes (at got unused) (length chunk) chunk
        ≡ go_on (at (got ++ chunk) (drop (length chunk) unused))
  unfolding append_bytes
  append_bytes-at got unused chunk w r =
      rw
        (
          append_bytes,
          fill_lem got chunk unused r,
          append_assoc got chunk (drop (length chunk) unused),
        )
        (ap
          (λ (k : ℕ). go_on (record {
            use_send_flag = false;
            transfer = record t {
              rx_payload = some (got ++ (chunk ++ drop (length chunk) unused));
              rx_len = k;
            };
          }))
          (omega (arith, length-append got chunk)))

  -- A frame of the transfer is stored.
  on_load-stores :
      (expected n id : ℕ) (got unused chunk pad : List ℕ)
      → can_match_response_id id t 0x65 ≡ true
      → length chunk ≡ chunk_of (expected - length got)
      → length (chunk ++ pad) ≡ frame_payload_len
      → length got + length chunk < 2 ^ 16
      → length chunk ≤ length unused
      → on_load expected n
          (at got unused)
          (twai_to_can_msg (full_frame id (t.data_type ∷ n ∷ (chunk ++ pad))))
        ≡ go_on (at (got ++ chunk) (drop (length chunk) unused))
  unfolding twai_to_can_msg
  on_load-stores expected n id got unused chunk pad m c f w r =
      on_load-eq-append_bytes expected n (at got unused)
        (twai_to_can_msg (full_frame id (t.data_type ∷ n ∷ (chunk ++ pad))))
        (ap not (match-at id 0x65 got unused ∙ m)) (ground arith) (ground arith) (ground arith)
      ∙ ap₂ (append_bytes (at got unused)) (sym c) (
          ap₂ take (sym c)
            (ap (λ p. p ++ []) (take_all 6 (chunk ++ pad) f) ∙ append-nil (chunk ++ pad))
          ∙ take-length-append chunk pad)
      ∙ append_bytes-at got unused chunk w r

-- What comes while `rest` is awaited, from the `n`-th packet on: at any time frames that are not for
-- this transfer, and its own frames, each with the next six bytes or with the last ones. All of it
-- comes in time.
module _ (t : Transfer) (deadline timeout_ticks : ℕ) where
  pub data Delivers : ℕ → List ℕ → List Arrival → Type 0 where
    done : (n : ℕ) (later : List Arrival) → Delivers n [] later
    noise :
        (n b now : ℕ) (rest : List ℕ) (twai : Twai) (later : List Arrival)
        → timed_out deadline timeout_ticks now ≡ false
        → can_match_response_id twai.identifier t 0x65 ≡ false
        → Delivers n (b ∷ rest) later
        → Delivers n (b ∷ rest) (record { now = now; received = came twai } ∷ later)
    load :
        (n b now id : ℕ) (bs rest pad : List ℕ) (later : List Arrival)
        → timed_out deadline timeout_ticks now ≡ false
        → can_match_response_id id t 0x65 ≡ true
        → length (b ∷ bs) ≡ chunk_of (length (b ∷ (bs ++ rest)))
        → length ((b ∷ bs) ++ pad) ≡ frame_payload_len
        → Delivers (u8 (n + 1)) rest later
        → Delivers n (b ∷ (bs ++ rest)) (
            record {
              now = now;
              received = came (full_frame id (t.data_type ∷ n ∷ ((b ∷ bs) ++ pad)));
            }
            ∷ later)

  module _ (n now : ℕ) (twai : Twai) (in_time : timed_out deadline timeout_ticks now ≡ false) where
    load_round-eq-on_load :
        (expected : ℕ) (got unused : List ℕ)
        → load_round deadline timeout_ticks expected n
            (at t got unused)
            (record { now = now; received = came twai })
          ≡ on_load expected n (at t got unused) (twai_to_can_msg twai)
    unfolding load_round
    load_round-eq-on_load expected got unused =
        rw (load_round, wait_round-look deadline timeout_ticks now twai (at t got unused) in_time)
          refl

    load_round-skips :
        (expected : ℕ) (got unused : List ℕ)
        → can_match_response_id twai.identifier t 0x65 ≡ false
        → load_round deadline timeout_ticks expected n
            (at t got unused)
            (record { now = now; received = came twai })
          ≡ skip (at t got unused)
    unfolding on_load twai_to_can_msg
    load_round-skips expected got unused m =
        load_round-eq-on_load expected got unused
        ∙ rw (on_load, match-at t twai.identifier 0x65 got unused ∙ m) refl

  -- The whole loop.
  pub load_loop-Delivers :
      (n : ℕ) (rest : List ℕ) (later : List Arrival)
      → Delivers n rest later
      → (expected : ℕ) (got unused : List ℕ) → expected ≡ length got + length rest
      → expected < 2 ^ 16
      → length rest ≤ length unused
      → load_loop deadline timeout_ticks expected n (at t got unused) later
        ≡ finish_read (at t (got ++ rest) (drop (length rest) unused))
  load_loop-Delivers _ _ _ (done n later) expected got unused e w r =
      load_loop-end deadline timeout_ticks expected n (at t got unused) later (ground arith)
      ∙ ap (λ bytes. finish_read (at t bytes unused)) (sym (append-nil got))
  load_loop-Delivers _ _ _ (noise n b now rest twai later i m d) expected got unused e w r =
      load_loop-more deadline timeout_ticks expected n (at t got unused)
        (record { now = now; received = came twai }) later (ground arith)
      ∙ ap (act deadline timeout_ticks expected n later)
          (load_round-skips n now twai i expected got unused m)
      ∙ load_loop-Delivers n (b ∷ rest) later d expected got unused e w r
  load_loop-Delivers _ _ _ (load n b now id bs rest pad later i m c f d) expected got unused e w r =
      load_loop-more deadline timeout_ticks expected n (at t got unused)
        (record {
          now = now;
          received = came (full_frame id (t.data_type ∷ n ∷ ((b ∷ bs) ++ pad)));
        })
        later (ground arith)
      ∙ ap (act deadline timeout_ticks expected n later) (
          load_round-eq-on_load n now (full_frame id (t.data_type ∷ n ∷ ((b ∷ bs) ++ pad))) i
            expected got unused
          ∙ on_load-stores t expected n id got unused (b ∷ bs) pad m (c ∙ ap chunk_of left) f
              (omega (arith, sizes)) (omega (arith, sizes)))
      ∙ load_loop-Delivers (u8 (n + 1)) rest later d expected (got ++ b ∷ bs)
          (drop (length (b ∷ bs)) unused) (omega (arith, sizes, length-append got (b ∷ bs))) w
          (omega (arith, sizes, length-drop (length (b ∷ bs)) unused))
      ∙ ap₂ (λ bytes left. finish_read (at t bytes left)) (append_assoc got (b ∷ bs) rest)
          (drop-drop (length (b ∷ bs)) (length rest) unused
            ∙ ap (λ (k : ℕ). drop k unused) (sym sizes))
    where
      sizes : length (b ∷ (bs ++ rest)) ≡ length (b ∷ bs) + length rest
      sizes = length-append (b ∷ bs) rest

      left : length (b ∷ (bs ++ rest)) ≡ expected - length got
      left = omega (arith, e)
