-- ===== src/Can/Examples.antt =====
-- Reads and writes of a few bytes.
use esp32aging.Base.{
  ℕ, zero, suc, ◌+◌, ◌*◌, ◌≡◌, refl, inr, true, false, some, List, [], ◌∷◌, ◌++◌, arith, length,
  replicate, ℤ, pos, IsBytes,
}
use esp32aging.Modbus.Frames.{crc_of}
use esp32aging.Can.{
  Transfer, Message, Twai, Op, read, write, can_proto_get_u16_le, can_msg_to_twai,
  can_proto_source_or_default,
}
use esp32aging.Can.Id.{can_match_response_id}
use esp32aging.Can.Id.Laws.{response_id, can_match-response_id}
use esp32aging.Can.Ticks.{remaining_ticks, timed_out}
use esp32aging.Can.Send.{can_send_write_sequence, announced}
use esp32aging.Can.Send.Laws.{IsOpening, carried, AreData, can_send_write_sequence_lem}
use esp32aging.Can.Receive.{
  came, Arrival, Link, returned, can_receive_read_payload, can_receive_write_response,
}
use esp32aging.Can.Receive.Safe.{IsSettled}
use esp32aging.Can.Receive.Safe.Read.{can_receive_read_payload-IsSettled}
use esp32aging.Can.Receive.Ends.Read.{receive-returns}
use esp32aging.Can.Receive.RoundTrip.{full_frame, Delivers, done, load}
use esp32aging.Can.Receive.RoundTrip.Read.{
  start_bytes, opened, Answers, foreign, opening, can_receive_read_payload_lem,
}

abbrev zeros : List ℕ
zeros = replicate 10 0

abbrev sample : Transfer
sample = record {
  op = read;
  target_addr = 0x21;
  source_addr = 0x10;
  data_type = 3;
  offset = 5;
  total = 7;
  tx_payload = some (11 ∷ 22 ∷ 33 ∷ 44 ∷ 55 ∷ 66 ∷ 77 ∷ []);
  tx_len = 7;
  rx_payload = some zeros;
  rx_capacity = 10;
  rx_len = 0;
  crc16 = 0;
  error_code = 0;
}

abbrev seven : List ℕ
seven = 11 ∷ 22 ∷ 33 ∷ 44 ∷ 55 ∷ 66 ∷ 77 ∷ []

seven-IsBytes : IsBytes seven
seven-IsBytes = (
  omega arith,
  (omega arith, (omega arith, (omega arith, (omega arith, (omega arith, (omega arith, tt)))))),
)

replicate_zero-IsBytes : (n : ℕ) → IsBytes (replicate n 0)
replicate_zero-IsBytes zero = tt
replicate_zero-IsBytes (suc n) = (omega arith, replicate_zero-IsBytes n)

abbrev arrival : ℕ → Twai → Arrival
arrival now twai = record { now = now; received = came twai }

abbrev other_frame : Twai
other_frame = full_frame 0 (1 ∷ 2 ∷ 3 ∷ 4 ∷ 5 ∷ 6 ∷ 7 ∷ 8 ∷ [])

-- A frame of another device, then the answer: its opening frame and two packets.
abbrev packets : List Arrival
packets =
    arrival 123
      (full_frame (response_id sample 0x65 0x21) (3 ∷ 0 ∷ 11 ∷ 22 ∷ 33 ∷ 44 ∷ 55 ∷ 66 ∷ []))
    ∷ arrival 124 (full_frame (response_id sample 0x65 0x21) (3 ∷ 1 ∷ 77 ∷ 0 ∷ 0 ∷ 0 ∷ 0 ∷ 0 ∷ []))
    ∷ []

abbrev arrivals : List Arrival
arrivals =
    arrival 121 other_frame
    ∷ arrival 122 (full_frame (response_id sample 0x64 0x21) (start_bytes sample seven))
    ∷ packets

in_time_121 : timed_out 150 50 121 ≡ false
unfolding timed_out remaining_ticks
in_time_121 = refl

in_time_122 : timed_out 150 50 122 ≡ false
unfolding timed_out remaining_ticks
in_time_122 = refl

in_time_123 : timed_out 150 50 123 ≡ false
unfolding timed_out remaining_ticks
in_time_123 = refl

in_time_124 : timed_out 150 50 124 ≡ false
unfolding timed_out remaining_ticks
in_time_124 = refl

other_frame-differs : can_match_response_id 0 sample 0x64 ≡ false
unfolding can_match_response_id esp32aging.Can.Id.can_ext_get_pdu_format
other_frame-differs = refl

opening-matches : can_match_response_id (response_id sample 0x64 0x21) sample 0x64 ≡ true
unfolding can_proto_source_or_default
opening-matches =
    can_match-response_id sample 0x64 0x21 (omega arith) (omega arith) (omega arith) (inr refl)

packet-matches :
    can_match_response_id (response_id sample 0x65 0x21) (opened sample seven) 0x65 ≡ true
unfolding can_proto_source_or_default
packet-matches =
    can_match-response_id (opened sample seven) 0x65 0x21 (omega arith) (omega arith) (omega arith)
      (inr refl)

packets-Delivers : Delivers (opened sample seven) 150 50 0 seven packets
packets-Delivers =
    load 0 11 123 (response_id sample 0x65 0x21) (22 ∷ 33 ∷ 44 ∷ 55 ∷ 66 ∷ []) (77 ∷ []) [] _
      in_time_123 packet-matches refl refl
      (load 1 77 124 (response_id sample 0x65 0x21) [] [] (0 ∷ 0 ∷ 0 ∷ 0 ∷ 0 ∷ []) [] in_time_124
        packet-matches refl refl (done 2 []))

arrivals-Answers : Answers sample 150 50 seven arrivals
arrivals-Answers = foreign 121 other_frame _ in_time_121 other_frame-differs (
    opening 122 (response_id sample 0x64 0x21) packets in_time_122 opening-matches packets-Delivers)

can_receive_read_payload_lem_example :
    (l : Link) × (can_receive_read_payload 150 50
        (record { use_send_flag = true; transfer = sample })
        arrivals
      ≡ some (returned l (pos 7)))
    × (l.transfer.rx_payload ≡ some (seven ++ 0 ∷ 0 ∷ 0 ∷ []))
    × (l.transfer.rx_len ≡ 7)
    × (l.transfer.error_code ≡ 0)
can_receive_read_payload_lem_example =
    can_receive_read_payload_lem 150 50 true sample seven zeros arrivals arrivals-Answers refl
      (omega arith) (omega arith) (omega arith) (omega arith) (omega arith) seven-IsBytes
      (replicate_zero-IsBytes 10)

can_receive_read_payload-IsSettled_example :
    IsSettled 10 (
      can_receive_read_payload 150 50 (record { use_send_flag = true; transfer = sample }) arrivals)
can_receive_read_payload-IsSettled_example =
    can_receive_read_payload-IsSettled 150 50 (record { use_send_flag = true; transfer = sample })
      zeros arrivals refl (omega arith) (omega arith) (omega arith)

-- The clock is at 151 after the two packets without their opening frame.
receive-returns_example :
    ((l : Link) × (r : ℤ) × (can_receive_read_payload 150 50
          (record { use_send_flag = true; transfer = sample })
          (packets ++ arrival 151 other_frame ∷ [])
        ≡ some (returned l r)))
    × ((l : Link) × (r : ℤ) × (can_receive_write_response 150 50
            (record { use_send_flag = true; transfer = sample })
            (packets ++ arrival 151 other_frame ∷ [])
          ≡ returned l r))
receive-returns_example =
    receive-returns 100 50 51 (record { use_send_flag = true; transfer = sample }) zeros packets []
      (arrival 151 other_frame) (omega arith) (omega arith) refl (omega arith) (omega arith)
      (omega arith) refl (omega arith) (omega arith)

can_send_write_sequence_lem_example :
    (start : Twai) × (fs : List Twai) × (can_send_write_sequence (λ _. true) sample
      ≡ some (record {
        transfer = announced sample 7 (crc_of seven);
        frames = start ∷ fs;
        result = pos (8 * (1 + length fs));
        flagged = true;
      }))
    × IsOpening (announced sample 7 (crc_of seven)) start
    × (carried 7 fs ≡ seven)
    × AreData (announced sample 7 (crc_of seven)) 7 0 fs
can_send_write_sequence_lem_example =
    can_send_write_sequence_lem sample seven refl (omega arith) (omega arith) (omega arith)
      (omega arith) seven-IsBytes
