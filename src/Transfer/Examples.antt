-- ===== src/Transfer/Examples.antt =====
-- A transfer of a small image between two nodes, and requests that wait.
use esp32aging.Base.{
  ℕ, ◌+◌, ◌-◌, ◌≡◌, refl, Bool, true, false, ◌&&◌, none, some, List, [], ◌∷◌, ◌++◌, arith, ltb, leb,
  if◌then◌else◌, length, get_or, take, drop, replicate, pos, str_eq,
}
use esp32aging.Ota.{Err, ok, c_str}
use esp32aging.Ota.Cache.{Partition}
use esp32aging.Transfer.{
  ReadyFile, Link, Receiver, success, receiver_link_current, binary_name_valid, aligned_file_size,
  transfer_range_valid,
}
use esp32aging.Transfer.Supply.{supplied_bytes, read_padded, provide_file_cb}
use esp32aging.Transfer.Supply.Laws.{padded_byte}
use esp32aging.Transfer.Receive.{
  OtaSdk, write_block, begin_block, get_file_cb, reset_receiver_locked,
}
use esp32aging.Transfer.Receive.Closed.{
  gets_file, gets_done, starts, finishes, run_callbacks, run_callbacks-reset,
}
use esp32aging.Transfer.Delivery.{
  Delivery, deliver, deliver_all, covers, IsSlot, deliver_all-padded_byte,
}
use esp32aging.Transfer.Mailbox.{Request, Mailbox, Round, no_request, poll_requests}
use esp32aging.Transfer.Mailbox.Laws.{IsMailbox, queued, left_over, poll_requests-queued}

abbrev slot : Partition
slot = record { address = 0x10000; size = 0x10000; subtype = 0x10; label = b'o' ∷ [] }

abbrev image : List ℕ
image = 0xe9 ∷ 1 ∷ 2 ∷ 3 ∷ 4 ∷ []

abbrev read : Partition → ℕ → ℕ → Err × List ℕ
read p offset count = (ok, take count (drop offset image))

abbrev name : List ℕ
name = b'a' ∷ b'.' ∷ b'b' ∷ b'i' ∷ b'n' ∷ []

abbrev ready : ReadyFile
ready = record { valid = true; file_name = name; size_bytes = 5; partition = some slot }

-- The flash as a function from the offset to the byte.
abbrev Flash : Type 0
Flash = ℕ → ℕ

abbrev overwrite : List ℕ → ℕ → Flash → Flash
overwrite block offset f i =
    if leb offset i && ltb i (offset + length block) then get_or block (i - offset) 0xFF else f i

abbrev sdk : OtaSdk Flash
sdk = record {
  begin = λ p f. (λ i. 0xFF, (ok, 1));
  write_with_offset = λ handle block offset f. (overwrite block offset f, ok);
  end = λ handle f. (f, ok);
  abort = λ handle f. (f, ok);
  description = λ p f. (ok, []);
  next_update = some slot;
}

abbrev byte : Flash → ℕ → ℕ
byte f i = f i

sdk-IsSlot : IsSlot sdk byte
sdk-IsSlot = record { written = λ handle block offset f i h. refl; begun = λ p f h. omega arith }

abbrev link : Link
link = record {
  parent = record { online = true; generation = 3; online_since = 0 };
  planned = false;
}

abbrev receiver : Receiver
receiver = record {
  parent_generation = 3;
  sdk_inflight = true;
  first_data = false;
  handle = 0;
  update_partition = none;
  session_open = true;
  accepting = true;
  done = false;
  validated = false;
  failed = false;
  finish_received = false;
  finish_reason = success;
  finish_tick = 0;
  file = name;
  version = [];
  firmware_size_bytes = 5;
}

-- The bytes from 3 on, then those from 0 on.
abbrev delivery : ℕ → ℕ → Delivery
delivery offset data_size = record {
  param = record {
    fw_version = some name;
    filesize = pos 0x10000;
    offset = offset;
    data_size = data_size;
  };
  locked_there = true;
  locked_here = true;
  now = link;
  later = link;
}

abbrev deliveries : List Delivery
deliveries = delivery 3 4 ∷ delivery 0 3 ∷ []

abbrev blank : Flash
blank i = 0

abbrev arrived : (Receiver × Flash) × List Delivery
arrived = deliver_all read ready sdk deliveries [] (receiver, blank)

arrived_ok : arrived.0.0.failed ≡ false
unfolding deliver_all deliver provide_file_cb read_padded supplied_bytes get_file_cb begin_block
    write_block receiver_link_current binary_name_valid transfer_range_valid aligned_file_size
    str_eq c_str
arrived_ok = refl

covered : covers arrived.1 4 ≡ true
unfolding deliver_all deliver provide_file_cb read_padded supplied_bytes get_file_cb begin_block
    write_block receiver_link_current binary_name_valid transfer_range_valid aligned_file_size
    str_eq c_str covers
covered = refl

deliver_all-padded_byte_example : byte arrived.0.1 4 ≡ padded_byte image 5 4
deliver_all-padded_byte_example =
    deliver_all-padded_byte read ready sdk byte sdk-IsSlot slot image (λ offset count h. refl) refl
      (omega arith) deliveries receiver blank 4 arrived refl refl arrived_ok covered

run_callbacks-reset_example :
    let x = reset_receiver_locked sdk (record receiver { handle = 1 }) blank in
    (b : Bool) × (run_callbacks sdk
        (gets_file true link link (some (delivery 0 3).param) (some (1 ∷ 2 ∷ 3 ∷ []))
          ∷ gets_done true link link
          ∷ starts
          ∷ finishes (some success) 7
          ∷ [])
        x
      ≡ (record x.0 { sdk_inflight = b }, x.1))
run_callbacks-reset_example =
    run_callbacks-reset sdk
      (gets_file true link link (some (delivery 0 3).param) (some (1 ∷ 2 ∷ 3 ∷ []))
        ∷ gets_done true link link
        ∷ starts
        ∷ finishes (some success) 7
        ∷ [])
      (record receiver { handle = 1 }) blank

-- Two requests wait, the second of them behind the end of the ring.
abbrev request : ℕ → Request
request id = record no_request { file_name = name; size_bytes = 5; request_id = id }

abbrev waiting : Mailbox
waiting = record {
  slots = request 2 ∷ (replicate 6 no_request ++ request 1 ∷ []);
  head = 7;
  count = 2;
  dropped = 1;
}

waiting-IsMailbox : IsMailbox waiting
waiting-IsMailbox = record {
  slots_full = refl;
  head_below = omega arith;
  count_below = omega arith;
}

abbrev round : List Request → Round
round arrivals = record {
  now = 10;
  planned = false;
  busy = false;
  locks = true;
  receiver_free = true;
  arrivals = arrivals;
}

abbrev rounds : List Round
rounds = round (request 3 ∷ []) ∷ round [] ∷ []

poll_requests-queued_example :
    let after = poll_requests 30000 ready [] rounds waiting in
    (after.0.1 ≡ queued waiting) × (queued after.0.0 ≡ left_over 2 rounds (queued waiting))
poll_requests-queued_example =
    poll_requests-queued 30000 ready [] rounds waiting waiting-IsMailbox (omega arith)
