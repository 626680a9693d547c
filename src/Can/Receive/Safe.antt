-- ===== src/Can/Receive/Safe.antt =====
-- A read stays in its buffer, and ends with its checksum or an error code, whatever arrives.
pub mod Read
use esp32aging.Base.{
  length-take_bound, ℕ, zero, suc, ◌+◌, ◌-◌, ◌*◌, ◌/◌, ◌%◌, ◌^◌, ◌≤◌, ◌<◌, bit_and, bit_or, bit_xor,
  ◌≡◌, refl, sym, ap, ap₂, ◌∙◌, subst, ◌≢◌, ◌↔◌, ◌⊎◌, inl, inr, Bool, true, false, not, ◌&&◌, ◌||◌,
  Option, none, some, List, [], ◌∷◌, ◌++◌, map, arith, ltb, leb, ◌==◌, ==_iff, if◌then◌else◌,
  Bool-cases, Option-cases, length, get_elem?, get_or, set, take, drop, replicate, u8, u16, u32,
  ◌<<<◌, ◌>>>◌, ◌>>=◌, fill, dec_lt, dec_le, ℕ_discrete, ℤ, pos, negsuc, signed16, signed32,
  some_inj, if_cases, ltb_ℤ, suc_ℤ, int_max, str_eq, str_eq_iff, is_empty, fill-fits,
}
use esp32aging.Crc.{modbus_crc16, crc16_loop, crc16_step}
use esp32aging.Can.{Transfer, Message, Twai, frame_data_len, can_proto_get_u16_le}
use esp32aging.Can.Id.{can_match_response_id}
use esp32aging.Can.Send.{chunk_of}
use esp32aging.Can.Receive.{
  Arrival, Link, Outcome, returned, waiting, Round, over, look, wait_round, with_error, Next, skip,
  stop, go_on, faulted, on_start, append_bytes, on_load, finish_read, load_round, load_loop,
  start_round, start_loop, can_receive_read_payload, set_transfer, can_match_response_id,
}
use esp32aging.Can.Receive.Laws.{Waited, wait_round_lem}

-- The size of the receive buffer, and the checksum of the bytes that came.
unfoldable pub room : Transfer → ℕ
room t = elim t.rx_payload [ none ↦ 0 | some buffer ↦ length buffer ]

unfoldable pub received_crc : Transfer → Option ℕ
received_crc t = t.rx_payload >>= λ buffer. modbus_crc16 buffer t.rx_len

-- While the transfer is under way: `size` is the buffer's and `expected` the announced length.
pub record UnderWay (size expected : ℕ) (t : Transfer) : Type 0 where
  pub sized : room t ≡ size
  pub capacity : t.rx_capacity ≤ size
  pub word : t.rx_capacity < 2 ^ 16
  pub some_room : 0 < t.rx_capacity
  pub clean : t.error_code ≡ 0
  pub held : t.rx_len ≤ expected
  pub fits : expected ≤ t.rx_capacity

-- At the end: the buffer keeps its size, no more than the capacity has come, and a result that is
-- no error is the number of bytes that came, whose checksum is the announced one; with any other
-- result the error code is set.
abbrev pub IsSettled : ℕ → Option Outcome → Type 0
IsSettled size none = ⊥
IsSettled size (some (waiting l)) =
    (room l.transfer ≡ size) × (l.transfer.rx_len ≤ l.transfer.rx_capacity)
IsSettled size (some (returned l (pos n))) =
    (room l.transfer ≡ size)
    × (l.transfer.rx_len ≤ l.transfer.rx_capacity)
    × (l.transfer.error_code ≡ 0)
    × (n ≡ l.transfer.rx_len)
    × (received_crc l.transfer ≡ some l.transfer.crc16)
IsSettled size (some (returned l (negsuc k))) =
    (room l.transfer ≡ size)
    × (l.transfer.rx_len ≤ l.transfer.rx_capacity)
    × (l.transfer.error_code ≢ 0)

-- What is done with a frame keeps a transfer in order: `still` holds where it is passed over, `then_on`
-- where the call goes on, and a call that stops is settled.
abbrev pub Moved : ℕ → (Transfer → Type 0) → (Transfer → Type 0) → Next → Type 0
Moved size still then_on (skip l) = still l.transfer
Moved size still then_on (go_on l) = then_on l.transfer
Moved size still then_on (stop l r) = IsSettled size (some (returned l r))
Moved size still then_on faulted = ⊥

-- To prove something of what is done with a frame of the bytes: it is passed over, refused, or its
-- bytes are stored.
on_load-cases :
    (expected packet_no : ℕ) (l : Link) (msg : Message) (P : Next → Type 0)
    → P (skip l)
    → P (stop (set_transfer l (with_error l.transfer 3)) (negsuc 0))
    → (let chunk = chunk_of (expected - l.transfer.rx_len) in
        P (append_bytes l chunk (take chunk (drop 2 msg.bytes))))
    → P (on_load expected packet_no l msg)
unfolding on_load
on_load-cases expected packet_no l msg P passed_over no_good stored =
    split (not (can_match_response_id msg.id l.transfer 0x65))
      (ltb msg.data_len 2 || not (get_or msg.bytes 0 0 == l.transfer.data_type))
      (not (get_or msg.bytes 1 0 == packet_no))
      (ltb (msg.data_len - 2) (chunk_of (expected - l.transfer.rx_len)))
  where
    refusal : Next
    refusal = stop (set_transfer l (with_error l.transfer 3)) (negsuc 0)

    storing : Next
    storing =
        let chunk = chunk_of (expected - l.transfer.rx_len) in
        append_bytes l chunk (take chunk (drop 2 msg.bytes))

    split :
        (b1 b2 b3 b4 : Bool)
        → P (
            if b1
            then skip l
            else if b2
            then skip l
            else if b3
            then refusal
            else if b4
            then refusal
            else storing)
    split true b2 b3 b4 = passed_over
    split false true b3 b4 = passed_over
    split false false true b4 = no_good
    split false false false true = no_good
    split false false false false = stored

-- An error code is set while the rest stays.
pub failed-IsSettled :
    (size expected code k : ℕ) (flag : Bool) (t : Transfer)
    → UnderWay size expected t
    → code ≢ 0
    → IsSettled size
        (some (returned (record { use_send_flag = flag; transfer = with_error t code }) (negsuc k)))
unfolding room
failed-IsSettled size expected code k flag t u ne = (u.sized, omega (arith, u.held, u.fits), ne)

crc16_loop-some :
    (left : ℕ) (ptr : List ℕ) (crc : ℕ)
    → left ≤ length ptr
    → (c : ℕ) × (crc16_loop left ptr crc ≡ some c)
unfolding crc16_loop
crc16_loop-some zero ptr crc h = (crc, refl)
crc16_loop-some (suc left) [] crc h = absurd (omega arith)
crc16_loop-some (suc left) (b ∷ ptr) crc h =
    crc16_loop-some left ptr (crc16_step crc b) (omega arith)

modbus_crc16-some :
    (ptr : List ℕ) (len : ℕ) → len ≤ length ptr → (c : ℕ) × (modbus_crc16 ptr len ≡ some c)
unfolding modbus_crc16
modbus_crc16-some ptr len h = crc16_loop-some (u16 len) ptr 0xffff (omega arith)

module _ (size expected : ℕ) (l : Link) (u : UnderWay size expected l.transfer) where
  append_bytes-Moved :
      (chunk : ℕ) (bytes : List ℕ)
      → 0 < chunk
      → l.transfer.rx_len + chunk ≤ expected
      → length bytes ≤ chunk
      → Moved size (UnderWay size expected) (UnderWay size expected) (append_bytes l chunk bytes)
  unfolding append_bytes room
  append_bytes-Moved chunk bytes pos_chunk inside short = go l.transfer.rx_payload refl
    where
      go :
          (p : Option (List ℕ))
          → l.transfer.rx_payload ≡ p
          → Moved size (UnderWay size expected) (UnderWay size expected) (elim p [
            | none ↦ faulted
            | some buffer ↦ elim (fill buffer l.transfer.rx_len bytes) [
              | none ↦ faulted
              | some buffer' ↦ go_on (
                  set_transfer l (record l.transfer {
                    rx_payload = some buffer';
                    rx_len = u16 (l.transfer.rx_len + chunk);
                  }))
            ]
          ])
      go none e = ground (arith, u.sized, u.capacity, u.some_room)
      go (some b) e =
          let b_size : length b ≡ size = ground (arith, u.sized) in
          let f = fill-fits b l.transfer.rx_len bytes (omega (arith, b_size, u.capacity, u.fits)) in
          rw (f.1) (record {
            sized = f.2 ∙ b_size;
            capacity = u.capacity;
            word = u.word;
            some_room = u.some_room;
            clean = u.clean;
            held = omega (arith, u.word, u.fits);
            fits = u.fits;
          })

  on_load-Moved :
      (packet_no : ℕ) (msg : Message)
      → l.transfer.rx_len < expected
      → Moved size
          (UnderWay size expected)
          (UnderWay size expected)
          (on_load expected packet_no l msg)
  on_load-Moved packet_no msg more =
      on_load-cases expected packet_no l msg
        (Moved size (UnderWay size expected) (UnderWay size expected)) u
        (failed-IsSettled size expected 3 0 l.use_send_flag l.transfer u (omega arith))
        (append_bytes-Moved (chunk_of left) (take (chunk_of left) (drop 2 msg.bytes)) (ground arith)
          (ground arith) (length-take_bound (chunk_of left) (drop 2 msg.bytes)))
    where
      left : ℕ
      left = expected - l.transfer.rx_len

  finish_read-IsSettled : IsSettled size (finish_read l)
  unfolding finish_read room received_crc
  finish_read-IsSettled = go l.transfer.rx_payload refl
    where
      check : List ℕ → Option Outcome
      check buffer = modbus_crc16 buffer l.transfer.rx_len >>= λ crc. some (
          if not (crc == l.transfer.crc16)
          then returned (set_transfer l (with_error l.transfer 4)) (negsuc 0)
          else returned l (pos l.transfer.rx_len))

      go : (p : Option (List ℕ)) → l.transfer.rx_payload ≡ p → IsSettled size (p >>= check)
      go none e = ground (arith, u.sized, u.capacity, u.some_room)
      go (some b) e =
          let c =
            modbus_crc16-some b l.transfer.rx_len
              (ground (arith, u.sized, u.capacity, u.held, u.fits)) in
          rw (c.1) (
            if_cases (λ (o : Outcome). IsSettled size (some o)) (not (c.0 == l.transfer.crc16))
              (returned (set_transfer l (with_error l.transfer 4)) (negsuc 0))
              (returned l (pos l.transfer.rx_len))
              (λ _. failed-IsSettled size expected 4 0 l.use_send_flag l.transfer u (omega arith))
              (λ same. (
                u.sized,
                omega (arith, u.held, u.fits),
                u.clean,
                refl,
                rw e (c.1 ∙ ap some (ground arith)),
              )))

load_round-Moved :
    (deadline timeout_ticks size expected packet_no : ℕ) (l : Link) (a : Arrival)
    → UnderWay size expected l.transfer
    → l.transfer.rx_len < expected
    → Moved size
        (UnderWay size expected)
        (UnderWay size expected)
        (load_round deadline timeout_ticks expected packet_no l a)
unfolding load_round
load_round-Moved deadline timeout_ticks size expected packet_no l a u more =
    go (wait_round deadline timeout_ticks l a) (wait_round_lem deadline timeout_ticks l a)
  where
    go :
        (r : Round)
        → Waited l r
        → Moved size
            (UnderWay size expected)
            (UnderWay size expected)
            (elim r [ over l' n ↦ stop l' n | look l' msg ↦ on_load expected packet_no l' msg ])
    go (over l' (pos n)) w = absurd w
    go (over l' (negsuc k)) w =
        rw w (failed-IsSettled size expected 6 k l'.use_send_flag l.transfer u (omega arith))
    go (look l' msg) w = on_load-Moved size expected l' (rw w u) packet_no msg (rw w more)

pub load_loop-IsSettled :
    (deadline timeout_ticks size expected packet_no : ℕ) (l : Link) (later : List Arrival)
    → UnderWay size expected l.transfer
    → IsSettled size (load_loop deadline timeout_ticks expected packet_no l later)
unfolding load_loop room
load_loop-IsSettled deadline timeout_ticks size expected packet_no l [] u =
    if_cases (IsSettled size) (ltb l.transfer.rx_len expected) (some (waiting l)) (finish_read l)
      (λ _. (u.sized, omega (arith, u.held, u.fits))) (λ _. finish_read-IsSettled size expected l u)
load_loop-IsSettled deadline timeout_ticks size expected packet_no l (a ∷ later) u =
    split
      (λ packet_no l'. load_loop-IsSettled deadline timeout_ticks size expected packet_no l' later)
      (ltb l.transfer.rx_len expected) refl
  where
    Later : Type 0
    Later =
        (packet_no : ℕ) (l' : Link)
        → UnderWay size expected l'.transfer
        → IsSettled size (load_loop deadline timeout_ticks expected packet_no l' later)

    act : Next → Option Outcome
    act (skip l') = load_loop deadline timeout_ticks expected packet_no l' later
    act (go_on l') = load_loop deadline timeout_ticks expected (u8 (packet_no + 1)) l' later
    act (stop l' r) = some (returned l' r)
    act faulted = none

    acted :
        Later
        → (n : Next) → Moved size (UnderWay size expected) (UnderWay size expected) n
        → IsSettled size (act n)
    acted ih (skip l') m = ih packet_no l' m
    acted ih (go_on l') m = ih (u8 (packet_no + 1)) l' m
    acted ih (stop l' r) m = m
    acted ih faulted m = absurd m

    split :
        Later
        → (more : Bool) → ltb l.transfer.rx_len expected ≡ more
        → IsSettled size (elim more [
          | false ↦ finish_read l
          | true ↦ act (load_round deadline timeout_ticks expected packet_no l a)
        ])
    split ih false e = finish_read-IsSettled size expected l u
    split ih true e =
        acted ih (load_round deadline timeout_ticks expected packet_no l a)
          (load_round-Moved deadline timeout_ticks size expected packet_no l a u (ground arith))
