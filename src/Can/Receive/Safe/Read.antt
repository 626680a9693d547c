-- ===== src/Can/Receive/Safe/Read.antt =====
-- The opening frame, and the read as a whole.
use esp32aging.Base.{
  ℕ, ◌^◌, ◌≤◌, ◌<◌, ◌≡◌, refl, Bool, true, false, not, ◌||◌, Option, none, some, List, [], ◌∷◌,
  arith, ltb, ◌==◌, if◌then◌else◌, length, get_or, pos, negsuc, if_cases,
}
use esp32aging.Can.{Transfer, Message, frame_data_len, can_proto_get_u16_le}
use esp32aging.Can.Id.{can_match_response_id}
use esp32aging.Can.Receive.{
  Arrival, Link, Outcome, returned, Round, over, look, wait_round, with_error, Next, skip, stop,
  go_on, faulted, on_start, load_loop, start_round, start_loop, can_receive_read_payload,
  set_transfer, can_match_response_id,
}
use esp32aging.Can.Receive.Laws.{Waited, wait_round_lem}
use esp32aging.Can.Receive.Safe.{
  room, UnderWay, IsSettled, Moved, failed-IsSettled, load_loop-IsSettled,
}

-- The opening frame of a read leaves the announced length, which the buffer can take.
abbrev Opened : ℕ → Transfer → Type 0
Opened size t = UnderWay size t.total t

on_start-Moved :
    (size : ℕ) (l : Link) (msg : Message)
    → UnderWay size 0 l.transfer
    → Moved size (UnderWay size 0) (Opened size) (on_start l msg)
unfolding on_start room
on_start-Moved size l msg u =
    split (not (can_match_response_id msg.id l.transfer 0x64))
      (ltb msg.data_len frame_data_len || not (get_or msg.bytes 0 0 == l.transfer.data_type))
      (not (can_proto_get_u16_le msg.bytes 1 == l.transfer.offset))
      (ltb l.transfer.rx_capacity (can_proto_get_u16_le msg.bytes 3)) refl
  where
    t' : Transfer
    t' = record l.transfer { crc16 = can_proto_get_u16_le msg.bytes 5 }

    u' : UnderWay size 0 t'
    u' = record {
      sized = u.sized;
      capacity = u.capacity;
      word = u.word;
      some_room = u.some_room;
      clean = u.clean;
      held = u.held;
      fits = u.fits;
    }

    split :
        (b1 b2 b3 b4 : Bool)
        → ltb l.transfer.rx_capacity (can_proto_get_u16_le msg.bytes 3) ≡ b4
        → Moved size (UnderWay size 0) (Opened size) (
            if b1
            then skip l
            else if b2
            then skip l
            else if b3
            then stop (set_transfer l (with_error t' 5)) (negsuc 0)
            else if b4
            then stop (set_transfer l (with_error t' 2)) (negsuc 0)
            else go_on (set_transfer l (record t' { total = can_proto_get_u16_le msg.bytes 3 })))
    split true b2 b3 b4 e = u
    split false true b3 b4 e = u
    split false false true b4 e = failed-IsSettled size 0 5 0 l.use_send_flag t' u' (omega arith)
    split false false false true e = failed-IsSettled size 0 2 0 l.use_send_flag t' u' (omega arith)
    split false false false false e = record {
      sized = u.sized;
      capacity = u.capacity;
      word = u.word;
      some_room = u.some_room;
      clean = u.clean;
      held = omega (arith, u.held);
      fits = ground arith;
    }

start_round-Moved :
    (deadline timeout_ticks size : ℕ) (l : Link) (a : Arrival)
    → UnderWay size 0 l.transfer
    → Moved size (UnderWay size 0) (Opened size) (start_round deadline timeout_ticks l a)
unfolding start_round
start_round-Moved deadline timeout_ticks size l a u =
    go (wait_round deadline timeout_ticks l a) (wait_round_lem deadline timeout_ticks l a)
  where
    go :
        (r : Round)
        → Waited l r
        → Moved size
            (UnderWay size 0)
            (Opened size)
            (elim r [ over l' n ↦ stop l' n | look l' msg ↦ on_start l' msg ])
    go (over l' (pos n)) w = absurd w
    go (over l' (negsuc k)) w =
        rw w (failed-IsSettled size 0 6 k l'.use_send_flag l.transfer u (omega arith))
    go (look l' msg) w = on_start-Moved size l' msg (rw w u)

start_loop-IsSettled :
    (deadline timeout_ticks size : ℕ) (l : Link) (later : List Arrival)
    → UnderWay size 0 l.transfer
    → IsSettled size (start_loop deadline timeout_ticks l later)
unfolding start_loop room
start_loop-IsSettled deadline timeout_ticks size l [] u = (u.sized, omega (arith, u.held, u.fits))
start_loop-IsSettled deadline timeout_ticks size l (a ∷ later) u =
    acted (λ l'. start_loop-IsSettled deadline timeout_ticks size l' later)
      (start_round deadline timeout_ticks l a) (start_round-Moved deadline timeout_ticks size l a u)
  where
    acted :
        ((l' : Link)
          → UnderWay size 0 l'.transfer
          → IsSettled size (start_loop deadline timeout_ticks l' later))
        → (n : Next) → Moved size (UnderWay size 0) (Opened size) n
        → IsSettled size (elim n [
          | skip l' ↦ start_loop deadline timeout_ticks l' later
          | go_on l' ↦ load_loop deadline timeout_ticks l'.transfer.total 0 l' later
          | stop l' r ↦ some (returned l' r)
          | faulted ↦ none
        ])
    acted ih (skip l') m = ih l' m
    acted ih (go_on l') m =
        load_loop-IsSettled deadline timeout_ticks size l'.transfer.total 0 l' later m
    acted ih (stop l' r) m = m
    acted ih faulted m = absurd m

-- A read into a buffer of at least the stated capacity, which is not 0 and fits 16 bits, never
-- leaves the buffer, whatever frames arrive: while it waits and when it returns, the buffer has its
-- size and no more than the capacity has come. A result that is no error is the number of bytes that
-- came, and their checksum is the announced one; a negative result comes with an error code.
pub can_receive_read_payload-IsSettled :
    (deadline timeout_ticks : ℕ) (l : Link) (buffer : List ℕ) (later : List Arrival)
    → l.transfer.rx_payload ≡ some buffer
    → 0 < l.transfer.rx_capacity
    → l.transfer.rx_capacity < 2 ^ 16
    → l.transfer.rx_capacity ≤ length buffer
    → IsSettled (length buffer) (can_receive_read_payload deadline timeout_ticks l later)
unfolding can_receive_read_payload room
can_receive_read_payload-IsSettled deadline timeout_ticks l buffer later e some_room word capacity =
    go l.transfer.rx_payload e
  where
    begun : Link
    begun = set_transfer l (record l.transfer { rx_len = 0; error_code = 0 })

    refusal : Option Outcome
    refusal = some (returned l (negsuc 0))

    begun-IsSettled : IsSettled (length buffer) (start_loop deadline timeout_ticks begun later)
    begun-IsSettled =
        start_loop-IsSettled deadline timeout_ticks (length buffer) begun later (record {
          sized = rw e refl;
          capacity = capacity;
          word = word;
          some_room = some_room;
          clean = refl;
          held = omega arith;
          fits = omega arith;
        })

    go :
        (p : Option (List ℕ))
        → p ≡ some buffer
        → IsSettled (length buffer) (elim p [
          | none ↦ refusal
          | some b ↦
              if l.transfer.rx_capacity == 0
              then refusal
              else start_loop deadline timeout_ticks begun later
        ])
    go none h = cc
    go (some b) h =
        if_cases (IsSettled (length buffer)) (l.transfer.rx_capacity == 0) refusal
          (start_loop deadline timeout_ticks begun later) (λ zero_room. absurd (ground arith))
          (λ _. begun-IsSettled)
