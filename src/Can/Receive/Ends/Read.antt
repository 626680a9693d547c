-- ===== src/Can/Receive/Ends/Read.antt =====
-- The read, and both calls together.
use esp32aging.Base.{
  ℕ, ◌+◌, ◌^◌, ◌≤◌, ◌<◌, ◌≡◌, refl, ◌∙◌, Bool, true, false, not, Option, none, some, List, [], ◌∷◌,
  ◌++◌, arith, ltb, ◌==◌, if◌then◌else◌, length, u8, u32, ◌>>=◌, ℤ, pos, negsuc,
}
use esp32aging.Crc.{modbus_crc16}
use esp32aging.Can.Ticks.{timed_out, deadline_of, remaining_ticks_lem}
use esp32aging.Can.Receive.{
  Arrival, Link, Outcome, returned, waiting, Round, over, look, wait_round, with_error, Next, skip,
  stop, go_on, faulted, on_start, on_load, finish_read, load_round, load_loop, start_round,
  start_loop, can_receive_read_payload, set_transfer, can_receive_write_response,
}
use esp32aging.Can.Receive.Safe.{IsSettled}
use esp32aging.Can.Receive.Safe.Read.{can_receive_read_payload-IsSettled}
use esp32aging.Can.Receive.Ends.{IsEnded, IsUnlessFaulted, IsOver, wait_round-IsOver, response-ends}

finish_read-ends : (l : Link) → IsUnlessFaulted (finish_read l)
unfolding finish_read
finish_read-ends l = go l.transfer.rx_payload
  where
    check : List ℕ → Option Outcome
    check buffer = modbus_crc16 buffer l.transfer.rx_len >>= λ crc. some (
        if not (crc == l.transfer.crc16)
        then returned (set_transfer l (with_error l.transfer 4)) (negsuc 0)
        else returned l (pos l.transfer.rx_len))

    checked :
        (b : Bool) (o1 o2 : Outcome) → IsEnded o1 → IsEnded o2 → IsEnded (if b then o1 else o2)
    checked true o1 o2 h1 h2 = h1
    checked false o1 o2 h1 h2 = h2

    summed :
        (c : Option ℕ)
        → IsUnlessFaulted (
            c >>= λ crc. some (
              if not (crc == l.transfer.crc16)
              then returned (set_transfer l (with_error l.transfer 4)) (negsuc 0)
              else returned l (pos l.transfer.rx_len)))
    summed none = tt
    summed (some c) =
        checked (not (c == l.transfer.crc16))
          (returned (set_transfer l (with_error l.transfer 4)) (negsuc 0))
          (returned l (pos l.transfer.rx_len)) tt tt

    go : (p : Option (List ℕ)) → IsUnlessFaulted (p >>= check)
    go none = tt
    go (some b) = summed (modbus_crc16 b l.transfer.rx_len)

module _ (deadline timeout_ticks : ℕ) (a : Arrival) (after : List Arrival)
    (late : timed_out deadline timeout_ticks a.now ≡ true) where
  load_loop-ends :
      (before : List Arrival) (expected packet_no : ℕ) (l : Link)
      → IsUnlessFaulted
          (load_loop deadline timeout_ticks expected packet_no l (before ++ a ∷ after))
  unfolding load_loop load_round
  load_loop-ends [] expected packet_no l =
      go (wait_round deadline timeout_ticks l a) (wait_round-IsOver deadline timeout_ticks l a late)
        (ltb l.transfer.rx_len expected)
    where
      go :
          (r : Round)
          → IsOver r
          → (more : Bool)
          → IsUnlessFaulted (elim more [
            | false ↦ finish_read l
            | true ↦
                elim (elim r as (λ _. Next) [
                  | over l' n ↦ stop l' n
                  | look l' msg ↦ on_load expected packet_no l' msg
                ]) [
                  | skip l' ↦ load_loop deadline timeout_ticks expected packet_no l' after
                  | go_on l' ↦
                      load_loop deadline timeout_ticks expected (u8 (packet_no + 1)) l' after
                  | stop l' r' ↦ some (returned l' r')
                  | faulted ↦ none
                ]
          ])
      go r h false = finish_read-ends l
      go (over l' n) h true = tt
      go (look l' msg) h true = absurd h
  load_loop-ends (b ∷ before) expected packet_no l =
      go (load_loop-ends before expected) (ltb l.transfer.rx_len expected)
    where
      Later : Type 0
      Later =
          (packet_no : ℕ) (l' : Link)
          → IsUnlessFaulted
              (load_loop deadline timeout_ticks expected packet_no l' (before ++ a ∷ after))

      act : Next → Option Outcome
      act (skip l') = load_loop deadline timeout_ticks expected packet_no l' (before ++ a ∷ after)
      act (go_on l') =
          load_loop deadline timeout_ticks expected (u8 (packet_no + 1)) l' (before ++ a ∷ after)
      act (stop l' r) = some (returned l' r)
      act faulted = none

      acted : Later → (n : Next) → IsUnlessFaulted (act n)
      acted ih (skip l') = ih packet_no l'
      acted ih (go_on l') = ih (u8 (packet_no + 1)) l'
      acted ih (stop l' r) = tt
      acted ih faulted = tt

      go :
          Later
          → (more : Bool)
          → IsUnlessFaulted (elim more [
            | false ↦ finish_read l
            | true ↦ act (load_round deadline timeout_ticks expected packet_no l b)
          ])
      go ih true = acted ih (load_round deadline timeout_ticks expected packet_no l b)
      go ih false = finish_read-ends l

  start_loop-ends :
      (before : List Arrival) (l : Link)
      → IsUnlessFaulted (start_loop deadline timeout_ticks l (before ++ a ∷ after))
  unfolding start_loop start_round
  start_loop-ends [] l =
      go (wait_round deadline timeout_ticks l a) (wait_round-IsOver deadline timeout_ticks l a late)
    where
      go :
          (r : Round)
          → IsOver r
          → IsUnlessFaulted
              (elim (elim r as (λ _. Next) [
                | over l' n ↦ stop l' n
                | look l' msg ↦ on_start l' msg
              ]) [
                | skip l' ↦ start_loop deadline timeout_ticks l' after
                | go_on l' ↦ load_loop deadline timeout_ticks l'.transfer.total 0 l' after
                | stop l' r' ↦ some (returned l' r')
                | faulted ↦ none
              ])
      go (over l' n) h = tt
      go (look l' msg) h = absurd h
  start_loop-ends (b ∷ before) l =
      acted (start_loop-ends before) (start_round deadline timeout_ticks l b)
    where
      acted :
          ((l' : Link)
            → IsUnlessFaulted (start_loop deadline timeout_ticks l' (before ++ a ∷ after)))
          → (n : Next)
          → IsUnlessFaulted (elim n [
            | skip l' ↦ start_loop deadline timeout_ticks l' (before ++ a ∷ after)
            | go_on l' ↦
                load_loop deadline timeout_ticks l'.transfer.total 0 l' (before ++ a ∷ after)
            | stop l' r ↦ some (returned l' r)
            | faulted ↦ none
          ])
      acted ih (skip l') = ih l'
      acted ih (go_on l') = load_loop-ends before l'.transfer.total 0 l'
      acted ih (stop l' r) = tt
      acted ih faulted = tt

  read-ends :
      (before : List Arrival) (l : Link)
      → IsUnlessFaulted (can_receive_read_payload deadline timeout_ticks l (before ++ a ∷ after))
  unfolding can_receive_read_payload
  read-ends before l = go l.transfer.rx_payload
    where
      begun : Link
      begun = set_transfer l (record l.transfer { rx_len = 0; error_code = 0 })

      tested :
          (b : Bool)
          → IsUnlessFaulted (
              if b
              then some (returned l (negsuc 0))
              else start_loop deadline timeout_ticks begun (before ++ a ∷ after))
      tested true = tt
      tested false = start_loop-ends before begun

      go :
          (p : Option (List ℕ))
          → IsUnlessFaulted (elim p [
            | none ↦ some (returned l (negsuc 0))
            | some b ↦
                if l.transfer.rx_capacity == 0
                then some (returned l (negsuc 0))
                else start_loop deadline timeout_ticks begun (before ++ a ∷ after)
          ])
      go none = tt
      go (some b) = tested (l.transfer.rx_capacity == 0)

-- A call that begins at any tick count, with a timeout of at most 2^31 ticks, returns if some round
-- reads its clock when `elapsed` ticks have passed, which are the timeout or up to 2^31 more: a read
-- into a buffer of at least the stated capacity, and the wait for the response to a write.
pub receive-returns :
    (start timeout_ticks elapsed : ℕ) (l : Link) (buffer : List ℕ) (before after : List Arrival)
    (a : Arrival)
    → start < 2 ^ 32
    → timeout_ticks ≤ 2 ^ 31
    → l.transfer.rx_payload ≡ some buffer
    → 0 < l.transfer.rx_capacity
    → l.transfer.rx_capacity < 2 ^ 16
    → l.transfer.rx_capacity ≤ length buffer
    → a.now ≡ u32 (start + elapsed)
    → timeout_ticks ≤ elapsed
    → elapsed < timeout_ticks + 2 ^ 31
    → let deadline = deadline_of start timeout_ticks in
      ((l' : Link) × (r : ℤ) × (can_receive_read_payload deadline timeout_ticks l
            (before ++ a ∷ after)
          ≡ some (returned l' r)))
      × ((l' : Link) × (r : ℤ) × (can_receive_write_response deadline timeout_ticks l
              (before ++ a ∷ after)
            ≡ returned l' r))
receive-returns start timeout_ticks elapsed l buffer before after a hs ht e some_room word capacity
      now reached soon =
    (
      read (can_receive_read_payload deadline timeout_ticks l (before ++ a ∷ after))
          (can_receive_read_payload-IsSettled deadline timeout_ticks l buffer (before ++ a ∷ after)
            e some_room word capacity)
          (read-ends deadline timeout_ticks a after late before l),
      response (can_receive_write_response deadline timeout_ticks l (before ++ a ∷ after))
          (response-ends deadline timeout_ticks a after late before l),
    )
  where
    deadline : ℕ
    deadline = deadline_of start timeout_ticks

    late : timed_out deadline timeout_ticks a.now ≡ true
    late = rw now ((remaining_ticks_lem start timeout_ticks elapsed hs ht soon).1 ∙ ground arith)

    read :
        (o : Option Outcome)
        → IsSettled (length buffer) o
        → IsUnlessFaulted o
        → (l' : Link) × (r : ℤ) × (o ≡ some (returned l' r))
    read none s h = absurd s
    read (some (waiting l')) s h = absurd h
    read (some (returned l' r)) s h = (l', r, refl)

    response : (o : Outcome) → IsEnded o → (l' : Link) × (r : ℤ) × (o ≡ returned l' r)
    response (waiting l') h = absurd h
    response (returned l' r) h = (l', r, refl)
