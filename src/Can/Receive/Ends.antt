-- ===== src/Can/Receive/Ends.antt =====
-- A call that receives ends with the first round that its time is up in, if not before.
pub mod Read
use esp32aging.Base.{
  ℕ, zero, suc, ◌+◌, ◌-◌, ◌*◌, ◌/◌, ◌%◌, ◌^◌, ◌≤◌, ◌<◌, bit_and, bit_or, bit_xor, ◌≡◌, refl, sym,
  ap, ap₂, ◌∙◌, subst, ◌≢◌, ◌↔◌, ◌⊎◌, inl, inr, Bool, true, false, not, ◌&&◌, ◌||◌, Option, none,
  some, List, [], ◌∷◌, ◌++◌, map, arith, ltb, leb, ◌==◌, ==_iff, if◌then◌else◌, Bool-cases,
  Option-cases, length, get_elem?, get_or, set, take, drop, replicate, u8, u16, u32, ◌<<<◌, ◌>>>◌,
  ◌>>=◌, fill, dec_lt, dec_le, ℕ_discrete, ℤ, pos, negsuc, signed16, signed32, some_inj, if_cases,
  ltb_ℤ, suc_ℤ, int_max, str_eq, str_eq_iff, is_empty,
}
use esp32aging.Crc.{modbus_crc16}
use esp32aging.Can.{Message, can_proto_get_u16_le, frame_data_len}
use esp32aging.Can.Id.{can_match_response_id}
use esp32aging.Can.Ticks.{timed_out, deadline_of, remaining_ticks_lem}
use esp32aging.Can.Receive.{
  Arrival, Link, Outcome, returned, waiting, Round, over, look, wait_round, with_error, Next, skip,
  stop, go_on, faulted, on_start, on_load, finish_read, load_round, load_loop, start_round,
  start_loop, can_receive_read_payload, set_transfer, on_response, response_round,
  can_receive_write_response,
}
use esp32aging.Can.Receive.Safe.{IsSettled}
use esp32aging.Can.Receive.Safe.Read.{can_receive_read_payload-IsSettled}

abbrev pub IsEnded : Outcome → Type 0
IsEnded (returned l r) = Unit {0}
IsEnded (waiting l) = ⊥

abbrev pub IsUnlessFaulted : Option Outcome → Type 0
IsUnlessFaulted none = Unit {0}
IsUnlessFaulted (some o) = IsEnded o

-- A round whose time is up waits no longer.
abbrev pub IsOver : Round → Type 0
IsOver (over l r) = Unit {0}
IsOver (look l msg) = ⊥

pub wait_round-IsOver :
    (deadline timeout_ticks : ℕ) (l : Link) (a : Arrival)
    → timed_out deadline timeout_ticks a.now ≡ true
    → IsOver (wait_round deadline timeout_ticks l a)
unfolding wait_round
wait_round-IsOver deadline timeout_ticks l a late = rw late tt

-- A frame is passed over or answers the write.
abbrev IsAnswer : Next → Type 0
IsAnswer (skip l) = Unit {0}
IsAnswer (stop l r) = Unit {0}
IsAnswer (go_on l) = ⊥
IsAnswer faulted = ⊥

on_response-IsAnswer : (l : Link) (msg : Message) → IsAnswer (on_response l msg)
unfolding on_response
on_response-IsAnswer l msg =
    split (not (can_match_response_id msg.id l.transfer 0x62))
      (ltb msg.data_len frame_data_len || not (get_or msg.bytes 0 0 == l.transfer.data_type))
      (not (can_proto_get_u16_le msg.bytes 1 == l.transfer.offset)
        || not (can_proto_get_u16_le msg.bytes 3 == l.transfer.total))
      (not (can_proto_get_u16_le msg.bytes 5 == 0)) _ (negsuc 0) _ _
  where
    split :
        (b1 b2 b3 b4 : Bool) (l' : Link) (r1 r2 r3 : ℤ)
        → IsAnswer (
            if b1
            then skip l
            else if b2
            then skip l
            else if b3
            then stop l' r1
            else if b4
            then stop l' r2
            else stop l' r3)
    split true b2 b3 b4 l' r1 r2 r3 = tt
    split false true b3 b4 l' r1 r2 r3 = tt
    split false false true b4 l' r1 r2 r3 = tt
    split false false false true l' r1 r2 r3 = tt
    split false false false false l' r1 r2 r3 = tt

module _ (deadline timeout_ticks : ℕ) (a : Arrival) (after : List Arrival)
    (late : timed_out deadline timeout_ticks a.now ≡ true) where
  pub response-ends :
      (before : List Arrival) (l : Link)
      → IsEnded (can_receive_write_response deadline timeout_ticks l (before ++ a ∷ after))
  unfolding can_receive_write_response response_round
  response-ends [] l =
      go (wait_round deadline timeout_ticks l a) (wait_round-IsOver deadline timeout_ticks l a late)
    where
      go :
          (r : Round)
          → IsOver r
          → IsEnded
              (elim (elim r as (λ _. Next) [
                | over l' n ↦ stop l' n
                | look l' msg ↦ on_response l' msg
              ]) [
                | skip l' ↦ can_receive_write_response deadline timeout_ticks l' after
                | go_on l' ↦ waiting l'
                | stop l' r' ↦ returned l' r'
                | faulted ↦ waiting l
              ])
      go (over l' n) h = tt
      go (look l' msg) h = absurd h
  response-ends (b ∷ before) l = go (response-ends before) (wait_round deadline timeout_ticks l b)
    where
      act : Next → Outcome
      act (skip l') = can_receive_write_response deadline timeout_ticks l' (before ++ a ∷ after)
      act (go_on l') = waiting l'
      act (stop l' r) = returned l' r
      act faulted = waiting l

      acted :
          ((l' : Link)
            → IsEnded (can_receive_write_response deadline timeout_ticks l' (before ++ a ∷ after)))
          → (n : Next) → IsAnswer n
          → IsEnded (act n)
      acted ih (skip l') h = ih l'
      acted ih (stop l' r) h = tt
      acted ih (go_on l') h = absurd h
      acted ih faulted h = absurd h

      go :
          ((l' : Link)
            → IsEnded (can_receive_write_response deadline timeout_ticks l' (before ++ a ∷ after)))
          → (r : Round)
          → IsEnded (act (elim r [ over l' n ↦ stop l' n | look l' msg ↦ on_response l' msg ]))
      go ih (over l' r) = tt
      go ih (look l' msg) = acted ih (on_response l' msg) (on_response-IsAnswer l' msg)
