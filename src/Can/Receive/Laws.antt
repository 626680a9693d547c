-- ===== src/Can/Receive/Laws.antt =====
-- What a round of a loop leaves of the transfer.
use esp32aging.Base.{ℕ, ◌≡◌, refl, Bool, true, false, none, some, if◌then◌else◌, pos, negsuc}
use esp32aging.Can.Ticks.{timed_out}
use esp32aging.Can.Receive.{
  Received, not_ready, nothing_came, came, Arrival, Link, Round, over, look, wait_round, with_error,
  can_recv_twai_from_queue, can_recv_msg_from_queue,
}

-- What a round leaves of the transfer: it is over with a negative result and the code of a timeout,
-- or there is a frame and nothing has changed.
abbrev pub Waited : Link → Round → Type 0
Waited l (over l' (pos n)) = ⊥
Waited l (over l' (negsuc k)) = l'.transfer ≡ with_error l.transfer 6
Waited l (look l' msg) = l'.transfer ≡ l.transfer

pub wait_round_lem :
    (deadline timeout_ticks : ℕ) (l : Link) (a : Arrival)
    → Waited l (wait_round deadline timeout_ticks l a)
unfolding wait_round can_recv_msg_from_queue can_recv_twai_from_queue
wait_round_lem deadline timeout_ticks l a =
    split (timed_out deadline timeout_ticks a.now) a.received l.use_send_flag
  where
    split :
        (up : Bool) (r : Received) (flag : Bool)
        → Waited l (
            if up
            then over
                (record { use_send_flag = false; transfer = with_error l.transfer 6 })
                (negsuc 4)
            else let got = can_recv_msg_from_queue flag r in
              elim got.2 [
                | none ↦
                    over
                      (record { use_send_flag = got.0; transfer = with_error l.transfer 6 })
                      got.1
                | some msg ↦ look (record l { use_send_flag = got.0 }) msg
              ])
    split true r flag = refl
    split false not_ready flag = refl
    split false nothing_came true = refl
    split false nothing_came false = refl
    split false (came msg) flag = refl
