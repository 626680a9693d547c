-- ===== src/Mqtt/Examples.antt =====
-- Two reports, one of which is sent and acknowledged before the SDK has returned its number.
use esp32aging.Base.{
  ℕ, ◌≤◌, ◌≡◌, refl, true, false, none, some, List, [], ◌∷◌, arith, pos, length, drop,
}
use esp32aging.Mqtt.{Kind, taskcp, warn, PendingEvent, EventAck, mqtt_due, mqtt_retry_delay_ms}
use esp32aging.Mqtt.Topic.{full_topic, placeholder, has_percent}
use esp32aging.Mqtt.Acks.{
  published, mqtt_event_ack_begin, mqtt_event_ack_register, mqtt_event_ack_event,
  mqtt_event_ack_reset, mark, marked,
}
use esp32aging.Mqtt.Acks.Laws.Register.{Answer, handled, register-answered}
use esp32aging.Mqtt.Events.{
  Events, MqttSession, submit_item, mqtt_event_storage_init, mqtt_event_retire_head, poll_submit,
  poll_head, poll_begin, poll_end,
}
use esp32aging.Mqtt.Events.Laws.{reports, IsCounted}
use esp32aging.Mqtt.Events.Laws.Trace.{
  Action, submission, acknowledgement, begins, ends, run, all_accepted, Leave, run-IsLeft,
}
use esp32aging.Mqtt.Events.Laws.Submit.{is_in_flight, IsHandedOver, poll_begin-IsHandedOver}

abbrev no_ack : EventAck
no_ack = record { generation = 0; msg_id = pos 0; capture = false; flags = 0; early_acks = λ _. 0 }

abbrev start : Events
start = record {
  ready = false;
  queue = [];
  head = none;
  msg_id = pos 0;
  client_generation = 0;
  retry_epoch = 0;
  retry_due = 0;
  count = 0;
  normal_count = 0;
  taskcp_generation = 5;
  stats = record { cached = 0; submitted = 0; acked = 0; retried = 0; cancelled = 0; rejected = 0 };
  ack = no_ack;
}

start-IsCounted : IsCounted start
start-IsCounted = record {
  counted = refl;
  bounded = omega arith;
  counted_normal = refl;
  bounded_normal = omega arith;
  settled = omega arith;
  unready = λ _. refl;
}

abbrev report : Kind → List ℕ → PendingEvent
report kind payload = record {
  kind = kind;
  taskcp_generation = 0;
  topic = 116 ∷ [];
  payload = payload;
}

abbrev online : MqttSession
online = record { generation = 7; epoch = 3; has_client = true; is_set_up = true }

abbrev actions : List Action
actions =
    submission true (report warn (1 ∷ []))
    ∷ submission true (report taskcp (2 ∷ []))
    ∷ begins (λ _. 1000) 500 online
    ∷ acknowledgement true 7 (pos 9) published
    ∷ ends 1000 500 (pos 9)
    ∷ begins (λ _. 1100) 500 online
    ∷ []

run-IsLeft_example :
    IsCounted (run actions start)
    × ((k : ℕ) × (k ≤ length (all_accepted actions start))
        × (reports (run actions start) ≡ drop k (all_accepted actions start))
        × Leave actions start k)
run-IsLeft_example = run-IsLeft actions start start-IsCounted

-- The warning is acknowledged and the TaskCP report waits.
run-actions : ((run actions start).count ≡ 1) × ((run actions start).stats.acked ≡ 1)
unfolding run submit_item mqtt_event_storage_init poll_begin poll_head poll_submit poll_end
    mqtt_event_retire_head mqtt_event_ack_begin mqtt_event_ack_register mqtt_event_ack_event
    mqtt_event_ack_reset mark marked mqtt_due
run-actions = (refl, refl)

poll_begin-IsHandedOver_example :
    IsHandedOver
      (is_in_flight online (run (submission true (report warn (1 ∷ [])) ∷ []) start))
      (run (submission true (report warn (1 ∷ [])) ∷ []) start).taskcp_generation
      (reports (run (submission true (report warn (1 ∷ [])) ∷ []) start))
      online
      (poll_begin (λ _. 1000) 500 online (run (submission true (report warn (1 ∷ [])) ∷ []) start))
poll_begin-IsHandedOver_example =
    poll_begin-IsHandedOver (λ _. 1000) 500 online
      (run (submission true (report warn (1 ∷ [])) ∷ []) start)

abbrev answer : ℕ → ℕ → Answer
answer generation n = record {
  same_client = true;
  client_generation = generation;
  msg_id = pos n;
  ack = published;
}

-- Numbers 8 to 11 share a byte of the table.
register-answered_example :
    (mqtt_event_ack_register
      (pos 9)
      (handled (answer 7 8 ∷ answer 7 9 ∷ answer 6 10 ∷ []) (mqtt_event_ack_begin 7 no_ack))).flags
    ≡ 1
register-answered_example =
    register-answered 7 9 (answer 7 8 ∷ answer 7 9 ∷ answer 6 10 ∷ []) no_ack (omega arith)
      (omega arith)

full_topic_test :
    full_topic (97 ∷ 37 ∷ 115 ∷ 98 ∷ []) (some (49 ∷ 50 ∷ [])) ≡ some (97 ∷ 49 ∷ 50 ∷ 98 ∷ [])
unfolding full_topic placeholder has_percent
full_topic_test = refl

mqtt_retry_delay_ms_test : mqtt_retry_delay_ms 3000 1 ≡ (2, 7000)
unfolding mqtt_retry_delay_ms
mqtt_retry_delay_ms_test = refl
