-- ===== src/Mqtt/Events.antt =====
-- main/APP/MQTT/mqtt_app.c: the reports from their submission to the broker's acknowledgement.
pub mod Laws
use esp32aging.Base.{
  ℕ, zero, suc, ◌+◌, ◌-◌, ◌*◌, ◌/◌, ◌%◌, ◌^◌, ◌≤◌, ◌<◌, bit_and, bit_or, bit_xor, ◌≡◌, refl, sym,
  ap, ap₂, ◌∙◌, subst, ◌≢◌, ◌↔◌, ◌⊎◌, inl, inr, Bool, true, false, not, ◌&&◌, ◌||◌, Option, none,
  some, List, [], ◌∷◌, ◌++◌, map, arith, ltb, leb, ◌==◌, ==_iff, if◌then◌else◌, Bool-cases,
  Option-cases, length, get_elem?, get_or, set, take, drop, replicate, u8, u16, u32, ◌<<<◌, ◌>>>◌,
  ◌>>=◌, fill, dec_lt, dec_le, ℕ_discrete, ℤ, pos, negsuc, signed16, signed32, some_inj, if_cases,
  ltb_ℤ, suc_ℤ, int_max, str_eq, str_eq_iff, is_empty,
}
use esp32aging.Mqtt.{Kind, state, taskcp, context, warn, PendingEvent, EventAck, mqtt_due}
use esp32aging.Mqtt.Topic.{event_item}
use esp32aging.Mqtt.Acks.{
  mqtt_event_ack_reset, mqtt_event_ack_begin, mqtt_event_ack_register, id_of,
}

-- `s_event_stats`
pub record Stats : Type 0 where
  pub cached : ℕ
  pub submitted : ℕ
  pub acked : ℕ
  pub retried : ℕ
  pub cancelled : ℕ
  pub rejected : ℕ

-- `s_event_queue` with its work slot: `ready` is that both are allocated, `head` and `has_head` are
-- one option, `sending` is the `msg_id` of -1 during the SDK's call.
pub record Events : Type 0 where
  pub ready : Bool
  pub queue : List PendingEvent
  pub head : Option PendingEvent
  pub msg_id : ℤ
  pub client_generation : ℕ
  pub retry_epoch : ℕ
  pub retry_due : ℕ
  pub count : ℕ
  pub normal_count : ℕ
  pub taskcp_generation : ℕ
  pub stats : Stats
  pub ack : EventAck

abbrev pub queue_len : ℕ
queue_len = 128

abbrev pub normal_limit : ℕ
normal_limit = 96

abbrev pub is_normal : Kind → Bool
is_normal state = false
is_normal taskcp = false
is_normal context = true
is_normal warn = true

-- `mqtt_event_storage_init`; `allocated` is that the heap gives both blocks.
unfoldable pub mqtt_event_storage_init : Bool → Events → Events × Bool
mqtt_event_storage_init allocated s =
    if s.ready
    then (s, true)
    else if allocated
    then (
      record s {
        ready = true;
        queue = [];
        head = none;
        msg_id = pos 0;
        client_generation = 0;
        retry_epoch = 0;
        retry_due = 0;
        ack = record s.ack { early_acks = λ _. 0 };
      },
      true,
    )
    else (s, false)

abbrev reject : Events → Events
reject s = record s { stats = record s.stats { rejected = u32 (s.stats.rejected + 1) } }

-- `xQueueSend` on a queue of 128 items, without waiting.
abbrev queue_takes : Events → Bool
queue_takes s = ltb (length s.queue) queue_len

-- The part of `app_mqtt_event_submit` under the mutex.
unfoldable pub submit_item : Bool → PendingEvent → Events → Events × ℤ
submit_item allocated item s =
    let init = mqtt_event_storage_init allocated s in
    let s' = init.0 in
    if not init.1
    then (reject s', negsuc 0)
    else if ltb s'.count queue_len
        && (not (is_normal item.kind) || ltb s'.normal_count normal_limit)
        && queue_takes s'
    then (
      record s' {
        queue = s'.queue ++ record item { taskcp_generation = s'.taskcp_generation } ∷ [];
        count = u32 (s'.count + 1);
        normal_count = if is_normal item.kind then u32 (s'.normal_count + 1) else s'.normal_count;
        stats = record s'.stats { cached = u32 (s'.stats.cached + 1) };
      },
      pos 0,
    )
    else (reject s', negsuc 1)

-- `app_mqtt_event_submit`; `locked` is that the mutexes exist and the event mutex is taken in time.
unfoldable pub app_mqtt_event_submit :
    Bool → Bool → Option (List ℕ) → Option (List ℕ) → Option (List ℕ) → Kind → Events → Events × ℤ
app_mqtt_event_submit locked allocated topic_name payload device_id kind s =
    elim (event_item topic_name payload device_id kind) [
      | none ↦ (s, negsuc 0)
      | some item ↦ if not locked then (s, negsuc 0) else submit_item allocated item s
    ]

-- `app_mqtt_event_cancel_taskcp`
unfoldable pub app_mqtt_event_cancel_taskcp : Bool → Events → Events
app_mqtt_event_cancel_taskcp locked s =
    if locked then record s { taskcp_generation = u32 (s.taskcp_generation + 1) } else s

-- `mqtt_event_retire_head`, where the tick count reads `now`.
unfoldable pub mqtt_event_retire_head : ℕ → PendingEvent → Events → Events
mqtt_event_retire_head now head s = record s {
  normal_count = if is_normal head.kind then u32 (s.normal_count + 2 ^ 32 - 1) else s.normal_count;
  count = u32 (s.count + 2 ^ 32 - 1);
  head = none;
  msg_id = pos 0;
  retry_due = now;
  ack = mqtt_event_ack_reset s.ack;
}

-- What a poll reads under the state lock and of the service task: the client's generation, the
-- connection's epoch, whether there is a client, and whether the session is set up as far as
-- MQTT_SETUP_CONFIG_WAIT and current.
pub record MqttSession : Type 0 where
  pub generation : ℕ
  pub epoch : ℕ
  pub has_client : Bool
  pub is_set_up : Bool

-- What a poll does up to the SDK's call: it ends, or it submits an event.
pub data Polled : Type 0 where
  ended : Events → Polled
  submits : PendingEvent → Events → Polled

abbrev is_stale : PendingEvent → ℕ → Bool
is_stale head generation = elim head.kind [
  | taskcp ↦ not (head.taskcp_generation == generation)
  | _ ↦ false
]

-- `now` is what the tick count reads at the places of a poll, in their order.
-- The part of the poll from the test of the TaskCP generation on.
unfoldable pub poll_submit : (ℕ → ℕ) → MqttSession → PendingEvent → Events → Polled
poll_submit now session head s =
    if is_stale head s.taskcp_generation
    then ended (
        mqtt_event_retire_head (now 2) head
          (record s { stats = record s.stats { cancelled = u32 (s.stats.cancelled + 1) } }))
    else if not session.is_set_up
    then ended s
    else let s' =
        if s.retry_epoch == session.epoch
        then s
        else record s { retry_epoch = session.epoch; retry_due = now 2 } in
      if not (mqtt_due (now 3) s'.retry_due)
      then ended s'
      else submits head (record s' {
        ack = mqtt_event_ack_begin session.generation s'.ack;
        client_generation = session.generation;
        msg_id = negsuc 0;
      })

-- `bit_and` of the flags with MQTT_EVENT_ACK_PUBLISHED and MQTT_EVENT_ACK_DELETED.
abbrev has_flag : ℕ → ℕ → Bool
has_flag flags flag = not (bit_and flags flag == 0)

abbrev is_positive : ℤ → Bool
is_positive (pos n) = ltb 0 n
is_positive (negsuc n) = false

-- The part from the flags on, with an event in the work slot. 500 ticks are MQTT_EVENT_RETRY_MS.
unfoldable pub poll_head : (ℕ → ℕ) → ℕ → MqttSession → PendingEvent → Events → Polled
poll_head now retry_ticks session head s =
    if is_positive s.msg_id
    then if has_flag s.ack.flags 1
      then ended (
          mqtt_event_retire_head (now 2) head
            (record s { stats = record s.stats { acked = u32 (s.stats.acked + 1) } }))
      else if has_flag s.ack.flags 2
          || not session.has_client
          || not (s.client_generation == session.generation)
      then poll_submit now session head (record s {
        stats = record s.stats { retried = u32 (s.stats.retried + 1) };
        msg_id = pos 0;
        retry_due = u32 (now 1 + retry_ticks);
        ack = mqtt_event_ack_reset s.ack;
      })
      else ended s
    else poll_submit now session head s

-- `mqtt_event_poll` up to the SDK's call, with both mutexes taken.
unfoldable pub poll_begin : (ℕ → ℕ) → ℕ → MqttSession → Events → Polled
poll_begin now retry_ticks session s = if not s.ready then ended s else elim s.head [
  | some head ↦ poll_head now retry_ticks session head s
  | none ↦ elim s.queue [
    | [] ↦ ended s
    | head ∷ rest ↦
        poll_head now retry_ticks session head
          (record s { queue = rest; head = some head; retry_due = now 0 })
  ]
]

-- `mqtt_event_poll` from the SDK's call on, which returned `id`.
unfoldable pub poll_end : ℕ → ℕ → ℤ → Events → Events
poll_end now retry_ticks id s =
    let s' = record s { ack = mqtt_event_ack_register id s.ack; msg_id = pos (id_of id) } in
    if is_positive id
    then record s' { stats = record s.stats { submitted = u32 (s.stats.submitted + 1) } }
    else record s' {
      stats = record s.stats { retried = u32 (s.stats.retried + 1) };
      retry_due = u32 (now + retry_ticks);
    }
