-- ===== src/Mqtt/Events/Laws/Submit.antt =====
-- What a poll hands to the SDK.
use esp32aging.Base.{
  ℕ, ◌+◌, ◌≡◌, refl, sym, ap₂, subst, Bool, true, false, not, ◌&&◌, ◌||◌, Option, none, some, List,
  [], ◌∷◌, ◌==◌, if◌then◌else◌, u32, pos, negsuc, if_cases,
}
use esp32aging.Mqtt.{PendingEvent, mqtt_due}
use esp32aging.Mqtt.Acks.{mqtt_event_ack_begin, mqtt_event_ack_reset}
use esp32aging.Mqtt.Events.{
  Events, MqttSession, Polled, ended, submits, is_stale, poll_submit, poll_head, poll_begin,
  has_flag, is_positive, mqtt_event_retire_head,
}
use esp32aging.Mqtt.Events.Laws.{reports_of, reports}

-- The report in the work slot is with the SDK: it was sent by the present client, and the SDK has
-- neither given it up nor has the broker taken it.
abbrev pub is_in_flight : MqttSession → Events → Bool
is_in_flight session s =
    is_positive s.msg_id
    && not (has_flag s.ack.flags 1)
    && not (has_flag s.ack.flags 2)
    && session.has_client
    && (s.client_generation == session.generation)

-- What is handed over, if anything is, of `before` reports that wait: the oldest one, which is not in
-- flight and not cancelled, on a session that is set up; nothing leaves with it, and answers for the
-- present client are captured.
abbrev pub IsHandedOver : Bool → ℕ → List PendingEvent → MqttSession → Polled → Type 0
IsHandedOver in_flight generation before session (ended s) = Unit {0}
IsHandedOver in_flight generation before session (submits head s) =
    (in_flight ≡ false)
    × (s.head ≡ some head)
    × (reports s ≡ before)
    × (is_stale head generation ≡ false)
    × (session.is_set_up ≡ true)
    × (s.ack.capture ≡ true)
    × (s.ack.generation ≡ session.generation)
    × (s.client_generation ≡ session.generation)

module _ (head : PendingEvent) (in_flight : Bool) (idle : in_flight ≡ false) where
  poll_submit-IsHandedOver :
      (s : Events)
      → s.head ≡ some head
      → (now : ℕ → ℕ) (session : MqttSession)
      → IsHandedOver in_flight s.taskcp_generation
          (reports s)
          session
          (poll_submit now session head s)
  unfolding poll_submit mqtt_event_ack_begin
  poll_submit-IsHandedOver s h now session =
      split (is_stale head s.taskcp_generation) session.is_set_up refl refl
    where
      Over : Polled → Type 0
      Over = IsHandedOver in_flight s.taskcp_generation (reports s) session

      due : (b : Bool) (s1 : Events) (p : Polled) → Over p → Over (if b then ended s1 else p)
      due true s1 p o = tt
      due false s1 p o = o

      renewed : Events
      renewed =
          if s.retry_epoch == session.epoch
          then s
          else record s { retry_epoch = session.epoch; retry_due = now 2 }

      handed : Events → Polled
      handed s' = submits head (record s' {
        ack = mqtt_event_ack_begin session.generation s'.ack;
        client_generation = session.generation;
        msg_id = negsuc 0;
      })

      handed-over :
          (b : Bool)
          → is_stale head s.taskcp_generation ≡ false
          → session.is_set_up ≡ true
          → let s' = if b then s else record s { retry_epoch = session.epoch; retry_due = now 2 } in
            Over (handed s')
      handed-over true e1 e2 = (idle, h, refl, e1, e2, refl, refl, refl)
      handed-over false e1 e2 = (idle, h, refl, e1, e2, refl, refl, refl)

      split :
          (b1 b2 : Bool)
          → is_stale head s.taskcp_generation ≡ b1
          → session.is_set_up ≡ b2
          → Over (
              if b1
              then ended (
                  mqtt_event_retire_head (now 2) head (record s {
                    stats = record s.stats { cancelled = u32 (s.stats.cancelled + 1) };
                  }))
              else if not b2
              then ended s
              else if not (mqtt_due (now 3) renewed.retry_due)
              then ended renewed
              else handed renewed)
      split true b2 e1 e2 = tt
      split false false e1 e2 = tt
      split false true e1 e2 =
          due (not (mqtt_due (now 3) renewed.retry_due)) renewed (handed renewed)
            (handed-over (s.retry_epoch == session.epoch) e1 e2)

poll_head-IsHandedOver :
    (now : ℕ → ℕ) (retry_ticks : ℕ) (session : MqttSession) (head : PendingEvent) (s : Events)
    → s.head ≡ some head
    → IsHandedOver
        (is_in_flight session s)
        s.taskcp_generation
        (reports s)
        session
        (poll_head now retry_ticks session head s)
unfolding poll_head
poll_head-IsHandedOver now retry_ticks session head s h =
    split (is_positive s.msg_id) (has_flag s.ack.flags 1) (has_flag s.ack.flags 2)
      session.has_client (s.client_generation == session.generation)
  where
    again : Events
    again = record s {
      stats = record s.stats { retried = u32 (s.stats.retried + 1) };
      msg_id = pos 0;
      retry_due = u32 (now 1 + retry_ticks);
      ack = mqtt_event_ack_reset s.ack;
    }

    split :
        (b1 b2 b3 b4 b5 : Bool)
        → IsHandedOver
            (b1 && not b2 && not b3 && b4 && b5)
            s.taskcp_generation
            (reports s)
            session
            (if b1
              then if b2
                then ended (
                    mqtt_event_retire_head
                      (now 2)
                      head
                      (record s { stats = record s.stats { acked = u32 (s.stats.acked + 1) } }))
                else if b3 || not b4 || not b5
                then poll_submit now session head again
                else ended s
              else poll_submit now session head s)
    split false b2 b3 b4 b5 = poll_submit-IsHandedOver head false refl s h now session
    split true true b3 b4 b5 = tt
    split true false true b4 b5 = poll_submit-IsHandedOver head false refl again h now session
    split true false false false b5 = poll_submit-IsHandedOver head false refl again h now session
    split true false false true false = poll_submit-IsHandedOver head false refl again h now session
    split true false false true true = tt

-- A poll hands at most the oldest waiting report to the SDK, and only if that report is not in
-- flight: with a message number of the present client, and neither acknowledged nor given up. It is
-- not a cancelled TaskCP report, the session is set up and current, and no report leaves the queue
-- or the work slot by being handed over.
pub poll_begin-IsHandedOver :
    (now : ℕ → ℕ) (retry_ticks : ℕ) (session : MqttSession) (s : Events)
    → IsHandedOver
        (is_in_flight session s)
        s.taskcp_generation
        (reports s)
        session
        (poll_begin now retry_ticks session s)
unfolding poll_begin
poll_begin-IsHandedOver now retry_ticks session s =
    if_cases (IsHandedOver (is_in_flight session s) s.taskcp_generation (reports s) session)
      (not s.ready) (ended s) (pick s.head s.queue) (λ _. tt) (λ _. picked s.head s.queue refl refl)
  where
    pick : Option PendingEvent → List PendingEvent → Polled
    pick p q = elim p [
      | some head ↦ poll_head now retry_ticks session head s
      | none ↦ elim q [
        | [] ↦ ended s
        | head ∷ rest ↦
            poll_head now retry_ticks session head
              (record s { queue = rest; head = some head; retry_due = now 0 })
      ]
    ]

    picked :
        (p : Option PendingEvent) (q : List PendingEvent)
        → s.head ≡ p
        → s.queue ≡ q
        → IsHandedOver (is_in_flight session s) s.taskcp_generation (reports s) session (pick p q)
    picked (some head) q e d = poll_head-IsHandedOver now retry_ticks session head s e
    picked none [] e d = tt
    picked none (head ∷ rest) e d =
        subst
          (λ p.
            IsHandedOver (is_in_flight session s) s.taskcp_generation p session
              (pick none (head ∷ rest)))
          (sym (ap₂ reports_of e d))
          (poll_head-IsHandedOver now retry_ticks session head
            (record s { queue = rest; head = some head; retry_due = now 0 }) refl)
