-- ===== src/Mqtt/Events/Laws.antt =====
-- The reports that wait: their number, their order, and which of them leave.
pub mod Trace
pub mod Submit
use esp32aging.Base.{
  ℕ, zero, suc, ◌+◌, ◌-◌, ◌*◌, ◌/◌, ◌%◌, ◌^◌, ◌≤◌, ◌<◌, bit_and, bit_or, bit_xor, ◌≡◌, refl, sym,
  ap, ap₂, ◌∙◌, subst, ◌≢◌, ◌↔◌, ◌⊎◌, inl, inr, Bool, true, false, not, ◌&&◌, ◌||◌, Option, none,
  some, List, [], ◌∷◌, ◌++◌, map, arith, ltb, leb, ◌==◌, ==_iff, if◌then◌else◌, Bool-cases,
  Option-cases, length, get_elem?, get_or, set, take, drop, replicate, u8, u16, u32, ◌<<<◌, ◌>>>◌,
  ◌>>=◌, fill, dec_lt, dec_le, ℕ_discrete, ℤ, pos, negsuc, signed16, signed32, some_inj, if_cases,
  ltb_ℤ, suc_ℤ, int_max, str_eq, str_eq_iff, is_empty,
}
use esp32aging.Mqtt.{mqtt_due, Kind, state, taskcp, context, warn, PendingEvent, EventAck}
use esp32aging.Mqtt.Acks.{
  mqtt_event_ack_begin, mqtt_event_ack_reset, mqtt_event_ack_register, Ack, mqtt_event_ack_event,
  id_of,
}
use esp32aging.Mqtt.Events.{
  Stats, Events, queue_len, normal_limit, is_normal, mqtt_event_storage_init, reject, queue_takes,
  submit_item, app_mqtt_event_cancel_taskcp, mqtt_event_retire_head, MqttSession, Polled, ended,
  submits, is_stale, poll_submit, poll_head, poll_begin, poll_end, has_flag, is_positive,
}

-- The reports that are accepted and not yet settled, the oldest first.
abbrev pub reports_of : Option PendingEvent → List PendingEvent → List PendingEvent
reports_of none queue = queue
reports_of (some head) queue = head ∷ queue

abbrev pub reports : Events → List PendingEvent
reports s = reports_of s.head s.queue

abbrev pub bit : Bool → ℕ
bit true = 1
bit false = 0

abbrev pub normals : List PendingEvent → ℕ
normals [] = 0
normals (e ∷ es) = bit (is_normal e.kind) + normals es

-- The counters count the reports that wait, stay within their limits, and no report is lost: each
-- that was cached waits, or was acknowledged, or was cancelled (all counts modulo 2^32).
pub record Counted (ready : Bool) (waiting : List PendingEvent)
    (count normal_count cached acked cancelled : ℕ) : Type 0 where
  pub counted : count ≡ length waiting
  pub bounded : count ≤ 128
  pub counted_normal : normal_count ≡ normals waiting
  pub bounded_normal : normal_count ≤ 96
  pub settled : cached ≡ u32 (acked + cancelled + count)
  pub unready : ready ≡ false → waiting ≡ []

abbrev pub IsCounted : Events → Type 0
IsCounted s =
    Counted s.ready (reports s) s.count s.normal_count s.stats.cached s.stats.acked
      s.stats.cancelled

-- A TaskCP report that was cancelled after it was submitted.
abbrev pub IsCancelled : PendingEvent → ℕ → Type 0
IsCancelled head generation = (head.kind ≡ taskcp) × (head.taskcp_generation ≢ generation)

-- A message is awaited, and the flag of its PUBACK is set.
abbrev pub IsPublished : Events → Type 0
IsPublished s = (is_positive s.msg_id ≡ true) × (bit_and s.ack.flags 1 ≢ 0)

-- The oldest report may leave.
abbrev pub Retires : Events → Type 0
Retires s =
    (head : PendingEvent) × (rest : List PendingEvent) × (reports s ≡ head ∷ rest)
    × (IsPublished s ⊎ IsCancelled head s.taskcp_generation)

-- What a step leaves: the counters are right, and of `before` at most the first is gone, and that
-- only for the reason `W`.
abbrev pub IsLeft : Type 0 → List PendingEvent → Events → Type 0
IsLeft W before s =
    IsCounted s
    × ((k : ℕ) × (k ≤ length before) × (reports s ≡ drop k before) × ((k ≡ 0) ⊎ ((k ≡ 1) × W)))

weaken :
    {W V : Type 0} {before : List PendingEvent} (s : Events)
    → (W → V)
    → IsLeft W before s
    → IsLeft V before s
weaken {W} {V} s f l = (l.0, (l.1.0, l.1.1, l.1.2, go l.1.3))
  where
    go : {k : ℕ} → (k ≡ 0) ⊎ ((k ≡ 1) × W) → (k ≡ 0) ⊎ ((k ≡ 1) × V)
    go (inl e) = inl e
    go (inr (e, w)) = inr (e, f w)

is_stale-IsCancelled :
    (head : PendingEvent) (generation : ℕ)
    → is_stale head generation ≡ true
    → IsCancelled head generation
is_stale-IsCancelled head generation = go head.kind refl
  where
    go :
        (k : Kind)
        → head.kind ≡ k
        → elim k [ taskcp ↦ not (head.taskcp_generation == generation) | _ ↦ false ] ≡ true
        → IsCancelled head generation
    go taskcp e h = (e, ground arith)
    go state e h = cc
    go context e h = cc
    go warn e h = cc

abbrev pub after : Polled → Events
after (ended s) = s
after (submits head s) = s

either :
    {W : Type 0} {before : List PendingEvent} (b : Bool) (p q : Polled)
    → IsLeft W before (after p)
    → IsLeft W before (after q)
    → IsLeft W before (after (if b then p else q))
either true p q hp hq = hp
either false p q hp hq = hq

module _ (head : PendingEvent) (s : Events) (h : s.head ≡ some head) (i : IsCounted s) where
  stays :
      {W : Type 0} (s' : Events) → IsCounted s' → reports s' ≡ reports s → IsLeft W (reports s) s'
  stays s' i' e = (i', (0, omega arith, e, inl refl))

  -- The report in the work slot goes.
  retire_head-IsLeft :
      {W : Type 0} (now acked cancelled : ℕ)
      → u32 (acked + cancelled) ≡ u32 (s.stats.acked + s.stats.cancelled + 1)
      → W
      → IsLeft W (reports s) (
          mqtt_event_retire_head now head
            (record s { stats = record s.stats { acked = acked; cancelled = cancelled } }))
  unfolding mqtt_event_retire_head
  retire_head-IsLeft now acked cancelled e w = (
    record {
      counted = ground (arith, count_eq, i.bounded);
      bounded = ground (arith, count_eq, i.bounded);
      counted_normal = go (is_normal head.kind) normal_eq;
      bounded_normal = go_bound (is_normal head.kind) normal_eq;
      settled = omega (arith, e, i.settled, count_eq, i.bounded);
      unready = λ r. absurd (nonempty r);
    },
    (1, omega (arith, size_eq), ap (drop 1) (sym pending_eq), inr (refl, w)),
  )
    where
      pending_eq : reports s ≡ head ∷ s.queue
      pending_eq = ap (λ p. reports_of p s.queue) h

      size_eq : length (reports s) ≡ suc (length s.queue)
      size_eq = ap length pending_eq

      count_eq : s.count ≡ suc (length s.queue)
      count_eq = i.counted ∙ size_eq

      normal_eq : s.normal_count ≡ bit (is_normal head.kind) + normals s.queue
      normal_eq = i.counted_normal ∙ ap normals pending_eq

      nonempty : s.ready ≡ false → ⊥
      nonempty r = let e' = sym pending_eq ∙ i.unready r in cc

      go :
          (b : Bool)
          → s.normal_count ≡ bit b + normals s.queue
          → (if b then u32 (s.normal_count + 2 ^ 32 - 1) else s.normal_count) ≡ normals s.queue
      go true q = omega (arith, q, i.bounded_normal)
      go false q = omega (arith, q)

      go_bound :
          (b : Bool)
          → s.normal_count ≡ bit b + normals s.queue
          → (if b then u32 (s.normal_count + 2 ^ 32 - 1) else s.normal_count) ≤ 96
      go_bound true q = omega (arith, q, i.bounded_normal)
      go_bound false q = i.bounded_normal

  submission : MqttSession → Events → Polled
  submission session s' = submits head (record s' {
    ack = mqtt_event_ack_begin session.generation s'.ack;
    client_generation = session.generation;
    msg_id = negsuc 0;
  })

  abbrev renewed : MqttSession → ℕ → Events
  renewed session now = record s { retry_epoch = session.epoch; retry_due = now }

  poll_submit-IsLeft :
      (now : ℕ → ℕ) (session : MqttSession)
      → IsLeft
          (IsCancelled head s.taskcp_generation)
          (reports s)
          (after (poll_submit now session head s))
  unfolding poll_submit submission
  poll_submit-IsLeft now session =
      split (is_stale head s.taskcp_generation) (not session.is_set_up)
        (s.retry_epoch == session.epoch) (is_stale-IsCancelled head s.taskcp_generation)
    where
      split :
          (b1 b2 b3 : Bool)
          → (b1 ≡ true → IsCancelled head s.taskcp_generation)
          → IsLeft (IsCancelled head s.taskcp_generation) (reports s) (
              after (
                if b1
                then ended (
                    mqtt_event_retire_head (now 2) head (record s {
                      stats = record s.stats { cancelled = u32 (s.stats.cancelled + 1) };
                    }))
                else if b2
                then ended s
                else let s' =
                    if b3 then s else record s { retry_epoch = session.epoch; retry_due = now 2 } in
                  if not (mqtt_due (now 3) s'.retry_due)
                  then ended s'
                  else submits head (record s' {
                    ack = mqtt_event_ack_begin session.generation s'.ack;
                    client_generation = session.generation;
                    msg_id = negsuc 0;
                  })))
      split true b2 b3 w =
          retire_head-IsLeft (now 2) s.stats.acked (u32 (s.stats.cancelled + 1)) (omega arith)
            (w refl)
      split false true b3 w = stays s i refl
      split false false true w =
          either (not (mqtt_due (now 3) s.retry_due)) (ended s) (submission session s)
            (stays s i refl) (stays s i refl)
      split false false false w =
          either (not (mqtt_due (now 3) (now 2))) (ended (renewed session (now 2)))
            (submission session (renewed session (now 2))) (stays (renewed session (now 2)) i refl)
            (stays (renewed session (now 2)) i refl)

-- An acknowledged report goes, one that the SDK gave up is tried again, and any other waits.
module _ (head : PendingEvent) (s : Events) (h : s.head ≡ some head) (i : IsCounted s) where
  poll_head-IsLeft :
      (now : ℕ → ℕ) (retry_ticks : ℕ) (session : MqttSession)
      → IsLeft
          (IsPublished s ⊎ IsCancelled head s.taskcp_generation)
          (reports s)
          (after (poll_head now retry_ticks session head s))
  unfolding poll_head
  poll_head-IsLeft now retry_ticks session =
      split (is_positive s.msg_id) (has_flag s.ack.flags 1)
        (has_flag s.ack.flags 2
          || not session.has_client
          || not (s.client_generation == session.generation))
        (λ e f. (e, ground (arith, f)))
    where
      W : Type 0
      W = IsPublished s ⊎ IsCancelled head s.taskcp_generation

      again : Events
      again = record s {
        stats = record s.stats { retried = u32 (s.stats.retried + 1) };
        msg_id = pos 0;
        retry_due = u32 (now 1 + retry_ticks);
        ack = mqtt_event_ack_reset s.ack;
      }

      split :
          (b1 b2 b3 : Bool)
          → (b1 ≡ true → b2 ≡ true → IsPublished s)
          → IsLeft W (reports s) (
              after (
                if b1
                then if b2
                  then ended (
                      mqtt_event_retire_head
                        (now 2)
                        head
                        (record s { stats = record s.stats { acked = u32 (s.stats.acked + 1) } }))
                  else if b3
                  then poll_submit now session head again
                  else ended s
                else poll_submit now session head s))
      split true true b3 w =
          retire_head-IsLeft head s h i (now 2) (u32 (s.stats.acked + 1)) s.stats.cancelled
            (omega arith) (inl (w refl refl))
      split true false true w =
          weaken (after (poll_submit now session head again)) inr
            (poll_submit-IsLeft head again h i now session)
      split true false false w = stays head s h i s i refl
      split false b2 b3 w =
          weaken (after (poll_submit now session head s)) inr
            (poll_submit-IsLeft head s h i now session)

pub poll_begin-IsLeft :
    (now : ℕ → ℕ) (retry_ticks : ℕ) (session : MqttSession) (s : Events)
    → IsCounted s
    → IsLeft (Retires s) (reports s) (after (poll_begin now retry_ticks session s))
unfolding poll_begin
poll_begin-IsLeft now retry_ticks session s i =
    if_cases (λ p. IsLeft (Retires s) (reports s) (after p)) (not s.ready) (ended s)
      (pick s.head s.queue) (λ _. (i, (0, omega arith, refl, inl refl)))
      (λ _. picked s.head s.queue refl refl)
  where
    pick : Option PendingEvent → List PendingEvent → Polled
    pick p q = elim p [
      | some head ↦ poll_head now retry_ticks session head s
      | none ↦ elim q [
        | [] ↦ ended s
        | head ∷ rest ↦
            poll_head now retry_ticks session head
              (record s { queue = rest; head = some head; retry_due = now 0 })
      ]
    ]

    picked :
        (p : Option PendingEvent) (q : List PendingEvent)
        → s.head ≡ p
        → s.queue ≡ q
        → IsLeft (Retires s) (reports s) (after (pick p q))
    picked (some head) q e d =
        weaken (after (pick (some head) q))
          (λ w. (head, s.queue, ap (λ p. reports_of p s.queue) e, w))
          (poll_head-IsLeft head s e i now retry_ticks session)
    picked none [] e d = (i, (0, omega arith, refl, inl refl))
    picked none (head ∷ rest) e d =
        weaken (after (pick none (head ∷ rest))) (λ w. (head, rest, same, w))
          (subst
            (λ p.
              IsLeft (IsPublished s ⊎ IsCancelled head s.taskcp_generation) p
                (after (pick none (head ∷ rest))))
            (sym same)
            (poll_head-IsLeft head (record s { queue = rest; head = some head; retry_due = now 0 })
              refl
              (subst
                (λ p.
                  Counted s.ready p s.count s.normal_count s.stats.cached s.stats.acked
                    s.stats.cancelled)
                same i)
              now retry_ticks session))
      where
        same : reports s ≡ head ∷ rest
        same = ap₂ reports_of e d
