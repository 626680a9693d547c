-- ===== src/Mqtt/Events/Laws/Trace.antt =====
-- The reports over any sequence of submissions, cancellations, acknowledgements and polls.
use esp32aging.Base.{
  ℕ, ◌+◌, ◌≤◌, ◌<◌, ◌≡◌, refl, sym, ap, ap₂, ◌∙◌, subst, Bool, true, false, not, ◌&&◌, ◌||◌, Option,
  none, some, List, [], ◌∷◌, ◌++◌, arith, ltb, if◌then◌else◌, length, drop, u32, ℤ, pos, negsuc,
  if_cases, suc, ◌⊎◌, inl, inr, append-nil, append_assoc, drop-append, drop-drop, length-append,
  length-drop,
}
use esp32aging.Mqtt.{PendingEvent}
use esp32aging.Mqtt.Acks.{mqtt_event_ack_register, id_of, Ack, mqtt_event_ack_event}
use esp32aging.Mqtt.Events.{
  Events, queue_len, normal_limit, is_normal, mqtt_event_storage_init, reject, queue_takes,
  submit_item, app_mqtt_event_cancel_taskcp, is_positive, MqttSession, poll_begin, poll_end,
}
use esp32aging.Mqtt.Events.Laws.{
  reports_of, reports, bit, normals, IsCounted, Retires, IsLeft, after, poll_begin-IsLeft,
}

-- One section of the code under the event mutex, or one event of the SDK. Between `begins` and
-- `ends` of a poll any others may come.
pub data Action : Type 0 where
  submission : Bool → PendingEvent → Action
  cancellation : Bool → Action
  acknowledgement : Bool → ℕ → ℤ → Ack → Action
  begins : (ℕ → ℕ) → ℕ → MqttSession → Action
  ends : ℕ → ℕ → ℤ → Action

abbrev pub act : Action → Events → Events
act (submission allocated item) s = (submit_item allocated item s).0
act (cancellation locked) s = app_mqtt_event_cancel_taskcp locked s
act (acknowledgement same_client generation msg_id ack) s = record s {
  ack = mqtt_event_ack_event same_client generation msg_id ack s.ack;
}
act (begins now retry_ticks session) s = after (poll_begin now retry_ticks session s)
act (ends now retry_ticks id) s = poll_end now retry_ticks id s

-- The report that an action adds.
abbrev pub added : ℤ → PendingEvent → ℕ → List PendingEvent
added (pos n) item generation = record item { taskcp_generation = generation } ∷ []
added (negsuc n) item generation = []

abbrev pub accepted : Action → Events → List PendingEvent
accepted (submission allocated item) s =
    added (submit_item allocated item s).1 item s.taskcp_generation
accepted (cancellation locked) s = []
accepted (acknowledgement same_client generation msg_id ack) s = []
accepted (begins now retry_ticks session) s = []
accepted (ends now retry_ticks id) s = []

-- Only a poll lets a report go, and the oldest only.
abbrev pub MayLeave : Action → Events → Type 0
MayLeave (submission allocated item) s = ⊥
MayLeave (cancellation locked) s = ⊥
MayLeave (acknowledgement same_client generation msg_id ack) s = ⊥
MayLeave (begins now retry_ticks session) s = Retires s
MayLeave (ends now retry_ticks id) s = ⊥

unfoldable pub run : List Action → Events → Events
run [] s = s
run (a ∷ later) s = run later (act a s)

unfoldable pub all_accepted : List Action → Events → List PendingEvent
all_accepted [] s = []
all_accepted (a ∷ later) s = accepted a s ++ all_accepted later (act a s)

-- That `k` of the actions each let one report go, which might leave then.
abbrev pub Leave : List Action → Events → ℕ → Type 0
Leave [] s k = k ≡ 0
Leave (a ∷ later) s k =
    Leave later (act a s) k ⊎ ((j : ℕ) × (k ≡ suc j) × MayLeave a s × Leave later (act a s) j)

normals-append : (xs ys : List PendingEvent) → normals (xs ++ ys) ≡ normals xs + normals ys
normals-append [] ys = omega arith
normals-append (x ∷ xs) ys = omega (arith, normals-append xs ys)

reports_of-append :
    (p : Option PendingEvent) (xs ys : List PendingEvent)
    → reports_of p (xs ++ ys) ≡ reports_of p xs ++ ys
reports_of-append none xs ys = refl
reports_of-append (some x) xs ys = refl

-- The storage does not change what waits.
abbrev IsKept : Events → Events × Bool → Type 0
IsKept s r =
    IsCounted r.0
    × (reports r.0 ≡ reports s)
    × (r.0.taskcp_generation ≡ s.taskcp_generation)
    × (r.1 ≡ r.0.ready)

storage_init-IsKept :
    (allocated : Bool) (s : Events) → IsCounted s → IsKept s (mqtt_event_storage_init allocated s)
unfolding mqtt_event_storage_init
storage_init-IsKept allocated s i = split s.ready allocated refl
  where
    fresh : Events
    fresh = record s {
      ready = true;
      queue = [];
      head = none;
      msg_id = pos 0;
      client_generation = 0;
      retry_epoch = 0;
      retry_due = 0;
      ack = record s.ack { early_acks = λ _. 0 };
    }

    split :
        (b1 b2 : Bool)
        → s.ready ≡ b1
        → IsKept s (if b1 then (s, true) else if b2 then (fresh, true) else (s, false))
    split true b2 e = (i, refl, refl, sym e)
    split false false e = (i, refl, refl, sym e)
    split false true e = (
      record {
        counted = i.counted ∙ ap length (i.unready e);
        bounded = i.bounded;
        counted_normal = i.counted_normal ∙ ap normals (i.unready e);
        bounded_normal = i.bounded_normal;
        settled = i.settled;
        unready = λ _. refl;
      },
      sym (i.unready e),
      refl,
      refl,
    )

module _ (item : PendingEvent) (s : Events) where
  abbrev IsAdded : ℕ → Events × ℤ → Type 0
  IsAdded generation r = IsCounted r.0 × (reports r.0 ≡ reports s ++ added r.1 item generation)

  abbrev entered : Events
  entered = record s {
    queue = s.queue ++ record item { taskcp_generation = s.taskcp_generation } ∷ [];
    count = u32 (s.count + 1);
    normal_count = if is_normal item.kind then u32 (s.normal_count + 1) else s.normal_count;
    stats = record s.stats { cached = u32 (s.stats.cached + 1) };
  }

  entered-IsAdded :
      (i : IsCounted s)
      → s.count < 128
      → (is_normal item.kind ≡ true → s.normal_count < 96)
      → s.ready ≡ true
      → IsAdded s.taskcp_generation (entered, pos 0)
  entered-IsAdded i room room_normal ready = (
    record {
      counted = omega (arith, i.counted, i.bounded, sizes);
      bounded = omega arith;
      counted_normal = normal (is_normal item.kind) refl ∙ sym normal_sizes;
      bounded_normal = normal_bound (is_normal item.kind) refl;
      settled = omega (arith, i.settled, i.bounded);
      unready = λ e. let e' = sym ready ∙ e in cc;
    },
    adds,
  )
    where
      new_item : PendingEvent
      new_item = record item { taskcp_generation = s.taskcp_generation }

      adds : reports entered ≡ reports s ++ new_item ∷ []
      adds = reports_of-append s.head s.queue (new_item ∷ [])

      sizes : length (reports entered) ≡ length (reports s) + 1
      sizes = ap length adds ∙ length-append (reports s) (new_item ∷ [])

      normal_sizes :
          normals (reports entered) ≡ normals (reports s) + (bit (is_normal item.kind) + 0)
      normal_sizes = ap normals adds ∙ normals-append (reports s) (new_item ∷ [])

      normal :
          (b : Bool)
          → is_normal item.kind ≡ b
          → (if b then u32 (s.normal_count + 1) else s.normal_count)
            ≡ normals (reports s) + (bit b + 0)
      normal true e = omega (arith, i.counted_normal, i.bounded_normal)
      normal false e = omega (arith, i.counted_normal)

      normal_bound :
          (b : Bool)
          → is_normal item.kind ≡ b
          → (if b then u32 (s.normal_count + 1) else s.normal_count) ≤ 96
      normal_bound true e = omega (arith, room_normal e)
      normal_bound false e = i.bounded_normal

submit_item-IsAdded :
    (allocated : Bool) (item : PendingEvent) (s : Events)
    → (i : IsCounted s) → IsAdded item s s.taskcp_generation (submit_item allocated item s)
unfolding submit_item
submit_item-IsAdded allocated item s i =
    split (mqtt_event_storage_init allocated s) (storage_init-IsKept allocated s i)
  where
    room : Events → Bool
    room s' =
        ltb s'.count queue_len
        && (not (is_normal item.kind) || ltb s'.normal_count normal_limit)
        && queue_takes s'

    refused :
        (s' : Events) (n : ℕ)
        → IsCounted s'
        → reports s' ≡ reports s
        → IsAdded item s s.taskcp_generation (reject s', negsuc n)
    refused s' n k e = (k, e ∙ sym (append-nil (reports s)))

    split :
        (r : Events × Bool)
        → IsKept s r
        → IsAdded item s s.taskcp_generation (
            let s' = r.0 in
            if not r.1
            then (reject s', negsuc 0)
            else if room s'
            then (entered item s', pos 0)
            else (reject s', negsuc 1))
    split (s', false) k = refused s' 0 k.0 k.1
    split (s', true) k = go (room s') refl
      where
        go :
            (b : Bool)
            → room s' ≡ b
            → IsAdded item s s.taskcp_generation
                (if b then (entered item s', pos 0) else (reject s', negsuc 1))
        go false e = refused s' 1 k.0 k.1
        go true e =
            let done =
              entered-IsAdded item s' k.0 (ground (arith, e)) (λ n. ground (arith, e, n))
                (sym k.3) in
            (done.0, done.1 ∙ ap₂ (λ p g. p ++ added (pos 0) item g) k.1 k.2)

abbrev ended_call : ℤ → Events → Events
ended_call id s = record s { ack = mqtt_event_ack_register id s.ack; msg_id = pos (id_of id) }

act-IsLeft :
    (a : Action) (s : Events)
    → IsCounted s
    → IsLeft (MayLeave a s) (reports s ++ accepted a s) (act a s)
unfolding app_mqtt_event_cancel_taskcp poll_end
act-IsLeft (submission allocated item) s i =
    let l = submit_item-IsAdded allocated item s i in (l.0, (0, omega arith, l.1, inl refl))
act-IsLeft (begins now retry_ticks session) s i =
    subst (λ p. IsLeft (Retires s) p (act (begins now retry_ticks session) s))
      (sym (append-nil (reports s))) (poll_begin-IsLeft now retry_ticks session s i)
act-IsLeft (cancellation true) s i = (i, (0, omega arith, sym (append-nil (reports s)), inl refl))
act-IsLeft (cancellation false) s i = (i, (0, omega arith, sym (append-nil (reports s)), inl refl))
act-IsLeft (acknowledgement same_client generation msg_id ack) s i =
    (i, (0, omega arith, sym (append-nil (reports s)), inl refl))
act-IsLeft (ends now retry_ticks id) s i =
    if_cases (IsLeft ⊥ (reports s ++ [])) (is_positive id)
      (record (ended_call id s) {
        stats = record s.stats { submitted = u32 (s.stats.submitted + 1) };
      })
      (record (ended_call id s) {
        stats = record s.stats { retried = u32 (s.stats.retried + 1) };
        retry_due = u32 (now + retry_ticks);
      })
      (λ _. (i, (0, omega arith, sym (append-nil (reports s)), inl refl)))
      (λ _. (i, (0, omega arith, sym (append-nil (reports s)), inl refl)))

-- From a state whose counters are right, whatever is submitted, cancelled, acknowledged and polled in
-- whatever order: the counters stay right and within their limits (128 reports, 96 of the normal
-- kinds), and the reports that wait are those that waited and were accepted, in this order, without
-- the first `k`. Each of these `k` left in a poll of its own, as the oldest, when a message was awaited
-- and the flag of its PUBACK was set, or when it was of the kind TaskCP and of a generation that was
-- cancelled.
pub run-IsLeft :
    (actions : List Action) (s : Events)
    → IsCounted s
    → let before = reports s ++ all_accepted actions s in
      IsCounted (run actions s)
      × ((k : ℕ) × (k ≤ length before)
          × (reports (run actions s) ≡ drop k before)
          × Leave actions s k)
unfolding run all_accepted
run-IsLeft [] s i = (i, (0, omega arith, sym (append-nil (reports s)), refl))
run-IsLeft (a ∷ later) s i =
    let one = act-IsLeft a s i in
    let rest = run-IsLeft later (act a s) one.0 in
    let before = reports s ++ accepted a s in
    let more = all_accepted later (act a s) in
    let both : reports (act a s) ++ more ≡ drop one.1.0 (before ++ more) =
      ap (λ p. p ++ more) one.1.2 ∙ sym (drop-append one.1.0 before more one.1.1) in
    (
      rest.0,
      (
        one.1.0 + rest.1.0,
        omega (
          arith,
          one.1.1,
          rest.1.1,
          ap length both,
          length-drop one.1.0 (before ++ more),
          length-append before more,
          ap length (append_assoc (reports s) (accepted a s) more),
        ),
        rest.1.2
            ∙ ap (drop rest.1.0) both
            ∙ drop-drop one.1.0 rest.1.0 (before ++ more)
            ∙ ap (drop (one.1.0 + rest.1.0)) (append_assoc (reports s) (accepted a s) more),
        leaves one.1.0 rest.1.0 one.1.3 rest.1.3,
      ),
    )
  where
    leaves :
        (j k : ℕ)
        → (j ≡ 0) ⊎ ((j ≡ 1) × MayLeave a s)
        → Leave later (act a s) k
        → Leave (a ∷ later) s (j + k)
    leaves j k (inl e) l = inl (subst (Leave later (act a s)) {x = k} (omega (arith, e)) l)
    leaves j k (inr (e, w)) l = inr (k, omega (arith, e), w, l)
