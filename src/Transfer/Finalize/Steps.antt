-- ===== src/Transfer/Finalize/Steps.antt =====
-- The steps that keep the state in order and make no call to the storage.
use esp32aging.Base.{
  ℕ, ◌≡◌, refl, Bool, true, false, not, ◌&&◌, Option, none, some, List, ◌∷◌, arith, ◌==◌,
  if◌then◌else◌, leb, u32, ◌+◌, ltb_ℤ, ℤ, pos, some_inj, if_cases,
}
use esp32aging.Ota.{fail, is_ok, c_str}
use esp32aging.Ota.Version.{Scan}
use esp32aging.Ota.Cache.{CacheRecord, Partition, origin_download}
use esp32aging.Ota.Cache.Nvs.Laws.{Content}
use esp32aging.Transfer.Receive.{invalid_state}
use esp32aging.Transfer.Finalize.{
  File, boots, notifies, Service, Calls, Result, done, stops, take_file, select_boot,
  notify_ready_children, offer_file, taken_name, schedule_retry, idle, pending_restart, retry_max,
}
use esp32aging.Transfer.Finalize.Staged.{
  HoldsRecord, AreSound, IsStaged, IsPending, pending-IsStaged, Keeps, adds_effect, with_state,
}

module _ {S : Type 0} (view : S → Content) (sscanf : List ℕ → Scan) (crc_of : CacheRecord → ℕ)
    (p : Partition) where
  pub take_file-Keeps :
      (c : Calls) (s : Service S)
      → IsStaged view sscanf crc_of p s
      → Keeps view sscanf crc_of p
          (λ a t. (a.1 ≡ p) × (a.0.ready.partition ≡ some p))
          (take_file c s)
  unfolding take_file
  take_file-Keeps c s h =
      if_cases P (not c.locks_at_start) (s, stops fail) unlocked (λ e. h)
        (λ e.
          if_cases P (not s.finalization_pending) (s, stops invalid_state) waiting (λ k. h)
            (λ k. found s.ready_file.ready.partition h.supplied (ground arith)))
    where
      P : Service S × Result (File × Partition) → Type 0
      P = Keeps view sscanf crc_of p (λ a t. (a.1 ≡ p) × (a.0.ready.partition ≡ some p))

      take : Option Partition → Service S × Result (File × Partition)
      take o = elim o [ none ↦ (s, stops invalid_state) | some q ↦ (s, done (s.ready_file, q)) ]

      waiting : Service S × Result (File × Partition)
      waiting = take s.ready_file.ready.partition

      unlocked : Service S × Result (File × Partition)
      unlocked = if not s.finalization_pending then (s, stops invalid_state) else waiting

      found : (o : Option Partition) → o ≡ some p → s.finalization_pending ≡ true → P (take o)
      found none e k = h
      found (some q) e k = (
        record {
          recorded = h.recorded;
          placed = h.placed;
          supplied = h.supplied;
          sound = h.sound;
          pending = k;
        },
        (some_inj e, h.supplied),
      )

  pub select_boot-Keeps :
      (c : Calls) (comparison : ℤ) (q : Partition) (s : Service S)
      → q ≡ p
      → IsPending view sscanf crc_of p s
      → s.persisted ≡ true
      → Keeps view sscanf crc_of p (λ a t. t.persisted ≡ true) (select_boot c q comparison s)
  unfolding select_boot
  select_boot-Keeps c comparison q s at h stored =
      if_cases P (not (s.candidate.origin == origin_download && ltb_ℤ (pos 0) comparison))
        (record s { state = idle }, done tt) newer
        (λ e. (with_state view sscanf crc_of p idle s h, stored))
        (λ e.
          if_cases P same (record s { state = pending_restart }, done tt) other
            (λ k. (with_state view sscanf crc_of p pending_restart s h, stored))
            (λ k.
              if_cases P (not (is_ok c.set_boot)) (selected, stops c.set_boot)
                (record selected { state = pending_restart }, done tt)
                (λ l. pending-IsStaged view sscanf crc_of p selected chosen)
                (λ l. (with_state view sscanf crc_of p pending_restart selected chosen, stored))))
    where
      P : Service S × Result (Unit {0}) → Type 0
      P = Keeps view sscanf crc_of p (λ a t. t.persisted ≡ true)

      selected : Service S
      selected = record s { effects = boots q s.store ∷ s.effects }

      same : Bool
      same = elim c.boot_partition [ none ↦ false | some b ↦ b.address == q.address ]

      other : Service S × Result (Unit {0})
      other =
          if not (is_ok c.set_boot)
          then (selected, stops c.set_boot)
          else (record selected { state = pending_restart }, done tt)

      newer : Service S × Result (Unit {0})
      newer = if same then (record s { state = pending_restart }, done tt) else other

      chosen : IsPending view sscanf crc_of p selected
      chosen = adds_effect view sscanf crc_of p (boots q s.store) s h (at, h.recorded stored)

  pub offer_file-Keeps :
      (c : Calls) (file : File) (s : Service S)
      → file.ready.partition ≡ some p
      → IsPending view sscanf crc_of p s
      → s.persisted ≡ true
      → Keeps view sscanf crc_of p
          (λ a t. (t.persisted ≡ true) × (t.ready_file.ready.valid ≡ true))
          (offer_file c file s)
  unfolding offer_file notify_ready_children
  offer_file-Keeps c file s at h stored =
      if_cases P (not (is_ok c.set_file_name)) (named, stops c.set_file_name) registered
        (λ e. pending-IsStaged view sscanf crc_of p named named_ok)
        (λ e.
          if_cases P (not c.locks_for_supply) (named, stops fail) notifying
            (λ k. pending-IsStaged view sscanf crc_of p named named_ok)
            (λ k.
              if_cases P c.planned (offered, stops invalid_state) notified
                (λ l. pending-IsStaged view sscanf crc_of p offered offered_ok)
                (λ l.
                  if_cases P (not (is_ok c.notify)) (told, stops c.notify) (told, done tt)
                    (λ m. pending-IsStaged view sscanf crc_of p told (told_ok (ground arith)))
                    (λ m. (told_ok (ground arith), (stored, refl))))))
    where
      P : Service S × Result (Unit {0}) → Type 0
      P =
          Keeps view sscanf crc_of p
            (λ a t. (t.persisted ≡ true) × (t.ready_file.ready.valid ≡ true))

      named : Service S
      named = record s {
        registered = c_str file.ready.file_name;
        sdk_file_name = taken_name c.set_file_name (c_str file.ready.file_name) s.sdk_file_name;
      }

      offered : Service S
      offered = record named {
        ready_file = record file { ready = record file.ready { valid = true } };
      }

      told : Service S
      told = record offered {
        last_notified = some c.now;
        effects = notifies offered.ready_file.ready offered.sdk_file_name ∷ s.effects;
      }

      notified : Service S × Result (Unit {0})
      notified = if not (is_ok c.notify) then (told, stops c.notify) else (told, done tt)

      notifying : Service S × Result (Unit {0})
      notifying = if c.planned then (offered, stops invalid_state) else notified

      registered : Service S × Result (Unit {0})
      registered = if not c.locks_for_supply then (named, stops fail) else notifying

      named_ok : IsPending view sscanf crc_of p named
      named_ok = record {
        recorded = h.recorded;
        placed = h.placed;
        supplied = h.supplied;
        sound = h.sound;
        pending = h.pending;
      }

      offered_ok : IsPending view sscanf crc_of p offered
      offered_ok = record {
        recorded = h.recorded;
        placed = h.placed;
        supplied = at;
        sound = h.sound;
        pending = h.pending;
      }

      told_ok : is_ok c.set_file_name ≡ true → IsPending view sscanf crc_of p told
      told_ok e = record {
        recorded = h.recorded;
        placed = h.placed;
        supplied = at;
        sound = ((refl, at, ground (arith, e)), h.sound);
        pending = h.pending;
      }

  pub schedule_retry-IsStaged :
      (interval now : ℕ) (s : Service S)
      → IsStaged view sscanf crc_of p s
      → IsStaged view sscanf crc_of p (schedule_retry interval now s)
  unfolding schedule_retry
  schedule_retry-IsStaged interval now s h =
      if_cases (IsStaged view sscanf crc_of p) s.retry_waiting s scheduled (λ e. h)
        (λ e.
          if_cases (IsStaged view sscanf crc_of p) (leb retry_max s.retry_count) given_up again
            (λ k. same given_up h.recorded h.placed h.supplied h.sound h.finished)
            (λ k. same again h.recorded h.placed h.supplied h.sound h.finished))
    where
      given_up : Service S
      given_up = record s { child_request_active = false }

      again : Service S
      again = record s {
        retry_count = s.retry_count + 1;
        retry_deadline = u32 (now + interval);
        retry_waiting = true;
      }

      scheduled : Service S
      scheduled = if leb retry_max s.retry_count then given_up else again

      same :
          (t : Service S)
          → (t.persisted ≡ true → HoldsRecord view sscanf crc_of p t.store)
          → t.candidate.partition_address ≡ p.address
          → t.ready_file.ready.partition ≡ some p
          → AreSound view sscanf crc_of p t.effects
          → (t.finalization_pending ≡ false
              → (t.persisted ≡ true) × (t.ready_file.ready.valid ≡ true))
          → IsStaged view sscanf crc_of p t
      same t a b c d e = record { recorded = a; placed = b; supplied = c; sound = d; finished = e }
