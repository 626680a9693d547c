-- ===== src/Transfer/Finalize/Offered.antt =====
-- Its last steps: the image is selected for the next start, and offered to the nodes below.
use esp32aging.Base.{
  Option, ℕ, ◌≡◌, refl, sym, ap, ap₂, ◌∙◌, Bool, true, false, not, ◌&&◌, some, List, ◌∷◌, arith,
  ◌==◌, if◌then◌else◌, ltb_ℤ, pos, if_cases,
}
use esp32aging.Ota.{fail, is_ok, c_str}
use esp32aging.Ota.Version.{Scan}
use esp32aging.Ota.Cache.{CacheRecord, Partition, origin_download}
use esp32aging.Ota.Cache.Nvs.{Nvs}
use esp32aging.Ota.Image.{Sha, Sdk}
use esp32aging.Transfer.{ReadyFile}
use esp32aging.Transfer.Receive.{invalid_state}
use esp32aging.Transfer.Finalize.{
  taken_name, File, Effect, boots, notifies, Service, Calls, Result, done, stops, idle,
  pending_restart, select_boot, notify_ready_children, offer_file,
}
use esp32aging.Transfer.Finalize.Succeeds.{
  Goes, is_update, is_selected, Succeeds, IsReady, boot_effects, IsBooted,
}

module _ (sscanf : List ℕ → Scan) (crc_of : CacheRecord → ℕ) {S C : Type 0} (nvs : Nvs S)
    (sha : Sha C) (sdk : Sdk) (c : Calls) (s : Service S) (p : Partition) (newer_by : ℕ)
    (h : Succeeds sscanf crc_of nvs sha sdk c s p newer_by) where
  pub select_boot-Goes :
      (t : Service S)
      → t.persisted ≡ true
      → t.candidate.origin ≡ s.candidate.origin
      → t.effects ≡ s.effects
      → Goes (λ a u. IsBooted c s p newer_by u) (select_boot c p (pos newer_by) t)
  unfolding select_boot
  select_boot-Goes t stored e k =
      if_cases P (not update) (record t { state = idle }, done tt) newer
        (λ l. (
          stored,
          state_of false (ground arith),
          k ∙ effects_of false (is_selected c p) (ground arith) refl,
        ))
        (λ l.
          if_cases P (is_selected c p) (record t { state = pending_restart }, done tt) other
            (λ m. (stored, state_of true (ground arith), k ∙ effects_of true true (ground arith) m))
            (λ m.
              if_cases P (not (is_ok c.set_boot)) (selected, stops c.set_boot)
                (record selected { state = pending_restart }, done tt)
                (λ n. absurd (ground (arith, h.sets_boot)))
                (λ n. (
                  stored,
                  state_of true (ground arith),
                  ap (◌∷◌ (boots p t.store)) k ∙ effects_of true false (ground arith) m,
                ))))
    where
      P : Service S × Result (Unit {0}) → Type 0
      P = Goes (λ a u. IsBooted c s p newer_by u)

      update : Bool
      update = t.candidate.origin == origin_download && ltb_ℤ (pos 0) (pos newer_by)

      selected : Service S
      selected = record t { effects = boots p t.store ∷ t.effects }

      other : Service S × Result (Unit {0})
      other =
          if not (is_ok c.set_boot)
          then (selected, stops c.set_boot)
          else (record selected { state = pending_restart }, done tt)

      newer : Service S × Result (Unit {0})
      newer = if (is_selected c p) then (record t { state = pending_restart }, done tt) else other

      same : update ≡ (is_update s newer_by)
      same = ap (λ (o : ℕ). o == origin_download && ltb_ℤ (pos 0) (pos newer_by)) e

      state_of :
          (b : Bool)
          → update ≡ b
          → (if b then pending_restart else idle)
            ≡ (if (is_update s newer_by) then pending_restart else idle)
      state_of b l = ap (λ (d : Bool). if d then pending_restart else idle) (sym l ∙ same)

      effects_of :
          (b d : Bool)
          → update ≡ b
          → (is_selected c p) ≡ d
          → boot_effects p s.effects b d t.store
            ≡ boot_effects p s.effects (is_update s newer_by) (is_selected c p) t.store
      effects_of b d l m =
          ap₂ (λ (x y : Bool). boot_effects p s.effects x y t.store) (sym l ∙ same) (sym m)

  pub offer_file-Goes :
      (file : File) (t : Service S)
      → file.ready ≡ s.ready_file.ready
      → IsBooted c s p newer_by t
      → Goes
          (λ a u. IsReady c s p newer_by (record u { finalization_pending = false }))
          (offer_file c file t)
  unfolding offer_file notify_ready_children
  offer_file-Goes file t e k =
      if_cases P (not (is_ok c.set_file_name)) (named, stops c.set_file_name) registered
        (λ l. absurd (ground (arith, h.sets_name)))
        (λ l.
          if_cases P (not c.locks_for_supply) (named, stops fail) notifying
            (λ m. absurd (ground (arith, h.locks.2)))
            (λ m.
              if_cases P c.planned (offered, stops invalid_state) notified
                (λ n. cc (n, h.unplanned))
                (λ n.
                  if_cases P (not (is_ok c.notify)) (told, stops c.notify) (told, done tt)
                    (λ o. absurd (ground (arith, h.notified)))
                    (λ o. record {
                      stored = k.0;
                      valid = ap (λ (r : ReadyFile). record r { valid = true }) e;
                      finished = refl;
                      state = k.1;
                      effects =
                          ap₂
                            (λ (name : Option (List ℕ)) (es : List (Effect S)).
                              notifies (record file.ready { valid = true }) name ∷ es)
                            sdk_named k.2;
                    }))))
    where
      P : Service S × Result (Unit {0}) → Type 0
      P = Goes (λ a u. IsReady c s p newer_by (record u { finalization_pending = false }))

      named : Service S
      named = record t {
        registered = c_str file.ready.file_name;
        sdk_file_name = taken_name c.set_file_name (c_str file.ready.file_name) t.sdk_file_name;
      }

      sdk_named : named.sdk_file_name ≡ some (c_str s.ready_file.ready.file_name)
      sdk_named = ground (arith, h.sets_name) ∙ ap (λ (r : ReadyFile). some (c_str r.file_name)) e

      offered : Service S
      offered = record named {
        ready_file = record file { ready = record file.ready { valid = true } };
      }

      told : Service S
      told = record offered {
        last_notified = some c.now;
        effects = notifies offered.ready_file.ready offered.sdk_file_name ∷ t.effects;
      }

      notified : Service S × Result (Unit {0})
      notified = if not (is_ok c.notify) then (told, stops c.notify) else (told, done tt)

      notifying : Service S × Result (Unit {0})
      notifying = if c.planned then (offered, stops invalid_state) else notified

      registered : Service S × Result (Unit {0})
      registered = if not c.locks_for_supply then (named, stops fail) else notifying
