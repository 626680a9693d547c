-- ===== src/Transfer/Finalize/Attempts.antt =====
-- An image is selected for the next start only when its record is stored, and offered to the nodes
-- below only when it can be supplied.
use esp32aging.Base.{
  ℕ, ◌≡◌, refl, sym, ◌∙◌, subst, Bool, true, false, not, ◌||◌, Option, none, some, List, [], ◌∷◌,
  arith, ◌==◌, if◌then◌else◌, ltb, ℤ, if_cases,
}
use esp32aging.Ota.{Err, ok, fail, invalid_arg, invalid_size, is_ok, c_str, refused}
use esp32aging.Ota.Version.{Scan}
use esp32aging.Ota.Cache.{CacheRecord, Partition, Metadata, origin_download, ota_cache_record_init}
use esp32aging.Ota.Cache.Nvs.{Nvs}
use esp32aging.Ota.Cache.Nvs.Laws.{Content, IsStorage}
use esp32aging.Ota.Image.{Sha, Sdk}
use esp32aging.Transfer.{binary_name_valid, aligned_file_size}
use esp32aging.Transfer.Finalize.{
  File, Service, Calls, Result, done, stops, M, ◌>>=◌, Identity, take_file, select_boot, offer_file,
  complete, schedule_retry, stage_record, snapshot_completion, stage_candidate, running,
}
use esp32aging.Transfer.Finalize.Run.{
  with_digest, compare_running, persist, finalize_candidate, finish_candidate, run_attempts,
}
use esp32aging.Transfer.Finalize.Staged.{AreSound, IsStaged, bind-IsStaged}
use esp32aging.Transfer.Finalize.Steps.{
  take_file-Keeps, select_boot-Keeps, offer_file-Keeps, schedule_retry-IsStaged,
}
use esp32aging.Transfer.Finalize.Record.{with_digest-Keeps, compare_running-Keeps, persist-Keeps}

module _ (sscanf : List ℕ → Scan) (crc_of : CacheRecord → ℕ) {S C : Type 0} (nvs : Nvs S)
    (view : S → Content) (storage : IsStorage nvs view) (sha : Sha C) (sdk : Sdk)
    (p : Partition) where
  finalize_candidate-IsStaged :
      (c : Calls) (s : Service S)
      → IsStaged view sscanf crc_of p s
      → IsStaged view sscanf crc_of p (finalize_candidate sscanf crc_of nvs sha sdk c s).0
  unfolding finalize_candidate complete
  finalize_candidate-IsStaged c s h =
      bind-IsStaged view sscanf crc_of p
        (λ (a : File × Partition) t. (a.1 ≡ p) × (a.0.ready.partition ≡ some p)) (take_file c)
        after_taken s (take_file-Keeps view sscanf crc_of p c s h)
        (λ taken s1 h1 q1.
          bind-IsStaged view sscanf crc_of p (λ (file : File) t. file.ready.partition ≡ some p)
            (with_digest sscanf crc_of nvs sha sdk c taken.0 taken.1) (after_digest taken.1) s1
            (with_digest-Keeps sscanf crc_of nvs view storage sha sdk p c taken.0 taken.1 s1 q1.1
              h1)
            (λ file s2 h2 q2.
              bind-IsStaged view sscanf crc_of p (λ (a : ℤ) t. Unit {0})
                (compare_running sscanf crc_of nvs sha sdk c file) (after_comparison taken.1 file)
                s2 (compare_running-Keeps sscanf crc_of nvs view storage sha sdk p c file s2 h2)
                (λ comparison s3 h3 q3.
                  bind-IsStaged view sscanf crc_of p stored (persist sscanf crc_of nvs sha sdk file)
                    (after_persist taken.1 file comparison) s3
                    (persist-Keeps sscanf crc_of nvs view storage sha sdk p file s3 h3)
                    (λ a4 s4 h4 q4.
                      bind-IsStaged view sscanf crc_of p stored (select_boot c taken.1 comparison)
                        (after_boot file) s4
                        (select_boot-Keeps view sscanf crc_of p c comparison taken.1 s4 q1.0 h4 q4)
                        (λ a5 s5 h5 q5.
                          bind-IsStaged view sscanf crc_of p
                            (λ (a : Unit {0}) t.
                              (t.persisted ≡ true) × (t.ready_file.ready.valid ≡ true))
                            (offer_file c file) after_offer s5
                            (offer_file-Keeps view sscanf crc_of p c file s5 q2 h5 q5)
                            (λ a6 s6 h6 q6. record {
                              recorded = h6.recorded;
                              placed = h6.placed;
                              supplied = h6.supplied;
                              sound = h6.sound;
                              finished = λ e. q6;
                            }))))))
    where
      stored : Unit {0} → Service S → Type 0
      stored a t = t.persisted ≡ true

      after_offer : Unit {0} → M S (Unit {0})
      after_offer a = complete

      after_boot : File → Unit {0} → M S (Unit {0})
      after_boot file a = offer_file c file >>= after_offer

      after_persist : Partition → File → ℤ → Unit {0} → M S (Unit {0})
      after_persist q file comparison a = select_boot c q comparison >>= after_boot file

      after_comparison : Partition → File → ℤ → M S (Unit {0})
      after_comparison q file comparison =
          persist sscanf crc_of nvs sha sdk file >>= after_persist q file comparison

      after_digest : Partition → File → M S (Unit {0})
      after_digest q file =
          compare_running sscanf crc_of nvs sha sdk c file >>= after_comparison q file

      after_taken : File × Partition → M S (Unit {0})
      after_taken taken =
          with_digest sscanf crc_of nvs sha sdk c taken.0 taken.1 >>= after_digest taken.1

  finish_candidate-IsStaged :
      (interval : ℕ) (c : Calls) (now : ℕ) (s : Service S)
      → IsStaged view sscanf crc_of p s
      → IsStaged view sscanf crc_of p (finish_candidate sscanf crc_of nvs sha sdk interval c now s)
  unfolding finish_candidate
  finish_candidate-IsStaged interval c now s h =
      step (finalize_candidate sscanf crc_of nvs sha sdk c s) (finalize_candidate-IsStaged c s h)
    where
      step :
          (x : Service S × Result (Unit {0}))
          → IsStaged view sscanf crc_of p x.0
          → IsStaged view sscanf crc_of p
              (elim x.1 [ done a ↦ x.0 | stops e ↦ schedule_retry interval now x.0 ])
      step (t, done a) k = k
      step (t, stops e) k = schedule_retry-IsStaged view sscanf crc_of p interval now t k

  run_attempts-IsStaged :
      (interval : ℕ) (attempts : List (Calls × ℕ)) (s : Service S)
      → IsStaged view sscanf crc_of p s
      → IsStaged view sscanf crc_of p (run_attempts sscanf crc_of nvs sha sdk interval attempts s)
  unfolding run_attempts
  run_attempts-IsStaged interval [] s h = h
  run_attempts-IsStaged interval (a ∷ rest) s h =
      run_attempts-IsStaged interval rest
        (finish_candidate sscanf crc_of nvs sha sdk interval a.0 a.1 s)
        (finish_candidate-IsStaged interval a.0 a.1 s h)

  -- What is staged without an error is in order.
  stage_record-IsStaged :
      (locks : Bool) (r : CacheRecord) (recovered reports : Bool) (s : Service S)
      → r.partition_address ≡ p.address
      → s.effects ≡ []
      → let x = stage_record locks r p false recovered reports s in
        x.1 ≡ ok → IsStaged view sscanf crc_of p x.0
  unfolding stage_record
  stage_record-IsStaged locks r recovered reports s at fresh =
      if_cases P
        (not (binary_name_valid (some (c_str r.file_name)))
          || padded_bytes == 0
          || ltb p.size padded_bytes)
        (s, invalid_size) unlocked (λ e h. cc)
        (λ e.
          if_cases P (not locks) (s, fail) (staged, ok) (λ k h. cc)
            (λ k h. record {
              recorded = λ l. cc;
              placed = at;
              supplied = refl;
              sound = subst (AreSound view sscanf crc_of p) (sym fresh) tt;
              finished = λ l. cc;
            }))
    where
      P : Service S × Err → Type 0
      P x = x.1 ≡ ok → IsStaged view sscanf crc_of p x.0

      padded_bytes : ℕ
      padded_bytes = aligned_file_size r.image_size_bytes

      staged : Service S
      staged = record s {
        ready_file = record {
          ready = record {
            valid = false;
            file_name = c_str r.file_name;
            size_bytes = r.image_size_bytes;
            partition = some p;
          };
          version = c_str r.version;
          sha256_hex = c_str r.sha256_hex;
        };
        candidate = r;
        persisted = false;
        recovered = recovered;
        report_completion = reports;
        finalization_pending = true;
        current_supply_pending = false;
        child_request_active = false;
        child_wait_parent = false;
        child_resume_scheduled = false;
        state = running;
      }

      unlocked : Service S × Err
      unlocked = if not locks then (s, fail) else (staged, ok)

  record_init-partition_address :
      (m : Metadata) (size_bytes : ℕ) (r : CacheRecord)
      → (ota_cache_record_init true (some p) (some m) size_bytes).1 ≡ some r
      → r.partition_address ≡ p.address
  unfolding ota_cache_record_init
  record_init-partition_address m size_bytes r h = ground arith

  snapshot-partition_address :
      (identity : Identity) (origin : ℕ) (r : CacheRecord)
      → (snapshot_completion identity origin r).0.partition_address ≡ r.partition_address
  unfolding snapshot_completion
  snapshot-partition_address identity origin r = ground arith

  stage_candidate-IsStaged :
      (locks : Bool) (identity : Identity) (m : Metadata) (size_bytes : ℕ) (s : Service S)
      → s.effects ≡ []
      → let x = stage_candidate locks identity m size_bytes (some p) s in
        x.1 ≡ ok → IsStaged view sscanf crc_of p x.0
  unfolding stage_candidate
  stage_candidate-IsStaged locks identity m size_bytes s fresh =
      step (ota_cache_record_init true (some p) (some m) size_bytes).1
        (record_init-partition_address m size_bytes)
    where
      P : Service S × Err → Type 0
      P x = x.1 ≡ ok → IsStaged view sscanf crc_of p x.0

      later : CacheRecord → Service S × Err
      later r =
          let completed = snapshot_completion identity origin_download r in
          if not (is_ok completed.1)
          then (s, completed.1)
          else stage_record locks completed.0 p false false true
              (record s { bootstrap_pending = false })

      step :
          (o : Option CacheRecord)
          → ((r : CacheRecord) → o ≡ some r → r.partition_address ≡ p.address)
          → P (elim o [ none ↦ (s, invalid_arg) | some r ↦ later r ])
      step none at = λ h. cc
      step (some r) at =
          let completed = snapshot_completion identity origin_download r in
          if_cases P (not (is_ok completed.1)) (s, completed.1)
            (stage_record locks completed.0 p false false true
              (record s { bootstrap_pending = false }))
            (λ e h. refused completed.1 (ground arith) h)
            (λ e.
              stage_record-IsStaged locks completed.0 false true
                (record s { bootstrap_pending = false })
                (snapshot-partition_address identity origin_download r ∙ at r refl) fresh)

  -- The storage behaves as documented. An image is staged, from which no call was made yet, and any
  -- number of runs of the service follow, whatever fails in them. Each time a partition is selected
  -- for the next start, it is that of the image, and the storage holds a record of this partition that
  -- is valid and has its checksum; each time the nodes below are notified, the supply of this
  -- partition is valid and its name is the one that the SDK took last. Once nothing is left to be
  -- done, the record is stored and the supply is valid.
  pub run_attempts-AreSound :
      (locks : Bool) (identity : Identity) (m : Metadata) (size_bytes interval : ℕ)
      (attempts : List (Calls × ℕ)) (before s after : Service S)
      → before.effects ≡ []
      → stage_candidate locks identity m size_bytes (some p) before ≡ (s, ok)
      → run_attempts sscanf crc_of nvs sha sdk interval attempts s ≡ after
      → AreSound view sscanf crc_of p after.effects
        × (after.finalization_pending ≡ false
            → (after.persisted ≡ true) × (after.ready_file.ready.valid ≡ true))
  run_attempts-AreSound locks identity m size_bytes interval attempts before s after fresh e e' =
      (h.sound, h.finished)
    where
      staged : IsStaged view sscanf crc_of p s
      staged =
          subst (λ (x : Service S × Err). x.1 ≡ ok → IsStaged view sscanf crc_of p x.0) e
            (stage_candidate-IsStaged locks identity m size_bytes before fresh) refl

      h : IsStaged view sscanf crc_of p after
      h =
          subst (IsStaged view sscanf crc_of p) e'
            (run_attempts-IsStaged interval attempts s staged)
