-- ===== src/Transfer/Finalize/Prepared.antt =====
-- Its first steps: the supply is taken, with its digest, its version is compared, and it is recorded.
use esp32aging.Base.{
  ℕ, ◌≡◌, refl, sym, ap, ap₂, ◌∙◌, subst, ◌⊎◌, inl, inr, true, false, not, ◌||◌, Option, none, some,
  List, arith, if◌then◌else◌, ltb_ℤ, ℤ, pos, negsuc, if_cases, is_empty,
}
use esp32aging.Ota.{Err, ok, fail, invalid_version, is_ok}
use esp32aging.Ota.Version.{Scan, simple_ota_compare_versions}
use esp32aging.Ota.Cache.{CacheRecord, Partition, strlcpy}
use esp32aging.Ota.Cache.Nvs.{Nvs, ota_cache_store}
use esp32aging.Ota.Image.{Sha, Sdk, Digest, text_of, ota_cache_hash_file}
use esp32aging.Transfer.Receive.{invalid_state}
use esp32aging.Transfer.Finalize.{File, Service, Calls, Result, done, stops, take_file}
use esp32aging.Transfer.Finalize.Run.{with_digest, compare_running, persist}
use esp32aging.Transfer.Finalize.Succeeds.{Goes, digest_text, Succeeds, Same, IsFile, IsKept}

module _ (sscanf : List ℕ → Scan) (crc_of : CacheRecord → ℕ) {S C : Type 0} (nvs : Nvs S)
    (sha : Sha C) (sdk : Sdk) (c : Calls) (s : Service S) (p : Partition) (newer_by : ℕ)
    (h : Succeeds sscanf crc_of nvs sha sdk c s p newer_by) where
  pub take_file-Goes : Goes (λ a t. (a ≡ (s.ready_file, p)) × (t ≡ s)) (take_file c s)
  unfolding take_file
  take_file-Goes =
      if_cases P (not c.locks_at_start) (s, stops fail) unlocked
        (λ e. absurd (ground (arith, h.locks.0)))
        (λ e.
          if_cases P (not s.finalization_pending) (s, stops invalid_state)
            (taken s.ready_file.ready.partition) (λ k. absurd (ground (arith, h.pending)))
            (λ k. subst (λ o. P (taken o)) (sym h.supplied) (refl, refl)))
    where
      P : Service S × Result (File × Partition) → Type 0
      P = Goes (λ a t. (a ≡ (s.ready_file, p)) × (t ≡ s))

      taken : Option Partition → Service S × Result (File × Partition)
      taken o = elim o [ none ↦ (s, stops invalid_state) | some q ↦ (s, done (s.ready_file, q)) ]

      unlocked : Service S × Result (File × Partition)
      unlocked =
          if not s.finalization_pending
          then (s, stops invalid_state)
          else taken s.ready_file.ready.partition

  pub with_digest-Goes :
      Goes
        (λ file t. IsFile sha sdk s p file × Same s t)
        (with_digest sscanf crc_of nvs sha sdk c s.ready_file p s)
  unfolding with_digest
  with_digest-Goes =
      if_cases P (not (is_empty sha256_hex)) (s, done s.ready_file) fresh
        (λ e. ((digest_kept (ground arith), refl, refl), (refl, refl, refl, refl)))
        (λ e.
          if_cases P (not (is_ok digest.0)) (s, stops digest.0) hashed
            (λ k. absurd (ground (arith, h.hashes)))
            (λ k.
              if_cases P (not c.locks_for_digest) (s, stops fail)
                (record s { ready_file = file' }, done file')
                (λ l. absurd (ground (arith, h.locks.1)))
                (λ l. ((digest_new (ground arith), refl, refl), (refl, refl, refl, refl)))))
    where
      P : Service S × Result File → Type 0
      P = Goes (λ file t. IsFile sha sdk s p file × Same s t)

      sha256_hex : List ℕ
      sha256_hex = s.ready_file.sha256_hex

      digest : Digest
      digest = ota_cache_hash_file sha sdk (some p) s.ready_file.ready.size_bytes true

      file' : File
      file' = record s.ready_file { sha256_hex = text_of digest.1 }

      hashed : Service S × Result File
      hashed =
          if not c.locks_for_digest
          then (s, stops fail)
          else (record s { ready_file = file' }, done file')

      fresh : Service S × Result File
      fresh = if not (is_ok digest.0) then (s, stops digest.0) else hashed

      digest_kept : is_empty sha256_hex ≡ false → sha256_hex ≡ (digest_text sha sdk s p)
      digest_kept e = rw e refl

      digest_new : is_empty sha256_hex ≡ true → text_of digest.1 ≡ (digest_text sha sdk s p)
      digest_new e = rw e refl

  pub compare_running-Goes :
      (file : File) (t : Service S)
      → file.version ≡ s.ready_file.version
      → Goes
          (λ a u. (a ≡ pos newer_by) × (u ≡ t))
          (compare_running sscanf crc_of nvs sha sdk c file t)
  unfolding compare_running
  compare_running-Goes file t e =
      if_cases P (not (is_ok c.running.0)) (t, stops c.running.0) (later versions)
        (λ k. absurd (ground (arith, h.running))) (λ k. subst (λ x. P (later x)) (sym same) newer)
    where
      P : Service S × Result ℤ → Type 0
      P = Goes (λ a u. (a ≡ pos newer_by) × (u ≡ t))

      later : Err × Option ℤ → Service S × Result ℤ
      later x =
          let comparison : ℤ = elim x.1 [ none ↦ negsuc 0 | some n ↦ n ] in
          if not (is_ok x.0) || ltb_ℤ comparison (pos 0)
          then (t, stops invalid_version)
          else (t, done comparison)

      versions : Err × Option ℤ
      versions = simple_ota_compare_versions sscanf (some file.version) (some c.running.1) true

      same : versions ≡ (ok, some (pos newer_by))
      same =
          ap (λ (v : List ℕ). simple_ota_compare_versions sscanf (some v) (some c.running.1) true) e
          ∙ h.compared

      newer : P (later (ok, some (pos newer_by)))
      newer =
          if_cases P (ltb_ℤ (pos newer_by) (pos 0)) (t, stops invalid_version)
            (t, done (pos newer_by)) (λ k. absurd (ground arith)) (λ k. (refl, refl))

  pub persist-Goes :
      (file : File) (t : Service S)
      → file.sha256_hex ≡ (digest_text sha sdk s p)
      → Same s t
      → Goes (λ a u. IsKept s u) (persist sscanf crc_of nvs sha sdk file t)
  unfolding persist
  persist-Goes file t e k =
      if_cases P t.persisted (t, done tt) storing
        (λ l. (l, ap (λ (r : CacheRecord). r.origin) k.0, k.3))
        (λ l.
          if_cases P (not (is_ok stored.1)) (unstored, stops stored.1) (kept, done tt)
            (λ m. absurd (ground (arith, succeeds (ground (arith, k.2)))))
            (λ m. (refl, ap (λ (r : CacheRecord). r.origin) k.0, k.3)))
    where
      P : Service S × Result (Unit {0}) → Type 0
      P = Goes (λ a u. IsKept s u)

      with_text : CacheRecord → List ℕ → CacheRecord
      with_text r text = record r { sha256_hex = strlcpy 65 text }

      r : CacheRecord
      r = with_text t.candidate file.sha256_hex

      store : CacheRecord → S → S × Err
      store r x = ota_cache_store sscanf crc_of nvs (some r) x

      stored : S × Err
      stored = store r t.store

      unstored : Service S
      unstored = record t { candidate = r; store = stored.0 }

      kept : Service S
      kept = record t { candidate = r; store = stored.0; persisted = true }

      storing : Service S × Result (Unit {0})
      storing = if not (is_ok stored.1) then (unstored, stops stored.1) else (kept, done tt)

      same : stored ≡ store (with_text s.candidate (digest_text sha sdk s p)) s.store
      same = ap₂ store (ap₂ with_text k.0 e) k.1

      succeeds : s.persisted ≡ false → is_ok stored.1 ≡ true
      succeeds fresh = one h.stores
        where
          one :
              (s.persisted ≡ true)
                ⊎ (is_ok (store (with_text s.candidate (digest_text sha sdk s p)) s.store).1 ≡ true)
              → is_ok stored.1 ≡ true
          one (inl m) = cc (fresh, m)
          one (inr m) = ap (λ (x : S × Err). is_ok x.1) same ∙ m
