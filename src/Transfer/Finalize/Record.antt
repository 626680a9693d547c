-- ===== src/Transfer/Finalize/Record.antt =====
-- The steps that compute the digest, compare the versions and store the record.
use esp32aging.Base.{
  ℕ, ◌≡◌, refl, Bool, true, not, ◌||◌, Option, none, some, List, arith, if◌then◌else◌, ltb_ℤ, ℤ,
  pos, negsuc, if_cases, is_empty,
}
use esp32aging.Ota.{Err, ok, fail, invalid_version, is_ok, is_ok→ok}
use esp32aging.Ota.Version.{Scan, simple_ota_compare_versions}
use esp32aging.Ota.Cache.{CacheRecord, Partition, strlcpy}
use esp32aging.Ota.Cache.Nvs.{Nvs, sealed, ota_cache_store}
use esp32aging.Ota.Cache.Nvs.Laws.{Content, IsStorage}
use esp32aging.Ota.Cache.Nvs.RoundTrip.{sealed-is_intact, store-Stored}
use esp32aging.Ota.Image.{Sha, Sdk, Digest, text_of, ota_cache_hash_file}
use esp32aging.Transfer.Finalize.{File, Service, Calls, Result, done, stops}
use esp32aging.Transfer.Finalize.Run.{with_digest, compare_running, persist}
use esp32aging.Transfer.Finalize.Staged.{HoldsRecord, IsStaged, IsPending, pending-IsStaged, Keeps}

module _ (sscanf : List ℕ → Scan) (crc_of : CacheRecord → ℕ) {S C : Type 0} (nvs : Nvs S)
    (view : S → Content) (storage : IsStorage nvs view) (sha : Sha C) (sdk : Sdk)
    (p : Partition) where
  pub with_digest-Keeps :
      (c : Calls) (file : File) (q : Partition) (s : Service S)
      → file.ready.partition ≡ some p
      → IsPending view sscanf crc_of p s
      → Keeps view sscanf crc_of p
          (λ file' t. file'.ready.partition ≡ some p)
          (with_digest sscanf crc_of nvs sha sdk c file q s)
  unfolding with_digest
  with_digest-Keeps c file q s at h =
      if_cases P (not (is_empty file.sha256_hex)) (s, done file) fresh (λ e. (h, at))
        (λ e.
          if_cases P (not (is_ok digest.0)) (s, stops digest.0) hashed (λ k. staged)
            (λ k.
              if_cases P (not c.locks_for_digest) (s, stops fail) (kept, done file') (λ l. staged)
                (λ l. (
                  record {
                    recorded = h.recorded;
                    placed = h.placed;
                    supplied = at;
                    sound = h.sound;
                    pending = h.pending;
                  },
                  at,
                ))))
    where
      P : Service S × Result File → Type 0
      P = Keeps view sscanf crc_of p (λ file' t. file'.ready.partition ≡ some p)

      staged : IsStaged view sscanf crc_of p s
      staged = pending-IsStaged view sscanf crc_of p s h

      digest : Digest
      digest = ota_cache_hash_file sha sdk (some q) file.ready.size_bytes true

      file' : File
      file' = record file { sha256_hex = text_of digest.1 }

      kept : Service S
      kept = record s { ready_file = file' }

      hashed : Service S × Result File
      hashed = if not c.locks_for_digest then (s, stops fail) else (kept, done file')

      fresh : Service S × Result File
      fresh = if not (is_ok digest.0) then (s, stops digest.0) else hashed

  pub compare_running-Keeps :
      (c : Calls) (file : File) (s : Service S)
      → IsPending view sscanf crc_of p s
      → Keeps view sscanf crc_of p
          (λ a t. Unit {0})
          (compare_running sscanf crc_of nvs sha sdk c file s)
  unfolding compare_running
  compare_running-Keeps c file s h =
      if_cases P (not (is_ok c.running.0)) (s, stops c.running.0) compared (λ e. staged)
        (λ e.
          if_cases P refused (s, stops invalid_version) (s, done comparison) (λ k. staged)
            (λ k. (h, tt)))
    where
      P : Service S × Result ℤ → Type 0
      P = Keeps view sscanf crc_of p (λ a t. Unit {0})

      staged : IsStaged view sscanf crc_of p s
      staged = pending-IsStaged view sscanf crc_of p s h

      versions : Err × Option ℤ
      versions = simple_ota_compare_versions sscanf (some file.version) (some c.running.1) true

      comparison : ℤ
      comparison = elim versions.1 [ none ↦ negsuc 0 | some n ↦ n ]

      refused : Bool
      refused = not (is_ok versions.0) || ltb_ℤ comparison (pos 0)

      compared : Service S × Result ℤ
      compared = if refused then (s, stops invalid_version) else (s, done comparison)

  pub persist-Keeps :
      (file : File) (s : Service S)
      → IsPending view sscanf crc_of p s
      → Keeps view sscanf crc_of p
          (λ a t. t.persisted ≡ true)
          (persist sscanf crc_of nvs sha sdk file s)
  unfolding persist sealed
  persist-Keeps file s h =
      if_cases P s.persisted (s, done tt) storing (λ e. (h, e))
        (λ e.
          if_cases P (not (is_ok stored.1)) (unstored, stops stored.1) (kept, done tt)
            (λ k. record {
              recorded = λ l. cc (e, l);
              placed = h.placed;
              supplied = h.supplied;
              sound = h.sound;
              finished = λ l. cc (l, h.pending);
            })
            (λ k. (
              record {
                recorded = λ l. holds (is_ok→ok stored.1 (ground arith));
                placed = h.placed;
                supplied = h.supplied;
                sound = h.sound;
                pending = h.pending;
              },
              refl,
            )))
    where
      P : Service S × Result (Unit {0}) → Type 0
      P = Keeps view sscanf crc_of p (λ a t. t.persisted ≡ true)

      r : CacheRecord
      r = record s.candidate { sha256_hex = strlcpy 65 file.sha256_hex }

      stored : S × Err
      stored = ota_cache_store sscanf crc_of nvs (some r) s.store

      unstored : Service S
      unstored = record s { candidate = r; store = stored.0 }

      kept : Service S
      kept = record s { candidate = r; store = stored.0; persisted = true }

      storing : Service S × Result (Unit {0})
      storing = if not (is_ok stored.1) then (unstored, stops stored.1) else (kept, done tt)

      holds : stored.1 ≡ ok → HoldsRecord view sscanf crc_of p stored.0
      holds k =
          let now = store-Stored nvs view storage sscanf crc_of r s.store k in
          (
            sealed crc_of r,
            now.0,
            sealed-is_intact nvs view storage sscanf crc_of r now.1,
            h.placed,
          )
