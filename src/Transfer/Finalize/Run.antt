-- ===== src/Transfer/Finalize/Run.antt =====
-- main/APP/OTA/mesh_ota.c: `finalize_candidate` and the runs of it for one candidate.
use esp32aging.Base.{
  ℕ, true, not, ◌||◌, none, some, List, [], ◌∷◌, if◌then◌else◌, ℤ, pos, negsuc, ltb_ℤ, is_empty,
}
use esp32aging.Ota.{fail, invalid_version, is_ok}
use esp32aging.Ota.Version.{Scan, simple_ota_compare_versions}
use esp32aging.Ota.Cache.{CacheRecord, Partition, strlcpy}
use esp32aging.Ota.Cache.Nvs.{Nvs, ota_cache_store}
use esp32aging.Ota.Image.{Sha, Sdk, text_of, ota_cache_hash_file}
use esp32aging.Transfer.Finalize.{
  File, Service, Calls, done, stops, M, ◌>>=◌, ◌>>◌, take_file, select_boot, offer_file, complete,
  schedule_retry,
}

module _ (sscanf : List ℕ → Scan) (crc_of : CacheRecord → ℕ) {S C : Type 0} (nvs : Nvs S)
    (sha : Sha C) (sdk : Sdk) where
  -- The digest is computed once, and kept for later runs.
  unfoldable pub with_digest : Calls → File → Partition → M S File
  with_digest c file p s =
      let digest = ota_cache_hash_file sha sdk (some p) file.ready.size_bytes true in
      let file' = record file { sha256_hex = text_of digest.1 } in
      if not (is_empty file.sha256_hex)
      then (s, done file)
      else if not (is_ok digest.0)
      then (s, stops digest.0)
      else if not c.locks_for_digest
      then (s, stops fail)
      else (record s { ready_file = file' }, done file')

  -- The version against the running one.
  unfoldable pub compare_running : Calls → File → M S ℤ
  compare_running c file s =
      let compared =
        simple_ota_compare_versions sscanf (some file.version) (some c.running.1) true in
      let comparison : ℤ = elim compared.1 [ none ↦ negsuc 0 | some n ↦ n ] in
      if not (is_ok c.running.0)
      then (s, stops c.running.0)
      else if not (is_ok compared.0) || ltb_ℤ comparison (pos 0)
      then (s, stops invalid_version)
      else (s, done comparison)

  -- The record is stored, once.
  unfoldable pub persist : File → M S (Unit {0})
  persist file s =
      let r = record s.candidate { sha256_hex = strlcpy 65 file.sha256_hex } in
      let stored = ota_cache_store sscanf crc_of nvs (some r) s.store in
      if s.persisted
      then (s, done tt)
      else if not (is_ok stored.1)
      then (record s { candidate = r; store = stored.0 }, stops stored.1)
      else (record s { candidate = r; store = stored.0; persisted = true }, done tt)

  -- `finalize_candidate`
  unfoldable pub finalize_candidate : Calls → M S (Unit {0})
  finalize_candidate c = do
    taken ← take_file c
    file ← with_digest c taken.0 taken.1
    comparison ← compare_running c file
    persist file
    select_boot c taken.1 comparison
    offer_file c file
    complete

  -- `finish_candidate`; `now` is read by `schedule_retry`.
  unfoldable pub finish_candidate : ℕ → Calls → ℕ → Service S → Service S
  finish_candidate interval c now s =
      let x = finalize_candidate c s in
      elim x.1 [ done a ↦ x.0 | stops e ↦ schedule_retry interval now x.0 ]

  -- The runs for one candidate, each with what it reads.
  unfoldable pub run_attempts : ℕ → List (Calls × ℕ) → Service S → Service S
  run_attempts interval [] s = s
  run_attempts interval (a ∷ as_) s =
      run_attempts interval as_ (finish_candidate interval a.0 a.1 s)
