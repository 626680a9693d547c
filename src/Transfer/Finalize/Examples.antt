-- ===== src/Transfer/Finalize/Examples.antt =====
-- An image is staged; the first run of the service cannot notify the nodes below, the second one can.
use esp32aging.Base.{ℕ, ◌≡◌, refl, true, false, none, some, List, [], ◌∷◌, ◌++◌, pos, str_eq, inr}
use esp32aging.Ota.{Err, ok, fail, c_str, terminated, is_one_of, has_any, starts_with, has_part}
use esp32aging.Ota.Version.{compare_semver, parse_semver, simple_ota_compare_versions}
use esp32aging.Ota.Cache.{
  Metadata, aligned, numbers_valid, strings_valid, origin_valid, digits_valid, version_suffix,
  name_valid, record_valid, strlcpy, ota_cache_record_init,
}
use esp32aging.Ota.Cache.Nvs.{record_crc, sealed, write_blob, ota_cache_store}
use esp32aging.Ota.Cache.Nvs.Laws.{Content, nothing}
use esp32aging.Ota.Image.{hex_digits, hash_count, finish_hash, hash_loop, ota_cache_hash_file}
use esp32aging.Ota.Examples.{
  scan, sha, sdk, slot, nvs, view, crc_of, nvs-IsStorage, v1_2_3, image_record,
}
use esp32aging.Transfer.{binary_name_valid, aligned_file_size}
use esp32aging.Transfer.Finalize.{
  Service, Calls, Identity, done, idle, take_file, select_boot, notify_ready_children, offer_file,
  complete, schedule_retry, stage_record, snapshot_completion, stage_candidate,
}
use esp32aging.Transfer.Finalize.Run.{
  with_digest, compare_running, persist, finalize_candidate, finish_candidate, run_attempts,
}
use esp32aging.Transfer.Finalize.Staged.{AreSound}
use esp32aging.Transfer.Finalize.Attempts.{run_attempts-AreSound}
use esp32aging.Transfer.Finalize.Succeeds.{Succeeds, IsReady}
use esp32aging.Transfer.Finalize.Ready.{finalize_candidate-IsReady}

abbrev before : Service Content
before = record {
  ready_file = record {
    ready = record { valid = false; file_name = []; size_bytes = 0; partition = none };
    version = [];
    sha256_hex = [];
  };
  candidate = image_record;
  persisted = false;
  recovered = false;
  report_completion = false;
  finalization_pending = false;
  current_supply_pending = false;
  child_request_active = true;
  child_wait_parent = false;
  child_resume_scheduled = false;
  bootstrap_pending = false;
  retry_waiting = false;
  retry_count = 0;
  retry_deadline = 0;
  registered = [];
  sdk_file_name = none;
  state = idle;
  last_notified = none;
  report = none;
  store = nothing;
  effects = [];
}

abbrev identity : Identity
identity = record {
  device_id = some (b'd' ∷ b'1' ∷ []);
  aging_number = some (b'7' ∷ []);
  time = pos 1700000000;
}

abbrev metadata : Metadata
metadata = record {
  version = v1_2_3;
  file = b'a' ∷ b'_' ∷ b'v' ∷ (v1_2_3 ++ b'.' ∷ b'b' ∷ b'i' ∷ b'n' ∷ []);
}

-- The version 1.2.2 runs.
abbrev calls : Err → Calls
calls notify = record {
  locks_at_start = true;
  locks_for_digest = true;
  locks_for_supply = true;
  running = (ok, b'1' ∷ b'.' ∷ b'2' ∷ b'.' ∷ b'2' ∷ []);
  boot_partition = none;
  set_boot = ok;
  set_file_name = ok;
  planned = false;
  now = 1000;
  notify = notify;
}

abbrev staged : Service Content
staged = (stage_candidate true identity metadata 32 (some slot) before).0

staged_ok : stage_candidate true identity metadata 32 (some slot) before ≡ (staged, ok)
unfolding stage_candidate stage_record snapshot_completion ota_cache_record_init strlcpy
    binary_name_valid aligned_file_size c_str
staged_ok = refl

abbrev attempts : List (Calls × ℕ)
attempts = (calls fail, 2000) ∷ (calls ok, 92000) ∷ []

abbrev after : Service Content
after = run_attempts scan crc_of nvs sha sdk 90000 attempts staged

-- The second run has nothing left to do.
after_done : after.finalization_pending ≡ false
unfolding run_attempts finish_candidate finalize_candidate take_file with_digest compare_running
    persist select_boot offer_file notify_ready_children complete schedule_retry stage_candidate
    stage_record snapshot_completion ota_cache_record_init strlcpy binary_name_valid
    aligned_file_size c_str ota_cache_hash_file hash_loop hash_count finish_hash hex_digits
    ota_cache_store write_blob sealed record_crc record_valid numbers_valid strings_valid
    origin_valid digits_valid name_valid version_suffix aligned terminated is_one_of has_any
    starts_with has_part str_eq simple_ota_compare_versions compare_semver parse_semver
after_done = refl

run_attempts-AreSound_example :
    AreSound view scan crc_of slot after.effects
    × (after.finalization_pending ≡ false
        → (after.persisted ≡ true) × (after.ready_file.ready.valid ≡ true))
run_attempts-AreSound_example =
    run_attempts-AreSound scan crc_of nvs view nvs-IsStorage sha sdk slot true identity metadata 32
      90000 attempts before staged after refl staged_ok refl

staged_succeeds : Succeeds scan crc_of nvs sha sdk (calls ok) staged slot 1
unfolding stage_candidate stage_record snapshot_completion ota_cache_record_init strlcpy
    binary_name_valid aligned_file_size c_str ota_cache_hash_file hash_loop hash_count finish_hash
    hex_digits ota_cache_store write_blob sealed record_crc record_valid numbers_valid strings_valid
    origin_valid digits_valid name_valid version_suffix aligned terminated is_one_of has_any
    starts_with has_part str_eq simple_ota_compare_versions compare_semver parse_semver
staged_succeeds = record {
  pending = refl;
  supplied = refl;
  locks = (refl, refl, refl);
  hashes = inr refl;
  running = refl;
  compared = refl;
  stores = inr refl;
  sets_boot = refl;
  sets_name = refl;
  unplanned = refl;
  notified = refl;
}

finalize_candidate-IsReady_example :
    let x = finalize_candidate scan crc_of nvs sha sdk (calls ok) staged in
    (x.1 ≡ done tt) × IsReady (calls ok) staged slot 1 x.0
finalize_candidate-IsReady_example =
    finalize_candidate-IsReady scan crc_of nvs sha sdk (calls ok) staged slot 1 staged_succeeds
