-- ===== src/Transfer/Finalize.antt =====
-- main/APP/OTA/mesh_ota.c: what the service task does with an image that was received: it is staged,
-- recorded, selected for the next start, and offered to the nodes below. A failure is retried.
pub mod Run
pub mod Staged
pub mod Steps
pub mod Record
pub mod Attempts
pub mod Succeeds
pub mod Prepared
pub mod Offered
pub mod Ready
mod Examples
use esp32aging.Base.{
  ℕ, ◌+◌, Bool, true, false, not, ◌&&◌, ◌||◌, Option, none, some, List, [], ◌∷◌, ltb, leb, ◌==◌,
  if◌then◌else◌, length, u32, ℤ, pos, ltb_ℤ, is_empty,
}
use esp32aging.Ota.{Err, ok, fail, invalid_arg, invalid_size, is_ok, c_str}
use esp32aging.Ota.Cache.{
  CacheRecord, Partition, Metadata, origin_download, origin_bootstrap, strlcpy,
  ota_cache_record_init,
}
use esp32aging.Transfer.{ReadyFile, binary_name_valid, aligned_file_size}
use esp32aging.Transfer.Receive.{invalid_state}

-- `simple_ota_state_t`
pub data OtaState : Type 0 where
  idle running pending_restart failed wait_parent : OtaState

-- `mesh_ready_file_t` with its strings.
pub record File : Type 0 where
  pub ready : ReadyFile
  pub version : List ℕ
  pub sha256_hex : List ℕ

-- What `queue_completion_report` keeps.
pub record Report : Type 0 where
  pub seq : ℤ
  pub device_id : List ℕ
  pub aging_number : List ℕ

-- The calls that others see: `esp_ota_set_boot_partition`, with the storage at that moment, and the
-- notification of the nodes below, with the supply and the file name that the SDK has.
pub data Effect (S : Type 0) : Type 0 where
  boots : Partition → S → Effect S
  notifies : ReadyFile → Option (List ℕ) → Effect S

-- The variables of the service task, the supply, and the storage; the effects come last first.
-- `registered` is the buffer `s_registered_file_name`, `sdk_file_name` the name that
-- `esp_mesh_lite_lan_ota_set_file_name` took last.
pub record Service (S : Type 0) : Type 0 where
  pub ready_file : File
  pub candidate : CacheRecord
  pub persisted : Bool
  pub recovered : Bool
  pub report_completion : Bool
  pub finalization_pending : Bool
  pub current_supply_pending : Bool
  pub child_request_active : Bool
  pub child_wait_parent : Bool
  pub child_resume_scheduled : Bool
  pub bootstrap_pending : Bool
  pub retry_waiting : Bool
  pub retry_count : ℕ
  pub retry_deadline : ℕ
  pub registered : List ℕ
  pub sdk_file_name : Option (List ℕ)
  pub state : OtaState
  pub last_notified : Option ℕ
  pub report : Option Report
  pub store : S
  pub effects : List (Effect S)

-- What one run of `finalize_candidate` reads: that the mutex is taken each time, the version that
-- runs, the partition that is selected, the tick count, that a restart is planned, and the results of
-- the SDK.
pub record Calls : Type 0 where
  pub locks_at_start : Bool
  pub locks_for_digest : Bool
  pub locks_for_supply : Bool
  pub running : Err × List ℕ
  pub boot_partition : Option Partition
  pub set_boot : Err
  pub set_file_name : Err
  pub planned : Bool
  pub now : ℕ
  pub notify : Err

pub data Result (A : Type 0) : Type 0 where
  done : A → Result A
  stops : Err → Result A

abbrev pub M : Type 0 → Type 0 → Type 0
M S A = Service S → Service S × Result A

infixl 5 ◌>>=◌ ◌>>◌
abbrev pub ◌>>=◌ : {S A B : Type 0} → M S A → (A → M S B) → M S B
◌>>=◌ m f s = let x = m s in elim x.1 [ done a ↦ f a x.0 | stops e ↦ (x.0, stops e) ]

abbrev pub ◌>>◌ : {S B : Type 0} → M S (Unit {0}) → M S B → M S B
m >> k = m >>= λ _. k

-- `esp_mesh_lite_lan_ota_set_file_name`: the name is taken if the result is ESP_OK.
abbrev pub taken_name : Err → List ℕ → Option (List ℕ) → Option (List ℕ)
taken_name result name before = if is_ok result then some name else before

-- `LG_MESH_OTA_RETRY_MAX`
abbrev pub retry_max : ℕ
retry_max = 2

module _ {S : Type 0} where
  -- The snapshot and the first test.
  unfoldable pub take_file : Calls → M S (File × Partition)
  take_file c s =
      let file = s.ready_file in
      if not c.locks_at_start
      then (s, stops fail)
      else if not s.finalization_pending
      then (s, stops invalid_state)
      else elim file.ready.partition [
        | none ↦ (s, stops invalid_state)
        | some p ↦ (s, done (file, p))
      ]

  -- The selection for the next start; `comparison` is that of the image's version with the running one.
  unfoldable pub select_boot : Calls → Partition → ℤ → M S (Unit {0})
  select_boot c p comparison s =
      let selected = record s { effects = boots p s.store ∷ s.effects } in
      let same : Bool = elim c.boot_partition [ none ↦ false | some b ↦ b.address == p.address ] in
      if not (s.candidate.origin == origin_download && ltb_ℤ (pos 0) comparison)
      then (record s { state = idle }, done tt)
      else if same
      then (record s { state = pending_restart }, done tt)
      else if not (is_ok c.set_boot)
      then (selected, stops c.set_boot)
      else (record selected { state = pending_restart }, done tt)

  -- `notify_ready_children`
  unfoldable pub notify_ready_children : Calls → M S (Unit {0})
  notify_ready_children c s =
      let notified = record s {
        last_notified = some c.now;
        effects = notifies s.ready_file.ready s.sdk_file_name ∷ s.effects;
      } in
      if c.planned
      then (s, stops invalid_state)
      else if not (is_ok c.notify)
      then (notified, stops c.notify)
      else (notified, done tt)

  -- The name is registered, and the supply is valid from then on; then the nodes below are notified.
  unfoldable pub offer_file : Calls → File → M S (Unit {0})
  offer_file c file s =
      let name = c_str file.ready.file_name in
      let named = record s {
        registered = name;
        sdk_file_name = taken_name c.set_file_name name s.sdk_file_name;
      } in
      let ready_file = record file { ready = record file.ready { valid = true } } in
      let offered = notify_ready_children c (record named { ready_file = ready_file }) in
      if not (is_ok c.set_file_name)
      then (named, stops c.set_file_name)
      else if not c.locks_for_supply
      then (named, stops fail)
      else offered

  -- The end of a run that succeeds, `queue_completion_report` included.
  unfoldable pub complete : M S (Unit {0})
  complete s = (
    record s {
      finalization_pending = false;
      retry_waiting = false;
      report =
          if s.report_completion && not (s.candidate.origin == origin_bootstrap)
          then some (record {
            seq = s.candidate.completed_seq;
            device_id = c_str s.candidate.device_id;
            aging_number = c_str s.candidate.aging_number;
          })
          else s.report;
      report_completion = false;
    },
    done tt,
  )

  -- `schedule_retry`; `interval` is the ticks of 90 s.
  unfoldable pub schedule_retry : ℕ → ℕ → Service S → Service S
  schedule_retry interval now s =
      if s.retry_waiting
      then s
      else if leb retry_max s.retry_count
      then record s { child_request_active = false }
      else record s {
        retry_count = s.retry_count + 1;
        retry_deadline = u32 (now + interval);
        retry_waiting = true;
      }

  -- `stage_record`
  unfoldable pub stage_record :
      Bool → CacheRecord → Partition → Bool → Bool → Bool → Service S → Service S × Err
  stage_record locks r p persisted recovered report_completion s =
      let padded_bytes = aligned_file_size r.image_size_bytes in
      if not (binary_name_valid (some (c_str r.file_name)))
        || padded_bytes == 0
        || ltb p.size padded_bytes
      then (s, invalid_size)
      else if not locks
      then (s, fail)
      else (
        record s {
          ready_file = record {
            ready = record {
              valid = false;
              file_name = c_str r.file_name;
              size_bytes = r.image_size_bytes;
              partition = some p;
            };
            version = c_str r.version;
            sha256_hex = c_str r.sha256_hex;
          };
          candidate = r;
          persisted = persisted;
          recovered = recovered;
          report_completion = report_completion;
          finalization_pending = true;
          current_supply_pending = false;
          child_request_active = false;
          child_wait_parent = false;
          child_resume_scheduled = false;
          state = running;
        },
        ok,
      )

-- `DEVICE_ID` and `AgingNumber`, `none` is NULL, and the time.
pub record Identity : Type 0 where
  pub device_id : Option (List ℕ)
  pub aging_number : Option (List ℕ)
  pub time : ℤ

-- A string that is there, is not empty and fits the array.
abbrev fits_identity : Option (List ℕ) → Bool
fits_identity none = false
fits_identity (some text) = not (is_empty text) && ltb (length text) 32

abbrev given_text : Option (List ℕ) → List ℕ
given_text none = []
given_text (some text) = text

-- `snapshot_completion`
unfoldable pub snapshot_completion : Identity → ℕ → CacheRecord → CacheRecord × Err
snapshot_completion identity origin r =
    if not (fits_identity identity.device_id) || not (fits_identity identity.aging_number)
    then (r, invalid_arg)
    else (
      record r {
        origin = origin;
        completed_seq = identity.time;
        device_id = strlcpy 32 (given_text identity.device_id);
        aging_number = strlcpy 32 (given_text identity.aging_number);
      },
      ok,
    )

-- `stage_candidate`
unfoldable pub stage_candidate :
    {S : Type 0} → Bool → Identity → Metadata → ℕ → Option Partition → Service S → Service S × Err
stage_candidate locks identity m size_bytes none s = (s, invalid_arg)
stage_candidate locks identity m size_bytes (some p) s =
    elim (ota_cache_record_init true (some p) (some m) size_bytes).1 [
      | none ↦ (s, invalid_arg)
      | some r ↦
          let completed = snapshot_completion identity origin_download r in
          if not (is_ok completed.1)
          then (s, completed.1)
          else stage_record locks completed.0 p false false true
              (record s { bootstrap_pending = false })
    ]
