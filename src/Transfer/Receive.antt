-- ===== src/Transfer/Receive.antt =====
-- main/APP/OTA/mesh_ota.c: the blocks that a node receives, `get_file_cb`, the validation of the
-- image and the end of a session.
pub mod Laws
pub mod Closed
use esp32aging.Base.{
  ℕ, Bool, true, false, not, ◌&&◌, ◌||◌, Option, none, some, List, ◌==◌, if◌then◌else◌, take,
  str_eq,
}
use esp32aging.Ota.{Err, ok, fail, invalid_arg, invalid_size, invalid_version, other, is_ok, c_str}
use esp32aging.Ota.Cache.{Partition}
use esp32aging.Transfer.{
  Link, Param, Reason, failure, Receiver, name_of, receiver_link_current, binary_name_valid,
  transfer_range_valid,
}

-- The calls of the SDK on the flash `F`: `esp_ota_begin` with the handle afterwards,
-- `esp_ota_write_with_offset`, `esp_ota_end`, `esp_ota_abort`, the version in a partition, and the
-- partition of `esp_ota_get_next_update_partition(NULL)`.
pub record OtaSdk (F : Type 0) : Type 0 where
  pub begin : Partition → F → F × (Err × ℕ)
  pub write_with_offset : ℕ → List ℕ → ℕ → F → F × Err
  pub end : ℕ → F → F × Err
  pub abort : ℕ → F → F × Err
  pub description : Option Partition → F → Err × List ℕ
  pub next_update : Option Partition

-- ESP_ERR_INVALID_STATE
abbrev pub invalid_state : Err
invalid_state = other 0x103

-- The label `failed`.
unfoldable pub mark_failed : Receiver → Receiver
mark_failed r = record r { failed = true; accepting = false }

module _ {F : Type 0} (sdk : OtaSdk F) where
  -- `get_file_cb` once the image is begun: the second test of the link, and the writing.
  unfoldable pub write_block : Link → Param → List ℕ → Receiver → F → (Receiver × F) × Err
  write_block later param block r f =
      let written = sdk.write_with_offset r.handle block param.offset f in
      if not (receiver_link_current later r)
      then ((mark_failed r, f), invalid_state)
      else if not (is_ok written.1)
      then ((mark_failed r, written.0), written.1)
      else ((record r { first_data = true }, written.0), ok)

  -- From `esp_ota_begin` on.
  unfoldable pub begin_block :
      Link → Param → List ℕ → Option Partition → Receiver → F → (Receiver × F) × Err
  begin_block later param block none r f = ((r, f), fail)
  begin_block later param block (some update) r f =
      let begun = sdk.begin update f in
      if not (r.handle == 0)
      then write_block later param block r f
      else if not (is_ok begun.1.0)
      then ((mark_failed (record r { handle = begun.1.1 }), begun.0), begun.1.0)
      else write_block later param block
          (record r { handle = begun.1.1; update_partition = some update }) begun.0

  abbrev pub update_of : Receiver → Option Partition
  update_of r = elim r.update_partition [ none ↦ sdk.next_update | some p ↦ some p ]

  -- `get_file_cb`; `now` and `later` are what its two tests of the link read, the block is the
  -- `data_size` bytes at `param->data`.
  unfoldable pub get_file_cb :
      Bool → Link → Link → Option Param → Option (List ℕ) → Receiver → F → (Receiver × F) × Err
  get_file_cb locks now later none block r f = ((r, f), invalid_arg)
  get_file_cb locks now later (some param) none r f = ((r, f), invalid_arg)
  get_file_cb locks now later (some param) (some block) r f =
      if not locks
      then ((r, f), fail)
      else if not r.session_open || not r.accepting || r.failed
      then ((r, f), invalid_state)
      else if not (receiver_link_current now r)
      then ((r, f), invalid_state)
      else if not (binary_name_valid param.fw_version)
          || not (str_eq (name_of param.fw_version) (c_str r.file))
      then ((mark_failed r, f), invalid_arg)
      else if not (transfer_range_valid param r.firmware_size_bytes (update_of r))
      then ((mark_failed r, f), invalid_size)
      else if param.data_size == 0
      then ((r, f), ok)
      else begin_block later param block (update_of r) r f

  -- `get_file_done_cb` from `esp_ota_end` on, to the label `done`.
  unfoldable pub validate : Link → Receiver → F → (Receiver × F) × Err
  validate later r f =
      let ended = sdk.end r.handle f in
      let r' = record r { accepting = false; handle = 0 } in
      let desc = sdk.description r.update_partition ended.0 in
      if not (is_ok ended.1)
      then ((r', ended.0), ended.1)
      else if not (is_ok desc.0)
      then ((r', ended.0), desc.0)
      else if not (str_eq (take 32 (c_str desc.1)) (take 32 (c_str r.version)))
      then ((r', ended.0), invalid_version)
      else if not (receiver_link_current later r')
      then ((r', ended.0), invalid_state)
      else ((record r' { validated = true }, ended.0), ok)

  -- The label `done` of `get_file_done_cb`.
  unfoldable pub note_done : (Receiver × F) × Err → (Receiver × F) × Err
  note_done ((r, f), err) =
      if r.session_open
      then ((record r { done = true; failed = if not (is_ok err) then true else r.failed }, f), err)
      else ((r, f), err)

  -- `get_file_done_cb`
  unfoldable pub get_file_done_cb : Bool → Link → Link → Receiver → F → (Receiver × F) × Err
  get_file_done_cb locks now later r f =
      if not locks
      then ((r, f), fail)
      else if not r.session_open || not r.accepting || r.failed || r.handle == 0
      then note_done ((r, f), invalid_state)
      else if not (receiver_link_current now r)
      then note_done ((r, f), invalid_state)
      else note_done (validate later r f)

  -- `reset_receiver_locked`
  unfoldable pub reset_receiver_locked : Receiver → F → Receiver × F
  reset_receiver_locked r f =
      let r' = record r {
        accepting = false;
        session_open = false;
        first_data = false;
        handle = 0;
        update_partition = none;
        done = false;
        validated = false;
        failed = false;
        finish_received = false;
      } in
      (r', if not (r.handle == 0) then (sdk.abort r.handle f).0 else f)

-- The event of `mesh_ota_event_handler` that a transfer has begun, at a node that is not the root.
unfoldable pub on_ota_start : Receiver → Receiver
on_ota_start r = record r { sdk_inflight = true }

-- The event that a transfer has ended; no event data is a failure.
unfoldable pub on_ota_finish : Option Reason → ℕ → Receiver → Receiver
on_ota_finish finish now r =
    let r' = record r { sdk_inflight = false } in
    if r.session_open && not r.finish_received
    then record r' {
      finish_reason = elim finish [ none ↦ failure | some reason ↦ reason ];
      finish_tick = now;
      finish_received = true;
    }
    else r'

-- `mesh_ota_extern_disabled`, where it takes the mutex.
unfoldable pub mesh_ota_extern_disabled : ℕ → Receiver → Receiver × Err
mesh_ota_extern_disabled now r =
    let r' = record r { sdk_inflight = false } in
    (
      if r.session_open
          then record r' { finish_received = true; finish_reason = failure; finish_tick = now }
          else r',
      fail,
    )
