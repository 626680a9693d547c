-- ===== src/Transfer/Supply.antt =====
-- main/APP/OTA/mesh_ota.c: the blocks that a node supplies, `provide_file_cb`.
pub mod Laws
use esp32aging.Base.{
  ℕ, ◌-◌, Bool, not, ◌||◌, Option, none, some, List, [], ◌++◌, ltb, ◌==◌, if◌then◌else◌, replicate,
  str_eq,
}
use esp32aging.Ota.{Err, ok, fail, invalid_arg, invalid_size, not_found, is_ok, c_str}
use esp32aging.Ota.Cache.{Partition}
use esp32aging.Transfer.{ReadyFile, Param, name_of, binary_name_valid, transfer_range_valid}

-- The bytes of the block that the image still has.
unfoldable pub supplied_bytes : ℕ → ℕ → ℕ → ℕ
supplied_bytes size_bytes offset data_size =
    if ltb offset size_bytes
    then (let read_bytes = size_bytes - offset in
        if ltb data_size read_bytes then data_size else read_bytes)
    else 0

module _ (read : Partition → ℕ → ℕ → Err × List ℕ) where
  -- The reading, and the padding behind the image; `read` is `esp_partition_read`.
  unfoldable pub read_padded : Partition → ℕ → ℕ → ℕ → Err × Option (List ℕ)
  read_padded p size_bytes offset data_size =
      let read_bytes = supplied_bytes size_bytes offset data_size in
      let got = if not (read_bytes == 0) then read p offset read_bytes else (ok, []) in
      if is_ok got.0
      then (ok, some (got.1 ++ replicate (data_size - read_bytes) 0xFF))
      else (got.0, none)

  -- `provide_file_cb`; `locks` is that the mutex is taken, `data_given` that `param->data` is not
  -- NULL. The second result is the block, where it is complete.
  unfoldable pub provide_file_cb : Bool → ReadyFile → Bool → Option Param → Err × Option (List ℕ)
  provide_file_cb locks ready data_given none = (invalid_arg, none)
  provide_file_cb locks ready data_given (some param) =
      if not data_given || not (binary_name_valid param.fw_version)
      then (invalid_arg, none)
      else if not locks
      then (fail, none)
      else if not ready.valid || not (str_eq (name_of param.fw_version) (c_str ready.file_name))
      then (not_found, none)
      else if not (transfer_range_valid param ready.size_bytes ready.partition)
      then (invalid_size, none)
      else elim ready.partition [
        | none ↦ (invalid_size, none)
        | some p ↦ read_padded p ready.size_bytes param.offset param.data_size
      ]
