-- ===== src/Ota/Cache/Nvs.antt =====
-- main/APP/OTA/ota_cache.c: the operations on the stored record, over the non-volatile storage.
pub mod Laws
pub mod Release
pub mod RoundTrip
use esp32aging.Base.{
  ℕ, Bool, true, not, ◌&&◌, ◌||◌, Option, none, some, List, ◌==◌, if◌then◌else◌, str_eq,
}
use esp32aging.Ota.{
  Err, ok, invalid_arg, not_found, invalid_response, is_ok, is_nvs_not_found, is_not_found,
  is_invalid_response, c_str,
}
use esp32aging.Ota.Version.{Scan}
use esp32aging.Ota.Cache.{CacheRecord, Partition, sizeof_record, cleared, record_valid}

-- The calls of the storage, in its namespace "ota_cache" and on its key "image_v1". The two calls
-- of `nvs_get_blob`, without a buffer and with one of 256 bytes, are two operations. A record
-- stands for its 256 bytes.
pub record Nvs (S : Type 0) : Type 0 where
  pub open_readwrite : S → S × Err
  pub open_readonly : S → S × Err
  pub set_blob : CacheRecord → S → S × Err
  pub commit : S → S × Err
  pub blob_length : S → S × (Err × ℕ)
  pub get_blob : S → S × (Err × CacheRecord)
  pub erase_key : S → S × Err
  pub close : S → S

-- `record_crc`: `crc_of` is `esp_rom_crc32_le` of the bytes of a record.
unfoldable pub record_crc : (CacheRecord → ℕ) → CacheRecord → ℕ
record_crc crc_of r = crc_of (record r { crc32 = 0 })

-- The copy that is stored.
unfoldable pub sealed : (CacheRecord → ℕ) → CacheRecord → CacheRecord
sealed crc_of r = record r { crc32 = record_crc crc_of r }

-- The last test of `ota_cache_load`.
unfoldable pub is_intact : (List ℕ → Scan) → (CacheRecord → ℕ) → CacheRecord → Bool
is_intact sscanf crc_of r = record_valid sscanf (some r) && r.crc32 == record_crc crc_of r

-- The test of `ota_cache_before_write`.
unfoldable pub names_partition : CacheRecord → Partition → Bool
names_partition r p =
    r.partition_address == p.address || str_eq (c_str r.partition_label) (c_str p.label)

module _ {S : Type 0} (nvs : Nvs S) where
  -- `ota_cache_store` once the record is valid.
  unfoldable pub write_blob : CacheRecord → S → S × Err
  write_blob copy s =
      let opened = nvs.open_readwrite s in
      let written = nvs.set_blob copy opened.0 in
      let committed = if is_ok written.1 then nvs.commit written.0 else written in
      if is_ok opened.1 then (nvs.close committed.0, committed.1) else opened

  -- The reading in `ota_cache_load`, from the length to `nvs_close`.
  unfoldable pub read_blob : S → S × (Err × CacheRecord)
  read_blob s =
      let asked = nvs.blob_length s in
      let err =
        if is_ok asked.1.0 && not (asked.1.1 == sizeof_record)
        then invalid_response
        else asked.1.0 in
      let got = if is_ok err then nvs.get_blob asked.0 else (asked.0, (err, cleared)) in
      (nvs.close got.0, got.1)

  -- `ota_cache_invalidate`
  unfoldable pub ota_cache_invalidate : S → S × Err
  ota_cache_invalidate s =
      let opened = nvs.open_readwrite s in
      let erased = nvs.erase_key opened.0 in
      let done =
        if is_nvs_not_found erased.1
        then (erased.0, ok)
        else if is_ok erased.1
        then nvs.commit erased.0
        else erased in
      if is_ok opened.1 then (nvs.close done.0, done.1) else opened

module _ (sscanf : List ℕ → Scan) (crc_of : CacheRecord → ℕ) {S : Type 0} (nvs : Nvs S) where
  -- `ota_cache_store`
  unfoldable pub ota_cache_store : Option CacheRecord → S → S × Err
  ota_cache_store none s = (s, invalid_arg)
  ota_cache_store (some r) s =
      if record_valid sscanf (some r) then write_blob nvs (sealed crc_of r) s else (s, invalid_arg)

  -- `ota_cache_load` once the storage is open.
  unfoldable pub load_opened : S → S × (Err × CacheRecord)
  load_opened s =
      let got = read_blob nvs s in
      if is_nvs_not_found got.1.0
      then (got.0, (not_found, got.1.1))
      else if not (is_ok got.1.0)
      then got
      else if not (is_intact sscanf crc_of got.1.1)
      then (got.0, (invalid_response, cleared))
      else (got.0, (ok, got.1.1))

  -- `ota_cache_load` with `*record`.
  unfoldable pub ota_cache_load : Bool → S → S × (Err × CacheRecord)
  ota_cache_load out_given s =
      let opened = nvs.open_readonly s in
      if not out_given
      then (s, (invalid_arg, cleared))
      else if is_nvs_not_found opened.1
      then (opened.0, (not_found, cleared))
      else if not (is_ok opened.1)
      then (opened.0, (opened.1, cleared))
      else load_opened opened.0

  -- `ota_cache_before_write`
  unfoldable pub ota_cache_before_write : Option Partition → S → S × Err
  ota_cache_before_write none s = (s, invalid_arg)
  ota_cache_before_write (some p) s =
      let loaded = ota_cache_load true s in
      if is_not_found loaded.1.0
      then (loaded.0, ok)
      else if is_invalid_response loaded.1.0
      then ota_cache_invalidate nvs loaded.0
      else if not (is_ok loaded.1.0)
      then (loaded.0, loaded.1.0)
      else if names_partition loaded.1.1 p
      then ota_cache_invalidate nvs loaded.0
      else (loaded.0, ok)
