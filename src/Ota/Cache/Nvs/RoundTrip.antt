-- ===== src/Ota/Cache/Nvs/RoundTrip.antt =====
-- What is stored is loaded.
use esp32aging.Base.{ℕ, ◌≡◌, refl, ap₂, ◌∙◌, true, some, List, ==_iff, if_cases}
use esp32aging.Ota.{Err, ok, invalid_arg}
use esp32aging.Ota.Version.{Scan}
use esp32aging.Ota.Cache.{
  CacheRecord, record_valid, numbers_valid, strings_valid, origin_valid, name_valid,
}
use esp32aging.Ota.Cache.Nvs.{
  Nvs, record_crc, sealed, is_intact, write_blob, read_blob, ota_cache_store, load_opened,
  ota_cache_load,
}
use esp32aging.Ota.Cache.Nvs.Laws.{Content, a_record, IsStorage, write_blob-view}

module _ {S : Type 0} (nvs : Nvs S) (view : S → Content) (storage : IsStorage nvs view)
    (sscanf : List ℕ → Scan) (crc_of : CacheRecord → ℕ) where
  -- `s` can be read: no call of `ota_cache_load` to the storage fails there.
  abbrev pub IsReadable : S → Type 0
  IsReadable s =
      let opened = nvs.open_readonly s in
      let asked = nvs.blob_length opened.0 in
      (opened.1 ≡ ok) × (asked.1.0 ≡ ok) × ((nvs.get_blob asked.0).1.0 ≡ ok)

  read_blob_lem :
      (s : S) (r : CacheRecord)
      → view s ≡ a_record r
      → (nvs.blob_length s).1.0 ≡ ok
      → (nvs.get_blob (nvs.blob_length s).0).1.0 ≡ ok
      → (read_blob nvs s).1 ≡ (ok, r)
  unfolding read_blob
  read_blob_lem s r h e k =
      rw (e, storage.length_record s r h e) (ap₂ (λ (a : Err) (b : CacheRecord). (a, b)) k is_r)
    where
      is_r : (nvs.get_blob (nvs.blob_length s).0).1.1 ≡ r
      is_r = cc (storage.get_record (nvs.blob_length s).0 k, storage.length_view s, h)

  load-intact :
      (s : S) (r : CacheRecord)
      → view s ≡ a_record r
      → is_intact sscanf crc_of r ≡ true
      → IsReadable s
      → (ota_cache_load sscanf crc_of nvs true s).1 ≡ (ok, r)
  unfolding ota_cache_load load_opened
  load-intact s r h intact k = rw k.0 (
      rw (read_blob_lem (nvs.open_readonly s).0 r (storage.open_readonly_view s ∙ h) k.1 k.2)
        (rw intact refl))

  pub sealed-is_intact :
      (r : CacheRecord)
      → record_valid sscanf (some r) ≡ true
      → is_intact sscanf crc_of (sealed crc_of r) ≡ true
  unfolding is_intact record_valid numbers_valid strings_valid origin_valid name_valid record_crc
      sealed
  sealed-is_intact r h = rw h ((==_iff (record_crc crc_of r) (record_crc crc_of r)).1 refl)

  abbrev pub Stored : CacheRecord → S × Err → Type 0
  Stored r x =
      x.1 ≡ ok → (view x.0 ≡ a_record (sealed crc_of r)) × (record_valid sscanf (some r) ≡ true)

  pub store-Stored :
      (r : CacheRecord) (s : S) → Stored r (ota_cache_store sscanf crc_of nvs (some r) s)
  unfolding ota_cache_store
  store-Stored r s =
      if_cases (Stored r) (record_valid sscanf (some r)) (write_blob nvs (sealed crc_of r) s)
        (s, invalid_arg) (λ e h. (write_blob-view nvs view storage (sealed crc_of r) s h, e))
        (λ e h. cc)

  -- The storage behaves as documented. A record that was stored without an error is loaded with its
  -- checksum, whatever the checksum is, when no call to the storage fails.
  pub load-store :
      (r : CacheRecord) (s : S)
      → (ota_cache_store sscanf crc_of nvs (some r) s).1 ≡ ok
      → IsReadable (ota_cache_store sscanf crc_of nvs (some r) s).0
      → (ota_cache_load sscanf crc_of nvs true (ota_cache_store sscanf crc_of nvs (some r) s).0).1
        ≡ (ok, sealed crc_of r)
  load-store r s h k = load-intact after (sealed crc_of r) stored.0 (sealed-is_intact r stored.1) k
    where
      after : S
      after = (ota_cache_store sscanf crc_of nvs (some r) s).0

      stored : (view after ≡ a_record (sealed crc_of r)) × (record_valid sscanf (some r) ≡ true)
      stored = store-Stored r s h
