-- ===== src/Ota/Cache/Nvs/Laws.antt =====
-- The storage that the record is kept in, and what the operations leave in it.
use esp32aging.Base.{
  ℕ, ◌≡◌, refl, sym, ◌∙◌, ◌≢◌, true, false, not, ◌&&◌, List, arith, ◌==◌, if◌then◌else◌, if_cases,
}
use esp32aging.Ota.{
  Err, ok, not_found, invalid_response, nvs_not_found, is_ok, is_nvs_not_found, is_ok→ok, refused,
  is_nvs_not_found→eq,
}
use esp32aging.Ota.Version.{Scan}
use esp32aging.Ota.Cache.{CacheRecord, sizeof_record, cleared}
use esp32aging.Ota.Cache.Nvs.{
  Nvs, is_intact, write_blob, read_blob, ota_cache_invalidate, load_opened, ota_cache_load,
}

-- What the key holds: nothing, a record, or a blob of some other length.
pub data Content : Type 0 where
  nothing : Content
  a_record : CacheRecord → Content
  a_blob : ℕ → Content

-- The documented behaviour of the storage, by what the key holds in each of its states: opening,
-- reading and closing change nothing; "not found" is returned only if nothing is there; a blob is
-- read as it was set; a change that is committed without an error has happened. The storage has
-- error codes of its own, which are not ESP_ERR_NOT_FOUND.
pub record IsStorage {S : Type 0} (nvs : Nvs S) (view : S → Content) : Type 0 where
  pub open_readwrite_view : (s : S) → view (nvs.open_readwrite s).0 ≡ view s
  pub open_readonly_view : (s : S) → view (nvs.open_readonly s).0 ≡ view s
  pub open_readonly_absent : (s : S) → (nvs.open_readonly s).1 ≡ nvs_not_found → view s ≡ nothing
  pub open_readonly_code : (s : S) → (nvs.open_readonly s).1 ≢ not_found
  pub length_view : (s : S) → view (nvs.blob_length s).0 ≡ view s
  pub length_absent : (s : S) → (nvs.blob_length s).1.0 ≡ nvs_not_found → view s ≡ nothing
  pub length_code : (s : S) → (nvs.blob_length s).1.0 ≢ not_found
  pub length_record :
      (s : S) (r : CacheRecord)
      → view s ≡ a_record r
      → (nvs.blob_length s).1.0 ≡ ok
      → (nvs.blob_length s).1.1 ≡ sizeof_record
  pub get_view : (s : S) → view (nvs.get_blob s).0 ≡ view s
  pub get_absent : (s : S) → (nvs.get_blob s).1.0 ≡ nvs_not_found → view s ≡ nothing
  pub get_code : (s : S) → (nvs.get_blob s).1.0 ≢ not_found
  pub get_record : (s : S) → (nvs.get_blob s).1.0 ≡ ok → view s ≡ a_record (nvs.get_blob s).1.1
  pub set_commit :
      (r : CacheRecord) (s : S)
      → (nvs.set_blob r s).1 ≡ ok
      → (nvs.commit (nvs.set_blob r s).0).1 ≡ ok
      → view (nvs.commit (nvs.set_blob r s).0).0 ≡ a_record r
  pub erase_commit :
      (s : S)
      → (nvs.erase_key s).1 ≡ ok
      → (nvs.commit (nvs.erase_key s).0).1 ≡ ok
      → view (nvs.commit (nvs.erase_key s).0).0 ≡ nothing
  pub erase_absent :
      (s : S) → (nvs.erase_key s).1 ≡ nvs_not_found → view (nvs.erase_key s).0 ≡ nothing
  pub close_view : (s : S) → view (nvs.close s) ≡ view s

module _ {S : Type 0} (nvs : Nvs S) (view : S → Content) (storage : IsStorage nvs view) where
  -- A blob is written as a whole, if no error is returned.
  pub write_blob-view :
      (copy : CacheRecord) (s : S)
      → (write_blob nvs copy s).1 ≡ ok
      → view (write_blob nvs copy s).0 ≡ a_record copy
  unfolding write_blob
  write_blob-view copy s =
      if_cases (λ (x : S × Err). x.1 ≡ ok → view x.0 ≡ a_record copy) (is_ok opened.1)
        (nvs.close committed.0, committed.1) opened
        (λ e h. storage.close_view committed.0 ∙ is_set h) (λ e h. refused opened.1 e h)
    where
      opened : S × Err
      opened = nvs.open_readwrite s

      written : S × Err
      written = nvs.set_blob copy opened.0

      committed : S × Err
      committed = if is_ok written.1 then nvs.commit written.0 else written

      is_set : committed.1 ≡ ok → view committed.0 ≡ a_record copy
      is_set =
          if_cases (λ (x : S × Err). x.1 ≡ ok → view x.0 ≡ a_record copy) (is_ok written.1)
            (nvs.commit written.0) written
            (λ e h. storage.set_commit copy opened.0 (is_ok→ok written.1 e) h)
            (λ e h. refused written.1 e h)

  -- An invalidation without an error leaves nothing.
  pub invalidate-view :
      (s : S) → (ota_cache_invalidate nvs s).1 ≡ ok → view (ota_cache_invalidate nvs s).0 ≡ nothing
  unfolding ota_cache_invalidate
  invalidate-view s =
      if_cases (λ (x : S × Err). x.1 ≡ ok → view x.0 ≡ nothing) (is_ok opened.1)
        (nvs.close done.0, done.1) opened (λ e h. storage.close_view done.0 ∙ is_erased h)
        (λ e h. refused opened.1 e h)
    where
      opened : S × Err
      opened = nvs.open_readwrite s

      erased : S × Err
      erased = nvs.erase_key opened.0

      committed : S × Err
      committed = if is_ok erased.1 then nvs.commit erased.0 else erased

      done : S × Err
      done = if is_nvs_not_found erased.1 then (erased.0, ok) else committed

      is_committed : committed.1 ≡ ok → view committed.0 ≡ nothing
      is_committed =
          if_cases (λ (x : S × Err). x.1 ≡ ok → view x.0 ≡ nothing) (is_ok erased.1)
            (nvs.commit erased.0) erased
            (λ e h. storage.erase_commit opened.0 (is_ok→ok erased.1 e) h)
            (λ e h. refused erased.1 e h)

      is_erased : done.1 ≡ ok → view done.0 ≡ nothing
      is_erased =
          if_cases (λ (x : S × Err). x.1 ≡ ok → view x.0 ≡ nothing) (is_nvs_not_found erased.1)
            (erased.0, ok) committed
            (λ e h. storage.erase_absent opened.0 (is_nvs_not_found→eq erased.1 e))
            (λ e h. is_committed h)

  read_blob-view : (s : S) → view (read_blob nvs s).0 ≡ view s
  unfolding read_blob
  read_blob-view s = storage.close_view got.0 ∙ is_got
    where
      asked : S × (Err × ℕ)
      asked = nvs.blob_length s

      err : Err
      err =
          if is_ok asked.1.0 && not (asked.1.1 == sizeof_record)
          then invalid_response
          else asked.1.0

      got : S × (Err × CacheRecord)
      got = if is_ok err then nvs.get_blob asked.0 else (asked.0, (err, cleared))

      is_got : view got.0 ≡ view s
      is_got =
          if_cases (λ (x : S × (Err × CacheRecord)). view x.0 ≡ view s) (is_ok err)
            (nvs.get_blob asked.0) (asked.0, (err, cleared))
            (λ e. storage.get_view asked.0 ∙ storage.length_view s) (λ e. storage.length_view s)

  -- What the reading has found, by its code.
  abbrev Found : Content → Err → CacheRecord → Type 0
  Found content e r =
      (e ≡ ok → content ≡ a_record r) × (e ≡ nvs_not_found → content ≡ nothing) × (e ≢ not_found)

  length_Found :
      (s : S) (r : CacheRecord) (e : Err)
      → (nvs.blob_length s).1.0 ≡ e
      → is_ok e ≡ false
      → Found (view s) e r
  length_Found s r e same h = (
    λ k. refused e h k,
    λ k. storage.length_absent s (same ∙ k),
    λ k. storage.length_code s (same ∙ k),
  )

  read_blob-Found : (s : S) → Found (view s) (read_blob nvs s).1.0 (read_blob nvs s).1.1
  unfolding read_blob
  read_blob-Found s =
      if_cases (λ (x : S × (Err × CacheRecord)). Found (view s) x.1.0 x.1.1) (is_ok err)
        (nvs.get_blob asked.0) (asked.0, (err, cleared))
        (λ e. (
          λ h. sym (storage.length_view s) ∙ storage.get_record asked.0 h,
          λ h. sym (storage.length_view s) ∙ storage.get_absent asked.0 h,
          storage.get_code asked.0,
        ))
        (λ e. mistaken e)
    where
      asked : S × (Err × ℕ)
      asked = nvs.blob_length s

      err : Err
      err =
          if is_ok asked.1.0 && not (asked.1.1 == sizeof_record)
          then invalid_response
          else asked.1.0

      mistaken : is_ok err ≡ false → Found (view s) err cleared
      mistaken =
          if_cases (λ e. is_ok e ≡ false → Found (view s) e cleared)
            (is_ok asked.1.0 && not (asked.1.1 == sizeof_record)) invalid_response asked.1.0
            (λ e h. (λ k. cc, λ k. cc, λ k. cc)) (λ e h. length_Found s cleared asked.1.0 refl h)

  abbrev pub Loaded : Content → S × (Err × CacheRecord) → Type 0
  Loaded content x =
      (view x.0 ≡ content)
      × (x.1.0 ≡ ok → content ≡ a_record x.1.1)
      × (x.1.0 ≡ not_found → content ≡ nothing)

  module _ (sscanf : List ℕ → Scan) (crc_of : CacheRecord → ℕ) where
    load_opened-Loaded : (s : S) → Loaded (view s) (load_opened sscanf crc_of nvs s)
    unfolding load_opened
    load_opened-Loaded s =
        if_cases (Loaded (view s)) (is_nvs_not_found got.1.0) (got.0, (not_found, got.1.1)) later
          (λ e.
            (read_blob-view s, λ h. cc, λ h. (read_blob-Found s).1 (is_nvs_not_found→eq got.1.0 e)))
          (λ e.
            if_cases (Loaded (view s)) (not (is_ok got.1.0)) got last
              (λ e. (
                read_blob-view s,
                λ h. refused got.1.0 (ground arith) h,
                λ h. absurd ((read_blob-Found s).2 h),
              ))
              (λ e.
                if_cases (Loaded (view s)) (not (is_intact sscanf crc_of got.1.1))
                  (got.0, (invalid_response, cleared)) (got.0, (ok, got.1.1))
                  (λ k. (read_blob-view s, λ h. cc, λ h. cc))
                  (λ k. (
                    read_blob-view s,
                    λ h. (read_blob-Found s).0 (is_ok→ok got.1.0 (ground arith)),
                    λ h. cc,
                  ))))
      where
        got : S × (Err × CacheRecord)
        got = read_blob nvs s

        last : S × (Err × CacheRecord)
        last =
            if not (is_intact sscanf crc_of got.1.1)
            then (got.0, (invalid_response, cleared))
            else (got.0, (ok, got.1.1))

        later : S × (Err × CacheRecord)
        later = if not (is_ok got.1.0) then got else last

    pub load-Loaded : (s : S) → Loaded (view s) (ota_cache_load sscanf crc_of nvs true s)
    unfolding ota_cache_load
    load-Loaded s =
        if_cases (Loaded (view s)) (is_nvs_not_found opened.1) (opened.0, (not_found, cleared))
          later
          (λ e. (
            storage.open_readonly_view s,
            λ h. cc,
            λ h. storage.open_readonly_absent s (is_nvs_not_found→eq opened.1 e),
          ))
          (λ e.
            if_cases (Loaded (view s)) (not (is_ok opened.1)) (opened.0, (opened.1, cleared))
              (load_opened sscanf crc_of nvs opened.0)
              (λ e. (
                storage.open_readonly_view s,
                λ h. refused opened.1 (ground arith) h,
                λ h. absurd (storage.open_readonly_code s h),
              ))
              (λ e.
                let h = load_opened-Loaded opened.0 in
                let same = storage.open_readonly_view s in
                (h.0 ∙ same, λ k. sym same ∙ h.1 k, λ k. sym same ∙ h.2 k)))
      where
        opened : S × Err
        opened = nvs.open_readonly s

        later : S × (Err × CacheRecord)
        later =
            if not (is_ok opened.1)
            then (opened.0, (opened.1, cleared))
            else load_opened sscanf crc_of nvs opened.0
