-- ===== src/Ota/Cache/Nvs/Release.antt =====
-- A partition that is about to be written is no longer named by the stored record.
use esp32aging.Base.{
  ℕ, ◌≡◌, ◌∙◌, subst, ◌⊎◌, inl, inr, true, false, not, some, List, arith, if◌then◌else◌, if_cases,
}
use esp32aging.Ota.{
  Err, ok, is_ok, is_not_found, is_invalid_response, is_ok→ok, refused, is_not_found→eq,
}
use esp32aging.Ota.Version.{Scan}
use esp32aging.Ota.Cache.{CacheRecord, Partition}
use esp32aging.Ota.Cache.Nvs.{
  Nvs, names_partition, ota_cache_invalidate, ota_cache_load, ota_cache_before_write,
}
use esp32aging.Ota.Cache.Nvs.Laws.{
  Content, nothing, a_record, IsStorage, Loaded, load-Loaded, invalidate-view,
}

module _ {S : Type 0} (nvs : Nvs S) (view : S → Content) (storage : IsStorage nvs view)
    (sscanf : List ℕ → Scan) (crc_of : CacheRecord → ℕ) where
  -- After a success nothing is stored, or a record that does not name the partition.
  abbrev Released : Partition → S × Err → Type 0
  Released p x =
      x.1 ≡ ok
      → (view x.0 ≡ nothing)
        ⊎ ((r : CacheRecord) × (view x.0 ≡ a_record r) × (names_partition r p ≡ false))

  before_write-Released :
      (p : Partition) (s : S) → Released p (ota_cache_before_write sscanf crc_of nvs (some p) s)
  unfolding ota_cache_before_write
  before_write-Released p s =
      if_cases (Released p) (is_not_found loaded.1.0) (loaded.0, ok) after_absence
        (λ e h. inl (h0.0 ∙ h0.2 (is_not_found→eq loaded.1.0 e)))
        (λ e.
          if_cases (Released p) (is_invalid_response loaded.1.0) (ota_cache_invalidate nvs loaded.0)
            after_damage (λ e h. inl (invalidate-view nvs view storage loaded.0 h))
            (λ e.
              if_cases (Released p) (not (is_ok loaded.1.0)) (loaded.0, loaded.1.0) after_read
                (λ e h. refused loaded.1.0 (ground arith) h)
                (λ readable.
                  if_cases (Released p) (names_partition loaded.1.1 p)
                    (ota_cache_invalidate nvs loaded.0) (loaded.0, ok)
                    (λ e h. inl (invalidate-view nvs view storage loaded.0 h))
                    (λ e h.
                      inr (loaded.1.1, h0.0 ∙ h0.1 (is_ok→ok loaded.1.0 (ground arith)), e)))))
    where
      loaded : S × (Err × CacheRecord)
      loaded = ota_cache_load sscanf crc_of nvs true s

      h0 : Loaded nvs view storage (view s) loaded
      h0 = load-Loaded nvs view storage sscanf crc_of s

      after_read : S × Err
      after_read =
          if names_partition loaded.1.1 p then ota_cache_invalidate nvs loaded.0 else (loaded.0, ok)

      after_damage : S × Err
      after_damage = if not (is_ok loaded.1.0) then (loaded.0, loaded.1.0) else after_read

      after_absence : S × Err
      after_absence =
          if is_invalid_response loaded.1.0 then ota_cache_invalidate nvs loaded.0 else after_damage

  -- The storage behaves as documented. Once `ota_cache_before_write` has returned ESP_OK, a record
  -- that is loaded without an error names neither the address nor the label of the partition.
  pub before_write-names_partition :
      (p : Partition) (s : S) (released : S × Err) (loaded : S × (Err × CacheRecord))
      → ota_cache_before_write sscanf crc_of nvs (some p) s ≡ released
      → released.1 ≡ ok
      → ota_cache_load sscanf crc_of nvs true released.0 ≡ loaded
      → loaded.1.0 ≡ ok
      → names_partition loaded.1.1 p ≡ false
  before_write-names_partition p s released loaded e h e' k =
      step (subst (Released p) e (before_write-Released p s) h) (
        (subst (Loaded nvs view storage (view released.0)) e'
            (load-Loaded nvs view storage sscanf crc_of released.0)).1
          k)
    where
      step :
          (view released.0 ≡ nothing)
            ⊎ ((r : CacheRecord) × (view released.0 ≡ a_record r) × (names_partition r p ≡ false))
          → view released.0 ≡ a_record loaded.1.1
          → names_partition loaded.1.1 p ≡ false
      step (inl gone) read = cc
      step (inr (r, stored, other)) read = cc
