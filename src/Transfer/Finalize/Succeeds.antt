-- ===== src/Transfer/Finalize/Succeeds.antt =====
-- A run of the service in which no call fails: what it begins with, and how it ends.
use esp32aging.Base.{
  ℕ, ◌≡◌, ◌⊎◌, Bool, true, false, not, ◌&&◌, none, some, List, ◌∷◌, ◌==◌, if◌then◌else◌, ltb_ℤ, pos,
  is_empty,
}
use esp32aging.Ota.{ok, is_ok, c_str}
use esp32aging.Ota.Version.{Scan, simple_ota_compare_versions}
use esp32aging.Ota.Cache.{CacheRecord, Partition, strlcpy, origin_download}
use esp32aging.Ota.Cache.Nvs.{Nvs, ota_cache_store}
use esp32aging.Ota.Image.{Sha, Sdk, text_of, ota_cache_hash_file}
use esp32aging.Transfer.Finalize.{
  File, Effect, boots, notifies, Service, Calls, Result, done, stops, M, ◌>>=◌, idle,
  pending_restart,
}

module _ {S : Type 0} where
  -- A step that goes on, with what is told of its result.
  abbrev pub Goes : {A : Type 0} → (A → Service S → Type 0) → Service S × Result A → Type 0
  Goes Q (s, done a) = Q a s
  Goes Q (s, stops e) = ⊥

  pub bind-Goes :
      {A B : Type 0} (Q : A → Service S → Type 0) (R : B → Service S → Type 0) (m : M S A)
      (f : A → M S B) (s : Service S)
      → Goes Q (m s)
      → ((a : A) (t : Service S) → Q a t → Goes R (f a t))
      → Goes R ((m >>= f) s)
  bind-Goes {A} {B} Q R m f s = go (m s)
    where
      go :
          (x : Service S × Result A)
          → Goes Q x
          → ((a : A) (t : Service S) → Q a t → Goes R (f a t))
          → Goes R (elim x.1 as (λ _. Service S × Result B) [
            | done a ↦ f a x.0
            | stops e ↦ (x.0, stops e)
          ])
      go (t, done a) h k = k a t h
      go (t, stops e) h k = absurd h

-- The digest of the supply, computed where it is missing.
abbrev pub digest_text : {S C : Type 0} → Sha C → Sdk → Service S → Partition → List ℕ
digest_text sha sdk s p =
    if is_empty s.ready_file.sha256_hex
    then text_of (ota_cache_hash_file sha sdk (some p) s.ready_file.ready.size_bytes true).1
    else s.ready_file.sha256_hex

-- That the image is downloaded and newer than what runs, and that it is selected already.
abbrev pub is_update : {S : Type 0} → Service S → ℕ → Bool
is_update s newer_by = s.candidate.origin == origin_download && ltb_ℤ (pos 0) (pos newer_by)

abbrev pub is_selected : Calls → Partition → Bool
is_selected c p = elim c.boot_partition [ none ↦ false | some b ↦ b.address == p.address ]

module _ (sscanf : List ℕ → Scan) (crc_of : CacheRecord → ℕ) {S C : Type 0} (nvs : Nvs S)
    (sha : Sha C) (sdk : Sdk) (c : Calls) (s : Service S) (p : Partition) (newer_by : ℕ) where
  -- The state in which a run begins, and calls that all succeed.
  pub record Succeeds : Type 0 where
    pub pending : s.finalization_pending ≡ true
    pub supplied : s.ready_file.ready.partition ≡ some p
    pub locks :
        (c.locks_at_start ≡ true) × (c.locks_for_digest ≡ true) × (c.locks_for_supply ≡ true)
    pub hashes :
        (is_empty s.ready_file.sha256_hex ≡ false)
        ⊎ (is_ok (ota_cache_hash_file sha sdk (some p) s.ready_file.ready.size_bytes true).0 ≡ true)
    pub running : is_ok c.running.0 ≡ true
    pub compared :
        simple_ota_compare_versions sscanf (some s.ready_file.version) (some c.running.1) true
        ≡ (ok, some (pos newer_by))
    pub stores :
        (s.persisted ≡ true)
        ⊎ (is_ok
              (ota_cache_store sscanf crc_of nvs
                (some (record s.candidate { sha256_hex = strlcpy 65 (digest_text sha sdk s p) }))
                s.store).1
            ≡ true)
    pub sets_boot : is_ok c.set_boot ≡ true
    pub sets_name : is_ok c.set_file_name ≡ true
    pub unplanned : c.planned ≡ false
    pub notified : is_ok c.notify ≡ true

module _ {S : Type 0} (c : Calls) (s : Service S) (p : Partition) (newer_by : ℕ) where
  -- The end of the run.
  pub record IsReady (t : Service S) : Type 0 where
    pub stored : t.persisted ≡ true
    pub valid : t.ready_file.ready ≡ record s.ready_file.ready { valid = true }
    pub finished : t.finalization_pending ≡ false
    pub state : t.state ≡ (if (is_update s newer_by) then pending_restart else idle)
    pub effects :
        t.effects
        ≡ notifies t.ready_file.ready (some (c_str s.ready_file.ready.file_name))
          ∷ (if (is_update s newer_by) && not (is_selected c p)
              then boots p t.store ∷ s.effects
              else s.effects)

-- What the first steps leave as it was.
abbrev pub Same : {S : Type 0} → Service S → Service S → Type 0
Same s t =
    (t.candidate ≡ s.candidate)
    × (t.store ≡ s.store)
    × (t.persisted ≡ s.persisted)
    × (t.effects ≡ s.effects)

-- The supply with its digest.
abbrev pub IsFile : {S C : Type 0} → Sha C → Sdk → Service S → Partition → File → Type 0
IsFile sha sdk s p file =
    (file.sha256_hex ≡ digest_text sha sdk s p)
    × (file.ready ≡ s.ready_file.ready)
    × (file.version ≡ s.ready_file.version)

-- The record is stored.
abbrev pub IsKept : {S : Type 0} → Service S → Service S → Type 0
IsKept s u =
    (u.persisted ≡ true) × (u.candidate.origin ≡ s.candidate.origin) × (u.effects ≡ s.effects)

-- The selection for the next start is asked for where it is due.
abbrev pub boot_effects :
    {S : Type 0} → Partition → List (Effect S) → Bool → Bool → S → List (Effect S)
boot_effects p effects update selected store =
    if update && not selected then boots p store ∷ effects else effects

abbrev pub IsBooted : {S : Type 0} → Calls → Service S → Partition → ℕ → Service S → Type 0
IsBooted c s p newer_by u =
    (u.persisted ≡ true)
    × (u.state ≡ (if is_update s newer_by then pending_restart else idle))
    × (u.effects ≡ boot_effects p s.effects (is_update s newer_by) (is_selected c p) u.store)
