-- ===== src/Ota/Image/Verify.antt =====
-- What the check of a record against the flash ensures.
use esp32aging.Base.{
  ℕ, ◌≤◌, ◌<◌, bit_and, ◌≡◌, refl, sym, ap, ◌∙◌, subst, inl, inr, Bool, true, false, not, ◌||◌,
  Option, none, some, List, [], ◌∷◌, ◌++◌, arith, ltb, ◌==◌, if◌then◌else◌, get_or, take, ◌>>>◌,
  some_inj, if_cases, str_eq, str_eq_iff, IsBytes, holds_below_sound, bit_and_15,
}
use esp32aging.Ota.{
  Err, ok, invalid_arg, invalid_size, not_found, invalid_response, invalid_version, is_ok, c_str,
  is_ok→ok,
}
use esp32aging.Ota.Version.{Scan}
use esp32aging.Ota.Cache.{CacheRecord, Partition, record_valid, numbers_valid}
use esp32aging.Ota.Image.{
  Sha, Sdk, hex, hex_digits, Digest, ota_cache_hash_file, ota_cache_image_size, verify_image,
  ota_cache_verify, size_of, text_of,
}
use esp32aging.Ota.Image.Laws.{IsSha, IsFlash, IsDigest, hash_file-IsDigest}

-- No digit is a NUL.
hex-digit : (k : ℕ) → k < 16 → (get_or hex k 0 == 0) ≡ false
hex-digit k h = ground (arith, holds_below_sound 16 (λ i. not (get_or hex i 0 == 0)) k refl h)

c_str-hex_digits :
    (digest : List ℕ) → IsBytes digest → c_str (hex_digits digest ++ 0 ∷ []) ≡ hex_digits digest
unfolding c_str hex_digits
c_str-hex_digits [] h = refl
c_str-hex_digits (b ∷ bs) h =
    rw
      (
        hex-digit (b >>> 4) (omega (arith, h.0)),
        hex-digit (bit_and b 15) (omega (arith, bit_and_15 b)),
      )
      (ap (λ ds. get_or hex (b >>> 4) 0 ∷ get_or hex (bit_and b 0x0F) 0 ∷ ds)
        (c_str-hex_digits bs h.1))

-- The image of the partition as the SDK verifies it: its version, and its length.
pub record IsMeasured (sdk : Sdk) (part : Partition) (version : List ℕ) (n : ℕ) : Type 0 where
  pub described : (sdk.description part).0 ≡ ok
  pub versioned : take 32 (c_str (sdk.description part).1) ≡ take 32 version
  pub verified : sdk.image_verify part ≡ (ok, n)
  pub inside : n ≤ part.size
  pub not_empty : 1 ≤ n

image_size-IsMeasured :
    (sdk : Sdk) (part : Partition) (version : List ℕ)
    → let image = ota_cache_image_size sdk (some part) (some version) true in
      is_ok image.0 ≡ true → IsMeasured sdk part version (size_of image.1)
unfolding ota_cache_image_size
image_size-IsMeasured sdk part version =
    if_cases P (not (is_ok desc.0)) (desc.0, none) compared (λ e h. absurd (ground arith))
      (λ e.
        if_cases P (not same_version) (invalid_version, none) checked (λ k h. absurd (ground arith))
          (λ k.
            if_cases P (not (is_ok image.0)) (image.0, none) sized (λ l h. absurd (ground arith))
              (λ l.
                if_cases P (image.1 == 0 || ltb part.size image.1) (invalid_size, none)
                  (ok, some image.1) (λ m h. absurd (ground arith))
                  (λ m h. record {
                    described = is_ok→ok desc.0 (ground arith);
                    versioned =
                        (str_eq_iff (take 32 (c_str desc.1)) (take 32 version)).0 (ground arith);
                    verified = ap (λ (a : Err). (a, image.1)) (is_ok→ok image.0 (ground arith));
                    inside = ground arith;
                    not_empty = ground arith;
                  }))))
  where
    P : Err × Option ℕ → Type 0
    P x = is_ok x.0 ≡ true → IsMeasured sdk part version (size_of x.1)

    desc : Err × List ℕ
    desc = sdk.description part

    image : Err × ℕ
    image = sdk.image_verify part

    same_version : Bool
    same_version = str_eq (take 32 (c_str desc.1)) (take 32 version)

    sized : Err × Option ℕ
    sized =
        if image.1 == 0 || ltb part.size image.1 then (invalid_size, none) else (ok, some image.1)

    checked : Err × Option ℕ
    checked = if not (is_ok image.0) then (image.0, none) else sized

    compared : Err × Option ℕ
    compared = if not same_version then (invalid_version, none) else checked

-- The partition holds the image that the record describes.
pub record IsRecorded (sdk : Sdk) (sha256 : List ℕ → List ℕ) (content : Partition → List ℕ)
    (r : CacheRecord) (part : Partition) : Type 0 where
  pub found : sdk.find_first r.partition_subtype (c_str r.partition_label) ≡ some part
  pub placed : (part.address ≡ r.partition_address) × (part.size ≡ r.partition_size)
  pub image_bytes : ℕ
  pub measured : IsMeasured sdk part (c_str r.version) image_bytes
  pub covered : image_bytes ≤ r.image_size_bytes
  pub digest : c_str r.sha256_hex ≡ hex_digits (sha256 (take r.image_size_bytes (content part)))

nothing_found {ℓ} :
    {A : Type ℓ} (e : Err) (part : Partition)
    → ◌≡◌ {A = Err × Option Partition} (e, none) (ok, some part)
    → A
nothing_found e part h = cc (ap (λ (x : Err × Option Partition). x.1) h)

valid-bounds :
    (sscanf : List ℕ → Scan) (r : CacheRecord)
    → record_valid sscanf (some r) ≡ true
    → (1 ≤ r.image_size_bytes) × (r.image_size_bytes ≤ r.partition_size)
unfolding record_valid numbers_valid
valid-bounds sscanf r h = (ground arith, ground arith)

module _ {C : Type 0} (sha : Sha C) (sdk : Sdk) (Holds : C → List ℕ → Type 0)
    (sha256 : List ℕ → List ℕ) (content : Partition → List ℕ) (is_sha : IsSha sha Holds sha256)
    (flash : IsFlash sdk content) where
  -- The digest that is compared.
  hash_file-text :
      (p : Partition) (n : ℕ)
      → 1 ≤ n
      → n ≤ p.size
      → let d = ota_cache_hash_file sha sdk (some p) n true in
        is_ok d.0 ≡ true → text_of d.1 ≡ hex_digits (sha256 (take n (content p)))
  hash_file-text p n h k =
      step (ota_cache_hash_file sha sdk (some p) n true)
        (hash_file-IsDigest sha sdk Holds sha256 content is_sha flash p n h k)
    where
      step :
          (d : Digest)
          → IsDigest sha sdk Holds sha256 content is_sha flash p n d
          → is_ok d.0 ≡ true
          → text_of d.1 ≡ hex_digits (sha256 (take n (content p)))
      step d (inl e) g =
          ap (λ (x : Digest). text_of x.1) e
          ∙ c_str-hex_digits (sha256 (take n (content p)))
              (is_sha.sha256-IsBytes (take n (content p)))
      step d (inr (e, f)) g = cc

  verify_image-IsRecorded :
      (r : CacheRecord) (part found : Partition)
      → sdk.find_first r.partition_subtype (c_str r.partition_label) ≡ some found
      → (found.address ≡ r.partition_address) × (found.size ≡ r.partition_size)
      → 1 ≤ r.image_size_bytes
      → r.image_size_bytes ≤ r.partition_size
      → verify_image sha sdk r found ≡ (ok, some part)
      → IsRecorded sdk sha256 content r part
  unfolding verify_image
  verify_image-IsRecorded r part found f at low high =
      if_cases P (not (is_ok image.0)) (image.0, none) sized (λ e h. nothing_found image.0 part h)
        (λ e.
          if_cases P (ltb r.image_size_bytes (size_of image.1)) (invalid_size, none) read
            (λ k h. nothing_found invalid_size part h)
            (λ k.
              if_cases P (not (is_ok digest.0)) (digest.0, none) compared
                (λ l h. nothing_found digest.0 part h)
                (λ l.
                  if_cases P (not same_digest) (invalid_response, none) (ok, some found)
                    (λ m h. nothing_found invalid_response part h)
                    (λ m h.
                      subst (IsRecorded sdk sha256 content r)
                        (some_inj (ap (λ (x : Err × Option Partition). x.1) h))
                        (record {
                          found = f;
                          placed = at;
                          image_bytes = size_of image.1;
                          measured =
                              image_size-IsMeasured sdk found (c_str r.version) (ground arith);
                          covered = ground arith;
                          digest =
                              sym (
                                (str_eq_iff (text_of digest.1) (c_str r.sha256_hex)).0
                                  (ground arith))
                              ∙ hash_file-text found r.image_size_bytes low (omega (arith, at.1))
                                  (ground arith);
                        })))))
    where
      P : Err × Option Partition → Type 0
      P x = x ≡ (ok, some part) → IsRecorded sdk sha256 content r part

      image : Err × Option ℕ
      image = ota_cache_image_size sdk (some found) (some (c_str r.version)) true

      digest : Digest
      digest = ota_cache_hash_file sha sdk (some found) r.image_size_bytes true

      same_digest : Bool
      same_digest = str_eq (text_of digest.1) (c_str r.sha256_hex)

      compared : Err × Option Partition
      compared = if not same_digest then (invalid_response, none) else (ok, some found)

      read : Err × Option Partition
      read = if not (is_ok digest.0) then (digest.0, none) else compared

      sized : Err × Option Partition
      sized = if ltb r.image_size_bytes (size_of image.1) then (invalid_size, none) else read

  -- The hash library and the reading of the flash behave as documented. Where the check of a record
  -- succeeds, it gives the partition that the record's label and subtype find: its address and size
  -- are the recorded ones, the SDK has verified an image in it with the record's version, whose
  -- length is positive, fits the partition and is at most the recorded one, and the recorded digest
  -- is that of the partition's first bytes, as many as the record says.
  pub verify-IsRecorded :
      (sscanf : List ℕ → Scan) (r : CacheRecord) (part : Partition)
      → ota_cache_verify sha sdk sscanf true (some r) ≡ (ok, some part)
      → IsRecorded sdk sha256 content r part
  unfolding ota_cache_verify
  verify-IsRecorded sscanf r part =
      if_cases P (not (record_valid sscanf (some r))) (invalid_arg, none) searched
        (λ e h. nothing_found invalid_arg part h)
        (λ e.
          step (sdk.find_first r.partition_subtype (c_str r.partition_label)) refl
            (valid-bounds sscanf r (ground arith)))
    where
      P : Err × Option Partition → Type 0
      P x = x ≡ (ok, some part) → IsRecorded sdk sha256 content r part

      differs : Partition → Bool
      differs found =
          not (found.address == r.partition_address) || not (found.size == r.partition_size)

      checked : Partition → Err × Option Partition
      checked found = if differs found then (not_found, none) else verify_image sha sdk r found

      searched : Err × Option Partition
      searched = elim (sdk.find_first r.partition_subtype (c_str r.partition_label)) [
        | none ↦ (not_found, none)
        | some found ↦ checked found
      ]

      step :
          (o : Option Partition)
          → sdk.find_first r.partition_subtype (c_str r.partition_label) ≡ o
          → (1 ≤ r.image_size_bytes) × (r.image_size_bytes ≤ r.partition_size)
          → P (elim o [ none ↦ (not_found, none) | some found ↦ checked found ])
      step none f bounds = λ h. nothing_found not_found part h
      step (some found) f bounds =
          if_cases P (differs found) (not_found, none) (verify_image sha sdk r found)
            (λ e h. nothing_found not_found part h)
            (λ e.
              verify_image-IsRecorded r part found f (ground arith, ground arith) bounds.0 bounds.1)
