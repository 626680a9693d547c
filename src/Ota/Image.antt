-- ===== src/Ota/Image.antt =====
-- main/APP/OTA/ota_cache.c: the image in a partition, its length, its hash and the check of a record
-- against it.
pub mod Laws
pub mod Verify
use esp32aging.Base.{
  ℕ, zero, suc, ◌+◌, ◌-◌, bit_and, Bool, true, not, ◌||◌, Option, none, some, List, [], ◌∷◌, ◌++◌,
  ltb, ◌==◌, if◌then◌else◌, get_or, take, ◌>>>◌, str_eq,
}
use esp32aging.Ota.{
  Err, ok, fail, invalid_arg, invalid_size, not_found, invalid_response, invalid_version, is_ok,
  c_str,
}
use esp32aging.Ota.Version.{Scan}
use esp32aging.Ota.Cache.{CacheRecord, Partition, record_valid}

-- The calls of the SHA-256 library with its context `C`; `none` is a result that is not 0.
pub record Sha (C : Type 0) : Type 0 where
  pub starts : Option C
  pub update : C → List ℕ → Option C
  pub finish : C → Option (List ℕ)

-- The calls of the SDK on a partition: `esp_partition_read` by the offset and the count, the
-- version of `esp_ota_get_partition_description`, the length of `esp_image_verify`, and
-- `esp_partition_find_first` by the subtype and the label.
pub record Sdk : Type 0 where
  pub read : Partition → ℕ → ℕ → Err × List ℕ
  pub description : Partition → Err × List ℕ
  pub image_verify : Partition → Err × ℕ
  pub find_first : ℕ → List ℕ → Option Partition

-- `OTA_CACHE_HASH_BUFFER_BYTES`
abbrev pub hash_buffer_bytes : ℕ
hash_buffer_bytes = 2048

abbrev pub hex : List ℕ
hex =
    b'0' ∷ b'1' ∷ b'2' ∷ b'3' ∷ b'4' ∷ b'5' ∷ b'6' ∷ b'7' ∷ b'8' ∷ b'9' ∷ b'a' ∷ b'b' ∷ b'c' ∷ b'd'
    ∷ b'e' ∷ b'f' ∷ []

-- The loop that prints the digest.
unfoldable pub hex_digits : List ℕ → List ℕ
hex_digits [] = []
hex_digits (b ∷ bs) = get_or hex (b >>> 4) 0 ∷ get_or hex (bit_and b 0x0F) 0 ∷ hex_digits bs

-- How the loop over the image ends: at an error, or with all bytes hashed.
pub data Hashed (C : Type 0) : Type 0 where
  stopped : Err → Hashed C
  hashed : C → Hashed C

-- `esp_err_t` with the string that is written.
abbrev pub Digest : Type 0
Digest = Err × Option (List ℕ)

-- What the callers read of an output.
abbrev size_of : Option ℕ → ℕ
size_of none = 0
size_of (some n) = n

abbrev pub text_of : Option (List ℕ) → List ℕ
text_of none = []
text_of (some text) = c_str text

-- How many bytes a round reads.
unfoldable pub hash_count : ℕ → ℕ → ℕ
hash_count size_bytes offset =
    let count = size_bytes - offset in
    if ltb hash_buffer_bytes count then hash_buffer_bytes else count

-- From `mbedtls_sha256_finish` on.
unfoldable pub finish_hash : {C : Type 0} → Sha C → Hashed C → Digest
finish_hash sha (stopped err) = (err, none)
finish_hash sha (hashed ctx) = elim (sha.finish ctx) [
  | none ↦ (fail, none)
  | some digest ↦ (ok, some (hex_digits digest ++ 0 ∷ []))
]

-- `ota_cache_image_size` with `*size_bytes`, where it is written.
unfoldable pub ota_cache_image_size :
    Sdk → Option Partition → Option (List ℕ) → Bool → Err × Option ℕ
ota_cache_image_size sdk none version out_given = (invalid_arg, none)
ota_cache_image_size sdk (some p) none out_given = (invalid_arg, none)
ota_cache_image_size sdk (some p) (some version) out_given =
    let desc = sdk.description p in
    let image = sdk.image_verify p in
    if not out_given
    then (invalid_arg, none)
    else if not (is_ok desc.0)
    then (desc.0, none)
    else if not (str_eq (take 32 (c_str desc.1)) (take 32 version))
    then (invalid_version, none)
    else if not (is_ok image.0)
    then (image.0, none)
    else if image.1 == 0 || ltb p.size image.1
    then (invalid_size, none)
    else (ok, some image.1)

module _ {C : Type 0} (sha : Sha C) (sdk : Sdk) where
  -- The loop over the image. The fuel bounds its rounds.
  unfoldable pub hash_loop : ℕ → Partition → ℕ → ℕ → C → Hashed C
  hash_loop zero p size_bytes offset ctx =
      if ltb offset size_bytes then stopped fail else hashed ctx
  hash_loop (suc fuel) p size_bytes offset ctx =
      let count = hash_count size_bytes offset in
      let data_read = sdk.read p offset count in
      let next = λ (ctx' : C). hash_loop fuel p size_bytes (offset + count) ctx' in
      if not (ltb offset size_bytes)
      then hashed ctx
      else if not (is_ok data_read.0)
      then stopped data_read.0
      else elim (sha.update ctx data_read.1) [ none ↦ stopped fail | some ctx' ↦ next ctx' ]

  -- `ota_cache_hash_file`
  unfoldable pub ota_cache_hash_file : Option Partition → ℕ → Bool → Digest
  ota_cache_hash_file none size_bytes out_given = (invalid_arg, none)
  ota_cache_hash_file (some p) size_bytes out_given =
      if not out_given || size_bytes == 0 || ltb p.size size_bytes
      then (invalid_arg, none)
      else elim sha.starts [
        | none ↦ (fail, none)
        | some ctx ↦ finish_hash sha (hash_loop size_bytes p size_bytes 0 ctx)
      ]

  -- `ota_cache_verify` from the length of the image on.
  unfoldable pub verify_image : CacheRecord → Partition → Err × Option Partition
  verify_image r part =
      let image = ota_cache_image_size sdk (some part) (some (c_str r.version)) true in
      let digest = ota_cache_hash_file (some part) r.image_size_bytes true in
      if not (is_ok image.0)
      then (image.0, none)
      else if ltb r.image_size_bytes (size_of image.1)
      then (invalid_size, none)
      else if not (is_ok digest.0)
      then (digest.0, none)
      else if not (str_eq (text_of digest.1) (c_str r.sha256_hex))
      then (invalid_response, none)
      else (ok, some part)

  -- `ota_cache_verify` with `*partition`, `none` where it is NULL afterwards.
  unfoldable pub ota_cache_verify :
      (List ℕ → Scan) → Bool → Option CacheRecord → Err × Option Partition
  ota_cache_verify sscanf out_given none = (invalid_arg, none)
  ota_cache_verify sscanf out_given (some r) =
      if not out_given || not (record_valid sscanf (some r))
      then (invalid_arg, none)
      else elim (sdk.find_first r.partition_subtype (c_str r.partition_label)) [
        | none ↦ (not_found, none)
        | some part ↦
            if not (part.address == r.partition_address) || not (part.size == r.partition_size)
            then (not_found, none)
            else verify_image r part
      ]
