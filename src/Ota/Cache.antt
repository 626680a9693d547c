-- ===== src/Ota/Cache.antt =====
-- main/APP/OTA/ota_cache.c: the record of the image that this node may pass on, kept as one blob in
-- the non-volatile storage.
pub mod Nvs
use esp32aging.Base.{
  ℕ, ◌+◌, ◌-◌, ◌*◌, ◌^◌, bit_and, Bool, true, false, not, ◌&&◌, ◌||◌, Option, none, some, List, [],
  ◌∷◌, ◌++◌, ltb, leb, ◌==◌, if◌then◌else◌, length, take, drop, replicate, u32, ℤ, pos, ltb_ℤ,
  str_eq, is_empty,
}
use esp32aging.Ota.{Err, ok, invalid_arg, is_ok, c_str, terminated, has_any, has_part}
use esp32aging.Ota.Version.{Scan, eq_ℤ, simple_ota_compare_versions}

-- `ota_cache_record_t`; an array of `char` has its size in the source.
pub record CacheRecord : Type 0 where
  pub magic : ℕ
  pub format_version : ℕ
  pub record_bytes : ℕ
  pub origin : ℕ
  pub partition_address : ℕ
  pub partition_size : ℕ
  pub partition_subtype : ℕ
  pub image_size_bytes : ℕ
  pub completed_seq : ℤ
  pub partition_label : List ℕ
  pub file_name : List ℕ
  pub version : List ℕ
  pub sha256_hex : List ℕ
  pub device_id : List ℕ
  pub aging_number : List ℕ
  pub crc32 : ℕ

-- What the code reads of `esp_partition_t`.
pub record Partition : Type 0 where
  pub address : ℕ
  pub size : ℕ
  pub subtype : ℕ
  pub label : List ℕ

-- What the code reads of `simple_ota_metadata_t`.
pub record Metadata : Type 0 where
  pub version : List ℕ
  pub file : List ℕ

abbrev pub cache_magic : ℕ
cache_magic = 0x4f544143

abbrev pub sizeof_record : ℕ
sizeof_record = 256

abbrev pub origin_download : ℕ
origin_download = 1

abbrev pub origin_bootstrap : ℕ
origin_bootstrap = 2

abbrev pub origin_current : ℕ
origin_current = 3

-- `ESP_PARTITION_SUBTYPE_APP_OTA_0` and `_1`
abbrev pub subtype_ota_0 : ℕ
subtype_ota_0 = 0x10

abbrev pub subtype_ota_1 : ℕ
subtype_ota_1 = 0x11

-- `OTA_CACHE_ALIGNMENT_BYTES`
abbrev pub alignment_bytes : ℕ
alignment_bytes = 64 * 1024

-- What `memset` leaves.
abbrev pub cleared : CacheRecord
cleared = record {
  magic = 0;
  format_version = 0;
  record_bytes = 0;
  origin = 0;
  partition_address = 0;
  partition_size = 0;
  partition_subtype = 0;
  image_size_bytes = 0;
  completed_seq = pos 0;
  partition_label = replicate 17 0;
  file_name = replicate 32 0;
  version = replicate 32 0;
  sha256_hex = replicate 65 0;
  device_id = replicate 32 0;
  aging_number = replicate 32 0;
  crc32 = 0;
}

-- The size rounded up to whole blocks of 64 KiB, in 32 bits.
unfoldable pub aligned : ℕ → ℕ
aligned size = bit_and (u32 (size + alignment_bytes - 1)) 0xffff0000

-- The conditions of `record_valid`, in their order: the numbers of the record;
unfoldable pub numbers_valid : CacheRecord → Bool
numbers_valid r =
    r.magic == cache_magic
    && r.format_version == 1
    && r.record_bytes == sizeof_record
    && (r.origin == origin_download || r.origin == origin_bootstrap || r.origin == origin_current)
    && (r.partition_subtype == subtype_ota_0 || r.partition_subtype == subtype_ota_1)
    && not (r.image_size_bytes == 0)
    && leb r.image_size_bytes r.partition_size
    && leb r.image_size_bytes (2 ^ 32 - 1 - (alignment_bytes - 1))
    && leb (aligned r.image_size_bytes) r.partition_size

-- the strings end in their arrays;
unfoldable pub strings_valid : CacheRecord → Bool
strings_valid r =
    terminated r.partition_label
    && not (is_empty (c_str r.partition_label))
    && terminated r.file_name
    && not (is_empty (c_str r.file_name))
    && terminated r.version
    && terminated r.device_id
    && terminated r.aging_number
    && terminated r.sha256_hex
    && length (c_str r.sha256_hex) == 64

-- where the image comes from;
unfoldable pub origin_valid : CacheRecord → Bool
origin_valid r =
    if r.origin == origin_bootstrap
    then eq_ℤ r.completed_seq (pos 0)
    else not (ltb_ℤ r.completed_seq (pos 0))
      && not (is_empty (c_str r.device_id))
      && not (is_empty (c_str r.aging_number))

abbrev pub is_hex_digit : ℕ → Bool
is_hex_digit ch = (leb b'0' ch && leb ch b'9') || (leb b'a' ch && leb ch b'f')

-- the loop over the 64 digits;
unfoldable pub digits_valid : List ℕ → Bool
digits_valid [] = true
digits_valid (ch ∷ rest) = is_hex_digit ch && digits_valid rest

-- "_v%s.bin"
unfoldable pub version_suffix : List ℕ → List ℕ
version_suffix version = b'_' ∷ b'v' ∷ (c_str version ++ b'.' ∷ b'b' ∷ b'i' ∷ b'n' ∷ [])

-- and the name of the file, which ends in that.
unfoldable pub name_valid : CacheRecord → Bool
name_valid r =
    let name = c_str r.file_name in
    let suffix = version_suffix r.version in
    not (has_any (b'/' ∷ b'\\' ∷ b'?' ∷ b'&' ∷ b'#' ∷ b':' ∷ []) name)
    && not (has_part (b'.' ∷ b'.' ∷ []) name)
    && ltb (length suffix) (32 + 8)
    && leb (length suffix) (length name)
    && str_eq (drop (length name - length suffix) name) suffix

-- `record_valid`; `none` is NULL.
unfoldable pub record_valid : (List ℕ → Scan) → Option CacheRecord → Bool
record_valid sscanf none = false
record_valid sscanf (some r) =
    numbers_valid r
    && strings_valid r
    && origin_valid r
    && digits_valid (take 64 r.sha256_hex)
    && is_ok
        (simple_ota_compare_versions sscanf (some (c_str r.version)) (some (c_str r.version))
          true).0
    && name_valid r

-- `strlcpy` into a cleared array of `capacity` bytes.
unfoldable pub strlcpy : ℕ → List ℕ → List ℕ
strlcpy capacity text =
    let kept = take (capacity - 1) (c_str text) in kept ++ replicate (capacity - length kept) 0

-- `ota_cache_record_init`; `*record` where it is written.
unfoldable pub ota_cache_record_init :
    Bool → Option Partition → Option Metadata → ℕ → Err × Option CacheRecord
ota_cache_record_init out_given none metadata size_bytes = (invalid_arg, none)
ota_cache_record_init out_given (some p) none size_bytes = (invalid_arg, none)
ota_cache_record_init out_given (some p) (some m) size_bytes =
    if not out_given
      || size_bytes == 0
      || ltb (2 ^ 32 - 1) size_bytes
      || ltb p.size size_bytes
      || leb 32 (length (c_str m.file))
      || leb 32 (length (c_str m.version))
    then (invalid_arg, none)
    else (
      ok,
      some (record cleared {
        magic = cache_magic;
        format_version = 1;
        record_bytes = sizeof_record;
        origin = origin_bootstrap;
        partition_address = p.address;
        partition_size = p.size;
        partition_subtype = p.subtype;
        image_size_bytes = size_bytes;
        partition_label = strlcpy 17 p.label;
        file_name = strlcpy 32 m.file;
        version = strlcpy 32 m.version;
      }),
    )
