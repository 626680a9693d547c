-- ===== src/Ota/Examples.antt =====
-- Versions, an image in a partition and its record, at concrete values.
use esp32aging.Base.{
  ℕ, zero, suc, ◌+◌, ◌-◌, ◌%◌, ◌≡◌, refl, ap, ◌≢◌, ◌↔◌, true, false, some, List, [], ◌∷◌, ◌++◌,
  arith, take, drop, replicate, pos, negsuc, str_eq,
}
use esp32aging.Ota.{
  Err, ok, not_found, nvs_not_found, other, c_str, terminated, is_one_of, has_any, starts_with,
  has_part,
}
use esp32aging.Ota.Version.{Scan, Semver, compare_semver, parse_semver, simple_ota_compare_versions}
use esp32aging.Ota.Version.Laws.{IsOlder, compare_versions, compare_versions-eq-order}
use esp32aging.Ota.Cache.{
  CacheRecord, Partition, cache_magic, sizeof_record, origin_bootstrap, subtype_ota_0,
  subtype_ota_1, aligned, numbers_valid, strings_valid, origin_valid, digits_valid, version_suffix,
  name_valid, record_valid,
}
use esp32aging.Ota.Cache.Nvs.{
  Nvs, record_crc, sealed, is_intact, names_partition, write_blob, read_blob, ota_cache_store,
  load_opened, ota_cache_load, ota_cache_before_write,
}
use esp32aging.Ota.Cache.Nvs.Laws.{Content, nothing, a_record, a_blob, IsStorage}
use esp32aging.Ota.Cache.Nvs.Release.{before_write-names_partition}
use esp32aging.Ota.Cache.Nvs.RoundTrip.{load-store}
use esp32aging.Ota.Image.{
  Sha, Sdk, hex_digits, hash_count, finish_hash, ota_cache_image_size, hash_loop,
  ota_cache_hash_file, verify_image, ota_cache_verify,
}
use esp32aging.Ota.Image.Laws.{IsSha, IsFlash, IsDigest, hash_file-IsDigest}
use esp32aging.Ota.Image.Verify.{IsRecorded, verify-IsRecorded}

-- `sscanf` on texts of three digits with a byte between them.
abbrev pub scan : List ℕ → Scan
scan (a ∷ _ ∷ b ∷ _ ∷ c ∷ []) = record {
  count = pos 3;
  major = pos (a - b'0');
  minor = pos (b - b'0');
  patch = pos (c - b'0');
}
scan _ = record { count = pos 0; major = negsuc 0; minor = negsuc 0; patch = negsuc 0 }

abbrev pub v1_2_3 : List ℕ
v1_2_3 = b'1' ∷ b'.' ∷ b'2' ∷ b'.' ∷ b'3' ∷ []

abbrev v1_9_0 : List ℕ
v1_9_0 = b'1' ∷ b'.' ∷ b'9' ∷ b'.' ∷ b'0' ∷ []

abbrev semver : ℕ → ℕ → ℕ → Semver
semver a b c = record { major = pos a; minor = pos b; patch = pos c }

parsed_1_2_3 : parse_semver scan (some v1_2_3) ≡ some (semver 1 2 3)
unfolding parse_semver
parsed_1_2_3 = refl

parsed_1_9_0 : parse_semver scan (some v1_9_0) ≡ some (semver 1 9 0)
unfolding parse_semver
parsed_1_9_0 = refl

compare_versions-eq-order_example :
    let order = compare_versions scan v1_2_3 v1_9_0 (semver 1 2 3) (semver 1 9 0) in
    ((order ≡ some (negsuc 0)) ↔ IsOlder (semver 1 2 3) (semver 1 9 0))
    × ((order ≡ some (pos 1)) ↔ IsOlder (semver 1 9 0) (semver 1 2 3))
    × ((order ≡ some (pos 0)) ↔ (semver 1 2 3 ≡ semver 1 9 0))
compare_versions-eq-order_example =
    compare_versions-eq-order scan v1_2_3 v1_9_0 (semver 1 2 3) (semver 1 9 0) parsed_1_2_3
      parsed_1_9_0

-- A digest for the examples, and the hashing of the bytes that a context has.
abbrev pub sum : List ℕ → ℕ
sum [] = 0
sum (b ∷ bs) = b + sum bs

abbrev pub digest_of : List ℕ → List ℕ
digest_of m = sum m % 256 ∷ replicate 31 0xab

abbrev pub sha : Sha (List ℕ)
sha = record { starts = some []; update = λ c bs. some (c ++ bs); finish = λ c. some (digest_of c) }

abbrev Holds : List ℕ → List ℕ → Type 0
Holds c m = c ≡ m

abbrev pub label : List ℕ
label = b'o' ∷ b't' ∷ b'a' ∷ []

-- A slot of 64 KiB whose first bytes are given.
abbrev pub slot : Partition
slot = record { address = 0x10000; size = 0x10000; subtype = subtype_ota_0; label = label }

abbrev pub content : Partition → List ℕ
content p = 0xe9 ∷ 2 ∷ 3 ∷ replicate 29 7

abbrev pub sdk : Sdk
sdk = record {
  read = λ p offset count. (ok, take count (drop offset (content p)));
  description = λ p. (ok, v1_2_3);
  image_verify = λ p. (ok, 3);
  find_first = λ subtype name. some slot;
}

sha-IsSha : IsSha sha Holds digest_of
sha-IsSha = record {
  starts_empty = λ c h. cc;
  update_append = λ c c' m bs held h. cc;
  finish_digest = λ c m digest held h. cc;
  sha256-IsBytes = λ m. omega arith;
}

sdk-IsFlash : IsFlash sdk content
sdk-IsFlash p offset count h = refl

hash_file-IsDigest_example :
    IsDigest sha sdk Holds digest_of content sha-IsSha sdk-IsFlash slot 32
      (ota_cache_hash_file sha sdk (some slot) 32 true)
hash_file-IsDigest_example =
    hash_file-IsDigest sha sdk Holds digest_of content sha-IsSha sdk-IsFlash slot 32 (omega arith)
      (omega arith)

abbrev pub ab_times : ℕ → List ℕ
ab_times zero = []
ab_times (suc n) = b'a' ∷ b'b' ∷ ab_times n

-- The record of the image, with its digest in hexadecimal.
abbrev pub image_record : CacheRecord
image_record = record {
  magic = cache_magic;
  format_version = 1;
  record_bytes = sizeof_record;
  origin = origin_bootstrap;
  partition_address = 0x10000;
  partition_size = 0x10000;
  partition_subtype = subtype_ota_0;
  image_size_bytes = 32;
  completed_seq = pos 0;
  partition_label = label ++ replicate 14 0;
  file_name = b'a' ∷ b'_' ∷ b'v' ∷ (v1_2_3 ++ b'.' ∷ b'b' ∷ b'i' ∷ b'n' ∷ replicate 20 0);
  version = v1_2_3 ++ replicate 27 0;
  sha256_hex = b'b' ∷ b'9' ∷ (ab_times 31 ++ 0 ∷ []);
  device_id = replicate 32 0;
  aging_number = replicate 32 0;
  crc32 = 0;
}

verified : ota_cache_verify sha sdk scan true (some image_record) ≡ (ok, some slot)
unfolding ota_cache_verify verify_image ota_cache_hash_file hash_loop hash_count finish_hash
    hex_digits ota_cache_image_size record_valid numbers_valid strings_valid origin_valid
    digits_valid name_valid version_suffix aligned c_str terminated is_one_of has_any starts_with
    has_part str_eq simple_ota_compare_versions compare_semver parse_semver
verified = refl

verify-IsRecorded_example : IsRecorded sdk digest_of content image_record slot
verify-IsRecorded_example =
    verify-IsRecorded sha sdk Holds digest_of content sha-IsSha sdk-IsFlash scan image_record slot
      verified

-- A storage that never fails: what it holds is its state.
abbrev pub length_of : Content → Err × ℕ
length_of nothing = (nvs_not_found, 0)
length_of (a_record r) = (ok, sizeof_record)
length_of (a_blob n) = (ok, n)

abbrev pub blob_of : Content → Err × CacheRecord
blob_of nothing = (nvs_not_found, image_record)
blob_of (a_record r) = (ok, r)
blob_of (a_blob n) = (other 0x110c, image_record)

abbrev pub erased : Content → Err
erased nothing = nvs_not_found
erased (a_record r) = ok
erased (a_blob n) = ok

abbrev pub nvs : Nvs Content
nvs = record {
  open_readwrite = λ s. (s, ok);
  open_readonly = λ s. (s, ok);
  set_blob = λ r s. (a_record r, ok);
  commit = λ s. (s, ok);
  blob_length = λ s. (s, length_of s);
  get_blob = λ s. (s, blob_of s);
  erase_key = λ s. (nothing, erased s);
  close = λ s. s;
}

abbrev pub view : Content → Content
view s = s

length_lem :
    (s : Content)
    → ((length_of s).0 ≡ nvs_not_found → s ≡ nothing)
      × ((length_of s).0 ≢ not_found)
      × ((r : CacheRecord) → s ≡ a_record r → (length_of s).1 ≡ sizeof_record)
length_lem nothing = (λ h. refl, λ h. cc, λ r h. cc)
length_lem (a_record r) = (λ h. cc, λ h. cc, λ r' h. refl)
length_lem (a_blob n) = (λ h. cc, λ h. cc, λ r h. cc)

blob_lem :
    (s : Content)
    → ((blob_of s).0 ≡ nvs_not_found → s ≡ nothing)
      × ((blob_of s).0 ≢ not_found)
      × ((blob_of s).0 ≡ ok → s ≡ a_record (blob_of s).1)
blob_lem nothing = (λ h. refl, λ h. cc, λ h. cc)
blob_lem (a_record r) = (λ h. cc, λ h. cc, λ h. refl)
blob_lem (a_blob n) = (λ h. cc, λ h. cc, λ h. cc)

pub nvs-IsStorage : IsStorage nvs view
nvs-IsStorage = record {
  open_readwrite_view = λ s. refl;
  open_readonly_view = λ s. refl;
  open_readonly_absent = λ s h. cc;
  open_readonly_code = λ s h. cc;
  length_view = λ s. refl;
  length_absent = λ s. (length_lem s).0;
  length_code = λ s. (length_lem s).1;
  length_record = λ s r e h. (length_lem s).2 r e;
  get_view = λ s. refl;
  get_absent = λ s. (blob_lem s).0;
  get_code = λ s. (blob_lem s).1;
  get_record = λ s. (blob_lem s).2;
  set_commit = λ r s h k. refl;
  erase_commit = λ s h k. refl;
  erase_absent = λ s h. refl;
  close_view = λ s. refl;
}

abbrev pub crc_of : CacheRecord → ℕ
crc_of r = sum r.version

abbrev stored : CacheRecord
stored = record image_record { crc32 = sum image_record.version }

stored_ok : ota_cache_store scan crc_of nvs (some image_record) nothing ≡ (a_record stored, ok)
unfolding ota_cache_store write_blob sealed record_crc record_valid numbers_valid strings_valid
    origin_valid digits_valid name_valid version_suffix aligned c_str terminated is_one_of has_any
    starts_with has_part str_eq simple_ota_compare_versions compare_semver parse_semver
stored_ok = refl

load-store_example :
    (ota_cache_load scan crc_of nvs true
      (ota_cache_store scan crc_of nvs (some image_record) nothing).0).1
    ≡ (ok, sealed crc_of image_record)
load-store_example =
    load-store nvs view nvs-IsStorage scan crc_of image_record nothing
      (ap (λ (x : Content × Err). x.1) stored_ok) (rw stored_ok (refl, refl, refl))

-- The other slot is about to be written.
abbrev other_slot : Partition
other_slot = record {
  address = 0x20000;
  size = 0x10000;
  subtype = subtype_ota_1;
  label = b'o' ∷ b't' ∷ b'b' ∷ [];
}

loaded_ok : ota_cache_load scan crc_of nvs true (a_record stored) ≡ (a_record stored, (ok, stored))
unfolding ota_cache_load load_opened read_blob is_intact record_crc record_valid numbers_valid
    strings_valid origin_valid digits_valid name_valid version_suffix aligned c_str terminated
    is_one_of has_any starts_with has_part str_eq simple_ota_compare_versions compare_semver
    parse_semver
loaded_ok = refl

released_ok :
    ota_cache_before_write scan crc_of nvs (some other_slot) (a_record stored)
    ≡ (a_record stored, ok)
unfolding ota_cache_before_write names_partition c_str str_eq
released_ok = rw loaded_ok refl

before_write-names_partition_example : names_partition stored other_slot ≡ false
before_write-names_partition_example =
    before_write-names_partition nvs view nvs-IsStorage scan crc_of other_slot (a_record stored)
      (a_record stored, ok) (a_record stored, (ok, stored)) released_ok refl loaded_ok refl
