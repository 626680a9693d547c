-- ===== src/Transfer.antt =====
-- main/APP/OTA/mesh_ota.c: the transfer of an image between two nodes of the mesh. Here are the
-- state of the receiving node and the tests that both sides share.
pub mod Supply
pub mod Receive
pub mod Delivery
pub mod Mailbox
pub mod Finalize
mod Examples
use esp32aging.Base.{
  ℕ, ◌+◌, ◌-◌, ◌*◌, ◌^◌, bit_and, Bool, true, false, not, ◌&&◌, ◌||◌, Option, none, some, List, [],
  ltb, leb, ◌==◌, if◌then◌else◌, length, u32, ℤ, pos, negsuc, is_empty,
}
use esp32aging.Ota.Cache.{Partition}

-- `OtaParentState`; the generation is an uint32_t.
pub record ParentState : Type 0 where
  pub online : Bool
  pub generation : ℕ
  pub online_since : ℕ

-- What a test of the link reads: the parent, and that a restart is planned.
pub record Link : Type 0 where
  pub parent : ParentState
  pub planned : Bool

-- `mesh_ready_file_t`, less its version and digest.
pub record ReadyFile : Type 0 where
  pub valid : Bool
  pub file_name : List ℕ
  pub size_bytes : ℕ
  pub partition : Option Partition

-- What the code reads of the SDK's parameter of a block: the name that is asked for, the length of
-- the file, an int, and the place and the length of the block.
pub record Param : Type 0 where
  pub fw_version : Option (List ℕ)
  pub filesize : ℤ
  pub offset : ℕ
  pub data_size : ℕ

-- `esp_mesh_lite_ota_finish_reason_t`
pub data Reason : Type 0 where
  success failure pending_timeout : Reason

-- The receiving session under `s_ota_mutex`.
pub record Receiver : Type 0 where
  pub parent_generation : ℕ
  pub sdk_inflight : Bool
  pub first_data : Bool
  pub handle : ℕ
  pub update_partition : Option Partition
  pub session_open : Bool
  pub accepting : Bool
  pub done : Bool
  pub validated : Bool
  pub failed : Bool
  pub finish_received : Bool
  pub finish_reason : Reason
  pub finish_tick : ℕ
  pub file : List ℕ
  pub version : List ℕ
  pub firmware_size_bytes : ℕ

-- `mesh_ota_parent_link_changed` at a node that is not the root, at the tick count `now`.
unfoldable pub mesh_ota_parent_link_changed : Bool → ℕ → ParentState → ParentState
mesh_ota_parent_link_changed has_ip now s =
    if not has_ip
    then record s { online = false; generation = u32 (s.generation + 1) }
    else if not s.online
    then record s { online = true; online_since = now }
    else s

-- `receiver_link_current`
unfoldable pub receiver_link_current : Link → Receiver → Bool
receiver_link_current l r =
    l.parent.online && l.parent.generation == r.parent_generation && not l.planned

abbrev pub binary_filename_capacity : ℕ
binary_filename_capacity = 32

-- `binary_name_valid`; `none` is NULL.
unfoldable pub binary_name_valid : Option (List ℕ) → Bool
binary_name_valid none = false
binary_name_valid (some name) = not (is_empty name) && ltb (length name) binary_filename_capacity

abbrev pub file_alignment_bytes : ℕ
file_alignment_bytes = 64 * 1024

-- `aligned_file_size`; `size_t` has 32 bits.
unfoldable pub aligned_file_size : ℕ → ℕ
aligned_file_size size_bytes =
    if size_bytes == 0 || ltb (2 ^ 32 - 1 - (file_alignment_bytes - 1)) size_bytes
    then 0
    else bit_and (size_bytes + file_alignment_bytes - 1) 0xffff0000

-- `param->filesize > 0 && (size_t)param->filesize == padded_bytes`
abbrev is_length : ℤ → ℕ → Bool
is_length (pos n) padded_bytes = ltb 0 n && n == padded_bytes
is_length (negsuc n) padded_bytes = false

-- `transfer_range_valid`
unfoldable pub transfer_range_valid : Param → ℕ → Option Partition → Bool
transfer_range_valid param size_bytes none = false
transfer_range_valid param size_bytes (some p) =
    let padded_bytes = aligned_file_size size_bytes in
    not (padded_bytes == 0)
    && leb padded_bytes p.size
    && is_length param.filesize padded_bytes
    && leb param.offset padded_bytes
    && leb param.data_size (padded_bytes - param.offset)

-- The name that a test has shown not to be NULL.
abbrev pub name_of : Option (List ℕ) → List ℕ
name_of none = []
name_of (some name) = name
