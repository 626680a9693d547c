-- ===== src/Log.antt =====
-- main/DataStorage/Log/log.c: records of 128 bytes in a file, written in a circle.
pub mod Laws
mod Examples
use esp32aging.Base.{
  ℕ, zero, suc, ◌+◌, ◌-◌, ◌*◌, ◌/◌, ◌%◌, ◌^◌, ◌≤◌, ◌<◌, bit_and, bit_or, bit_xor, ◌≡◌, refl, sym,
  ap, ap₂, ◌∙◌, subst, ◌≢◌, ◌↔◌, ◌⊎◌, inl, inr, Bool, true, false, not, ◌&&◌, ◌||◌, Option, none,
  some, List, [], ◌∷◌, ◌++◌, map, arith, ltb, leb, ◌==◌, ==_iff, if◌then◌else◌, Bool-cases,
  Option-cases, length, get_elem?, get_or, set, take, drop, replicate, u8, u16, u32, ◌<<<◌, ◌>>>◌,
  ◌>>=◌, fill, dec_lt, dec_le, ℕ_discrete, ℤ, pos, negsuc, signed16, signed32, some_inj, if_cases,
  ltb_ℤ, suc_ℤ, int_max, str_eq, str_eq_iff, is_empty, max,
}

-- The file: its size, and what the medium holds at an offset.
pub record File : Type 0 where
  pub size : ℕ
  pub at : ℕ → ℕ

-- `s_current_index`, the file and the stored "LogIndex".
pub record Log : Type 0 where
  pub current_index : ℕ
  pub file : File
  pub log_index : ℕ

pub data Status : Type 0 where
  ok invalid_arg fail : Status

abbrev pub max_records : ℕ
max_records = 3000

abbrev pub record_size : ℕ
record_size = 128

abbrev pub max_str_len : ℕ
max_str_len = 127

-- `Get_Index_From_Flash`
unfoldable pub get_index_from_flash : ℕ → Log → Log
get_index_from_flash index l = record l {
  current_index = if ltb index max_records then index else 0;
}

-- `log_get_offset`
unfoldable pub log_get_offset : ℕ → ℕ
log_get_offset index = u32 (index * record_size)

-- `fseek` and `fwrite` of bytes.
unfoldable pub write_at : ℕ → List ℕ → File → File
write_at offset bytes f = record {
  size = max f.size (offset + length bytes);
  at = λ i.
      if leb offset i && ltb i (offset + length bytes) then get_or bytes (i - offset) 0 else f.at i;
}

-- `fseek` and `fread` of `n` bytes.
unfoldable pub read_at : ℕ → ℕ → File → List ℕ
read_at offset zero f = []
read_at offset (suc n) f = if ltb offset f.size then f.at offset ∷ read_at (offset + 1) n f else []

-- The buffer of a record: `strncpy` of at most 127 bytes into zeros.
unfoldable pub record_buffer : List ℕ → List ℕ
record_buffer str =
    let text = take max_str_len str in text ++ replicate (record_size - length text) 0

-- The text before the first NUL.
unfoldable pub c_text : List ℕ → List ℕ
c_text [] = []
c_text (b ∷ bs) = if b == 0 then [] else b ∷ c_text bs

-- `storage_write_record`: `opens` is that the file is opened, `written` how many bytes the file
-- system takes, and `saves` that the index is stored.
unfoldable pub storage_write_record : Bool → ℕ → Bool → ℕ → Option (List ℕ) → Log → Log × Status
storage_write_record opens written saves index str l =
    if leb max_records index then (l, invalid_arg) else elim str [
      | none ↦ (l, invalid_arg)
      | some text ↦
          if not opens
          then (l, fail)
          else let l' = record l {
            file = write_at (log_get_offset index) (take written (record_buffer text)) l.file;
          } in
            if not (written == record_size)
            then (l', fail)
            else (record l' { log_index = if saves then index else l.log_index }, ok)
    ]

-- `storage_read_record` into a buffer of `buffer_size` bytes; `none` is NULL.
unfoldable pub storage_read_record : Bool → ℕ → Option ℕ → Log → Status × List ℕ
storage_read_record opens index buffer_size l =
    if leb max_records index then (invalid_arg, []) else elim buffer_size [
      | none ↦ (invalid_arg, [])
      | some n ↦
          if n == 0
          then (invalid_arg, [])
          else if not opens
          then (fail, [])
          else let temp = read_at (log_get_offset index) record_size l.file in
            if not (length temp == record_size)
            then (fail, [])
            else (ok, take (n - 1) (c_text temp))
    ]

-- `get_next_index`
unfoldable pub get_next_index : Log → Log × ℕ
get_next_index l =
    let next = u16 (l.current_index + 1) in
    (record l { current_index = if leb max_records next then 0 else next }, l.current_index)

abbrev or_empty : Option (List ℕ) → List ℕ
or_empty none = []
or_empty (some text) = text

-- The line of `storage_write_record_cyclic`, cut to its buffer; `stamp` is the decimal of the time.
unfoldable pub cyclic_line : List ℕ → Option (List ℕ) → List ℕ → List ℕ
cyclic_line stamp pn str = take (record_size - 1) (stamp ++ 44 ∷ (or_empty pn ++ 44 ∷ str))

-- `storage_write_record_cyclic`; `locked` is that the mutex is taken or there is none.
unfoldable pub storage_write_record_cyclic :
    Bool → Bool → ℕ → Bool → List ℕ → Option (List ℕ) → Option (List ℕ) → Log → Log × Status
storage_write_record_cyclic locked opens written saves stamp pn str l = elim str [
  | none ↦ (l, invalid_arg)
  | some text ↦
      if not locked
      then (l, fail)
      else let next = get_next_index l in
        storage_write_record opens written saves next.1 (some (cyclic_line stamp pn text)) next.0
]

-- `storage_reset_cyclic_position`
unfoldable pub storage_reset_cyclic_position : Log → Log
storage_reset_cyclic_position l = record l { current_index = 0 }
