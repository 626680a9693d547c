-- ===== src/Queue.antt =====
-- main/Tool/app_queue.c: a queue whose storage is external memory. Blocks of the heap are named by
-- numbers; a state has the blocks that are allocated and the queue's fields.
pub mod Laws
mod Examples
use esp32aging.Base.{
  ℕ, zero, suc, ◌+◌, ◌-◌, ◌*◌, ◌/◌, ◌%◌, ◌^◌, ◌≤◌, ◌<◌, bit_and, bit_or, bit_xor, ◌≡◌, refl, sym,
  ap, ap₂, ◌∙◌, subst, ◌≢◌, ◌↔◌, ◌⊎◌, inl, inr, Bool, true, false, not, ◌&&◌, ◌||◌, Option, none,
  some, List, [], ◌∷◌, ◌++◌, map, arith, ltb, leb, ◌==◌, ==_iff, if◌then◌else◌, Bool-cases,
  Option-cases, length, get_elem?, get_or, set, take, drop, replicate, u8, u16, u32, ◌<<<◌, ◌>>>◌,
  ◌>>=◌, fill, dec_lt, dec_le, ℕ_discrete, ℤ, pos, negsuc, signed16, signed32, some_inj, if_cases,
  ltb_ℤ, suc_ℤ, int_max, str_eq, str_eq_iff, is_empty,
}

pub record Queue : Type 0 where
  pub handle : Option ℕ
  pub storage : Option ℕ
  pub queue_length : ℕ
  pub item_size : ℕ

-- The heap's allocated blocks, with their sizes, and the SDK's queues with their storage.
pub record World : Type 0 where
  pub blocks : List (ℕ × ℕ)
  pub handles : List (ℕ × ℕ)
  pub queue : Queue

unfoldable pub remove : ℕ → List (ℕ × ℕ) → List (ℕ × ℕ)
remove k [] = []
remove k (b ∷ bs) = if b.0 == k then bs else b ∷ remove k bs

-- `SIZE_MAX` of the 32-bit target.
abbrev pub size_max : ℕ
size_max = 2 ^ 32 - 1

abbrev empty_queue : Queue
empty_queue = record { handle = none; storage = none; queue_length = 0; item_size = 0 }

-- `free`, also of NULL.
abbrev free : Option ℕ → List (ℕ × ℕ) → List (ℕ × ℕ)
free none bs = bs
free (some k) bs = remove k bs

-- The arguments that are refused at once.
unfoldable pub bad_arguments : Bool → ℕ → ℕ → Bool
bad_arguments internal queue_length item_size =
    not internal || queue_length == 0 || item_size == 0 || ltb (size_max / item_size) queue_length

-- After the storage was allocated: `created` is what `xQueueCreateStatic` returns.
unfoldable pub attach : World → ℕ → ℕ → ℕ → Option ℕ → World × Option ℕ
attach w queue_length item_size k none = (record w { blocks = remove k w.blocks }, none)
attach w queue_length item_size k (some h) = (
  record w {
    handles = (h, k) ∷ w.handles;
    queue = record {
      handle = some h;
      storage = some k;
      queue_length = queue_length;
      item_size = item_size;
    };
  },
  some h,
)

-- `app_psram_queue_create`: `internal` is that the pointer is not NULL and points to internal
-- memory, `malloc` what the heap returns, `created` what the SDK returns.
unfoldable pub app_psram_queue_create :
    World → Bool → ℕ → ℕ → Option ℕ → Option ℕ → World × Option ℕ
app_psram_queue_create w internal queue_length item_size malloc created =
    if bad_arguments internal queue_length item_size then (w, none) else elim w.queue.handle [
      | some h ↦
          if w.queue.queue_length == queue_length && w.queue.item_size == item_size
          then (w, some h)
          else (w, none)
      | none ↦ elim malloc [
        | none ↦ (w, none)
        | some k ↦
            attach (record w { blocks = (k, u32 (queue_length * item_size)) ∷ w.blocks })
              queue_length item_size k created
      ]
    ]

-- `app_psram_queue_delete`; `given` is that the pointer is not NULL.
unfoldable pub app_psram_queue_delete : World → Bool → World
app_psram_queue_delete w given = if not given then w else elim w.queue.handle [
  | none ↦ w
  | some h ↦ record {
    blocks = free w.queue.storage w.blocks;
    handles = remove h w.handles;
    queue = empty_queue;
  }
]

abbrev pub empty_world : World
empty_world = record { blocks = []; handles = []; queue = empty_queue }

pub data Use : Type 0 where
  creates : Bool → ℕ → ℕ → Option ℕ → Option ℕ → Use
  deletes : Bool → Use

unfoldable pub run_use : World → Use → World
run_use w (creates internal queue_length item_size malloc created) =
    (app_psram_queue_create w internal queue_length item_size malloc created).0
run_use w (deletes given) = app_psram_queue_delete w given

unfoldable pub run_uses : World → List Use → World
run_uses w [] = w
run_uses w (o ∷ os) = run_uses (run_use w o) os
