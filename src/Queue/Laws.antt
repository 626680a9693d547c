-- ===== src/Queue/Laws.antt =====
-- The queue and its storage are made and released together.
use esp32aging.Base.{
  ℕ, ◌*◌, ◌/◌, ◌^◌, ◌<◌, ◌≡◌, refl, inl, inr, Bool, true, false, ◌&&◌, ◌||◌, Option, none, some,
  List, [], ◌∷◌, arith, ltb, ◌==◌, ==_iff, Bool-cases, u32, if_cases,
}
use esp32aging.Queue.{
  World, remove, bad_arguments, attach, app_psram_queue_create, app_psram_queue_delete, size_max,
  Use, creates, deletes, run_use, run_uses, empty_world,
}
use native.Mathlib.Nat.{le-div_iff_mul-le, mod-eq_of_lt}

-- A queue holds the one block that it was given, whose size is the product without wrap; without
-- a handle it holds nothing.
pub data IsOwned (w : World) : Type 0 where
  unmade :
      w.queue.handle ≡ none → w.queue.storage ≡ none → w.blocks ≡ [] → w.handles ≡ [] → IsOwned w
  made :
      (h k : ℕ)
      → w.queue.handle ≡ some h
      → w.queue.storage ≡ some k
      → w.blocks ≡ (k, w.queue.queue_length * w.queue.item_size) ∷ []
      → w.handles ≡ (h, k) ∷ []
      → (0 < w.queue.queue_length) × (0 < w.queue.item_size)
      → IsOwned w

product_fits :
    (a b : ℕ)
    → (a == 0 || b == 0 || ltb (size_max / b) a) ≡ false
    → (u32 (a * b) ≡ a * b) × (0 < a) × (0 < b)
product_fits a b h = (mod-eq_of_lt below, ground arith, positive)
  where
    positive : 0 < b
    positive = ground arith

    below : a * b < 2 ^ 32
    below =
        omega (arith, (le-div_iff_mul-le {k = b} {x = a} {y = size_max} positive).0 (ground arith))

bad_parts :
    (internal : Bool) (a b : ℕ)
    → bad_arguments internal a b ≡ false
    → (a == 0 || b == 0 || ltb (size_max / b) a) ≡ false
unfolding bad_arguments
bad_parts internal a b h = ground arith

attach-IsOwned :
    (w : World) (queue_length item_size k : ℕ) (created : Option ℕ)
    → w.queue.handle ≡ none
    → w.queue.storage ≡ none
    → w.blocks ≡ []
    → w.handles ≡ []
    → (u32 (queue_length * item_size) ≡ queue_length * item_size)
      × (0 < queue_length)
      × (0 < item_size)
    → IsOwned
        (attach
          (record w { blocks = (k, u32 (queue_length * item_size)) ∷ w.blocks })
          queue_length
          item_size
          k
          created).0
unfolding attach remove
attach-IsOwned w queue_length item_size k none h s b l fits =
    unmade h s (rw ((==_iff k k).1 refl) b) l
attach-IsOwned w queue_length item_size k (some c) h s b l fits =
    made c k refl refl (rw (b, fits.0) refl) (rw l refl) (fits.1, fits.2)

create-IsOwned :
    (w : World) (internal : Bool) (queue_length item_size : ℕ) (malloc created : Option ℕ)
    → bad_arguments internal queue_length item_size ≡ false
    → IsOwned w
    → IsOwned (app_psram_queue_create w internal queue_length item_size malloc created).0
unfolding app_psram_queue_create
create-IsOwned w internal queue_length item_size malloc created fine (made h k eh s b l p) =
    rw (fine, eh)
      (if_cases {A = World × Option ℕ} (λ r. IsOwned r.0)
        (w.queue.queue_length == queue_length && w.queue.item_size == item_size) (w, some h)
        (w, none) (λ _. made h k eh s b l p) (λ _. made h k eh s b l p))
create-IsOwned w internal queue_length item_size none created fine (unmade h s b l) =
    rw (fine, h) (unmade h s b l)
create-IsOwned w internal queue_length item_size (some k) created fine (unmade h s b l) =
    rw (fine, h)
      (attach-IsOwned w queue_length item_size k created h s b l
        (product_fits queue_length item_size (bad_parts internal queue_length item_size fine)))

delete-IsOwned : (w : World) (given : Bool) → IsOwned w → IsOwned (app_psram_queue_delete w given)
unfolding app_psram_queue_delete remove
delete-IsOwned w false o = o
delete-IsOwned w true (unmade h s b l) = rw h (unmade h s b l)
delete-IsOwned w true (made h k eh s b l p) = rw eh (
    unmade refl refl (rw (s, b, remove, (==_iff k k).1 refl) refl)
      (rw (l, remove, (==_iff h h).1 refl) refl))

run_use-IsOwned : (w : World) (u : Use) → IsOwned w → IsOwned (run_use w u)
unfolding run_use app_psram_queue_create
run_use-IsOwned w (deletes given) o = delete-IsOwned w given o
run_use-IsOwned w (creates internal queue_length item_size malloc created) o =
    elim (Bool-cases (bad_arguments internal queue_length item_size)) [
      | inl bad ↦ rw (bad, run_use, app_psram_queue_create) o
      | inr fine ↦ create-IsOwned w internal queue_length item_size malloc created fine o
    ]

run_uses-IsOwned : (w : World) (us : List Use) → IsOwned w → IsOwned (run_uses w us)
unfolding run_uses
run_uses-IsOwned w [] o = o
run_uses-IsOwned w (u ∷ us) o = run_uses-IsOwned (run_use w u) us (run_use-IsOwned w u o)

-- After any creations and deletions from nothing, with any results of the heap and the SDK, the
-- allocated blocks are exactly the one storage of the queue, of length times item size bytes
-- without wrap, or none if there is no queue.
pub run_uses-empty_IsOwned : (us : List Use) → IsOwned (run_uses empty_world us)
run_uses-empty_IsOwned us = run_uses-IsOwned empty_world us (unmade refl refl refl refl)
