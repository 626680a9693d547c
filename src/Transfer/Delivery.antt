-- ===== src/Transfer/Delivery.antt =====
-- main/APP/OTA/mesh_ota.c: both sides of a transfer together. The blocks come in the order in which
-- the SDK asks for them, which is any; a block may come again, or not at all.
use esp32aging.Base.{
  ℕ, ◌+◌, ◌-◌, ◌≤◌, ◌≡◌, refl, sym, ap, ap₂, ◌∙◌, subst, ◌≢◌, ◌⊎◌, inl, inr, Bool, true, false,
  ◌&&◌, ◌||◌, Option, none, some, List, [], ◌∷◌, arith, ltb, leb, if◌then◌else◌, length, get_or,
  take, drop, ℕ_discrete, if_cases,
}
use esp32aging.Ota.{Err, ok, fail, is_ok}
use esp32aging.Ota.Cache.{Partition}
use esp32aging.Transfer.{ReadyFile, Link, Param, Receiver}
use esp32aging.Transfer.Supply.{provide_file_cb}
use esp32aging.Transfer.Supply.Laws.{padded_byte, IsBlock, provide-IsBlock}
use esp32aging.Transfer.Receive.{OtaSdk, get_file_cb}
use esp32aging.Transfer.Receive.Laws.{Received, fails, stays, writes, get_file_cb-Received}

-- A block that the SDK asks the supplying node for and hands to the receiving one: that the mutexes
-- are taken there, and what the tests of the link read.
pub record Delivery : Type 0 where
  pub param : Param
  pub locked_there : Bool
  pub locked_here : Bool
  pub now : Link
  pub later : Link

module _ {F : Type 0} (read : Partition → ℕ → ℕ → Err × List ℕ) (ready : ReadyFile)
    (sdk : OtaSdk F) where
  -- A block that is not supplied does not arrive.
  unfoldable pub deliver : Delivery → Receiver × F → (Receiver × F) × Err
  deliver d x = elim (provide_file_cb read d.locked_there ready true (some d.param)).1 [
    | none ↦ (x, fail)
    | some block ↦ get_file_cb sdk d.locked_here d.now d.later (some d.param) (some block) x.0 x.1
  ]

  -- The blocks in turn, with those that the receiving node has acknowledged by ESP_OK.
  unfoldable pub deliver_all :
      List Delivery → List Delivery → Receiver × F → (Receiver × F) × List Delivery
  deliver_all [] taken x = (x, taken)
  deliver_all (d ∷ ds) taken x =
      let one = deliver d x in deliver_all ds (if is_ok one.1 then d ∷ taken else taken) one.0

abbrev pub in_block : Param → ℕ → Bool
in_block param i = leb param.offset i && ltb i (param.offset + param.data_size)

-- One of the blocks has this byte of the file.
unfoldable pub covers : List Delivery → ℕ → Bool
covers [] i = false
covers (d ∷ ds) i = in_block d.param i || covers ds i

covers-taken :
    (b : Bool) (d : Delivery) (taken : List Delivery) (i : ℕ)
    → covers (if b then d ∷ taken else taken) i ≡ true
    → covers (d ∷ taken) i ≡ true
unfolding covers
covers-taken true d taken i h = h
covers-taken false d taken i h = ground arith

-- The documented behaviour of writing to the slot that is being updated, by its bytes, and of the
-- handle of an image that is begun.
pub record IsSlot {F : Type 0} (sdk : OtaSdk F) (byte : F → ℕ → ℕ) : Type 0 where
  pub written :
      (handle : ℕ) (block : List ℕ) (offset : ℕ) (f : F) (i : ℕ)
      → (sdk.write_with_offset handle block offset f).1 ≡ ok
      → byte (sdk.write_with_offset handle block offset f).0 i ≡ (
          if leb offset i && ltb i (offset + length block)
          then get_or block (i - offset) 0xFF
          else byte f i)
  pub begun : (p : Partition) (f : F) → (sdk.begin p f).1.0 ≡ ok → (sdk.begin p f).1.1 ≢ 0

module _ {F : Type 0} (read : Partition → ℕ → ℕ → Err × List ℕ) (ready : ReadyFile) (sdk : OtaSdk F)
    (byte : F → ℕ → ℕ) (slot : IsSlot sdk byte) (p : Partition) (image : List ℕ)
    (flash : (offset count : ℕ)
      → (read p offset count).0 ≡ ok
      → (read p offset count).1 ≡ take count (drop offset image))
    (sends : ready.partition ≡ some p) (fits : ready.size_bytes ≤ length image) where
  -- The session has failed, or what was taken is in the flash; before the image is begun nothing
  -- was taken but empty blocks.
  IsWritten : List Delivery → Receiver × F → Type 0
  IsWritten taken x =
      (x.0.failed ≡ true)
      ⊎ ((i : ℕ) → covers taken i ≡ true → byte x.1 i ≡ padded_byte image ready.size_bytes i)
        × (x.0.handle ≡ 0 → (i : ℕ) → covers taken i ≡ false)

  taken_after : Delivery → List Delivery → (Receiver × F) × Err → List Delivery
  taken_after d taken y = if is_ok y.1 then d ∷ taken else taken

  -- A block that is written.
  block-IsWritten :
      (d : Delivery) (taken : List Delivery) (r : Receiver) (f f0 f' : F) (block : List ℕ)
      (handle : ℕ)
      → IsBlock image ready.size_bytes d.param.offset d.param.data_size block
      → IsWritten taken (r, f)
      → r.failed ≡ false
      → (r.handle ≢ 0 → f0 ≡ f)
      → (sdk.write_with_offset handle block d.param.offset f0).1 ≡ ok
      → f' ≡ (sdk.write_with_offset handle block d.param.offset f0).0
      → (i : ℕ) → covers (d ∷ taken) i ≡ true
      → byte f' i ≡ padded_byte image ready.size_bytes i
  unfolding covers IsWritten
  block-IsWritten d taken r f f0 f' block handle good before running same e e' i c =
      ap (λ (g : F). byte g i) e'
      ∙ slot.written handle block d.param.offset f0 i e
      ∙ if_cases (λ x. x ≡ padded_byte image ready.size_bytes i)
          (leb d.param.offset i && ltb i (d.param.offset + length block))
          (get_or block (i - d.param.offset) 0xFF) (byte f0 i)
          (λ k.
            good.1 (i - d.param.offset) (ground (arith, good.0))
            ∙ ap (padded_byte image ready.size_bytes) {x = d.param.offset + (i - d.param.offset)}
                {y = i} (ground arith))
          (λ k. old before (ground (arith, good.0)))
    where
      old :
          IsWritten taken (r, f)
          → covers taken i ≡ true
          → byte f0 i ≡ padded_byte image ready.size_bytes i
      old (inl failed) c = cc (failed, running)
      old (inr (has, none_yet)) c = elim (ℕ_discrete r.handle 0) [
        | yes z ↦ cc (none_yet z i, c)
        | no n ↦ ap (λ (g : F). byte g i) (same n) ∙ has i c
      ]

  -- What was taken stays taken when nothing changes, and an empty block adds nothing.
  stays-IsWritten :
      (d : Delivery) (taken : List Delivery) (x : Receiver × F) (b : Bool)
      → (b ≡ true → d.param.data_size ≡ 0)
      → IsWritten taken x
      → IsWritten (if b then d ∷ taken else taken) x
  unfolding covers IsWritten
  stays-IsWritten d taken x false empty h = h
  stays-IsWritten d taken x true empty (inl failed) = inl failed
  stays-IsWritten d taken x true empty (inr (has, none_yet)) =
      inr
        (λ i c. has i (ground (arith, empty refl)), λ z i. ground (arith, empty refl, none_yet z i))

  received-IsWritten :
      (d : Delivery) (taken : List Delivery) (r : Receiver) (f : F) (block : List ℕ)
      (y : (Receiver × F) × Err)
      → IsBlock image ready.size_bytes d.param.offset d.param.data_size block
      → IsWritten taken (r, f)
      → Received sdk d.param block r f y
      → IsWritten (taken_after d taken y) y.0
  unfolding IsWritten taken_after
  received-IsWritten d taken r f block y good before (fails e k) = inl e
  received-IsWritten d taken r f block y good before (stays e k empty) =
      stays-IsWritten d taken y.0 (is_ok y.1) empty
        (subst (IsWritten taken) (ap₂ (λ (a : Receiver) (b : F). (a, b)) (sym e) (sym k)) before)
  received-IsWritten d taken r f block y good before (writes f0 running same h e e') = inr (
    λ i c.
        block-IsWritten d taken r f f0 y.0.1 block y.0.0.handle good before running same e e' i
          (covers-taken (is_ok y.1) d taken i c),
    λ z. absurd (h z),
  )

  deliver-IsWritten :
      (d : Delivery) (taken : List Delivery) (x : Receiver × F)
      → IsWritten taken x
      → IsWritten (taken_after d taken (deliver read ready sdk d x)) (deliver read ready sdk d x).0
  unfolding deliver taken_after
  deliver-IsWritten d taken x before =
      step (provide_file_cb read d.locked_there ready true (some d.param)).1 (λ block.
        provide-IsBlock read p image flash d.locked_there true ready d.param block sends fits)
    where
      given : Option (List ℕ) → (Receiver × F) × Err
      given o = elim o [
        | none ↦ (x, fail)
        | some block ↦
            get_file_cb sdk d.locked_here d.now d.later (some d.param) (some block) x.0 x.1
      ]

      step :
          (o : Option (List ℕ))
          → ((block : List ℕ)
              → o ≡ some block
              → IsBlock image ready.size_bytes d.param.offset d.param.data_size block)
          → IsWritten (taken_after d taken (given o)) (given o).0
      step none good = before
      step (some block) good =
          received-IsWritten d taken x.0 x.1 block (given (some block)) (good block refl) before
            (get_file_cb-Received sdk slot.begun d.later d.param block x.0 x.1 d.locked_here d.now)

  deliver_all-IsWritten :
      (ds taken : List Delivery) (x : Receiver × F)
      → IsWritten taken x
      → let after = deliver_all read ready sdk ds taken x in IsWritten after.1 after.0
  unfolding deliver_all taken_after
  deliver_all-IsWritten [] taken x before = before
  deliver_all-IsWritten (d ∷ ds) taken x before =
      deliver_all-IsWritten ds (taken_after d taken (deliver read ready sdk d x))
        (deliver read ready sdk d x).0 (deliver-IsWritten d taken x before)

  -- The reading at the supplying node and the writing at the receiving one behave as documented; the
  -- supplying node has an image in a partition and offers a length of it; the receiving session has
  -- not begun to write. Blocks of the file come in any order, more than once, or not at all, and some
  -- are refused. If the session has not failed at the end, each byte of the file that an acknowledged
  -- block has is in the receiving slot: the byte of the image, or 0xFF behind it.
  pub deliver_all-padded_byte :
      (ds : List Delivery) (r : Receiver) (f : F) (i : ℕ) (after : (Receiver × F) × List Delivery)
      → r.handle ≡ 0
      → deliver_all read ready sdk ds [] (r, f) ≡ after
      → after.0.0.failed ≡ false
      → covers after.1 i ≡ true
      → byte after.0.1 i ≡ padded_byte image ready.size_bytes i
  unfolding IsWritten covers
  deliver_all-padded_byte ds r f i after fresh same running c = step (
      subst (λ (x : (Receiver × F) × List Delivery). IsWritten x.1 x.0) same
        (deliver_all-IsWritten ds [] (r, f) (inr (λ i h. cc, λ z i. refl))))
    where
      step : IsWritten after.1 after.0 → byte after.0.1 i ≡ padded_byte image ready.size_bytes i
      step (inl failed) = cc
      step (inr (has, none_yet)) = has i c
