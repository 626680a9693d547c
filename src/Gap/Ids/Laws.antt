-- ===== src/Gap/Ids/Laws.antt =====
-- The list of numbers that is read: ascending without repetition, in range, and nothing lost.
use esp32aging.Base.{
  ◌≡◌, refl, sym, ◌∙◌, subst, inl, inr, Bool, true, false, not, ◌||◌, some, List, [], ◌∷◌, arith,
  Option-cases, ℤ, pos, negsuc, some_inj, if_cases, ltb_ℤ,
}
use esp32aging.Gap.Ids.{
  JsonItem, other, fraction, integer, gap_id_compare, collect_ids, insert_id, sort_ids,
  unique_after, unique_ids, gap_parse_ids,
}

abbrev pub same_ℤ : ℤ → ℤ → Bool
same_ℤ a b = not (ltb_ℤ a b || ltb_ℤ b a)

abbrev pub mem_id : ℤ → List ℤ → Bool
mem_id z [] = false
mem_id z (x ∷ xs) = same_ℤ z x || mem_id z xs

abbrev pub mem_item : ℤ → List JsonItem → Bool
mem_item z [] = false
mem_item z (other ∷ items) = mem_item z items
mem_item z (fraction ∷ items) = mem_item z items
mem_item z (integer n ∷ items) = same_ℤ z n || mem_item z items

-- Every entry is at least the bound, and they ascend; or ascend without repetition above it.
abbrev AllAbove : ℤ → List ℤ → Type 0
AllAbove b [] = Unit {0}
AllAbove b (x ∷ xs) = (ltb_ℤ x b ≡ false) × AllAbove b xs

abbrev Ascends : ℤ → List ℤ → Type 0
Ascends b [] = Unit {0}
Ascends b (x ∷ xs) = (ltb_ℤ x b ≡ false) × Ascends x xs

abbrev pub AscendsAbove : ℤ → List ℤ → Type 0
AscendsAbove b [] = Unit {0}
AscendsAbove b (x ∷ xs) = (ltb_ℤ b x ≡ true) × AscendsAbove x xs

mem_id-insert_id : (z x : ℤ) (ys : List ℤ) → mem_id z (insert_id x ys) ≡ (same_ℤ z x || mem_id z ys)
unfolding insert_id
mem_id-insert_id z x [] = refl
mem_id-insert_id z x (y ∷ ys) = ground (arith, mem_id-insert_id z x ys)

mem_id-sort_ids : (z : ℤ) (xs : List ℤ) → mem_id z (sort_ids xs) ≡ mem_id z xs
unfolding sort_ids
mem_id-sort_ids z [] = refl
mem_id-sort_ids z (x ∷ xs) =
    ground (arith, mem_id-insert_id z x (sort_ids xs), mem_id-sort_ids z xs)

-- A dropped value is the one before it.
mem_id-unique_after :
    (z b : ℤ) (xs : List ℤ)
    → (same_ℤ z b || mem_id z (unique_after b xs)) ≡ (same_ℤ z b || mem_id z xs)
unfolding unique_after
mem_id-unique_after z b [] = refl
mem_id-unique_after z b (x ∷ xs) = ground (arith, mem_id-unique_after z x xs)

mem_id-unique_ids : (z : ℤ) (xs : List ℤ) → mem_id z (unique_ids xs) ≡ mem_id z xs
unfolding unique_ids
mem_id-unique_ids z [] = refl
mem_id-unique_ids z (x ∷ xs) = mem_id-unique_after z x xs

insert_id-Ascends :
    (b x : ℤ) (ys : List ℤ) → ltb_ℤ x b ≡ false → Ascends b ys → Ascends b (insert_id x ys)
unfolding insert_id gap_id_compare
insert_id-Ascends b x [] h a = (h, tt)
insert_id-Ascends b x (y ∷ ys) h a = ground (arith, insert_id-Ascends y x ys)

sort_ids-Ascends : (b : ℤ) (xs : List ℤ) → AllAbove b xs → Ascends b (sort_ids xs)
unfolding sort_ids
sort_ids-Ascends b [] h = tt
sort_ids-Ascends b (x ∷ xs) h = insert_id-Ascends b x (sort_ids xs) h.0 (sort_ids-Ascends b xs h.1)

unique_after-Ascends : (b : ℤ) (xs : List ℤ) → Ascends b xs → AscendsAbove b (unique_after b xs)
unfolding unique_after
unique_after-Ascends b [] h = tt
unique_after-Ascends b (x ∷ xs) h =
    if_cases (AscendsAbove b) (ltb_ℤ x b || ltb_ℤ b x) (x ∷ unique_after x xs) (unique_after x xs)
      (λ differs. (ground arith, unique_after-Ascends x xs h.1))
      (λ same.
        subst (λ c. AscendsAbove c (unique_after x xs)) (joined same)
          (unique_after-Ascends x xs h.1))
  where
    joined : (ltb_ℤ x b || ltb_ℤ b x) ≡ false → x ≡ b
    joined e = ground arith

unique_ids-Ascends : (xs : List ℤ) → Ascends (pos 0) xs → AscendsAbove (negsuc 0) (unique_ids xs)
unfolding unique_ids
unique_ids-Ascends [] h = tt
unique_ids-Ascends (x ∷ xs) h = (ground arith, unique_after-Ascends x xs h.1)

collect_ids-cons :
    (last_id n : ℤ) (items : List JsonItem) (ns : List ℤ)
    → collect_ids last_id (integer n ∷ items) ≡ some ns
    → (ms : List ℤ) × (collect_ids last_id items ≡ some ms)
      × (n ∷ ms ≡ ns)
      × ((ltb_ℤ n (pos 0) || ltb_ℤ last_id n) ≡ false)
unfolding collect_ids
collect_ids-cons last_id n items ns h = elim (Option-cases (collect_ids last_id items)) [
  | inl e ↦ absurd (ground (arith, e))
  | inr (ms, e) ↦ (ms, e, ground (arith, e), ground (arith, e))
]

-- What the array's loop collects: every entry is taken, and lies in range.
record Collected (last_id : ℤ) (items : List JsonItem) (ns : List ℤ) : Type 0 where
  above : AllAbove (pos 0) ns
  same : (z : ℤ) → mem_id z ns ≡ mem_item z items
  below : (z : ℤ) → mem_id z ns ≡ true → ltb_ℤ last_id z ≡ false

collect_ids_lem :
    (last_id : ℤ) (items : List JsonItem) (ns : List ℤ)
    → collect_ids last_id items ≡ some ns
    → Collected last_id items ns
unfolding collect_ids
collect_ids_lem last_id [] ns h =
    subst (Collected last_id []) (some_inj h)
      (record { above = tt; same = λ z. refl; below = λ z e. cc })
collect_ids_lem last_id (other ∷ items) ns h = cc
collect_ids_lem last_id (fraction ∷ items) ns h = cc
collect_ids_lem last_id (integer n ∷ items) ns h =
    let (ms, e, en, range) = collect_ids-cons last_id n items ns h in
    subst (Collected last_id (integer n ∷ items)) en
      (extended ms (collect_ids_lem last_id items ms e) range)
  where
    extended :
        (ms : List ℤ)
        → Collected last_id items ms
        → (ltb_ℤ n (pos 0) || ltb_ℤ last_id n) ≡ false
        → Collected last_id (integer n ∷ items) (n ∷ ms)
    extended ms c range = record {
      above = (ground arith, c.above);
      same = λ z. ground (arith, c.same z);
      below = λ z e. ground (arith, c.below z);
    }

gap_parse_ids-inv :
    (items : List JsonItem) (granted : Bool) (last_id : ℤ) (ids : List ℤ)
    → gap_parse_ids (some items) granted last_id ≡ some ids
    → (ns : List ℤ) × (collect_ids last_id items ≡ some ns) × (unique_ids (sort_ids ns) ≡ ids)
unfolding gap_parse_ids
gap_parse_ids-inv items granted last_id ids h = elim (Option-cases (collect_ids last_id items)) [
  | inl e ↦ absurd (ground (arith, e))
  | inr (ns, e) ↦ (ns, e, ground (arith, e))
]

-- The numbers that are read from the server's answer ascend without repetition from 0 on, none is
-- behind the last number of the session, and they are exactly those that the array names.
pub gap_parse_ids_lem :
    (items : List JsonItem) (granted : Bool) (last_id : ℤ) (ids : List ℤ)
    → gap_parse_ids (some items) granted last_id ≡ some ids
    → AscendsAbove (negsuc 0) ids
      × ((z : ℤ) → mem_id z ids ≡ true → ltb_ℤ last_id z ≡ false)
      × ((z : ℤ) → mem_id z ids ≡ mem_item z items)
gap_parse_ids_lem items granted last_id ids h =
    let (ns, e, en) = gap_parse_ids-inv items granted last_id ids h in
    let c = collect_ids_lem last_id items ns e in
    let kept = λ (z : ℤ). mem_id-unique_ids z (sort_ids ns) ∙ mem_id-sort_ids z ns in
    subst
      (λ l.
        AscendsAbove (negsuc 0) l
        × ((z : ℤ) → mem_id z l ≡ true → ltb_ℤ last_id z ≡ false)
        × ((z : ℤ) → mem_id z l ≡ mem_item z items))
      en
      (
        unique_ids-Ascends (sort_ids ns) (sort_ids-Ascends (pos 0) ns c.above),
        λ z m. c.below z (sym (kept z) ∙ m),
        λ z. kept z ∙ c.same z,
      )
