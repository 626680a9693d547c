-- ===== src/Gap/Ids.antt =====
-- main/Task/aging_gap.c, `gap_parse_ids`: the numbers that the server asks for again. The parsed
-- JSON comes from cJSON, so a number is an `integer` if it is exactly one int32_t and otherwise a
-- `fraction`; `qsort` is an insertion sort by `gap_id_compare`, and sorting integers has one result.
pub mod Laws
use esp32aging.Base.{
  ℕ, zero, suc, ◌+◌, ◌-◌, ◌*◌, ◌/◌, ◌%◌, ◌^◌, ◌≤◌, ◌<◌, bit_and, bit_or, bit_xor, ◌≡◌, refl, sym,
  ap, ap₂, ◌∙◌, subst, ◌≢◌, ◌↔◌, ◌⊎◌, inl, inr, Bool, true, false, not, ◌&&◌, ◌||◌, Option, none,
  some, List, [], ◌∷◌, ◌++◌, map, arith, ltb, leb, ◌==◌, ==_iff, if◌then◌else◌, Bool-cases,
  Option-cases, length, get_elem?, get_or, set, take, drop, replicate, u8, u16, u32, ◌<<<◌, ◌>>>◌,
  ◌>>=◌, fill, dec_lt, dec_le, ℕ_discrete, ℤ, pos, negsuc, signed16, signed32, some_inj, if_cases,
  ltb_ℤ, suc_ℤ, int_max, str_eq, str_eq_iff, is_empty,
}

pub data JsonItem : Type 0 where
  other fraction : JsonItem
  integer : ℤ → JsonItem

-- `gap_id_compare`: (x > y) - (x < y)
unfoldable pub gap_id_compare : ℤ → ℤ → ℤ
gap_id_compare x y = if ltb_ℤ y x then pos 1 else if ltb_ℤ x y then negsuc 0 else pos 0

-- The loop over the array, which gives up at the first entry that is no number in range.
unfoldable pub collect_ids : ℤ → List JsonItem → Option (List ℤ)
collect_ids last_id [] = some []
collect_ids last_id (other ∷ items) = none
collect_ids last_id (fraction ∷ items) = none
collect_ids last_id (integer n ∷ items) =
    let rest = collect_ids last_id items in
    if ltb_ℤ n (pos 0) || ltb_ℤ last_id n then none else (rest >>= λ ns. some (n ∷ ns))

unfoldable pub insert_id : ℤ → List ℤ → List ℤ
insert_id x [] = x ∷ []
insert_id x (y ∷ ys) = if ltb_ℤ (pos 0) (gap_id_compare x y) then y ∷ insert_id x ys else x ∷ y ∷ ys

unfoldable pub sort_ids : List ℤ → List ℤ
sort_ids [] = []
sort_ids (x ∷ xs) = insert_id x (sort_ids xs)

-- The loop that keeps a value if it differs from the one before it.
unfoldable pub unique_after : ℤ → List ℤ → List ℤ
unique_after before [] = []
unique_after before (x ∷ xs) =
    if ltb_ℤ x before || ltb_ℤ before x then x ∷ unique_after x xs else unique_after x xs

unfoldable pub unique_ids : List ℤ → List ℤ
unique_ids [] = []
unique_ids (x ∷ xs) = x ∷ unique_after x xs

-- `gap_parse_ids`: `ids` is the array `Data.Ids`, if the text is JSON and has one; `granted` is that
-- the heap gives the block for the values.
unfoldable pub gap_parse_ids : Option (List JsonItem) → Bool → ℤ → Option (List ℤ)
gap_parse_ids none granted last_id = none
gap_parse_ids (some items) granted last_id =
    if ltb 0 (length items) && not granted
    then none
    else (collect_ids last_id items >>= λ values. some (unique_ids (sort_ids values)))
