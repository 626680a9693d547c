-- ===== src/Transfer/Supply/Laws.antt =====
-- A block that is supplied holds the bytes of the image, and 0xFF behind it.
use esp32aging.Base.{
  ℕ, ◌+◌, ◌-◌, ◌≤◌, ◌<◌, ◌≡◌, refl, sym, ap, ◌∙◌, subst, ◌⊎◌, Bool, true, false, not, ◌||◌, Option,
  none, some, List, [], ◌++◌, arith, ltb, ◌==◌, if◌then◌else◌, length, get_or, take, drop,
  replicate, dec_lt, some_inj, if_cases, str_eq, get_or-append_left, get_or-append, get_or-take,
  get_or-drop, get_or-replicate, length-append, length-replicate, length-take_le, length-drop,
}
use esp32aging.Ota.{Err, ok, fail, invalid_arg, invalid_size, not_found, is_ok, c_str, is_ok→ok}
use esp32aging.Ota.Cache.{Partition}
use esp32aging.Transfer.{ReadyFile, Param, name_of, binary_name_valid, transfer_range_valid}
use esp32aging.Transfer.Supply.{supplied_bytes, read_padded, provide_file_cb}

-- The byte at a place of the file that is sent for an image of this size.
abbrev pub padded_byte : List ℕ → ℕ → ℕ → ℕ
padded_byte image size_bytes i = if ltb i size_bytes then get_or image i 0xFF else 0xFF

abbrev pub IsBlock : List ℕ → ℕ → ℕ → ℕ → List ℕ → Type 0
IsBlock image size_bytes offset data_size block =
    (length block ≡ data_size)
    × ((i : ℕ) → i < data_size → get_or block i 0xFF ≡ padded_byte image size_bytes (offset + i))

-- Bytes of the image with padding are such a block.
padding-IsBlock :
    (image : List ℕ) (size_bytes offset data_size n : ℕ)
    → size_bytes ≤ length image
    → n ≤ data_size
    → (n ≡ 0) ⊎ (offset + n ≤ size_bytes)
    → (n ≡ data_size) ⊎ (size_bytes ≤ offset + n)
    → IsBlock image size_bytes offset data_size
        (take n (drop offset image) ++ replicate (data_size - n) 0xFF)
padding-IsBlock image size_bytes offset data_size n fits h inside ends = (
  omega (
    arith,
    length-append kept padding,
    kept_length,
    length-replicate {A = ℕ} (data_size - n) 0xFF,
  ),
  λ i j. elim (dec_lt i n) [ yes k ↦ of_image i k | no k ↦ of_padding i j (omega arith) ],
)
  where
    kept : List ℕ
    kept = take n (drop offset image)

    padding : List ℕ
    padding = replicate (data_size - n) 0xFF

    kept_length : length kept ≡ n
    kept_length = length-take_le n (drop offset image) (ground (arith, length-drop offset image))

    of_image :
        (i : ℕ)
        → i < n
        → get_or (kept ++ padding) i 0xFF ≡ padded_byte image size_bytes (offset + i)
    of_image i k =
        get_or-append_left kept padding i 0xFF (omega (arith, kept_length))
        ∙ get_or-take n (drop offset image) i 0xFF k
        ∙ get_or-drop offset image i 0xFF
        ∙ if_cases (λ x. get_or image (offset + i) 0xFF ≡ x) (ltb (offset + i) size_bytes)
            (get_or image (offset + i) 0xFF) 0xFF (λ e. refl) (λ e. absurd (ground arith))

    of_padding :
        (i : ℕ)
        → i < data_size
        → n ≤ i
        → get_or (kept ++ padding) i 0xFF ≡ padded_byte image size_bytes (offset + i)
    of_padding i j k =
        ap (λ (t : ℕ). get_or (kept ++ padding) t 0xFF) {x = i} {y = length kept + (i - n)}
          (omega (arith, kept_length))
        ∙ get_or-append kept padding (i - n) 0xFF
        ∙ get_or-replicate {A = ℕ} (data_size - n) 0xFF (i - n)
        ∙ if_cases (λ x. 0xFF ≡ x) (ltb (offset + i) size_bytes) (get_or image (offset + i) 0xFF)
            0xFF (λ e. absurd (ground arith)) (λ e. refl)

supplied_bytes-range :
    (size_bytes offset data_size : ℕ)
    → let n = supplied_bytes size_bytes offset data_size in
      (n ≤ data_size)
      × ((n ≡ 0) ⊎ (offset + n ≤ size_bytes))
      × ((n ≡ data_size) ⊎ (size_bytes ≤ offset + n))
unfolding supplied_bytes
supplied_bytes-range size_bytes offset data_size = (ground arith, ground arith, ground arith)

module _ (read : Partition → ℕ → ℕ → Err × List ℕ) (p : Partition) (image : List ℕ)
    (flash : (offset count : ℕ)
      → (read p offset count).0 ≡ ok
      → (read p offset count).1 ≡ take count (drop offset image)) where
  Supplied : ℕ → ℕ → ℕ → Err × Option (List ℕ) → Type 0
  Supplied size_bytes offset data_size x =
      (block : List ℕ) → x.1 ≡ some block → IsBlock image size_bytes offset data_size block

  read_padded-Supplied :
      (size_bytes offset data_size : ℕ)
      → size_bytes ≤ length image
      → Supplied size_bytes offset data_size (read_padded read p size_bytes offset data_size)
  unfolding read_padded Supplied
  read_padded-Supplied size_bytes offset data_size fits =
      if_cases (Supplied size_bytes offset data_size) (is_ok got.0) (ok, some (got.1 ++ padding))
        (got.0, none)
        (λ e block h. subst (IsBlock image size_bytes offset data_size) (some_inj h) (
          subst (λ kept. IsBlock image size_bytes offset data_size (kept ++ padding))
            (sym (got_bytes (is_ok→ok got.0 e)))
            (padding-IsBlock image size_bytes offset data_size n fits range.0 range.1 range.2)))
        (λ e block h. cc)
    where
      n : ℕ
      n = supplied_bytes size_bytes offset data_size

      range :
          (n ≤ data_size)
          × ((n ≡ 0) ⊎ (offset + n ≤ size_bytes))
          × ((n ≡ data_size) ⊎ (size_bytes ≤ offset + n))
      range = supplied_bytes-range size_bytes offset data_size

      padding : List ℕ
      padding = replicate (data_size - n) 0xFF

      got : Err × List ℕ
      got = if not (n == 0) then read p offset n else (ok, [])

      got_bytes : got.0 ≡ ok → got.1 ≡ take n (drop offset image)
      got_bytes =
          if_cases (λ (x : Err × List ℕ). x.0 ≡ ok → x.1 ≡ take n (drop offset image))
            (not (n == 0)) (read p offset n) (ok, []) (λ e. flash offset n)
            (λ e h. ap (λ (k : ℕ). take k (drop offset image)) {x = 0} {y = n} (ground arith))

  -- Whatever block is asked for, one that is given is a block of the padded image.
  pub provide-IsBlock :
      (locks data_given : Bool) (ready : ReadyFile) (param : Param) (block : List ℕ)
      → ready.partition ≡ some p
      → ready.size_bytes ≤ length image
      → (provide_file_cb read locks ready data_given (some param)).1 ≡ some block
      → IsBlock image ready.size_bytes param.offset param.data_size block
  unfolding provide_file_cb Supplied
  provide-IsBlock locks data_given ready param block e fits =
      split (not data_given || not (binary_name_valid param.fw_version)) (not locks)
        (not ready.valid || not (str_eq (name_of param.fw_version) (c_str ready.file_name)))
        (not (transfer_range_valid param ready.size_bytes ready.partition)) ready.partition e block
    where
      given : Partition → Err × Option (List ℕ)
      given p = read_padded read p ready.size_bytes param.offset param.data_size

      split :
          (b1 b2 b3 b4 : Bool) (o : Option Partition)
          → o ≡ some p
          → Supplied ready.size_bytes param.offset param.data_size (
              if b1
              then (invalid_arg, none)
              else if b2
              then (fail, none)
              else if b3
              then (not_found, none)
              else if b4
              then (invalid_size, none)
              else elim o [ none ↦ (invalid_size, none) | some p ↦ given p ])
      split true b2 b3 b4 o same block h = cc
      split false true b3 b4 o same block h = cc
      split false false true b4 o same block h = cc
      split false false false true o same block h = cc
      split false false false false none same block h = cc
      split false false false false (some q) same block h =
          subst (λ q. Supplied ready.size_bytes param.offset param.data_size (given q))
            (sym (some_inj same))
            (read_padded-Supplied ready.size_bytes param.offset param.data_size fits) block h
