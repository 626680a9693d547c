-- ===== src/Ota/Image/Laws.antt =====
-- The hash covers the image, byte by byte, and an image that is passed on has the recorded hash.
use esp32aging.Base.{
  ℕ, zero, suc, ◌+◌, ◌-◌, ◌≤◌, ◌<◌, ◌≡◌, refl, sym, ap, ◌∙◌, subst, ◌⊎◌, inl, inr, true, false, not,
  ◌||◌, Option, none, some, List, [], ◌∷◌, ◌++◌, arith, ltb, ◌==◌, if◌then◌else◌, take, drop,
  if_cases, IsBytes, take-add,
}
use esp32aging.Ota.{Err, ok, fail, invalid_arg, is_ok, is_ok→ok}
use esp32aging.Ota.Cache.{Partition}
use esp32aging.Ota.Image.{
  Sha, Sdk, hex_digits, Hashed, stopped, hashed, Digest, hash_loop, hash_count, finish_hash,
  ota_cache_hash_file,
}

-- The documented behaviour of the hash library: a context holds the bytes that it was given, and
-- the digest of them is an array of bytes.
pub record IsSha {C : Type 0} (sha : Sha C) (Holds : C → List ℕ → Type 0) (sha256 : List ℕ → List ℕ)
    : Type 0 where
  pub starts_empty : (c : C) → sha.starts ≡ some c → Holds c []
  pub update_append :
      (c c' : C) (m bs : List ℕ) → Holds c m → sha.update c bs ≡ some c' → Holds c' (m ++ bs)
  pub finish_digest :
      (c : C) (m digest : List ℕ) → Holds c m → sha.finish c ≡ some digest → digest ≡ sha256 m
  pub sha256-IsBytes : (m : List ℕ) → IsBytes (sha256 m)

-- The documented behaviour of reading: where it succeeds, the bytes of the partition.
abbrev pub IsFlash : Sdk → (Partition → List ℕ) → Type 0
IsFlash sdk content =
    (p : Partition) (offset count : ℕ)
    → (sdk.read p offset count).0 ≡ ok
    → (sdk.read p offset count).1 ≡ take count (drop offset (content p))

-- A call that `ota_cache_hash_file` makes for this many bytes fails.
pub data Fails {C : Type 0} (sha : Sha C) (sdk : Sdk) (p : Partition) (size_bytes : ℕ)
    : Type 0 where
  starts_fails : sha.starts ≡ none → Fails sha sdk p size_bytes
  read_fails :
      (offset count : ℕ)
      → offset + count ≤ size_bytes
      → is_ok (sdk.read p offset count).0 ≡ false
      → Fails sha sdk p size_bytes
  update_fails : (c : C) (bs : List ℕ) → sha.update c bs ≡ none → Fails sha sdk p size_bytes
  finish_fails : (c : C) → sha.finish c ≡ none → Fails sha sdk p size_bytes

-- A round reads at least one byte, and none behind the image.
hash_count-range :
    (size_bytes offset : ℕ)
    → offset < size_bytes
    → (1 ≤ hash_count size_bytes offset) × (offset + hash_count size_bytes offset ≤ size_bytes)
unfolding hash_count
hash_count-range size_bytes offset h = (ground arith, ground arith)

module _ {C : Type 0} (sha : Sha C) (sdk : Sdk) (Holds : C → List ℕ → Type 0)
    (sha256 : List ℕ → List ℕ) (content : Partition → List ℕ) (is_sha : IsSha sha Holds sha256)
    (flash : IsFlash sdk content) (p : Partition) (size_bytes : ℕ) where
  -- The loop ends with all bytes hashed, or at a call that fails.
  Looped : Hashed C → Type 0
  Looped (stopped err) = (is_ok err ≡ false) × Fails sha sdk p size_bytes
  Looped (hashed c) = Holds c (take size_bytes (content p))

  hash_loop-Looped :
      (fuel offset : ℕ) (c : C)
      → offset ≤ size_bytes
      → size_bytes - offset ≤ fuel
      → Holds c (take offset (content p))
      → Looped (hash_loop sha sdk fuel p size_bytes offset c)
  unfolding hash_loop Looped
  hash_loop-Looped zero offset c h e held =
      if_cases Looped (ltb offset size_bytes) (stopped fail) (hashed c) (λ k. absurd (ground arith))
        (λ k.
          subst (λ n. Holds c (take n (content p))) {x = offset} {y = size_bytes} (omega arith)
            held)
  hash_loop-Looped (suc fuel) offset c h e held =
      if_cases Looped (not (ltb offset size_bytes)) (hashed c) round
        (λ k.
          subst (λ n. Holds c (take n (content p))) {x = offset} {y = size_bytes} (ground arith)
            held)
        (λ k.
          if_cases Looped (not (is_ok data_read.0)) (stopped data_read.0)
            (elim (sha.update c data_read.1) [ none ↦ stopped fail | some ctx ↦ next ctx ])
            (λ r. (ground arith, read_fails offset count (range (ground arith)).1 (ground arith)))
            (λ r.
              step (sha.update c data_read.1) refl (range (ground arith))
                (is_ok→ok data_read.0 (ground arith))
                (λ ctx. hash_loop-Looped fuel (offset + count) ctx)))
    where
      count : ℕ
      count = hash_count size_bytes offset

      range : offset < size_bytes → (1 ≤ count) × (offset + count ≤ size_bytes)
      range = hash_count-range size_bytes offset

      data_read : Err × List ℕ
      data_read = sdk.read p offset count

      next : C → Hashed C
      next ctx = hash_loop sha sdk fuel p size_bytes (offset + count) ctx

      round : Hashed C
      round =
          if not (is_ok data_read.0)
          then stopped data_read.0
          else elim (sha.update c data_read.1) [ none ↦ stopped fail | some ctx ↦ next ctx ]

      step :
          (o : Option C)
          → sha.update c data_read.1 ≡ o
          → (1 ≤ count) × (offset + count ≤ size_bytes)
          → data_read.0 ≡ ok
          → ((ctx : C)
              → offset + count ≤ size_bytes
              → size_bytes - (offset + count) ≤ fuel
              → Holds ctx (take (offset + count) (content p))
              → Looped (next ctx))
          → Looped (elim o [ none ↦ stopped fail | some ctx ↦ next ctx ])
      step none same r readable again = (refl, update_fails c data_read.1 same)
      step (some ctx) same r readable again = again ctx r.1 (omega (arith, r.0, e)) (
          subst (Holds ctx)
            (ap (◌++◌ (take offset (content p))) (flash p offset count readable)
              ∙ sym (take-add offset count (content p)))
            (is_sha.update_append c ctx (take offset (content p)) data_read.1 held same))

  -- The string of the digest of the image's bytes with its NUL, or an error of a call that fails.
  abbrev pub IsDigest : Digest → Type 0
  IsDigest d =
      (d ≡ (ok, some (hex_digits (sha256 (take size_bytes (content p))) ++ 0 ∷ [])))
      ⊎ (is_ok d.0 ≡ false) × Fails sha sdk p size_bytes

  finish_hash-IsDigest : (h : Hashed C) → Looped h → IsDigest (finish_hash sha h)
  unfolding finish_hash Looped
  finish_hash-IsDigest (stopped err) e = inr e
  finish_hash-IsDigest (hashed c) held = step (sha.finish c) refl
    where
      step :
          (o : Option (List ℕ))
          → sha.finish c ≡ o
          → IsDigest (elim o [
            | none ↦ (fail, none)
            | some digest ↦ (ok, some (hex_digits digest ++ 0 ∷ []))
          ])
      step none same = inr (refl, finish_fails c same)
      step (some digest) same = inl (
          ap (λ ds. (ok, some (hex_digits ds ++ 0 ∷ [])))
            (is_sha.finish_digest c (take size_bytes (content p)) digest held same))

  -- The hash library and the reading of the flash behave as documented, and the size is positive and
  -- at most that of the partition. The function returns; it gives the hexadecimal digest of exactly
  -- the first bytes of the partition, as many as the size says, or else an error, and then one of its
  -- calls has failed: to begin, update or finish the hash, or to read within these bytes.
  pub hash_file-IsDigest :
      1 ≤ size_bytes
      → size_bytes ≤ p.size
      → IsDigest (ota_cache_hash_file sha sdk (some p) size_bytes true)
  unfolding ota_cache_hash_file
  hash_file-IsDigest h k =
      if_cases IsDigest (size_bytes == 0 || ltb p.size size_bytes) (invalid_arg, none) started
        (λ e. absurd (ground arith)) (λ e. step sha.starts refl)
    where
      run : C → Digest
      run ctx = finish_hash sha (hash_loop sha sdk size_bytes p size_bytes 0 ctx)

      started : Digest
      started = elim sha.starts [ none ↦ (fail, none) | some ctx ↦ run ctx ]

      step :
          (o : Option C)
          → sha.starts ≡ o
          → IsDigest (elim o [ none ↦ (fail, none) | some ctx ↦ run ctx ])
      step none same = inr (refl, starts_fails same)
      step (some ctx) same =
          finish_hash-IsDigest (hash_loop sha sdk size_bytes p size_bytes 0 ctx) (
            hash_loop-Looped size_bytes 0 ctx (omega arith) (omega arith)
              (is_sha.starts_empty ctx same))
