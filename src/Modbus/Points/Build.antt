-- ===== src/Modbus/Points/Build.antt =====
-- The bytes of the point frames.
use esp32aging.Base.{
  ℕ, zero, suc, ◌+◌, ◌/◌, ◌%◌, ◌^◌, ◌≤◌, ◌<◌, ◌≡◌, refl, sym, ap, ◌∙◌, some, List, [], ◌∷◌, ◌++◌,
  arith, length, drop, fill, IsBytes, fill_lem, length-drop,
}
use esp32aging.Crc.{modbus_crc16}
use esp32aging.Modbus.Frames.{
  crc_of, crc_of-lt, modbus_crc16-append, low_byte-eq, high_byte-eq, IsBytes-drop,
}
use esp32aging.Modbus.Points.{
  little_endian, build_frame, modbus_build_frame_safe_code, modbus_build_cmd_0110,
}

drop-eq : (j k : ℕ) (xs : List ℕ) → j ≡ k → drop j xs ≡ drop k xs
drop-eq j k xs e = ap (λ (l : ℕ). drop l xs) e

drop-nil : (j : ℕ) → drop {A = ℕ} j [] ≡ []
drop-nil zero = refl
drop-nil (suc j) = refl

drop-drop : (m n : ℕ) (xs : List ℕ) → drop m (drop n xs) ≡ drop (n + m) xs
drop-drop m zero xs = drop-eq m (0 + m) xs (omega arith)
drop-drop m (suc n) [] = drop-nil m ∙ sym (drop-nil (suc n + m))
drop-drop m (suc n) (x ∷ xs) =
    drop-drop m n xs ∙ drop-eq (suc (n + m)) (suc n + m) (x ∷ xs) (omega arith)

-- A frame in a buffer that has room: the bytes, their checksum, and what was behind.
abbrev pub framed : List ℕ → List ℕ → List ℕ × ℕ
framed out_buf body = (
  body ++ (crc_of body % 256 ∷ crc_of body / 256 ∷ drop (length body + 2) out_buf),
  length body + 2,
)

module _ (out_buf body : List ℕ) (ho : IsBytes out_buf) (hb : IsBytes body)
    (short : length body < 2 ^ 16) (room : length body + 2 ≤ length out_buf) where
  behind : List ℕ
  behind = drop (length body) out_buf

  filled : fill out_buf 0 body ≡ some (body ++ behind)
  unfolding behind
  filled = fill_lem [] body out_buf (omega arith)

  summed : modbus_crc16 (body ++ behind) (length body) ≡ some (crc_of body)
  unfolding behind
  summed = modbus_crc16-append body behind hb (IsBytes-drop (length body) out_buf ho) short

  closed :
      (lo hi : ℕ)
      → fill (body ++ behind) (length body) (lo ∷ hi ∷ [])
        ≡ some (body ++ (lo ∷ hi ∷ drop (length body + 2) out_buf))
  unfolding behind
  closed lo hi =
      fill_lem body (lo ∷ hi ∷ []) behind (omega (arith, length-drop {A = ℕ} (length body) out_buf))
      ∙ ap (λ (t : List ℕ). some (body ++ (lo ∷ hi ∷ t))) (drop-drop 2 (length body) out_buf)

  build_frame_lem : build_frame out_buf body ≡ some (framed out_buf body)
  unfolding build_frame
  build_frame_lem = ground (
    arith,
    filled,
    summed,
    low_byte-eq (crc_of body),
    high_byte-eq (crc_of body) (crc_of-lt body hb),
    closed (crc_of body % 256) (crc_of body / 256),
  )

little_endian-IsBytes : (n v : ℕ) → IsBytes (little_endian n v)
unfolding little_endian
little_endian-IsBytes zero v = tt
little_endian-IsBytes (suc n) v = (omega arith, little_endian-IsBytes n (v / 256))

length-little_endian : (n v : ℕ) → length (little_endian n v) ≡ n
unfolding little_endian
length-little_endian zero v = refl
length-little_endian (suc n) v = ap suc (length-little_endian n (v / 256))

-- The eight bytes of a number, the lowest first.
abbrev pub eight_bytes : ℕ → List ℕ
eight_bytes v =
    v % 256
    ∷ v / 2 ^ 8 % 256
    ∷ v / 2 ^ 16 % 256
    ∷ v / 2 ^ 24 % 256
    ∷ v / 2 ^ 32 % 256
    ∷ v / 2 ^ 40 % 256
    ∷ v / 2 ^ 48 % 256
    ∷ v / 2 ^ 56 % 256
    ∷ []

-- In a buffer with room for 13 bytes, `Modbus_BuildFrame_SafeCode` writes the header, the eight
-- bytes of the value, lowest first, and their checksum, leaves what is behind, and returns 13; and
-- `Modbus_BuildCmd_0110` writes its six bytes and their checksum there, and returns 8.
modbus_build_frame_safe_code_lem :
    (value byte4 : ℕ) (out_buf : List ℕ)
    → IsBytes out_buf
    → 13 ≤ length out_buf
    → byte4 < 256
    → (modbus_build_frame_safe_code value out_buf
        ≡ some ((framed out_buf (1 ∷ 3 ∷ 8 ∷ little_endian 8 value)).0, 13))
      × (modbus_build_cmd_0110 byte4 out_buf
          ≡ some ((framed out_buf (1 ∷ 16 ∷ 0 ∷ byte4 ∷ 0 ∷ 4 ∷ [])).0, 8))
unfolding modbus_build_frame_safe_code modbus_build_cmd_0110
modbus_build_frame_safe_code_lem value byte4 out_buf ho room h4 = (
  build_frame_lem out_buf body ho bytes (omega (arith, size)) (omega (arith, size))
      ∙ ap (λ (k : ℕ). some ((framed out_buf body).0, k)) (omega (arith, size)),
  build_frame_lem out_buf (1 ∷ 16 ∷ 0 ∷ byte4 ∷ 0 ∷ 4 ∷ []) ho (omega arith) (omega arith)
      (omega arith),
)
  where
    body : List ℕ
    body = 1 ∷ 3 ∷ 8 ∷ little_endian 8 value

    size : length body ≡ 11
    size = omega (arith, length-little_endian 8 value)

    bytes : IsBytes body
    bytes = (omega arith, (omega arith, (omega arith, little_endian-IsBytes 8 value)))
