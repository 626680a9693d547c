-- ===== src/Can/Send/Laws.antt =====
-- What the frames of a write carry, if the driver takes them all.
use esp32aging.Base.{
  take_all, drop-drop, length-take_le, take-add, ℕ, zero, suc, ◌+◌, ◌-◌, ◌*◌, ◌^◌, ◌≤◌, ◌<◌, ◌≡◌,
  refl, sym, ap, ap₂, ◌∙◌, subst, Bool, true, false, ◌||◌, Option, none, some, List, [], ◌∷◌, ◌++◌,
  arith, ltb, ◌==◌, if◌then◌else◌, length, take, drop, bit_and, ◌/◌, ◌%◌, ◌>>>◌, bit_and-byte,
  replicate, u8, ◌>>=◌, dec_lt, pos, negsuc, some_inj, if_cases, append-nil, length-append,
  length-drop, length-replicate, take-length-append, IsBytes,
}
use esp32aging.Crc.{modbus_crc16}
use esp32aging.Crc.Bitwise.{modbus_crc16-eq-bits}
use esp32aging.Modbus.Frames.{crc_of}
use native.Mathlib.Nat.{mod-eq_of_lt}
use esp32aging.Can.{
  Transfer, Twai, can_msg_to_twai, can_proto_put_u16_le, can_proto_source_or_default,
}
use esp32aging.Can.Id.Laws.{create_id_sum}
use esp32aging.Can.Id.{can_fill_common_frame}
use esp32aging.Can.Send.{
  can_send_msg_ticks, Sent, write_start_frame, write_data_frame, bytes_at, chunk_of, write_loop,
  announced, total_of, send_block, can_send_write_sequence,
}

-- A frame carries six bytes, the last one what is left.
abbrev pub at_most_six : ℕ → ℕ
at_most_six left = if ltb 6 left then 6 else left

-- The bytes that frames carry when `left` are to come.
abbrev pub carried : ℕ → List Twai → List ℕ
carried left [] = []
carried left (f ∷ fs) =
    take (at_most_six left) (drop 2 f.bytes) ++ carried (left - at_most_six left) fs

-- The identifier on the wire: priority 2, the format, the device, and the master, which is 0x10 unless
-- the transfer names one.
abbrev pub wire_id : Transfer → ℕ → ℕ
wire_id t pdu_format =
    2 * 2 ^ 26
    + pdu_format * 2 ^ 16
    + t.target_addr % 256 * 256
    + (if t.source_addr == 0 then 0x10 else t.source_addr) % 256

abbrev pub IsFrame : Transfer → ℕ → Twai → Type 0
IsFrame t pdu_format f =
    (f.identifier ≡ wire_id t pdu_format) × (f.data_length_code ≡ 8) × (f.rtr ≡ false)

-- The frame that opens a write: the offset, the length and the checksum, low byte first.
abbrev pub IsOpening : Transfer → Twai → Type 0
IsOpening t f =
    IsFrame t 0x60 f
    × (f.bytes
        ≡ t.data_type
          ∷ t.offset % 256
          ∷ t.offset / 256 % 256
          ∷ t.total % 256
          ∷ t.total / 256 % 256
          ∷ t.crc16 % 256
          ∷ t.crc16 / 256 % 256
          ∷ 0
          ∷ [])

-- A frame with `size` bytes of the payload, and zeros behind them.
abbrev pub IsData : Transfer → ℕ → ℕ → Twai → Type 0
IsData t n size f =
    IsFrame t 0x61 f
    × (take 2 f.bytes ≡ t.data_type ∷ n ∷ [])
    × (drop size (drop 2 f.bytes) ≡ replicate (6 - size) 0)

-- As many frames as `left` bytes need, numbered from `n` on.
abbrev pub AreData : Transfer → ℕ → ℕ → List Twai → Type 0
AreData t left n [] = left ≡ 0
AreData t left n (f ∷ fs) =
    (0 < left)
    × IsData t n (at_most_six left) f
    × AreData t (left - at_most_six left) (u8 (n + 1)) fs

low_byte_lem : (x : ℕ) → u8 (bit_and x 0xff) ≡ x % 256
low_byte_lem x = omega (arith, bit_and-byte x)

drop-length-append : (xs ys : List ℕ) → drop (length xs) (xs ++ ys) ≡ ys
drop-length-append [] ys = refl
drop-length-append (x ∷ xs) ys = drop-length-append xs ys

opening_lem : (t : Transfer) → IsOpening t (can_msg_to_twai (write_start_frame t))
unfolding write_start_frame can_fill_common_frame can_msg_to_twai can_proto_put_u16_le
    can_proto_source_or_default
opening_lem t = (
  (create_id_sum 2 0 0 0x60 t.target_addr (can_proto_source_or_default t.source_addr), refl, refl),
  rw
      (
        low_byte_lem t.offset,
        low_byte_lem (t.offset >>> 8),
        low_byte_lem t.total,
        low_byte_lem (t.total >>> 8),
        low_byte_lem t.crc16,
        low_byte_lem (t.crc16 >>> 8),
      )
      refl,
)

module _ (t : Transfer) (n : ℕ) (chunk : List ℕ) where
  frame_of : Twai
  frame_of = can_msg_to_twai (write_data_frame t n chunk)

  frame_of-sent : can_send_msg_ticks true (write_data_frame t n chunk) ≡ some frame_of
  unfolding can_send_msg_ticks write_data_frame can_fill_common_frame frame_of
  frame_of-sent = refl

  pad : List ℕ
  pad = replicate (6 - length chunk) 0

  frame_of-payload : length chunk ≤ 6 → drop 2 frame_of.bytes ≡ chunk ++ pad
  unfolding write_data_frame can_fill_common_frame frame_of can_msg_to_twai pad
  frame_of-payload fits =
      ap (λ p. p ++ [])
        (take_all 6 (chunk ++ pad)
          (omega (arith, length-append chunk pad, length-replicate {A = ℕ} (6 - length chunk) 0)))
      ∙ append-nil (chunk ++ pad)

  frame_of-carries : length chunk ≤ 6 → take (length chunk) (drop 2 frame_of.bytes) ≡ chunk
  frame_of-carries fits =
      ap (take (length chunk)) (frame_of-payload fits) ∙ take-length-append chunk pad

  frame_of-IsData : length chunk ≤ 6 → IsData t n (length chunk) frame_of
  unfolding write_data_frame can_fill_common_frame frame_of can_msg_to_twai pad
      can_proto_source_or_default
  frame_of-IsData fits = (
    (
      create_id_sum 2 0 0 0x61 t.target_addr (can_proto_source_or_default t.source_addr),
      refl,
      refl,
    ),
    refl,
    ap (drop (length chunk)) (frame_of-payload fits) ∙ drop-length-append chunk pad,
  )

bytes_at_lem :
    (payload : List ℕ) (i n : ℕ)
    → i + n ≤ length payload
    → bytes_at payload i n ≡ some (take n (drop i payload))
unfolding bytes_at
bytes_at_lem payload i n h = ground arith

module _ (t : Transfer) (payload : List ℕ) (word : t.total < 2 ^ 16)
    (room : t.total ≤ length payload) where
  -- The frames of the bytes from `copied` on, the first of which is the `n`-th.
  abbrev Written : ℕ → ℕ → Option (List Twai × Bool) → Type 0
  Written copied n none = ⊥
  Written copied n (some (fs, ok)) =
      (ok ≡ true)
      × (carried (t.total - copied) fs ≡ take (t.total - copied) (drop copied payload))
      × AreData t (t.total - copied) n fs

  module _ (copied n : ℕ) (more : copied < t.total) where
    abbrev chunk : ℕ
    chunk = chunk_of (t.total - copied)

    chunk_size : (0 < chunk) × (chunk ≤ 6) × (copied + chunk ≤ t.total)
    chunk_size = (ground arith, ground arith, ground arith)

    abbrev part : List ℕ
    part = take chunk (drop copied payload)

    part_size : length part ≡ chunk
    part_size =
        length-take_le chunk (drop copied payload)
          (omega (arith, length-drop copied payload, chunk_size.2, room))

    -- One frame before the others.
    abbrev with_frame : Option (List Twai × Bool) → Option (List Twai × Bool)
    with_frame rest = rest >>= λ r. some (frame_of t n part ∷ r.0, r.1)

    with_frame-Written :
        (rest : Option (List Twai × Bool))
        → Written (copied + chunk) (u8 (n + 1)) rest
        → Written copied n (with_frame rest)
    with_frame-Written none h = h
    with_frame-Written (some (fs, ok)) h = (
      h.0,
      ap₂ (◌++◌)
            (ap (λ (k : ℕ). take k (drop 2 (frame_of t n part).bytes)) (sym part_size)
              ∙ frame_of-carries t n part (omega (arith, part_size, chunk_size)))
            (ap (λ (k : ℕ). carried k fs) left
              ∙ h.1
              ∙ ap (take (t.total - (copied + chunk))) (sym (drop-drop copied chunk payload)))
          ∙ sym (take-add chunk (t.total - (copied + chunk)) (drop copied payload))
          ∙ ap (λ (k : ℕ). take k (drop copied payload)) (omega (arith, chunk_size)),
      (
        omega (arith, more),
        subst (λ (k : ℕ). IsData t n k (frame_of t n part)) part_size
            (frame_of-IsData t n part (omega (arith, part_size, chunk_size))),
        subst (λ (k : ℕ). AreData t k (u8 (n + 1)) fs) (sym left) h.2,
      ),
    )
      where
        left : t.total - copied - chunk_of (t.total - copied) ≡ t.total - (copied + chunk)
        left = omega (arith, chunk_size)

    write_loop-step :
        (fuel k : ℕ)
        → write_loop (λ _. true) t payload (suc fuel) copied n k
          ≡ with_frame (write_loop (λ _. true) t payload fuel (copied + chunk) (u8 (n + 1)) (k + 1))
    unfolding write_loop frame_of can_send_msg_ticks write_data_frame can_fill_common_frame
    write_loop-step fuel k = rw (write_loop, tested, bytes_at-part, mod-eq_of_lt narrow) refl
      where
        tested : ltb copied t.total ≡ true
        tested = ground arith

        narrow : copied + chunk < 2 ^ 16
        narrow = omega (arith, chunk_size, word)

        bytes_at-part : bytes_at payload copied chunk ≡ some part
        bytes_at-part = bytes_at_lem payload copied chunk (omega (arith, chunk_size, room))

  write_loop-end :
      (fuel copied n k : ℕ)
      → t.total ≡ copied
      → write_loop (λ _. true) t payload fuel copied n k ≡ some ([], true)
  unfolding write_loop
  write_loop-end zero copied n k e = ground arith
  write_loop-end (suc fuel) copied n k e = rw (write_loop, ended) refl
    where
      ended : ltb copied t.total ≡ false
      ended = ground arith

  write_loop-end-Written :
      (fuel copied n k : ℕ)
      → t.total ≡ copied
      → Written copied n (write_loop (λ _. true) t payload fuel copied n k)
  write_loop-end-Written fuel copied n k e =
      subst (Written copied n) (sym (write_loop-end fuel copied n k e)) (
        refl,
        ap (λ (m : ℕ). take m (drop copied payload)) {x = 0} (omega (arith, e)),
        omega (arith, e),
      )

  write_loop-Written :
      (fuel copied n k : ℕ)
      → copied ≤ t.total
      → t.total - copied ≤ fuel
      → Written copied n (write_loop (λ _. true) t payload fuel copied n k)
  write_loop-Written zero copied n k h enough = write_loop-end-Written 0 copied n k (omega arith)
  write_loop-Written (suc fuel) copied n k h enough = elim (dec_lt copied t.total) [
    | no end ↦ write_loop-end-Written (suc fuel) copied n k (omega arith)
    | yes more ↦
        let c = chunk_size copied n more in
        subst (Written copied n) (sym (write_loop-step copied n more fuel k)) (
          with_frame-Written copied n more _ (
            write_loop-Written fuel (copied + chunk copied n more) (u8 (n + 1)) (k + 1) c.2
              (omega (arith, c))))
  ]

  -- The whole payload.
  written_all :
      (fs : List Twai) × (write_loop (λ _. true) t payload t.total 0 0 1 ≡ some (fs, true))
      × (carried t.total fs ≡ take t.total payload)
      × AreData t t.total 0 fs
  written_all =
      go (write_loop (λ _. true) t payload t.total 0 0 1)
        (write_loop-Written t.total 0 0 1 (omega arith) (omega arith))
    where
      whole : t.total - 0 ≡ t.total
      whole = omega arith

      go :
          (o : Option (List Twai × Bool))
          → Written 0 0 o
          → (fs : List Twai) × (o ≡ some (fs, true))
            × (carried t.total fs ≡ take t.total payload)
            × AreData t t.total 0 fs
      go none h = absurd h
      go (some (fs, ok)) h = (
        fs,
        ap (λ b. some (fs, b)) h.0,
        subst (λ (k : ℕ). carried k fs ≡ take k payload) whole h.1,
        subst (λ (k : ℕ). AreData t k 0 fs) whole h.2,
      )

  send_block_lem :
      send_block (λ _. true) t payload
      ≡ some (record {
        transfer = t;
        frames = can_msg_to_twai (write_start_frame t) ∷ written_all.0;
        result = pos (8 * (1 + length written_all.0));
        flagged = true;
      })
  unfolding send_block can_send_msg_ticks write_start_frame can_fill_common_frame
  send_block_lem = rw (send_block, written_all.1) refl

-- If the driver takes every frame, a write of at least one byte, whose length is not above what the
-- payload has, runs to its end: the opening frame, of the format 0x60, has the kind of data, the
-- offset, the length and the checksum of the bytes, and the frames after it, of the format 0x61, carry
-- exactly these bytes, six each and the last one what is left with zeros behind, with numbers that
-- wrap at 256. The result counts eight bytes for each frame.
pub can_send_write_sequence_lem :
    (t : Transfer) (payload : List ℕ)
    → t.tx_payload ≡ some payload
    → 0 < t.tx_len
    → t.tx_len < 2 ^ 16
    → t.tx_len ≤ length payload
    → total_of t ≤ t.tx_len
    → IsBytes payload
    → let t' = announced t (total_of t) (crc_of (take (total_of t) payload)) in
      (start : Twai) × (fs : List Twai) × (can_send_write_sequence (λ _. true) t
        ≡ some (record {
          transfer = t';
          frames = start ∷ fs;
          result = pos (8 * (1 + length fs));
          flagged = true;
        }))
      × IsOpening t' start
      × (carried (total_of t) fs ≡ take (total_of t) payload)
      × AreData t' (total_of t) 0 fs
unfolding can_send_write_sequence
can_send_write_sequence_lem t payload e hz hw hl ht hb =
    let all = written_all sent payload (omega (arith, hw, ht)) (omega (arith, hl, ht)) in
    (
      can_msg_to_twai (write_start_frame sent),
      all.0,
      go t.tx_payload e
          ∙ rw
              (modbus_crc16-eq-bits payload (total_of t) hb (omega (arith, hl, ht))
                (omega (arith, hw, ht)))
              (send_block_lem sent payload (omega (arith, hw, ht)) (omega (arith, hl, ht))),
      opening_lem sent,
      all.2,
      all.3,
    )
  where
    sent : Transfer
    sent = announced t (total_of t) (crc_of (take (total_of t) payload))

    block : Option Sent
    block = modbus_crc16 payload (total_of t) >>= λ crc.
        send_block (λ _. true) (announced t (total_of t) crc) payload

    refusal : Option Sent
    refusal = some (record { transfer = t; frames = []; result = negsuc 0; flagged = false })

    go :
        (p : Option (List ℕ))
        → p ≡ some payload
        → elim p [
          | none ↦ refusal
          | some payload' ↦
              if t.tx_len == 0 || ltb t.tx_len (total_of t)
              then refusal
              else (modbus_crc16 payload' (total_of t) >>= λ crc.
                  send_block (λ _. true) (announced t (total_of t) crc) payload')
        ]
          ≡ block
    go none h = cc
    go (some p) h = rw (some_inj h) (
        if_cases (λ o. o ≡ block) (t.tx_len == 0 || ltb t.tx_len (total_of t)) refusal block
          (λ bad. absurd (ground arith)) (λ _. refl))
