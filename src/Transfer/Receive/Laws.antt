-- ===== src/Transfer/Receive/Laws.antt =====
-- What a block that arrives does to the session and to the flash.
use esp32aging.Base.{
  ℕ, ◌≡◌, refl, ◌≢◌, Bool, true, false, not, ◌||◌, Option, none, some, List, arith, ◌==◌,
  if◌then◌else◌, if_cases, str_eq,
}
use esp32aging.Ota.{Err, ok, fail, invalid_arg, invalid_size, is_ok, c_str, is_ok→ok}
use esp32aging.Ota.Cache.{Partition}
use esp32aging.Transfer.{
  Link, Param, Receiver, name_of, receiver_link_current, binary_name_valid, transfer_range_valid,
}
use esp32aging.Transfer.Receive.{
  OtaSdk, invalid_state, mark_failed, write_block, begin_block, update_of, get_file_cb,
}

-- A block is refused and the session fails; or it is refused, or is empty, and nothing changes that
-- counts; or it is written, into what the flash is, or what it becomes when the image is begun.
pub data Received {F : Type 0} (sdk : OtaSdk F) (param : Param) (block : List ℕ) (r : Receiver)
    (f : F) : (Receiver × F) × Err → Type 0 where
  fails :
      {x : (Receiver × F) × Err}
      → x.0.0.failed ≡ true
      → is_ok x.1 ≡ false
      → Received sdk param block r f x
  stays :
      {x : (Receiver × F) × Err}
      → x.0.0 ≡ r
      → x.0.1 ≡ f
      → (is_ok x.1 ≡ true → param.data_size ≡ 0)
      → Received sdk param block r f x
  writes :
      {x : (Receiver × F) × Err} (f0 : F)
      → r.failed ≡ false
      → (r.handle ≢ 0 → f0 ≡ f)
      → x.0.0.handle ≢ 0
      → (sdk.write_with_offset x.0.0.handle block param.offset f0).1 ≡ ok
      → x.0.1 ≡ (sdk.write_with_offset x.0.0.handle block param.offset f0).0
      → Received sdk param block r f x

module _ {F : Type 0} (sdk : OtaSdk F)
    (begun_handle : (p : Partition) (f : F) → (sdk.begin p f).1.0 ≡ ok → (sdk.begin p f).1.1 ≢ 0)
    (later : Link) (param : Param) (block : List ℕ) (r : Receiver) (f : F) where
  write_block-Received :
      (r' : Receiver) (f0 : F)
      → r.failed ≡ false
      → (r.handle ≢ 0 → f0 ≡ f)
      → r'.handle ≢ 0
      → Received sdk param block r f (write_block sdk later param block r' f0)
  unfolding write_block mark_failed
  write_block-Received r' f0 running same h =
      if_cases (Received sdk param block r f) (not (receiver_link_current later r'))
        ((mark_failed r', f0), invalid_state) wrote (λ e. fails refl refl)
        (λ e.
          if_cases (Received sdk param block r f) (not (is_ok written.1))
            ((mark_failed r', written.0), written.1)
            ((record r' { first_data = true }, written.0), ok) (λ e. fails refl (ground arith))
            (λ e. writes f0 running same h (is_ok→ok written.1 (ground arith)) refl))
    where
      written : F × Err
      written = sdk.write_with_offset r'.handle block param.offset f0

      wrote : (Receiver × F) × Err
      wrote =
          if not (is_ok written.1)
          then ((mark_failed r', written.0), written.1)
          else ((record r' { first_data = true }, written.0), ok)

  begin_block-Received :
      (o : Option Partition)
      → r.failed ≡ false
      → Received sdk param block r f (begin_block sdk later param block o r f)
  unfolding begin_block mark_failed
  begin_block-Received none running = stays refl refl (λ h. cc)
  begin_block-Received (some update) running =
      if_cases (Received sdk param block r f) (not (r.handle == 0))
        (write_block sdk later param block r f) fresh
        (λ e. write_block-Received r f running (λ h. refl) (λ h. ground arith))
        (λ e.
          if_cases (Received sdk param block r f) (not (is_ok begun.1.0))
            ((mark_failed (record r { handle = begun.1.1 }), begun.0), begun.1.0)
            (write_block sdk later param block begun_state begun.0) (λ k. fails refl (ground arith))
            (λ k.
              write_block-Received begun_state begun.0 running (λ h. absurd (h (ground arith)))
                (begun_handle update f (is_ok→ok begun.1.0 (ground arith)))))
    where
      begun : F × (Err × ℕ)
      begun = sdk.begin update f

      begun_state : Receiver
      begun_state = record r { handle = begun.1.1; update_partition = some update }

      fresh : (Receiver × F) × Err
      fresh =
          if not (is_ok begun.1.0)
          then ((mark_failed (record r { handle = begun.1.1 }), begun.0), begun.1.0)
          else write_block sdk later param block begun_state begun.0

  pub get_file_cb-Received :
      (locks : Bool) (now : Link)
      → Received sdk param block r f (get_file_cb sdk locks now later (some param) (some block) r f)
  unfolding get_file_cb mark_failed
  get_file_cb-Received locks now =
      if_cases P (not locks) ((r, f), fail) unlocked (λ e. stays refl refl (λ h. cc))
        (λ e.
          if_cases P closed ((r, f), invalid_state) opened (λ e. stays refl refl (λ h. cc))
            (λ running.
              if_cases P (not (receiver_link_current now r)) ((r, f), invalid_state) linked
                (λ e. stays refl refl (λ h. cc))
                (λ e.
                  if_cases P strange ((mark_failed r, f), invalid_arg) named (λ e. fails refl refl)
                    (λ e.
                      if_cases P outside ((mark_failed r, f), invalid_size) ranged
                        (λ e. fails refl refl)
                        (λ e.
                          if_cases P (param.data_size == 0) ((r, f), ok) written
                            (λ e. stays refl refl (λ h. ground arith))
                            (λ e. begin_block-Received (update_of sdk r) (ground arith)))))))
    where
      P : (Receiver × F) × Err → Type 0
      P = Received sdk param block r f

      closed : Bool
      closed = not r.session_open || not r.accepting || r.failed

      strange : Bool
      strange =
          not (binary_name_valid param.fw_version)
          || not (str_eq (name_of param.fw_version) (c_str r.file))

      outside : Bool
      outside = not (transfer_range_valid param r.firmware_size_bytes (update_of sdk r))

      written : (Receiver × F) × Err
      written = begin_block sdk later param block (update_of sdk r) r f

      ranged : (Receiver × F) × Err
      ranged = if param.data_size == 0 then ((r, f), ok) else written

      named : (Receiver × F) × Err
      named = if outside then ((mark_failed r, f), invalid_size) else ranged

      linked : (Receiver × F) × Err
      linked = if strange then ((mark_failed r, f), invalid_arg) else named

      opened : (Receiver × F) × Err
      opened = if not (receiver_link_current now r) then ((r, f), invalid_state) else linked

      unlocked : (Receiver × F) × Err
      unlocked = if closed then ((r, f), invalid_state) else opened
