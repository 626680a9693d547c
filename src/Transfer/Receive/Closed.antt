-- ===== src/Transfer/Receive/Closed.antt =====
-- Callbacks of the SDK that come late, when the session was reset.
use esp32aging.Base.{ℕ, ◌≡◌, refl, ap, ◌∙◌, Bool, true, false, Option, none, some, List, [], ◌∷◌}
use esp32aging.Transfer.{Link, Param, Reason, Receiver}
use esp32aging.Transfer.Receive.{
  OtaSdk, get_file_cb, get_file_done_cb, note_done, reset_receiver_locked, on_ota_start,
  on_ota_finish, mesh_ota_extern_disabled,
}

-- The calls of the SDK to this node, with what they read.
pub data Callback : Type 0 where
  gets_file : Bool → Link → Link → Option Param → Option (List ℕ) → Callback
  gets_done : Bool → Link → Link → Callback
  starts : Callback
  finishes : Option Reason → ℕ → Callback
  gets_extern : ℕ → Callback

module _ {F : Type 0} (sdk : OtaSdk F) where
  unfoldable pub run_callback : Callback → Receiver × F → Receiver × F
  run_callback (gets_file locks now later param block) x =
      (get_file_cb sdk locks now later param block x.0 x.1).0
  run_callback (gets_done locks now later) x = (get_file_done_cb sdk locks now later x.0 x.1).0
  run_callback starts x = (on_ota_start x.0, x.1)
  run_callback (finishes reason now) x = (on_ota_finish reason now x.0, x.1)
  run_callback (gets_extern now) x = ((mesh_ota_extern_disabled now x.0).0, x.1)

  unfoldable pub run_callbacks : List Callback → Receiver × F → Receiver × F
  run_callbacks [] x = x
  run_callbacks (c ∷ cs) x = run_callbacks cs (run_callback c x)

  -- The state after a reset, but for `s_sdk_inflight`.
  IsReset : Receiver × F → Receiver × F → Type 0
  IsReset x y = (b : Bool) × (y ≡ (record x.0 { sdk_inflight = b }, x.1))

  run_callback-IsReset :
      (c : Callback) (r : Receiver) (f g : F) (b : Bool)
      → let x = (reset_receiver_locked sdk r f).0 in
        IsReset (x, g) (run_callback c (record x { sdk_inflight = b }, g))
  unfolding IsReset run_callback get_file_cb get_file_done_cb note_done reset_receiver_locked
      on_ota_start on_ota_finish mesh_ota_extern_disabled
  run_callback-IsReset (gets_file true now later (some param) (some block)) r f g b = (b, refl)
  run_callback-IsReset (gets_file false now later (some param) (some block)) r f g b = (b, refl)
  run_callback-IsReset (gets_file locks now later none block) r f g b = (b, refl)
  run_callback-IsReset (gets_file locks now later (some param) none) r f g b = (b, refl)
  run_callback-IsReset (gets_done true now later) r f g b = (b, refl)
  run_callback-IsReset (gets_done false now later) r f g b = (b, refl)
  run_callback-IsReset starts r f g b = (true, refl)
  run_callback-IsReset (finishes reason now) r f g b = (false, refl)
  run_callback-IsReset (gets_extern now) r f g b = (false, refl)

  run_callbacks-IsReset :
      (cs : List Callback) (r : Receiver) (f g : F) (b : Bool)
      → let x = (reset_receiver_locked sdk r f).0 in
        IsReset (x, g) (run_callbacks cs (record x { sdk_inflight = b }, g))
  unfolding run_callbacks IsReset
  run_callbacks-IsReset [] r f g b = (b, refl)
  run_callbacks-IsReset (c ∷ cs) r f g b =
      let one = run_callback-IsReset c r f g b in
      let rest = run_callbacks-IsReset cs r f g one.0 in
      (rest.0, ap (run_callbacks cs) one.1 ∙ rest.1)

  -- After a session was reset, whatever callbacks of the SDK follow, in any order, blocks, validation
  -- and ends of a transfer among them, they write nothing to the flash and change nothing of the
  -- receiving session but `s_sdk_inflight`.
  pub run_callbacks-reset :
      (cs : List Callback) (r : Receiver) (f : F)
      → let x = reset_receiver_locked sdk r f in
        (b : Bool) × (run_callbacks cs x ≡ (record x.0 { sdk_inflight = b }, x.1))
  unfolding IsReset
  run_callbacks-reset cs r f =
      let x = reset_receiver_locked sdk r f in run_callbacks-IsReset cs r f x.1 x.0.sdk_inflight
