-- ===== src/Ble/Laws.antt =====
-- What was saved is loaded, and only for its product; a printed address is parsed back.
use esp32aging.Base.{
  ℕ, suc, ◌+◌, ◌-◌, ◌*◌, ◌/◌, ◌%◌, ◌≤◌, ◌<◌, bit_or, ◌≡◌, refl, sym, ap, ◌∙◌, subst, Bool, true,
  false, Option, Option-cases, inl, inr, not, ◌&&◌, ◌||◌, none, some, List, [], ◌∷◌, ◌++◌, arith,
  ltb, leb, ◌==◌, ==_iff, if◌then◌else◌, length, get_or, replicate, u8, ◌<<<◌, pos, some_inj,
  str_eq, holds_below_sound, IsBytes,
}
use esp32aging.Ble.{
  Target, TargetRecord, string, number, pn_bytes, ble_target_hex, parse_bytes, parse_mac,
  parse_type, ble_target_parse, target_record, Store, nvs_set_blob, Saved, save_ok,
  save_invalid_arg, save_failed, ble_target_save, flag, done, loaded, invalid_state, c_string,
  restore, ble_target_load,
}

-- A C string has no NUL.
abbrev pub IsText : List ℕ → Type 0
IsText [] = Unit {0}
IsText (c ∷ cs) = (0 < c) × IsText cs

c_string-padded : (s : List ℕ) (n : ℕ) → IsText s → c_string (s ++ replicate (suc n) 0) ≡ some s
unfolding c_string
c_string-padded [] n h = refl
c_string-padded (c ∷ cs) n h = rw (c_string-padded cs n h.1) (ground (arith, h.0))

-- A saved record has a short product number and a type of address that is 0 or 1.
saved-bounds :
    (pn : List ℕ) (target : Target) (r : TargetRecord)
    → target_record pn target ≡ some r
    → (leb pn_bytes (length pn) || ltb 1 target.addr_type) ≡ false
unfolding target_record
saved-bounds pn target r saved = ground arith

restore-padded :
    (pn asked bda : List ℕ) (use_mac : Bool) (addr_type n : ℕ)
    → IsText pn
    → ltb 1 addr_type ≡ false
    → restore asked (record {
      version = 1;
      use_mac = flag use_mac;
      addr_type = addr_type;
      bda = bda;
      pn = pn ++ replicate (suc n) 0;
    })
      ≡ (if str_eq pn asked
          then loaded (record { use_mac = use_mac; bda = bda; addr_type = addr_type })
          else invalid_state)
unfolding restore
restore-padded pn asked bda true addr_type n text h = rw (h, c_string-padded pn n text) refl
restore-padded pn asked bda false addr_type n text h = rw (h, c_string-padded pn n text) refl

restore-record :
    (pn asked : List ℕ) (target : Target) (r : TargetRecord)
    → IsText pn
    → target_record pn target ≡ some r
    → restore asked r ≡ (if str_eq pn asked then loaded target else invalid_state)
unfolding target_record
restore-record pn asked target r text saved =
    subst (λ k. restore asked k ≡ (if str_eq pn asked then loaded target else invalid_state))
      (some_inj (sym written ∙ saved))
      (subst
        (λ n.
          restore asked (record {
            version = 1;
            use_mac = flag target.use_mac;
            addr_type = target.addr_type;
            bda = target.bda;
            pn = pn ++ replicate n 0;
          })
          ≡ (if str_eq pn asked then loaded target else invalid_state))
        padding
        (restore-padded pn asked target.bda target.use_mac target.addr_type (63 - length pn) text
          typed))
  where
    bounds : (leb pn_bytes (length pn) || ltb 1 target.addr_type) ≡ false
    bounds = saved-bounds pn target r saved

    typed : ltb 1 target.addr_type ≡ false
    typed = ground arith

    padding : suc (63 - length pn) ≡ 64 - length pn
    padding = ground arith

    stored : TargetRecord
    stored = record {
      version = 1;
      use_mac = flag target.use_mac;
      addr_type = target.addr_type;
      bda = target.bda;
      pn = pn ++ replicate (64 - length pn) 0;
    }

    written : target_record pn target ≡ some stored
    written = rw bounds refl

-- The key that is set, and the other one.
set_blob_lem :
    (ready : Bool) (r : TargetRecord) (store : Store)
    → (nvs_set_blob ready r store ready ≡ some r)
      × (nvs_set_blob ready r store (not ready) ≡ store (not ready))
unfolding nvs_set_blob
set_blob_lem true r store = (refl, refl)
set_blob_lem false r store = (refl, refl)

-- If `ble_target_save` returns ESP_OK under a key, `ble_target_load` returns the target for the same
-- product under this key, if the storage reads it, and for any other product the record is refused; the
-- other key is as before. The product number has no NUL.
pub load-save :
    (opens sets commits ready : Bool) (pn asked : List ℕ) (target : Target) (store after : Store)
    → IsText pn
    → ble_target_save opens sets commits ready pn target store ≡ (after, save_ok)
    → (ble_target_load ready asked done done after
        ≡ (if str_eq pn asked then loaded target else invalid_state))
      × (after (not ready) ≡ store (not ready))
unfolding ble_target_save ble_target_load
load-save opens sets commits ready pn asked target store after text h =
    elim (Option-cases (target_record pn target)) [
      | inl out ↦ absurd (refused (sym (rw (ble_target_save, out) refl) ∙ h))
      | inr (r, e) ↦ go r e opens sets commits (sym (rw (ble_target_save, e) refl) ∙ h)
    ]
  where
    failed_lem : {s : Store} → ◌≡◌ {A = Store × Saved} (s, save_failed) (after, save_ok) → ⊥
    failed_lem k = let d = ap (λ (x : Store × Saved). x.1) k in cc

    refused : ◌≡◌ {A = Store × Saved} (store, save_invalid_arg) (after, save_ok) → ⊥
    refused k = let d = ap (λ (x : Store × Saved). x.1) k in cc

    go :
        (r : TargetRecord)
        → target_record pn target ≡ some r
        → (b1 b2 b3 : Bool)
        → ◌≡◌ {A = Store × Saved}
            (if not b1 || not b2
              then (store, save_failed)
              else if not b3
              then (nvs_set_blob ready r store, save_failed)
              else (nvs_set_blob ready r store, save_ok))
            (after, save_ok)
        → (elim (after ready) [ none ↦ invalid_state | some q ↦ restore asked q ]
            ≡ (if str_eq pn asked then loaded target else invalid_state))
          × (after (not ready) ≡ store (not ready))
    go r e false b2 b3 k = absurd (failed_lem k)
    go r e true false b3 k = absurd (failed_lem k)
    go r e true true false k = absurd (failed_lem k)
    go r e true true true k =
        let same = ap (λ (x : Store × Saved). x.0) k in
        (
          ap
                (λ (o : Option TargetRecord). elim o [
                  | none ↦ invalid_state
                  | some q ↦ restore asked q
                ])
                (sym (ap (λ (f : Store). f ready) same) ∙ (set_blob_lem ready r store).0)
              ∙ restore-record pn asked target r text e,
          sym (ap (λ (f : Store). f (not ready)) same) ∙ (set_blob_lem ready r store).1,
        )

-- A hexadecimal digit, with a letter of either case.
unfoldable pub hex_digit : Bool → ℕ → ℕ
hex_digit upper h = if ltb h 10 then h + 48 else if upper then h + 55 else h + 87

hex-hex_digit : (upper : Bool) (h : ℕ) → h < 16 → ble_target_hex (hex_digit upper h) ≡ some h
unfolding ble_target_hex hex_digit
hex-hex_digit upper h lt = ground arith

join-nibbles : (b : ℕ) → b < 256 → u8 (bit_or ((b / 16) <<< 4) (b % 16)) ≡ b
join-nibbles b lt =
    (==_iff (u8 (bit_or ((b / 16) <<< 4) (b % 16))) b).0
      (holds_below_sound 256 (λ x. u8 (bit_or ((x / 16) <<< 4) (x % 16)) == x) b refl lt)

-- An address as it is written: each byte as two digits, with colons between. `upper` tells of each
-- digit, counted from `i` on, whether it is a capital.
unfoldable pub mac_text : (ℕ → Bool) → ℕ → List ℕ → List ℕ
mac_text upper i [] = []
mac_text upper i (b ∷ []) = hex_digit (upper i) (b / 16) ∷ hex_digit (upper (i + 1)) (b % 16) ∷ []
mac_text upper i (b ∷ c ∷ bs) =
    hex_digit (upper i) (b / 16)
    ∷ hex_digit (upper (i + 1)) (b % 16)
    ∷ 58
    ∷ mac_text upper (i + 2) (c ∷ bs)

high-digit :
    (upper : Bool) (b : ℕ) → b < 256 → ble_target_hex (hex_digit upper (b / 16)) ≡ some (b / 16)
high-digit upper b lt = hex-hex_digit upper (b / 16) (omega arith)

low-digit : (upper : Bool) (b : ℕ) → ble_target_hex (hex_digit upper (b % 16)) ≡ some (b % 16)
low-digit upper b = hex-hex_digit upper (b % 16) (omega arith)

parse_bytes-step :
    (upper : ℕ → Bool) (mac : List ℕ) (i n b : ℕ) (rest : List ℕ)
    → b < 256
    → get_or mac (i * 3) 0 ≡ hex_digit (upper (i * 2)) (b / 16)
    → get_or mac (i * 3 + 1) 0 ≡ hex_digit (upper (i * 2 + 1)) (b % 16)
    → (ltb i 5 && not (get_or mac (i * 3 + 2) 0 == 58)) ≡ false
    → parse_bytes mac (i + 1) n ≡ some rest
    → parse_bytes mac i (suc n) ≡ some (b ∷ rest)
unfolding parse_bytes
parse_bytes-step upper mac i n b rest lt high low colon tail =
    rw (high, high-digit (upper (i * 2)) b lt, low, low-digit (upper (i * 2 + 1)) b, colon, tail)
      (ap (λ k. some (k ∷ rest)) (join-nibbles b lt))

-- The address of six bytes, written with colons between pairs of hexadecimal digits, each of either
-- case, is parsed to those bytes, together with a type of address that is 0 or 1.
pub ble_target_parse-mac_text :
    (upper : ℕ → Bool) (a b c d e f type : ℕ)
    → IsBytes (a ∷ b ∷ c ∷ d ∷ e ∷ f ∷ [])
    → type ≤ 1
    → ble_target_parse true true
        (some (string (some (mac_text upper 0 (a ∷ b ∷ c ∷ d ∷ e ∷ f ∷ [])))))
        (some (number (some (pos type))))
      ≡ some (record { use_mac = true; bda = a ∷ b ∷ c ∷ d ∷ e ∷ f ∷ []; addr_type = type })
unfolding ble_target_parse parse_mac parse_type parse_bytes mac_text
ble_target_parse-mac_text upper a b c d e f type h le = rw bytes typed
  where
    mac : List ℕ
    mac = mac_text upper 0 (a ∷ b ∷ c ∷ d ∷ e ∷ f ∷ [])

    bytes : parse_bytes mac 0 6 ≡ some (a ∷ b ∷ c ∷ d ∷ e ∷ f ∷ [])
    bytes = parse_bytes-step upper mac 0 5 a (b ∷ c ∷ d ∷ e ∷ f ∷ []) h.0 refl refl refl (
        parse_bytes-step upper mac 1 4 b (c ∷ d ∷ e ∷ f ∷ []) h.1.0 refl refl refl (
          parse_bytes-step upper mac 2 3 c (d ∷ e ∷ f ∷ []) h.1.1.0 refl refl refl (
            parse_bytes-step upper mac 3 2 d (e ∷ f ∷ []) h.1.1.1.0 refl refl refl (
              parse_bytes-step upper mac 4 1 e (f ∷ []) h.1.1.1.1.0 refl refl refl
                (parse_bytes-step upper mac 5 0 f [] h.1.1.1.1.1.0 refl refl refl refl)))))

    small : u8 type ≡ type
    small = omega arith

    target : ℕ → Target
    target t = record { use_mac = true; bda = a ∷ b ∷ c ∷ d ∷ e ∷ f ∷ []; addr_type = t }

    typed : (if ltb 1 type then none else some (target (u8 type))) ≡ some (target type)
    typed = rw small (ground arith)
