-- ===== src/Led.antt =====
-- main/APP/Status/status_led.c: the two status lamps, lit by a low level, and their mirror in
-- memory. `driver_ok` says of each call of the GPIO driver in turn whether it returns ESP_OK.
pub mod Laws
mod Examples
use esp32aging.Base.{
  ℕ, zero, suc, ◌+◌, ◌-◌, ◌*◌, ◌/◌, ◌%◌, ◌^◌, ◌≤◌, ◌<◌, bit_and, bit_or, bit_xor, ◌≡◌, refl, sym,
  ap, ap₂, ◌∙◌, subst, ◌≢◌, ◌↔◌, ◌⊎◌, inl, inr, Bool, true, false, not, ◌&&◌, ◌||◌, Option, none,
  some, List, [], ◌∷◌, ◌++◌, map, arith, ltb, leb, ◌==◌, ==_iff, if◌then◌else◌, Bool-cases,
  Option-cases, length, get_elem?, get_or, set, take, drop, replicate, u8, u16, u32, ◌<<<◌, ◌>>>◌,
  ◌>>=◌, fill, dec_lt, dec_le, ℕ_discrete, ℤ, pos, negsuc, signed16, signed32, some_inj, if_cases,
  ltb_ℤ, suc_ℤ, int_max, str_eq, str_eq_iff, is_empty,
}

-- The output level that a pin's latch holds; `high` is off.
pub record Pins : Type 0 where
  pub aging_high : Bool
  pub pn_high : Bool
  pub output_mode : Bool

-- The static variables and the pins.
pub record Led : Type 0 where
  pub initialized : Bool
  pub aging_on : Bool
  pub pn_on : Bool
  pub pins : Pins

pub data Lamp : Type 0 where
  aging pn : Lamp

-- `gpio_set_level`: a call that fails leaves the latch.
unfoldable pub gpio_set_level : Pins → Lamp → Bool → Bool → Pins
gpio_set_level p lamp level false = p
gpio_set_level p aging level true = record p { aging_high = level }
gpio_set_level p pn level true = record p { pn_high = level }

-- Each function is what one task does while no other task is in this module: `status_led_output`
-- writes the pin before its critical section and `status_led_toggle_both` after its own, so calls of
-- two tasks that overlap may leave a latch that differs from the mirror; that is not modelled.
--
-- `status_led_gpio_write`
unfoldable pub status_led_gpio_write : Led → Lamp → Bool → Bool → Led
status_led_gpio_write s lamp on driver_ok = record s {
  pins = gpio_set_level s.pins lamp (not on) driver_ok;
}

-- The critical section of `status_led_output`.
unfoldable pub set_mirror : Led → Lamp → Bool → Led
set_mirror s aging on = record s { aging_on = on }
set_mirror s pn on = record s { pn_on = on }

-- `status_led_output`: the pin first, then the critical section.
unfoldable pub status_led_output : Led → Lamp → Bool → Bool → Led
status_led_output s lamp on driver_ok =
    let written = status_led_gpio_write s lamp on driver_ok in set_mirror written lamp on

-- `status_led_init`: the latches are preset before the pins become outputs.
unfoldable pub status_led_init : Led → Bool → Bool → Bool → Bool → Bool → Led × Bool
status_led_init s preset_aging preset_pn config again_aging again_pn =
    if s.initialized
    then (s, true)
    else let s1 = record s { pins = gpio_set_level s.pins aging true preset_aging } in
      if not preset_aging
      then (s1, false)
      else let s2 = record s1 { pins = gpio_set_level s1.pins pn true preset_pn } in
        if not preset_pn
        then (s2, false)
        else if not config
        then (s2, false)
        else let s3 = record s2 { pins = record s2.pins { output_mode = true } } in
          let s4 =
            status_led_output (status_led_output s3 aging false again_aging) pn false again_pn in
          (record s4 { initialized = true }, true)

unfoldable pub status_led_pn_ready : Led → Bool → Led
status_led_pn_ready s driver_ok = status_led_output s pn true driver_ok

unfoldable pub status_led_aging_start : Led → Bool → Led
status_led_aging_start s driver_ok = status_led_output s aging true driver_ok

unfoldable pub status_led_all_off : Led → Bool → Bool → Led
status_led_all_off s aging_ok pn_ok =
    status_led_output (status_led_output s aging false aging_ok) pn false pn_ok

-- The critical section of `status_led_toggle_both`.
unfoldable pub flip_mirror : Led → Led
flip_mirror s = record s { aging_on = not s.aging_on; pn_on = not s.pn_on }

-- `status_led_toggle_both`: the critical section first, then the pins.
unfoldable pub status_led_toggle_both : Led → Bool → Bool → Led
status_led_toggle_both s aging_ok pn_ok =
    let flipped = flip_mirror s in
    status_led_gpio_write (status_led_gpio_write flipped aging flipped.aging_on aging_ok) pn
      flipped.pn_on pn_ok

pub data Event : Type 0 where
  readies starts : Event
  offs toggles : Event

-- An event whose calls of the driver succeed.
unfoldable pub run_event : Led → Event → Led
run_event s readies = status_led_pn_ready s true
run_event s starts = status_led_aging_start s true
run_event s offs = status_led_all_off s true true
run_event s toggles = status_led_toggle_both s true true

unfoldable pub run_events : Led → List Event → Led
run_events s [] = s
run_events s (v ∷ vs) = run_events (run_event s v) vs
