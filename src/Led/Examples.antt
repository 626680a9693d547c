-- ===== src/Led/Examples.antt =====
-- The lamps through a start and some events.
use esp32aging.Base.{◌≡◌, refl, true, false, [], ◌∷◌}
use esp32aging.Led.{
  Led, readies, toggles, offs, run_events, status_led_init, set_mirror, status_led_output,
  status_led_gpio_write, gpio_set_level,
}
use esp32aging.Led.Laws.{IsMirrored, run_events-init_IsMirrored}

-- After a reset: the latches are low, the pins no outputs.
abbrev reset : Led
reset = record {
  initialized = false;
  aging_on = false;
  pn_on = false;
  pins = record { aging_high = false; pn_high = false; output_mode = false };
}

started : (status_led_init reset true true true true false).1 ≡ true
unfolding status_led_init
started = refl

outputs : (status_led_init reset true true true true false).0.pins.output_mode ≡ true
unfolding status_led_init set_mirror status_led_output status_led_gpio_write gpio_set_level
outputs = refl

run_events-init_IsMirrored_example :
    IsMirrored (
      run_events
        (status_led_init reset true true true true false).0
        (readies ∷ toggles ∷ offs ∷ []))
run_events-init_IsMirrored_example =
    run_events-init_IsMirrored reset true true true true false (readies ∷ toggles ∷ offs ∷ []) refl
      started
