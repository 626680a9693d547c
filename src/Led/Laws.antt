-- ===== src/Led/Laws.antt =====
-- The lamps show what the mirror says.
use esp32aging.Base.{◌≡◌, refl, Bool, true, false, not, List, [], ◌∷◌, arith}
use esp32aging.Led.{
  Led, gpio_set_level, status_led_gpio_write, set_mirror, flip_mirror, status_led_output,
  status_led_init, status_led_pn_ready, status_led_aging_start, status_led_all_off,
  status_led_toggle_both, Event, readies, starts, offs, toggles, run_event, run_events,
}

-- A lamp is lit exactly if its latch is low.
pub record IsMirrored (s : Led) : Type 0 where
  pub aging_shown : s.pins.aging_high ≡ not s.aging_on
  pub pn_shown : s.pins.pn_high ≡ not s.pn_on

run_event-IsMirrored : (s : Led) (v : Event) → IsMirrored s → IsMirrored (run_event s v)
unfolding run_event status_led_pn_ready status_led_aging_start status_led_all_off
    status_led_toggle_both set_mirror flip_mirror status_led_output status_led_gpio_write
    gpio_set_level
run_event-IsMirrored s readies h = record { aging_shown = h.aging_shown; pn_shown = refl }
run_event-IsMirrored s starts h = record { aging_shown = refl; pn_shown = h.pn_shown }
run_event-IsMirrored s offs h = record { aging_shown = refl; pn_shown = refl }
run_event-IsMirrored s toggles h = record { aging_shown = refl; pn_shown = refl }

run_events-IsMirrored : (s : Led) (vs : List Event) → IsMirrored s → IsMirrored (run_events s vs)
unfolding run_events
run_events-IsMirrored s [] h = h
run_events-IsMirrored s (v ∷ vs) h =
    run_events-IsMirrored (run_event s v) vs (run_event-IsMirrored s v h)

init-IsMirrored :
    (s : Led) (preset_aging preset_pn config again_aging again_pn : Bool)
    → s.initialized ≡ false
    → (status_led_init s preset_aging preset_pn config again_aging again_pn).1 ≡ true
    → IsMirrored (status_led_init s preset_aging preset_pn config again_aging again_pn).0
unfolding status_led_init set_mirror flip_mirror status_led_output status_led_gpio_write
    gpio_set_level
init-IsMirrored s false preset_pn config again_aging again_pn first h = absurd (ground arith)
init-IsMirrored s true false config again_aging again_pn first h = absurd (ground arith)
init-IsMirrored s true true false again_aging again_pn first h = absurd (ground arith)
init-IsMirrored s true true true false false first h =
    rw first (record { aging_shown = refl; pn_shown = refl })
init-IsMirrored s true true true false true first h =
    rw first (record { aging_shown = refl; pn_shown = refl })
init-IsMirrored s true true true true false first h =
    rw first (record { aging_shown = refl; pn_shown = refl })
init-IsMirrored s true true true true true first h =
    rw first (record { aging_shown = refl; pn_shown = refl })

-- After a first `status_led_init` that succeeds, any sequence of events whose calls of the driver
-- succeed, each of which ends before another task begins the next one, leaves each lamp's latch at the
-- level that the mirror says: low if it is on, high if off.
pub run_events-init_IsMirrored :
    (s : Led) (preset_aging preset_pn config again_aging again_pn : Bool) (vs : List Event)
    → s.initialized ≡ false
    → (status_led_init s preset_aging preset_pn config again_aging again_pn).1 ≡ true
    → IsMirrored
        (run_events (status_led_init s preset_aging preset_pn config again_aging again_pn).0 vs)
run_events-init_IsMirrored s preset_aging preset_pn config again_aging again_pn vs first h =
    run_events-IsMirrored (status_led_init s preset_aging preset_pn config again_aging again_pn).0
      vs (init-IsMirrored s preset_aging preset_pn config again_aging again_pn first h)

-- A lamp is never lit by the start: whenever `status_led_init` makes the pins outputs, whatever
-- else fails, the latches are high.
pub status_led_init-dark :
    (s : Led) (preset_aging preset_pn config again_aging again_pn : Bool)
    → s.pins.output_mode ≡ false
    → (status_led_init s preset_aging preset_pn config again_aging again_pn).0.pins.output_mode
      ≡ true
    → ((status_led_init s preset_aging preset_pn config again_aging again_pn).0.pins.aging_high
        ≡ true)
      × ((status_led_init s preset_aging preset_pn config again_aging again_pn).0.pins.pn_high
          ≡ true)
unfolding status_led_init set_mirror flip_mirror status_led_output status_led_gpio_write
    gpio_set_level
status_led_init-dark s false preset_pn config again_aging again_pn before after =
    absurd (ground arith)
status_led_init-dark s true false config again_aging again_pn before after = absurd (ground arith)
status_led_init-dark s true true false again_aging again_pn before after = absurd (ground arith)
status_led_init-dark s true true true false false before after = (ground arith, ground arith)
status_led_init-dark s true true true false true before after = (ground arith, ground arith)
status_led_init-dark s true true true true false before after = (ground arith, ground arith)
status_led_init-dark s true true true true true before after = (ground arith, ground arith)
