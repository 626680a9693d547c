-- ===== src/Mqtt.antt =====
-- main/APP/MQTT/mqtt_app.c: the reports that wait for the broker, and the retries. The rest of the
-- client (connection, subscriptions, routes) is not modelled.
pub mod Topic
pub mod Acks
pub mod Events
mod Examples
use esp32aging.Base.{
  ℕ, zero, suc, ◌+◌, ◌-◌, ◌*◌, ◌/◌, ◌%◌, ◌^◌, ◌≤◌, ◌<◌, bit_and, bit_or, bit_xor, ◌≡◌, refl, sym,
  ap, ap₂, ◌∙◌, subst, ◌≢◌, ◌↔◌, ◌⊎◌, inl, inr, Bool, true, false, not, ◌&&◌, ◌||◌, Option, none,
  some, List, [], ◌∷◌, ◌++◌, map, arith, ltb, leb, ◌==◌, ==_iff, if◌then◌else◌, Bool-cases,
  Option-cases, length, get_elem?, get_or, set, take, drop, replicate, u8, u16, u32, ◌<<<◌, ◌>>>◌,
  ◌>>=◌, fill, dec_lt, dec_le, ℕ_discrete, ℤ, pos, negsuc, signed16, signed32, some_inj, if_cases,
  ltb_ℤ, suc_ℤ, int_max, str_eq, str_eq_iff, is_empty,
}

-- `MqttEventReportKind`; another value of the enumeration is refused by `app_mqtt_event_submit`.
pub data Kind : Type 0 where
  state taskcp context warn : Kind

-- `MqttPendingEvent`.
pub record PendingEvent : Type 0 where
  pub kind : Kind
  pub taskcp_generation : ℕ
  pub topic : List ℕ
  pub payload : List ℕ

-- `s_event_ack`, with the table `early_acks` of `MqttEventWork`, two bits per message number.
pub record EventAck : Type 0 where
  pub generation : ℕ
  pub msg_id : ℤ
  pub capture : Bool
  pub flags : ℕ
  pub early_acks : ℕ → ℕ

-- `mqtt_due`
unfoldable pub mqtt_due : ℕ → ℕ → Bool
mqtt_due now deadline = ltb (u32 (now + 2 ^ 32 - deadline)) (2 ^ 31)

abbrev minimum_ms : List ℕ
minimum_ms = 2000 ∷ 4000 ∷ 8000 ∷ 16000 ∷ 30000 ∷ []

-- `mqtt_retry_delay_ms` for a value of the random generator: the next step and the delay.
unfoldable pub mqtt_retry_delay_ms : ℕ → ℕ → ℕ × ℕ
mqtt_retry_delay_ms random step =
    let minimum = get_or minimum_ms (if ltb step 4 then step else 4) 0 in
    ((if ltb step 4 then u8 (step + 1) else step), u32 (minimum + random % (minimum + 1)))
