-- ===== src/Mqtt/Acks.antt =====
-- main/APP/MQTT/mqtt_app.c: the broker's answers to a report, also those that come before the SDK
-- has returned the number of the message.
pub mod Laws
use esp32aging.Base.{
  ℕ, zero, suc, ◌+◌, ◌-◌, ◌*◌, ◌/◌, ◌%◌, ◌^◌, ◌≤◌, ◌<◌, bit_and, bit_or, bit_xor, ◌≡◌, refl, sym,
  ap, ap₂, ◌∙◌, subst, ◌≢◌, ◌↔◌, ◌⊎◌, inl, inr, Bool, true, false, not, ◌&&◌, ◌||◌, Option, none,
  some, List, [], ◌∷◌, ◌++◌, map, arith, ltb, leb, ◌==◌, ==_iff, if◌then◌else◌, Bool-cases,
  Option-cases, length, get_elem?, get_or, set, take, drop, replicate, u8, u16, u32, ◌<<<◌, ◌>>>◌,
  ◌>>=◌, fill, dec_lt, dec_le, ℕ_discrete, ℤ, pos, negsuc, signed16, signed32, some_inj, if_cases,
  ltb_ℤ, suc_ℤ, int_max, str_eq, str_eq_iff, is_empty,
}
use esp32aging.Mqtt.{EventAck}

-- `MQTT_ACK_PUBLISHED` or `MQTT_ACK_DELETED` of the SDK's event.
pub data Ack : Type 0 where
  published deleted : Ack

abbrev pub ack_flag : Ack → ℕ
ack_flag published = 1
ack_flag deleted = 2

-- A message number that fits the table: 0 < id <= UINT16_MAX.
abbrev pub in_range : ℤ → Bool
in_range (pos n) = ltb 0 n && leb n 0xffff
in_range (negsuc n) = false

abbrev pub id_of : ℤ → ℕ
id_of (pos n) = n
id_of (negsuc n) = 0

abbrev pub eq_ℤ : ℤ → ℤ → Bool
eq_ℤ (pos a) (pos b) = a == b
eq_ℤ (negsuc a) (negsuc b) = a == b
eq_ℤ (pos a) (negsuc b) = false
eq_ℤ (negsuc a) (pos b) = false

-- `early_acks[id / 4] |= flag << shift`
unfoldable pub mark : (ℕ → ℕ) → ℕ → ℕ → ℕ → ℕ
mark early_acks id flag i =
    if i == id / 4 then u8 (bit_or (early_acks i) (flag <<< (id % 4 * 2))) else early_acks i

-- `(early_acks[id / 4] >> shift) & 3`
unfoldable pub marked : (ℕ → ℕ) → ℕ → ℕ
marked early_acks id = bit_and (early_acks (id / 4) >>> (id % 4 * 2)) 3

-- `mqtt_event_ack_event`; `same_client` is `event->client == s_client`.
unfoldable pub mqtt_event_ack_event : Bool → ℕ → ℤ → Ack → EventAck → EventAck
mqtt_event_ack_event same_client client_generation msg_id ack a =
    if not (in_range msg_id)
    then a
    else if not (same_client && (a.generation == client_generation))
    then a
    else record a {
      early_acks =
          if a.capture then mark a.early_acks (id_of msg_id) (ack_flag ack) else a.early_acks;
      flags = if eq_ℤ msg_id a.msg_id then u8 (bit_or a.flags (ack_flag ack)) else a.flags;
    }

-- `mqtt_event_ack_reset`
unfoldable pub mqtt_event_ack_reset : EventAck → EventAck
mqtt_event_ack_reset a = record a { capture = false; msg_id = pos 0; flags = 0 }

-- `mqtt_event_ack_begin`
unfoldable pub mqtt_event_ack_begin : ℕ → EventAck → EventAck
mqtt_event_ack_begin generation a = record (mqtt_event_ack_reset a) {
  early_acks = λ _. 0;
  generation = generation;
  capture = true;
}

-- `mqtt_event_ack_register`
unfoldable pub mqtt_event_ack_register : ℤ → EventAck → EventAck
mqtt_event_ack_register msg_id a = record a {
  capture = false;
  msg_id = pos (id_of msg_id);
  flags = if in_range msg_id then marked a.early_acks (id_of msg_id) else 0;
}
