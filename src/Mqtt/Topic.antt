-- ===== src/Mqtt/Topic.antt =====
-- main/APP/MQTT/mqtt_app.c, `app_mqtt_event_submit`: the topic of a report, and the checks of its
-- arguments. Texts are lists of bytes before their NUL.
use esp32aging.Base.{
  ℕ, Bool, false, ◌&&◌, ◌||◌, Option, none, some, List, [], ◌∷◌, ◌++◌, leb, ◌==◌, if◌then◌else◌,
  length, ◌>>=◌, is_empty,
}
use esp32aging.Mqtt.{Kind, PendingEvent}

abbrev pub topic_capacity : ℕ
topic_capacity = 64

abbrev pub payload_bytes : ℕ
payload_bytes = 512

-- `strstr(topic_name, "%s")`: what stands before the first placeholder and after it.
unfoldable pub placeholder : List ℕ → Option (List ℕ × List ℕ)
placeholder [] = none
placeholder (c ∷ []) = none
placeholder (c ∷ d ∷ cs) =
    if (c == 37) && (d == 115)
    then some ([], cs)
    else (placeholder (d ∷ cs) >>= λ p. some (c ∷ p.0, p.1))

-- `strchr` and `memchr` of a percent sign.
unfoldable pub has_percent : List ℕ → Bool
has_percent [] = false
has_percent (c ∷ cs) = (c == 37) || has_percent cs

-- The topic before it is cut to its buffer.
unfoldable pub full_topic : List ℕ → Option (List ℕ) → Option (List ℕ)
full_topic topic_name none = some topic_name
full_topic topic_name (some device_id) = placeholder topic_name >>= λ p.
    if has_percent p.1 || has_percent p.0 then none else some (p.0 ++ (device_id ++ p.1))

-- The item that the arguments make, if they are in order; `none` for a pointer is NULL.
unfoldable pub event_item :
    Option (List ℕ) → Option (List ℕ) → Option (List ℕ) → Kind → Option PendingEvent
event_item topic_name payload device_id kind = topic_name >>= λ name. payload >>= λ text.
    if is_empty text || leb payload_bytes (length text)
    then none
    else (full_topic name device_id >>= λ topic.
        if (length topic == 0) || leb topic_capacity (length topic)
        then none
        else some (record { kind = kind; taskcp_generation = 0; topic = topic; payload = text }))
