-- ===== src/Transfer/Mailbox.antt =====
-- main/APP/OTA/mesh_ota.c: the requests of the nodes below to be told that the image is ready. The
-- SDK's task puts them into a ring of eight, the service task takes them out.
pub mod Laws
use esp32aging.Base.{
  ℕ, zero, suc, ◌+◌, ◌-◌, ◌%◌, ◌^◌, Bool, false, not, ◌&&◌, ◌||◌, Option, none, some, List, [], ◌∷◌,
  ltb, leb, ◌==◌, if◌then◌else◌, length, get_or, set, replicate, u32, str_eq, is_empty,
}
use esp32aging.Ota.{c_str}
use esp32aging.Transfer.{ReadyFile, binary_name_valid, name_of}

-- `OtaResumeRequest`
pub record Request : Type 0 where
  pub file_name : List ℕ
  pub version : List ℕ
  pub device_id : List ℕ
  pub size_bytes : ℕ
  pub request_id : ℕ
  pub received_tick : ℕ

-- `s_resume_mailbox` with its counters, under `s_resume_lock`.
pub record Mailbox : Type 0 where
  pub slots : List Request
  pub head : ℕ
  pub count : ℕ
  pub dropped : ℕ

abbrev pub mailbox_size : ℕ
mailbox_size = 8

abbrev pub no_request : Request
no_request = record {
  file_name = [];
  version = [];
  device_id = [];
  size_bytes = 0;
  request_id = 0;
  received_tick = 0;
}

abbrev pub empty_mailbox : Mailbox
empty_mailbox = record {
  slots = replicate mailbox_size no_request;
  head = 0;
  count = 0;
  dropped = 0;
}

-- The section of `resume_request_cb`.
unfoldable pub put_request : Request → Mailbox → Mailbox
put_request q m =
    if ltb m.count mailbox_size
    then record m { slots = set m.slots ((m.head + m.count) % mailbox_size) q; count = m.count + 1 }
    else if ltb m.dropped (2 ^ 32 - 1)
    then record m { dropped = m.dropped + 1 }
    else m

-- A string in the payload, that is not empty and fits an array.
abbrev fits_array : ℕ → Option (List ℕ) → Bool
fits_array capacity none = false
fits_array capacity (some text) = not (is_empty text) && ltb (length text) capacity

-- The strings and the numbers of the payload, where cJSON has them; a number is what `resume_u32`
-- accepts.
pub record Payload : Type 0 where
  pub file : Option (List ℕ)
  pub version : Option (List ℕ)
  pub device : Option (List ℕ)
  pub size_bytes : Option ℕ
  pub request_id : Option ℕ

-- `resume_request_cb` at the tick count `now`; `ready` is that the service is initialized and the
-- payload an object.
unfoldable pub resume_request_cb : Bool → Payload → ℕ → Mailbox → Mailbox
resume_request_cb ready p now m =
    if not ready
      || not (binary_name_valid p.file)
      || not (fits_array 32 p.version)
      || not (fits_array 32 p.device)
    then m
    else elim p.size_bytes [
      | none ↦ m
      | some size_bytes ↦ elim p.request_id [
        | none ↦ m
        | some request_id ↦
            put_request
              (record {
                file_name = name_of p.file;
                version = name_of p.version;
                device_id = name_of p.device;
                size_bytes = size_bytes;
                request_id = request_id;
                received_tick = now;
              })
              m
      ]
    ]

-- The section of a round of `poll_resume_requests`.
unfoldable pub take_request : Mailbox → Mailbox × Request
take_request m = (
  record m { head = (m.head + 1) % mailbox_size; count = u32 (m.count + 2 ^ 32 - 1) },
  get_or m.slots m.head no_request,
)

-- What a round of `poll_resume_requests` reads: the tick count, that a restart is planned, that the
-- node is busy, that the mutex is taken, and under it that the receiver is free. The requests arrive
-- before the round takes one.
pub record Round : Type 0 where
  pub now : ℕ
  pub planned : Bool
  pub busy : Bool
  pub locks : Bool
  pub receiver_free : Bool
  pub arrivals : List Request

-- That the round finds no reason against the request; `ttl` is the ticks of 30 s.
unfoldable pub request_ready : ℕ → ReadyFile → List ℕ → Round → Request → Bool
request_ready ttl ready ready_version e q =
    if leb ttl (u32 (e.now + 2 ^ 32 - q.received_tick))
    then false
    else if e.planned
    then false
    else if e.busy
    then false
    else if not e.locks
    then false
    else if not e.receiver_free || not ready.valid
    then false
    else str_eq q.file_name (c_str ready.file_name)
      && str_eq q.version ready_version
      && q.size_bytes == ready.size_bytes

unfoldable pub put_all : List Request → Mailbox → Mailbox
put_all [] m = m
put_all (q ∷ qs) m = put_all qs (put_request q m)

module _ (ttl : ℕ) (ready : ReadyFile) (ready_version : List ℕ) where
  -- The loop: the requests that were taken, and `matched`. The rounds that happen are given, one for
  -- each request at least.
  unfoldable pub poll_loop : ℕ → List Round → Bool → Mailbox → (Mailbox × List Request) × Bool
  poll_loop zero es matched m = ((m, []), matched)
  poll_loop (suc count) [] matched m = ((m, []), matched)
  poll_loop (suc count) (e ∷ es) matched m =
      let taken = take_request (put_all e.arrivals m) in
      let rest =
        poll_loop count es (matched || request_ready ttl ready ready_version e taken.1) taken.0 in
      ((rest.0.0, taken.1 ∷ rest.0.1), rest.1)

  -- `poll_resume_requests`, up to the test of `matched`.
  unfoldable pub poll_requests : List Round → Mailbox → (Mailbox × List Request) × Bool
  poll_requests es m = poll_loop m.count es false (record m { dropped = 0 })

-- Its end: that the children are notified. `interval` is the ticks of 5 s, `last` the tick count of
-- the last notification, if there was one.
unfoldable pub notifies : ℕ → Bool → Option ℕ → ℕ → Bool → Bool
notifies interval matched last now planned =
    matched
    && not (elim last [ none ↦ false | some t ↦ ltb (u32 (now + 2 ^ 32 - t)) interval ])
    && not planned
