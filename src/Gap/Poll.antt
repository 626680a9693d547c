-- ===== src/Gap/Poll.antt =====
-- main/Task/aging_gap.c, `aging_gap_poll`: one round of the task that fills the gaps. It holds the
-- lock only for short sections; `others k` is what the other tasks do to the sessions while it
-- waits for the k-th time without the lock.
pub mod Laws
use esp32aging.Base.{
  ℕ, zero, suc, ◌+◌, ◌-◌, ◌*◌, ◌/◌, ◌%◌, ◌^◌, ◌≤◌, ◌<◌, bit_and, bit_or, bit_xor, ◌≡◌, refl, sym,
  ap, ap₂, ◌∙◌, subst, ◌≢◌, ◌↔◌, ◌⊎◌, inl, inr, Bool, true, false, not, ◌&&◌, ◌||◌, Option, none,
  some, List, [], ◌∷◌, ◌++◌, map, arith, ltb, leb, ◌==◌, ==_iff, if◌then◌else◌, Bool-cases,
  Option-cases, length, get_elem?, get_or, set, take, drop, replicate, u8, u16, u32, ◌<<<◌, ◌>>>◌,
  ◌>>=◌, fill, dec_lt, dec_le, ℕ_discrete, ℤ, pos, negsuc, signed16, signed32, some_inj, if_cases,
  ltb_ℤ, suc_ℤ, int_max, str_eq, str_eq_iff, is_empty,
}
use esp32aging.Gap.{
  Phase, query, send, verify, Session, Work, Gap, Warning, no_memory, rounds_exhausted, read_failed,
  send_failed, unavailable, gap_find, modify,
}
use esp32aging.Gap.Ids.{JsonItem, gap_parse_ids}

-- What the database says of the record that is to be sent again; its text, if it has one.
pub data Lookup : Type 0 where
  db_error missing empty_text found_text : Lookup

-- What one round meets outside of the module. `ticks` is `pdMS_TO_TICKS` at the configured tick
-- rate, `start`, `chosen_at` and `later` the tick counts that are read where slots are armed, where the
-- chosen one is tested, and in a later section; `still_connected` is what each `gap_can_run` reads.
pub record Env : Type 0 where
  pub connected : Bool
  pub still_connected : ℕ → Bool
  pub ticks : ℕ → ℕ
  pub start : ℕ
  pub chosen_at : ℕ
  pub later : ℕ
  pub buffers : Bool
  pub http_ok : Bool
  pub body : Option (List JsonItem)
  pub ids_granted : Bool
  pub lookup : Lookup
  pub published : Bool
  pub others : ℕ → Gap → Gap

abbrev pub rounds_max : ℕ
rounds_max = 3

-- `(int32_t)(now - due) < 0`
abbrev pub before_due : ℕ → ℕ → Bool
before_due now due = leb (2 ^ 31) (u32 (now + 2 ^ 32 - due))

-- A new intent, or one of before the last trigger, starts its first round.
unfoldable pub arm : Env → ℕ → Session → Session
arm e trigger s =
    if s.used && s.intent && (s.round == 0 || not (s.trigger == trigger))
    then record s {
      trigger = trigger;
      round = 1;
      phase = query;
      due = u32 (e.start + e.ticks 5000);
    }
    else s

abbrev older : Option Session → Session → Session
older none s = s
older (some b) s = if ltb s.token b.token then s else b

-- The candidate with the smallest token, over the slots from left to right.
unfoldable pub select : Option Session → List Session → Option Session
select best [] = best
select best (s ∷ ss) =
    select (if s.used && s.intent && leb s.round rounds_max then some (older best s) else best) ss

-- `gap_retry`
unfoldable pub gap_retry : Env → ℕ → Session → Session
gap_retry e now s =
    let round = s.round + 1 in
    record s {
      round = round;
      phase = query;
      due = u32 (now + (if round == 2 then e.ticks 10000 else e.ticks 30000));
    }

-- `gap_can_run`, at the `k`-th of its calls.
unfoldable pub gap_can_run : Env → ℕ → Gap → Session → Bool
gap_can_run e k g snapshot =
    g.mqtt_ready && e.still_connected k && g.ready && (elim (gap_find snapshot.token g.sessions) [
      | none ↦ false
      | some s ↦
          not g.running && s.intent && s.revision == snapshot.revision && s.trigger == g.trigger
    ])

abbrev pub is_query : Phase → Bool
is_query query = true
is_query send = false
is_query verify = false

abbrev pub is_send : Phase → Bool
is_send query = false
is_send send = true
is_send verify = false

-- `gap_work_clear_ids`
abbrev pub clear_ids : Work → Work
clear_ids w = record w { ids = []; index = 0; missing = 0 }

-- The work slot is made the snapshot's.
unfoldable pub claim_work : Gap → Session → Gap
claim_work g snapshot =
    if not (g.work.token == snapshot.token)
      || not (g.work.revision == snapshot.revision)
      || is_query snapshot.phase
    then record g {
      work = record (clear_ids g.work) { token = snapshot.token; revision = snapshot.revision };
    }
    else g

-- A write to the snapshot's slot, if it is still there in the same revision.
unfoldable pub write_back : Gap → Session → (Session → Session) → Gap
write_back g snapshot f = if not g.ready then g else elim (gap_find snapshot.token g.sessions) [
  | none ↦ g
  | some s ↦
      if s.revision == snapshot.revision
      then record g { sessions = modify snapshot.token f g.sessions }
      else g
]

-- Whether the slot's retry uses up its rounds.
unfoldable pub retry_exhausts : Gap → Session → Bool
retry_exhausts g snapshot = g.ready && (elim (gap_find snapshot.token g.sessions) [
  | none ↦ false
  | some s ↦ s.revision == snapshot.revision && ltb rounds_max (s.round + 1)
])

abbrev warn_if : Bool → Warning → List Warning
warn_if true w = w ∷ []
warn_if false w = []

-- A retry, with the warning that is due if it was the last.
unfoldable pub retry_slot : Env → Gap → Session → Warning → Gap × List Warning
retry_slot e g snapshot w =
    (write_back g snapshot (gap_retry e e.later), warn_if (retry_exhausts g snapshot) w)

-- The section after the query. `answer` is the list of missing numbers, if it could be read.
unfoldable pub apply_answer : Env → Gap → Session → Option (List ℤ) → Gap × List Warning
apply_answer e g snapshot answer =
    if not g.ready then (g, []) else elim (gap_find snapshot.token g.sessions) [
      | none ↦ (g, [])
      | some s ↦
          if not (s.revision == snapshot.revision) || g.running then (g, []) else elim answer [
            | none ↦ retry_slot e g snapshot rounds_exhausted
            | some [] ↦ (
              record g {
                sessions = modify snapshot.token (λ t. record t { used = false }) g.sessions;
                work = clear_ids g.work;
              },
              [],
            )
            | some (i ∷ is) ↦
                if is_query snapshot.phase
                then (
                  record g {
                    work = record (clear_ids g.work) { ids = i ∷ is };
                    sessions =
                        modify snapshot.token (λ t. record t { phase = send; due = e.later })
                          g.sessions;
                  },
                  [],
                )
                else if ltb rounds_max (s.round + 1)
                then retry_slot e g snapshot rounds_exhausted
                else (
                  record g {
                    work = record (clear_ids g.work) { ids = i ∷ is };
                    sessions =
                        modify snapshot.token (λ t. record (gap_retry e e.later t) { phase = send })
                          g.sessions;
                  },
                  [],
                )
          ]
    ]

-- The query and verify phases.
unfoldable pub poll_query : Env → Gap → Session → Gap × List Warning
poll_query e g snapshot =
    let answered = e.others 1 g in
    if not (gap_can_run e 1 answered snapshot)
    then (answered, [])
    else apply_answer e (e.others 2 answered) snapshot
        (if e.http_ok then gap_parse_ids e.body e.ids_granted snapshot.last_id else none)

-- All numbers were handled: wait for the server, then verify.
unfoldable pub poll_sent : Env → Gap → Session → Gap × List Warning
poll_sent e g snapshot =
    let lost = g.work.missing in
    let cleared = record g { work = clear_ids g.work } in
    (
      write_back cleared snapshot
          (λ t. record t { phase = verify; due = u32 (e.later + e.ticks 5000) }),
      warn_if (ltb 0 lost) (unavailable lost),
    )

-- The record of the next number was found: send it.
unfoldable pub poll_publish : Env → Gap → Session → Gap × List Warning
poll_publish e g snapshot =
    let again = e.others 1 g in
    if not (gap_can_run e 1 again snapshot)
    then (again, [])
    else let after = e.others 2 again in
      if not e.published
      then retry_slot e after snapshot send_failed
      else (if not after.ready then (after, []) else elim (gap_find snapshot.token after.sessions) [
        | none ↦ (after, [])
        | some s ↦
            if s.revision == snapshot.revision
            then (
              record after {
                work = record after.work { index = after.work.index + 1 };
                sessions =
                    modify snapshot.token (λ t. record t { due = u32 (e.later + e.ticks 1000) })
                      after.sessions;
              },
              [],
            )
            else (after, [])
      ])

abbrev skip_missing : Gap → Gap
skip_missing g = record g {
  work = record g.work { missing = g.work.missing + 1; index = g.work.index + 1 };
}

-- The send phase.
unfoldable pub poll_send : Env → Gap → Session → Gap × List Warning
poll_send e g snapshot =
    if leb (length g.work.ids) g.work.index then poll_sent e g snapshot else elim e.lookup [
      | db_error ↦ retry_slot e (e.others 1 g) snapshot read_failed
      | missing ↦ (skip_missing (e.others 1 g), [])
      | empty_text ↦ (skip_missing (e.others 1 g), [])
      | found_text ↦ poll_publish e g snapshot
    ]

-- What follows the choice of a slot.
unfoldable pub poll_slot : Env → Gap → Session → Gap × List Warning
poll_slot e g snapshot =
    let claimed = claim_work (e.others 0 g) snapshot in
    if not e.buffers
    then (write_back claimed snapshot (gap_retry e e.later), no_memory ∷ [])
    else if not (gap_can_run e 0 claimed snapshot)
    then (claimed, [])
    else if is_send snapshot.phase
    then poll_send e claimed snapshot
    else poll_query e claimed snapshot

-- `aging_gap_poll`
unfoldable pub aging_gap_poll : Env → Gap → Gap × List Warning
aging_gap_poll e g =
    if not g.mqtt_ready || not e.connected || not g.ready
    then (g, [])
    else if g.running
    then (g, [])
    else let armed = record g { sessions = map (arm e g.trigger) g.sessions } in
      elim (select none armed.sessions) [
        | none ↦ (armed, [])
        | some snapshot ↦
            if before_due e.chosen_at snapshot.due then (armed, []) else poll_slot e armed snapshot
      ]
