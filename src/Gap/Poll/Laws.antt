-- ===== src/Gap/Poll/Laws.antt =====
-- An intent to fill gaps ends only when the server answers that nothing is missing.
use esp32aging.Base.{
  ℕ, ◌+◌, ◌≡◌, refl, ◌∙◌, ◌≢◌, inl, inr, Bool, true, false, not, ◌&&◌, ◌||◌, Option, none, some,
  List, [], ◌∷◌, map, arith, ◌==◌, if◌then◌else◌, Bool-cases, u32, ℤ,
}
use esp32aging.Gap.{
  send, Session, Gap, Warning, rounds_exhausted, modify, send_failed, read_failed, verify,
  no_memory,
}
use esp32aging.Gap.Poll.{
  Env, arm, gap_retry, claim_work, write_back, retry_slot, apply_answer, poll_query, poll_sent,
  poll_publish, poll_send, poll_slot, aging_gap_poll, gap_parse_ids, clear_ids, before_due,
  gap_can_run, select, is_send,
}

-- The tokens of the intents, in the order of the slots.
unfoldable pub intents_of : List Session → List ℕ
intents_of [] = []
intents_of (s ∷ ss) = if s.used && s.intent then s.token ∷ intents_of ss else intents_of ss

-- A write that leaves use, intent and token as they are.
abbrev Keeps : (Session → Session) → Type 0
Keeps f =
    (s : Session) → ((f s).used ≡ s.used) × ((f s).intent ≡ s.intent) × ((f s).token ≡ s.token)

intents_of-map :
    (f : Session → Session) → Keeps f → (ss : List Session) → intents_of (map f ss) ≡ intents_of ss
unfolding intents_of
intents_of-map f keeps [] = refl
intents_of-map f keeps (s ∷ ss) =
    rw ((keeps s).0, (keeps s).1, (keeps s).2, intents_of-map f keeps ss) refl

intents_of-modify :
    (t : ℕ) (f : Session → Session)
    → Keeps f
    → (ss : List Session) → intents_of (modify t f ss) ≡ intents_of ss
unfolding intents_of modify
intents_of-modify t f keeps [] = refl
intents_of-modify t f keeps (s ∷ ss) = elim (Bool-cases (s.used && s.token == t)) [
  | inl hit ↦ rw (hit, intents_of, (keeps s).0, (keeps s).1, (keeps s).2) refl
  | inr miss ↦ rw (miss, intents_of, intents_of-modify t f keeps ss) refl
]

arm-Keeps : (e : Env) (trigger : ℕ) → Keeps (arm e trigger)
unfolding arm
arm-Keeps e trigger s =
    elim (Bool-cases (s.used && s.intent && (s.round == 0 || not (s.trigger == trigger)))) [
      | inl hit ↦ rw hit (refl, refl, refl)
      | inr miss ↦ rw miss (refl, refl, refl)
    ]

-- The tokens of the intents of a state.
abbrev intents : Gap → List ℕ
intents g = intents_of g.sessions

write_back-intents :
    (g : Gap) (snapshot : Session) (f : Session → Session)
    → Keeps f
    → intents (write_back g snapshot f) ≡ intents g
unfolding write_back
write_back-intents g snapshot f keeps =
    ground (arith, intents_of-modify snapshot.token f keeps g.sessions)

retry_slot-intents :
    (e : Env) (g : Gap) (snapshot : Session) (w : Warning)
    → intents (retry_slot e g snapshot w).0 ≡ intents g
unfolding retry_slot gap_retry
retry_slot-intents e g snapshot w =
    write_back-intents g snapshot (gap_retry e e.later) (λ s. (refl, refl, refl))

claim_work-intents : (g : Gap) (snapshot : Session) → intents (claim_work g snapshot) ≡ intents g
unfolding claim_work
claim_work-intents g snapshot = ground arith

apply_answer-intents :
    (e : Env) (g : Gap) (snapshot : Session) (answer : Option (List ℤ))
    → answer ≢ some []
    → intents (apply_answer e g snapshot answer).0 ≡ intents g
unfolding apply_answer gap_retry
apply_answer-intents e g snapshot none ne =
    ground (arith, retry_slot-intents e g snapshot rounds_exhausted)
apply_answer-intents e g snapshot (some []) ne = absurd (ne refl)
apply_answer-intents e g snapshot (some (i ∷ is)) ne = ground (
  arith,
  retry_slot-intents e g snapshot rounds_exhausted,
  intents_of-modify snapshot.token (λ t. record t { phase = send; due = e.later })
      (λ _. (refl, refl, refl)) g.sessions,
  intents_of-modify snapshot.token (λ t. record (gap_retry e e.later t) { phase = send })
      (λ _. (refl, refl, refl)) g.sessions,
)

-- What the other tasks do keeps the intents.
abbrev Respects : Env → Type 0
Respects e = (k : ℕ) (g : Gap) → intents (e.others k g) ≡ intents g

poll_query-intents :
    (e : Env) (g : Gap) (snapshot : Session)
    → Respects e
    → ((last : ℤ) → e.http_ok ≡ true → gap_parse_ids e.body e.ids_granted last ≢ some [])
    → intents (poll_query e g snapshot).0 ≡ intents g
unfolding poll_query
poll_query-intents e g snapshot respects unanswered =
    elim (Bool-cases (gap_can_run e 1 (e.others 1 g) snapshot)) [
      | inr stop ↦ rw stop (respects 1 g)
      | inl run ↦ rw run (
          apply_answer-intents e (e.others 2 (e.others 1 g)) snapshot answer not_empty
          ∙ respects 2 (e.others 1 g)
          ∙ respects 1 g)
    ]
  where
    answer : Option (List ℤ)
    answer = if e.http_ok then gap_parse_ids e.body e.ids_granted snapshot.last_id else none

    not_empty : answer ≢ some []
    not_empty eq = ground (arith, unanswered snapshot.last_id)

poll_sent-intents :
    (e : Env) (g : Gap) (snapshot : Session) → intents (poll_sent e g snapshot).0 ≡ intents g
unfolding poll_sent
poll_sent-intents e g snapshot =
    write_back-intents (record g { work = clear_ids g.work }) snapshot
      (λ t. record t { phase = verify; due = u32 (e.later + e.ticks 5000) })
      (λ _. (refl, refl, refl))

poll_publish-intents :
    (e : Env) (g : Gap) (snapshot : Session)
    → Respects e
    → intents (poll_publish e g snapshot).0 ≡ intents g
unfolding poll_publish
poll_publish-intents e g snapshot respects = ground (
  arith,
  respects 1 g,
  respects 2 (e.others 1 g),
  retry_slot-intents e (e.others 2 (e.others 1 g)) snapshot send_failed,
  intents_of-modify snapshot.token (λ t. record t { due = u32 (e.later + e.ticks 1000) })
      (λ _. (refl, refl, refl)) (e.others 2 (e.others 1 g)).sessions,
)

poll_send-intents :
    (e : Env) (g : Gap) (snapshot : Session)
    → Respects e
    → intents (poll_send e g snapshot).0 ≡ intents g
unfolding poll_send
poll_send-intents e g snapshot respects = ground (
  arith,
  respects 1 g,
  retry_slot-intents e (e.others 1 g) snapshot read_failed,
  poll_sent-intents e g snapshot,
  poll_publish-intents e g snapshot respects,
)

poll_slot-intents :
    (e : Env) (g : Gap) (snapshot : Session)
    → Respects e
    → ((last : ℤ) → e.http_ok ≡ true → gap_parse_ids e.body e.ids_granted last ≢ some [])
    → intents (poll_slot e g snapshot).0 ≡ intents g
unfolding poll_slot gap_retry
poll_slot-intents e g snapshot respects unanswered =
    tested e.buffers (gap_can_run e 0 claimed snapshot) (is_send snapshot.phase)
  where
    claimed : Gap
    claimed = claim_work (e.others 0 g) snapshot

    kept : intents claimed ≡ intents g
    kept = claim_work-intents (e.others 0 g) snapshot ∙ respects 0 g

    tested :
        (buffers runs sends : Bool)
        → intents
            (if not buffers
              then (write_back claimed snapshot (gap_retry e e.later), no_memory ∷ [])
              else if not runs
              then (claimed, [])
              else if sends
              then poll_send e claimed snapshot
              else poll_query e claimed snapshot).0
          ≡ intents g
    tested false runs sends =
        write_back-intents claimed snapshot (gap_retry e e.later) (λ _. (refl, refl, refl)) ∙ kept
    tested true false sends = kept
    tested true true true = poll_send-intents e claimed snapshot respects ∙ kept
    tested true true false = poll_query-intents e claimed snapshot respects unanswered ∙ kept

-- While the server does not answer with a valid, empty list of missing numbers, and the other tasks
-- keep the intents, one round of `aging_gap_poll` loses no intent and makes none, whatever fails:
-- memory, the query, the database or the publishing.
pub aging_gap_poll-intents :
    (e : Env) (g : Gap)
    → ((k : ℕ) (h : Gap) → intents_of (e.others k h).sessions ≡ intents_of h.sessions)
    → ((last : ℤ) → e.http_ok ≡ true → gap_parse_ids e.body e.ids_granted last ≢ some [])
    → intents_of (aging_gap_poll e g).0.sessions ≡ intents_of g.sessions
unfolding aging_gap_poll
aging_gap_poll-intents e g respects unanswered =
    tested (not g.mqtt_ready || not e.connected || not g.ready) g.running
      (select none armed.sessions)
  where
    armed : Gap
    armed = record g { sessions = map (arm e g.trigger) g.sessions }

    kept : intents armed ≡ intents g
    kept = intents_of-map (arm e g.trigger) (arm-Keeps e g.trigger) g.sessions

    chosen :
        (snapshot : Session) (early : Bool)
        → intents (if early then (armed, []) else poll_slot e armed snapshot).0 ≡ intents g
    chosen snapshot true = kept
    chosen snapshot false = poll_slot-intents e armed snapshot respects unanswered ∙ kept

    tested :
        (off running : Bool) (slot : Option Session)
        → intents
            (if◌then◌else◌ {A = Gap × List Warning} off
              (g, [])
              (if running then (g, []) else elim slot [
                | none ↦ (armed, [])
                | some snapshot ↦
                    if before_due e.chosen_at snapshot.due
                    then (armed, [])
                    else poll_slot e armed snapshot
              ])).0
          ≡ intents g
    tested true running slot = refl
    tested false true slot = refl
    tested false false none = kept
    tested false false (some snapshot) = chosen snapshot (before_due e.chosen_at snapshot.due)
