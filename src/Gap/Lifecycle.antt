-- ===== src/Gap/Lifecycle.antt =====
-- main/Task/aging_gap.c: the life of a session: opened, fed with samples, closed, and turned into
-- the intent to fill its gaps.
use esp32aging.Base.{
  ℕ, ◌+◌, Bool, true, false, not, ◌&&◌, ◌||◌, Option, none, some, List, [], ◌∷◌, ltb, leb, ◌==◌,
  if◌then◌else◌, length, u32, ℤ, pos, negsuc, ltb_ℤ, suc_ℤ, int_max, is_empty,
}
use esp32aging.Gap.Finalize.{gap_finalize}
use esp32aging.Gap.{Session, Gap, Warning, gap_find, modify, query}

-- The fresh session that `aging_gap_session_begin` writes into a free slot.
abbrev pub fresh_session : ℕ → List ℕ → List ℕ → Session
fresh_session token pn record_id = record {
  used = true;
  closed = false;
  intent = false;
  token = token;
  accepted = 0;
  processed = 0;
  persisted = 0;
  revision = 0;
  trigger = 0;
  pn = pn;
  record_id = record_id;
  next_id = pos 0;
  last_id = negsuc 0;
  round = 0;
  phase = query;
  due = 0;
}

-- Whether a slot is free, and `*slot = ...` for the first such.
unfoldable pub has_free : List Session → Bool
has_free [] = false
has_free (s ∷ ss) = not s.used || has_free ss

unfoldable pub put_free : Session → List Session → List Session
put_free new [] = []
put_free new (s ∷ ss) = if s.used then s ∷ put_free new ss else new ∷ ss

-- `++s_next_token`, which skips 0 when it wraps.
abbrev pub bump_token : ℕ → ℕ
bump_token n = let t = u32 (n + 1) in if t == 0 then u32 (t + 1) else t

-- The first critical section of `aging_gap_session_begin`; `none` is its return of false.
unfoldable pub begin_open : Gap → List ℕ → List ℕ → Option Gap
begin_open g pn record_id =
    let token = bump_token g.next_token in
    if not (g.current == 0)
    then none
    else if has_free g.sessions
    then some (record g {
      sessions = put_free (fresh_session token pn record_id) g.sessions;
      next_token = token;
      current = token;
      running = true;
    })
    else none

-- What the database says of the last sample of the session: its sequence number, that there is
-- none, or that the read failed (-2). `no_buffer` is that the result's buffer was refused.
pub data History : Type 0 where
  no_buffer read_error nothing : History
  last_seq : ℤ → History

-- `aging_gap_session_close`
unfoldable pub aging_gap_session_close : Gap → Gap × Option Warning
aging_gap_session_close g =
    if not g.ready then (g, none) else elim (gap_find g.current g.sessions) [
      | none ↦ (record g { current = 0 }, none)
      | some s ↦
          gap_finalize
            (record g {
              current = 0;
              sessions = modify s.token (λ t. record t { closed = true }) g.sessions;
            })
            s.token
    ]

-- `aging_gap_idle`
unfoldable pub aging_gap_idle : Gap → Gap
aging_gap_idle g =
    if not g.ready
    then g
    else if g.running
    then record g { running = false; trigger = u32 (g.trigger + 1) }
    else g

-- The second critical section of `aging_gap_session_begin`, after a history was found.
unfoldable pub begin_resume : Gap → ℕ → ℤ → Gap × Bool
begin_resume g token seq_no = if not g.ready then (g, true) else elim (gap_find token g.sessions) [
  | none ↦ (g, false)
  | some s ↦ if s.closed || not (g.current == token) then (g, false) else (
    record g {
      sessions =
          modify token
            (λ t. record t {
              last_id = seq_no;
              next_id = if ltb_ℤ seq_no int_max then suc_ℤ seq_no else int_max;
              persisted = 1;
            })
            g.sessions;
    },
    true,
  )
]

-- The failures of `aging_gap_session_begin` after its session was opened.
abbrev begin_abandon : Gap → Gap × Bool
begin_abandon g = (aging_gap_idle (aging_gap_session_close g).0, false)

unfoldable pub begin_history : Gap → ℕ → History → Gap × Bool
begin_history g token no_buffer = begin_abandon g
begin_history g token read_error = begin_abandon g
begin_history g token nothing = (g, true)
begin_history g token (last_seq n) = begin_resume g token n

-- `aging_gap_session_begin`. `history` is what the database answers and `others` what other tasks
-- do to the sessions while it is asked.
unfoldable pub aging_gap_session_begin :
    Gap → Option (List ℕ) → Option (List ℕ) → Bool → History → (Gap → Gap) → Gap × Bool
aging_gap_session_begin g none record_id resume history others = (g, false)
aging_gap_session_begin g (some pn) none resume history others = (g, false)
aging_gap_session_begin g (some pn) (some record_id) resume history others =
    if is_empty pn || leb 64 (length pn) || ltb 28 (length record_id) || not g.ready
    then (g, false)
    else elim (begin_open g pn record_id) [
      | none ↦ (g, false)
      | some h ↦
          if resume && not (is_empty record_id)
          then begin_history (others h) h.current history
          else (h, true)
    ]

-- `aging_gap_sample_snapshot` with buffers of the given sizes: the token and the strings, if any.
unfoldable pub aging_gap_sample_snapshot : Gap → ℕ → ℕ → Option (ℕ × List ℕ × List ℕ)
aging_gap_sample_snapshot g pn_bytes record_bytes =
    if not g.ready then none else elim (gap_find g.current g.sessions) [
      | none ↦ none
      | some s ↦
          if not s.closed && ltb (length s.pn) pn_bytes && ltb (length s.record_id) record_bytes
          then some (s.token, s.pn, s.record_id)
          else none
    ]

-- `aging_gap_sample_submit`: `arguments` is that neither pointer is NULL, `sent` that the queue
-- takes the item in time.
unfoldable pub aging_gap_sample_submit : Gap → ℕ → Bool → Bool → Gap × Bool
aging_gap_sample_submit g token arguments sent =
    if not arguments || not g.ready then (g, false) else elim (gap_find token g.sessions) [
      | none ↦ (g, false)
      | some s ↦
          if not s.closed && sent
          then (
            record g {
              sessions =
                  modify token (λ t. record t { accepted = u32 (t.accepted + 1) }) g.sessions;
            },
            true,
          )
          else (g, false)
    ]

-- `aging_gap_sample_next_id`
unfoldable pub aging_gap_sample_next_id : Gap → ℕ → Gap × ℤ
aging_gap_sample_next_id g token =
    if not g.ready then (g, negsuc 0) else elim (gap_find token g.sessions) [
      | none ↦ (g, negsuc 0)
      | some s ↦
          if ltb s.processed s.accepted && ltb_ℤ s.next_id int_max
          then (
            record g {
              sessions =
                  modify token (λ t. record t { next_id = suc_ℤ t.next_id; last_id = t.next_id })
                    g.sessions;
            },
            s.next_id,
          )
          else (g, negsuc 0)
    ]

-- `aging_gap_sample_done`
unfoldable pub aging_gap_sample_done : Gap → ℕ → Bool → Gap × Option Warning
aging_gap_sample_done g token persisted =
    if not g.ready then (g, none) else elim (gap_find token g.sessions) [
      | none ↦ (g, none)
      | some s ↦
          if leb s.accepted s.processed
          then (g, none)
          else gap_finalize
              (record g {
                sessions =
                    modify token
                      (λ t. record t {
                        processed = u32 (t.processed + 1);
                        persisted = if persisted then u32 (t.persisted + 1) else t.persisted;
                      })
                      g.sessions;
              })
              token
    ]

-- `aging_gap_mqtt_ready`: a rising edge is a new trigger.
unfoldable pub aging_gap_mqtt_ready : Gap → Bool → Gap
aging_gap_mqtt_ready g ready =
    if ready && not g.mqtt_ready
    then record g { mqtt_ready = ready; trigger = u32 (g.trigger + 1) }
    else record g { mqtt_ready = ready }
