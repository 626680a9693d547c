-- ===== src/Gap/Finalize.antt =====
-- main/Task/aging_gap.c: what becomes of a session that is closed and whose samples are processed.
use esp32aging.Base.{
  ℕ, suc, ◌+◌, Bool, true, false, not, ◌&&◌, ◌||◌, Option, none, some, List, [], ◌∷◌, leb, ◌==◌,
  if◌then◌else◌, u32, pos, ltb_ℤ, str_eq, is_empty,
}
use esp32aging.Gap.{
  Session, Gap, Warning, record_id_missing, intents_full, pending_max, gap_find, modify,
}

abbrev pub release : Session → Session
release s = record s { used = false }

-- An old intent for the same session at the server.
unfoldable pub same_intent : Session → Session → Bool
same_intent s old = old.used && old.intent && str_eq old.pn s.pn && str_eq old.record_id s.record_id

abbrev pub merged : Session → Session → Session
merged s old = record old {
  last_id = if ltb_ℤ old.last_id s.last_id then s.last_id else old.last_id;
  revision = u32 (old.revision + 1);
  round = 0;
}

-- The loop of `gap_finalize` up to its early return: whether it meets an intent that fits, and
-- the slots with the session merged into the first such.
unfoldable pub has_intent : Session → List Session → Bool
has_intent s [] = false
has_intent s (old ∷ ss) = same_intent s old || has_intent s ss

unfoldable pub merge_into : Session → List Session → List Session
merge_into s [] = []
merge_into s (old ∷ ss) = if same_intent s old then merged s old ∷ ss else old ∷ merge_into s ss

-- How many intents the loop counts when it runs to its end.
unfoldable pub pending : List Session → ℕ
pending [] = 0
pending (s ∷ ss) = if s.used && s.intent then suc (pending ss) else pending ss

-- The decision of `gap_finalize` on the session `s`, a slot of `ss`.
unfoldable pub finalize_slots : Session → List Session → List Session × Option Warning
finalize_slots s ss =
    if not s.closed || not (s.accepted == s.processed) || s.intent
    then (ss, none)
    else if s.persisted == 0 || ltb_ℤ s.last_id (pos 0)
    then (modify s.token release ss, none)
    else if is_empty s.record_id
    then (modify s.token release ss, some record_id_missing)
    else if has_intent s ss
    then (modify s.token release (merge_into s ss), none)
    else if leb pending_max (pending ss)
    then (modify s.token release ss, some intents_full)
    else (
      modify s.token (λ t. record t { intent = true; revision = u32 (t.revision + 1); round = 0 })
          ss,
      none,
    )

-- `gap_finalize` through the pointer to the slot with the token.
unfoldable pub gap_finalize : Gap → ℕ → Gap × Option Warning
gap_finalize g t = elim (gap_find t g.sessions) [
  | none ↦ (g, none)
  | some s ↦ let (ss, w) = finalize_slots s g.sessions in (record g { sessions = ss }, w)
]
