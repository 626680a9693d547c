-- ===== src/Gap/Examples.antt =====
-- Runs of the sessions at concrete values.
use esp32aging.Base.{
  ◌≡◌, refl, ◌≢◌, true, false, none, some, List, [], ◌∷◌, arith, ℤ, pos, negsuc, ltb_ℤ, str_eq,
}
use esp32aging.Gap.{Gap, gap_find, modify}
use esp32aging.Gap.Finalize.{gap_finalize, finalize_slots, has_intent, same_intent, pending}
use esp32aging.Gap.Lifecycle.{
  begin_open, put_free, has_free, aging_gap_sample_submit, aging_gap_sample_next_id,
  aging_gap_sample_done, aging_gap_session_close, fresh_session, begin_open,
  aging_gap_sample_submit, aging_gap_sample_next_id, aging_gap_sample_done, aging_gap_session_close,
}
use esp32aging.Gap.Inv.{Inv}
use esp32aging.Gap.Inv.Steps.{
  Section, opens, submits, numbers, dones, closes, run_section, run_sections, init_gap,
  run_sections-init_Inv,
}
use esp32aging.Gap.Ids.{
  JsonItem, integer, gap_parse_ids, collect_ids, sort_ids, insert_id, gap_id_compare, unique_ids,
  unique_after,
}
use esp32aging.Gap.Ids.Laws.{AscendsAbove, mem_id, mem_item, gap_parse_ids_lem}
use esp32aging.Gap.Poll.{Env, found_text, aging_gap_poll}
use esp32aging.Gap.Poll.Laws.{intents_of, aging_gap_poll-intents}

-- A session with one sample, which ends in an intent.
abbrev one_sample : List Section
one_sample =
    opens (80 ∷ []) (82 ∷ []) ∷ submits 1 true true ∷ numbers 1 ∷ dones 1 true ∷ closes ∷ []

one_sample-intent : intents_of (run_sections init_gap one_sample).sessions ≡ 1 ∷ []
unfolding intents_of run_sections run_section begin_open aging_gap_sample_submit
    aging_gap_sample_next_id aging_gap_sample_done aging_gap_session_close gap_finalize
    finalize_slots gap_find modify put_free has_free has_intent same_intent pending str_eq
one_sample-intent = refl

run_sections-init_Inv_example : Inv 5 (run_sections init_gap one_sample)
run_sections-init_Inv_example = run_sections-init_Inv one_sample (omega arith)

-- The server's answer has no list, and everything else works.
abbrev unreadable : Env
unreadable = record {
  connected = true;
  still_connected = λ _. true;
  ticks = λ n. n;
  start = 9000;
  chosen_at = 9000;
  later = 9001;
  buffers = true;
  http_ok = true;
  body = none;
  ids_granted = true;
  lookup = found_text;
  published = true;
  others = λ _ g. g;
}

-- One intent that is due.
abbrev waiting : Gap
waiting = record init_gap {
  mqtt_ready = true;
  trigger = 1;
  sessions =
      record (fresh_session 1 (80 ∷ []) (82 ∷ [])) {
        closed = true;
        intent = true;
        round = 1;
        trigger = 1;
      }
      ∷ [];
}

no_list : (last : ℤ) → unreadable.http_ok ≡ true → gap_parse_ids none true last ≢ some []
unfolding gap_parse_ids
no_list last ok = λ e. cc

aging_gap_poll-intents_example :
    intents_of (aging_gap_poll unreadable waiting).0.sessions ≡ intents_of waiting.sessions
aging_gap_poll-intents_example = aging_gap_poll-intents unreadable waiting (λ _ _. refl) no_list

abbrev asked : List JsonItem
asked = integer (pos 3) ∷ integer (pos 1) ∷ integer (pos 3) ∷ []

asked-ids : gap_parse_ids (some asked) true (pos 3) ≡ some (pos 1 ∷ pos 3 ∷ [])
unfolding gap_parse_ids collect_ids sort_ids insert_id gap_id_compare unique_ids unique_after
asked-ids = refl

gap_parse_ids_lem_example :
    AscendsAbove (negsuc 0) (pos 1 ∷ pos 3 ∷ [])
    × ((z : ℤ) → mem_id z (pos 1 ∷ pos 3 ∷ []) ≡ true → ltb_ℤ (pos 3) z ≡ false)
    × ((z : ℤ) → mem_id z (pos 1 ∷ pos 3 ∷ []) ≡ mem_item z asked)
gap_parse_ids_lem_example = gap_parse_ids_lem asked true (pos 3) (pos 1 ∷ pos 3 ∷ []) asked-ids
