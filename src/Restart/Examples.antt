-- ===== src/Restart/Examples.antt =====
-- A restart of the root, from the command to the deadline.
use esp32aging.Base.{◌≤◌, ◌<◌, ◌⊎◌, ◌≡◌, refl, true, false, List, [], ◌∷◌, arith, pos}
use esp32aging.Restart.{
  Restart, Call, inits, schedules, claims, run_calls, boot, system_restart_poll, run_call,
  system_restart_init, system_restart_schedule, commit_plan, make_plan,
  system_restart_claim_recovery, mesh_get_restart_level,
}
use esp32aging.Restart.History.{granted, accepted, attempted, total, run_calls-IsExclusive}
use esp32aging.Restart.Laws.{
  IsArbitrated, run_calls-boot-IsArbitrated, run_calls-KeepsPlan, KeepsPlan, poll-restarts,
}

abbrev planning : List Call
planning = inits true ∷ schedules (pos 7) true true 1 1 1000 ∷ claims ∷ []

abbrev planned_state : Restart
planned_state = run_calls boot planning

run_calls-IsExclusive_example :
    (total granted boot planning ≤ 1)
    × ((total granted boot planning ≡ 0) ⊎ (total accepted boot planning ≡ 0))
    × (total attempted boot planning ≤ 3)
    × IsArbitrated (run_calls boot planning)
run_calls-IsExclusive_example = run_calls-IsExclusive planning

planned : planned_state.planned ≡ true
unfolding run_calls run_call system_restart_init system_restart_schedule commit_plan make_plan
    system_restart_claim_recovery mesh_get_restart_level
planned = refl

due : planned_state.restart_at_us ≤ 30001000
unfolding run_calls run_call system_restart_init system_restart_schedule commit_plan make_plan
    system_restart_claim_recovery mesh_get_restart_level
due = omega arith

run_calls-KeepsPlan_example :
    KeepsPlan planned_state
      (run_calls planned_state (claims ∷ schedules (pos 8) true false 3 3 5000 ∷ []))
run_calls-KeepsPlan_example =
    run_calls-KeepsPlan planned_state (claims ∷ schedules (pos 8) true false 3 3 5000 ∷ []) planned

poll-restarts_example :
    ((system_restart_poll planned_state 30001000 30001001 false).1 ≡ true)
    × ((system_restart_poll planned_state 30001000 30001001 false).0.paused ≡ true)
    × (0 < (system_restart_poll planned_state 30001000 30001001 false).0.disconnect_attempts)
poll-restarts_example =
    poll-restarts planned_state 30001000 30001001 false (run_calls-boot-IsArbitrated planning)
      planned due (omega arith)
