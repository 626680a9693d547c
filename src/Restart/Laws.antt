-- ===== src/Restart/Laws.antt =====
-- What holds of the restart after any calls.
use esp32aging.Base.{
  ℕ, ◌+◌, ◌-◌, ◌*◌, ◌≤◌, ◌<◌, ◌≡◌, refl, ◌∙◌, Bool, true, false, List, [], ◌∷◌, arith, ℤ,
}
use esp32aging.Restart.{
  system_restart_is_planned, system_restart_mesh_paused, Restart, system_restart_claim_recovery,
  commit_plan, system_restart_schedule, enter_pause, may_disconnect, try_disconnect,
  system_restart_poll, system_restart_init, boot, Call, inits, schedules, claims, polls, run_call,
  run_calls, disconnect_max_attempts, mesh_max_level, mesh_get_restart_level, make_plan,
}

abbrev pub IsLevel : ℕ → Type 0
IsLevel level = (1 ≤ level) × (level ≤ mesh_max_level)

mesh_get_restart_level-IsLevel :
    (is_root : Bool) (current last : ℕ) → IsLevel (mesh_get_restart_level is_root current last)
unfolding mesh_get_restart_level
mesh_get_restart_level-IsLevel true current last = (omega arith, omega arith)
mesh_get_restart_level-IsLevel false current last = (ground arith, ground arith)

-- The delay of a level does not wrap.
make_plan-delay :
    (seq : ℤ) (level : ℕ) → IsLevel level → (make_plan seq level).delay_seconds ≡ 30 * level
unfolding make_plan
make_plan-delay seq level h = omega (arith, h.0, h.1)

make_plan-level : (seq : ℤ) (level : ℕ) → (make_plan seq level).level ≡ level
unfolding make_plan
make_plan-level seq level = refl

-- A plan and a committed recovery exclude each other; a plan needs the service, a pause a plan, an
-- attempt to leave the Mesh a pause; there are at most three attempts.
pub record IsArbitrated (r : Restart) : Type 0 where
  pub exclusive : r.planned ≡ true → r.recovery_committed ≡ false
  pub serviced : r.planned ≡ true → r.initialized ≡ true
  pub pause_planned : r.paused ≡ true → r.planned ≡ true
  pub attempt_paused : 0 < r.disconnect_attempts → r.paused ≡ true
  pub attempts : r.disconnect_attempts ≤ disconnect_max_attempts
  pub left_tried : r.disconnected ≡ true → 0 < r.disconnect_attempts
  pub first_free : r.disconnect_attempts ≡ 0 → r.disconnect_retry_at_us ≡ 0
  pub deadline : r.planned ≡ true → r.restart_at_us ≡ r.pause_at_us + (r.plan.level - 1) * 30000000
  pub levelled : r.planned ≡ true → IsLevel r.plan.level

module _ (r : Restart) (seq : ℤ) (out_given : Bool) (level now : ℕ) where
  scheduled : Restart
  scheduled = (system_restart_schedule r seq out_given level now).0

  schedules-deadline :
      (r.planned ≡ true → r.restart_at_us ≡ r.pause_at_us + (r.plan.level - 1) * 30000000)
      → IsLevel level
      → scheduled.planned ≡ true
      → scheduled.restart_at_us ≡ scheduled.pause_at_us + (scheduled.plan.level - 1) * 30000000
  unfolding scheduled system_restart_schedule commit_plan
  schedules-deadline before h e =
      ground (arith, before, make_plan-delay seq level h, make_plan-level seq level)

  schedules-levelled :
      (r.planned ≡ true → IsLevel r.plan.level)
      → IsLevel level
      → scheduled.planned ≡ true
      → IsLevel scheduled.plan.level
  unfolding scheduled system_restart_schedule commit_plan make_plan
  schedules-levelled before h e = (ground (arith, before, h), ground (arith, before, h))

run_call-IsArbitrated : (r : Restart) (c : Call) → IsArbitrated r → IsArbitrated (run_call r c)
unfolding run_call system_restart_init system_restart_schedule commit_plan
    system_restart_claim_recovery system_restart_poll enter_pause try_disconnect may_disconnect
    scheduled
run_call-IsArbitrated r (inits created) h = record {
  exclusive = ground (arith, h.exclusive);
  serviced = ground (arith, h.serviced);
  pause_planned = ground (arith, h.pause_planned);
  attempt_paused = ground (arith, h.attempt_paused);
  attempts = ground (arith, h.attempts);
  left_tried = ground (arith, h.left_tried);
  first_free = ground (arith, h.first_free);
  deadline = ground (arith, h.deadline);
  levelled = λ e. (ground (arith, h.levelled), ground (arith, h.levelled));
}
run_call-IsArbitrated r (schedules seq out_given is_root current last now) h = record {
  exclusive = ground (arith, h.exclusive);
  serviced = ground (arith, h.serviced);
  pause_planned = ground (arith, h.pause_planned);
  attempt_paused = ground (arith, h.attempt_paused);
  attempts = ground (arith, h.attempts);
  left_tried = ground (arith, h.left_tried);
  first_free = ground (arith, h.first_free);
  deadline =
      schedules-deadline r seq out_given (mesh_get_restart_level is_root current last) now
        h.deadline (mesh_get_restart_level-IsLevel is_root current last);
  levelled =
      schedules-levelled r seq out_given (mesh_get_restart_level is_root current last) now
        h.levelled (mesh_get_restart_level-IsLevel is_root current last);
}
run_call-IsArbitrated r claims h = record {
  exclusive = ground (arith, h.exclusive);
  serviced = ground (arith, h.serviced);
  pause_planned = ground (arith, h.pause_planned);
  attempt_paused = ground (arith, h.attempt_paused);
  attempts = ground (arith, h.attempts);
  left_tried = ground (arith, h.left_tried);
  first_free = ground (arith, h.first_free);
  deadline = ground (arith, h.deadline);
  levelled = λ e. (ground (arith, h.levelled), ground (arith, h.levelled));
}
run_call-IsArbitrated r (polls now later left) h = record {
  exclusive = ground (arith, h.exclusive);
  serviced = ground (arith, h.serviced);
  pause_planned = ground (arith, h.pause_planned);
  attempt_paused = ground (arith, h.attempt_paused, h.pause_planned);
  attempts = ground (arith, h.attempts);
  left_tried = ground (arith, h.left_tried);
  first_free = ground (arith, h.first_free);
  deadline = ground (arith, h.deadline);
  levelled = λ e. (ground (arith, h.levelled), ground (arith, h.levelled));
}

run_calls-IsArbitrated :
    (r : Restart) (cs : List Call) → IsArbitrated r → IsArbitrated (run_calls r cs)
unfolding run_calls
run_calls-IsArbitrated r [] h = h
run_calls-IsArbitrated r (c ∷ cs) h =
    run_calls-IsArbitrated (run_call r c) cs (run_call-IsArbitrated r c h)

boot-IsArbitrated : IsArbitrated boot
boot-IsArbitrated = record {
  exclusive = λ e. refl;
  serviced = λ e. cc;
  pause_planned = λ e. cc;
  attempt_paused = λ e. absurd (omega arith);
  attempts = omega arith;
  left_tried = λ e. cc;
  first_free = λ e. refl;
  deadline = λ e. cc;
  levelled = λ e. cc;
}

-- So from the start on.
pub run_calls-boot-IsArbitrated : (cs : List Call) → IsArbitrated (run_calls boot cs)
run_calls-boot-IsArbitrated cs = run_calls-IsArbitrated boot cs boot-IsArbitrated

-- What a plan fixes.
abbrev pub KeepsPlan : Restart → Restart → Type 0
KeepsPlan r r' =
    (system_restart_is_planned r' ≡ true)
    × (r'.plan ≡ r.plan)
    × (r'.pause_at_us ≡ r.pause_at_us)
    × (r'.restart_at_us ≡ r.restart_at_us)

run_call-KeepsPlan : (r : Restart) (c : Call) → r.planned ≡ true → KeepsPlan r (run_call r c)
unfolding run_call system_restart_init system_restart_schedule commit_plan
    system_restart_claim_recovery system_restart_poll enter_pause try_disconnect may_disconnect
run_call-KeepsPlan r (inits created) h = (ground arith, ground arith, ground arith, ground arith)
run_call-KeepsPlan r (schedules seq out_given is_root current last now) h =
    (ground arith, ground arith, ground arith, ground arith)
run_call-KeepsPlan r claims h = (ground arith, ground arith, ground arith, ground arith)
run_call-KeepsPlan r (polls now later left) h =
    (ground arith, ground arith, ground arith, ground arith)

-- Once a restart is planned, no call cancels it or moves its plan, its pause or its deadline.
pub run_calls-KeepsPlan :
    (r : Restart) (cs : List Call) → r.planned ≡ true → KeepsPlan r (run_calls r cs)
unfolding run_calls
run_calls-KeepsPlan r [] h = (h, refl, refl, refl)
run_calls-KeepsPlan r (c ∷ cs) h =
    let first = run_call-KeepsPlan r c h in
    let rest = run_calls-KeepsPlan (run_call r c) cs first.0 in
    (rest.0, rest.1 ∙ first.1, rest.2 ∙ first.2, rest.3 ∙ first.3)

-- If the invariant holds and a restart is planned, a poll that begins at its deadline or later
-- restarts, with the Mesh paused and at least one attempt made to leave it; the second reading of
-- the time is not before the first.
pub poll-restarts :
    (r : Restart) (now later : ℕ) (left : Bool)
    → IsArbitrated r
    → r.planned ≡ true
    → r.restart_at_us ≤ now
    → now ≤ later
    → ((system_restart_poll r now later left).1 ≡ true)
      × (system_restart_mesh_paused (system_restart_poll r now later left).0 ≡ true)
      × (0 < (system_restart_poll r now later left).0.disconnect_attempts)
unfolding system_restart_poll enter_pause try_disconnect may_disconnect
poll-restarts r now later left h planned due order = (
  ground arith,
  ground (arith, h.deadline),
  ground (arith, h.deadline, h.first_free, h.left_tried),
)
