-- ===== src/Restart/History.antt =====
-- What the calls return and do, from the start on: the claims that are granted, the plans that are
-- accepted, and the attempts to leave the Mesh.
use esp32aging.Base.{
  ℕ, ◌+◌, ◌≤◌, ◌<◌, ◌≡◌, ◌⊎◌, inl, inr, Bool, true, false, ◌&&◌, List, [], ◌∷◌, arith, dec_lt,
}
use esp32aging.Restart.{
  Err, ok, Restart, system_restart_claim_recovery, commit_plan, system_restart_schedule,
  enter_pause, may_disconnect, try_disconnect, system_restart_poll, system_restart_init, boot, Call,
  inits, schedules, claims, polls, run_call, run_calls, mesh_get_restart_level,
}
use esp32aging.Restart.Laws.{IsArbitrated, run_calls-KeepsPlan, run_calls-boot-IsArbitrated}

abbrev bit : Bool → ℕ
bit true = 1
bit false = 0

abbrev is_ok : Err → Bool
is_ok ok = true
is_ok _ = false

-- That the call is a claim that is granted.
abbrev pub granted : Restart → Call → ℕ
granted r (inits created) = 0
granted r (schedules seq out_given is_root current last now) = 0
granted r claims = bit (system_restart_claim_recovery r).1
granted r (polls now later left) = 0

-- That the call is a command that is accepted.
abbrev pub accepted : Restart → Call → ℕ
accepted r (inits created) = 0
accepted r (schedules seq out_given is_root current last now) = bit (
    is_ok
      (system_restart_schedule r seq out_given (mesh_get_restart_level is_root current last) now).1)
accepted r claims = 0
accepted r (polls now later left) = 0

-- That the call is a poll that calls `mesh_pause_for_restart`.
abbrev pub attempted : Restart → Call → ℕ
attempted r (inits created) = 0
attempted r (schedules seq out_given is_root current last now) = 0
attempted r claims = 0
attempted r (polls now later left) = bit (r.planned && may_disconnect (enter_pause r now) now)

-- How often, over the calls.
abbrev pub total : (Restart → Call → ℕ) → Restart → List Call → ℕ
total f r [] = 0
total f r (c ∷ cs) = f r c + total f (run_call r c) cs

granted-step :
    (r : Restart) (c : Call)
    → bit r.recovery_committed + granted r c ≡ bit (run_call r c).recovery_committed
unfolding run_call system_restart_init system_restart_schedule commit_plan
    system_restart_claim_recovery system_restart_poll enter_pause try_disconnect may_disconnect
granted-step r (inits created) = ground arith
granted-step r (schedules seq out_given is_root current last now) = ground arith
granted-step r claims = ground arith
granted-step r (polls now later left) = ground arith

granted-total :
    (r : Restart) (cs : List Call)
    → bit r.recovery_committed + total granted r cs ≡ bit (run_calls r cs).recovery_committed
unfolding run_calls
granted-total r [] = omega arith
granted-total r (c ∷ cs) = omega (arith, granted-step r c, granted-total (run_call r c) cs)

attempted-step :
    (r : Restart) (c : Call)
    → r.disconnect_attempts + attempted r c ≡ (run_call r c).disconnect_attempts
unfolding run_call system_restart_init system_restart_schedule commit_plan
    system_restart_claim_recovery system_restart_poll enter_pause try_disconnect may_disconnect
attempted-step r (inits created) = ground arith
attempted-step r (schedules seq out_given is_root current last now) = ground arith
attempted-step r claims = ground arith
attempted-step r (polls now later left) = ground arith

attempted-total :
    (r : Restart) (cs : List Call)
    → r.disconnect_attempts + total attempted r cs ≡ (run_calls r cs).disconnect_attempts
unfolding run_calls
attempted-total r [] = omega arith
attempted-total r (c ∷ cs) = omega (arith, attempted-step r c, attempted-total (run_call r c) cs)

accepted-step : (r : Restart) (c : Call) → 0 < accepted r c → (run_call r c).planned ≡ true
unfolding run_call system_restart_schedule commit_plan
accepted-step r (inits created) h = absurd (omega arith)
accepted-step r (schedules seq out_given is_root current last now) h = ground arith
accepted-step r claims h = absurd (omega arith)
accepted-step r (polls now later left) h = absurd (omega arith)

accepted-total :
    (r : Restart) (cs : List Call) → 0 < total accepted r cs → (run_calls r cs).planned ≡ true
unfolding run_calls
accepted-total r [] h = absurd (omega arith)
accepted-total r (c ∷ cs) h = elim (dec_lt 0 (accepted r c)) [
  | yes now ↦ (run_calls-KeepsPlan (run_call r c) cs (accepted-step r c now)).0
  | no later ↦ accepted-total (run_call r c) cs (omega arith)
]

-- After any calls from the start, at most one claim of the self-recovery was granted, and none if any
-- command was accepted; `mesh_pause_for_restart` was called at most three times. A plan exists only with
-- the service, the Mesh is paused only for a plan, and no attempt to leave it precedes the pause; the
-- plan's level is 1 to 6, and its deadline comes 30 seconds after its pause for each level below the
-- first.
pub run_calls-IsExclusive :
    (cs : List Call)
    → (total granted boot cs ≤ 1)
      × ((total granted boot cs ≡ 0) ⊎ (total accepted boot cs ≡ 0))
      × (total attempted boot cs ≤ 3)
      × IsArbitrated (run_calls boot cs)
run_calls-IsExclusive cs = (
  once (run_calls boot cs).recovery_committed (granted-total boot cs),
  either,
  omega (arith, attempted-total boot cs, (run_calls-boot-IsArbitrated cs).attempts),
  run_calls-boot-IsArbitrated cs,
)
  where
    once : (b : Bool) → 0 + total granted boot cs ≡ bit b → total granted boot cs ≤ 1
    once true e = omega arith
    once false e = omega arith

    either : (total granted boot cs ≡ 0) ⊎ (total accepted boot cs ≡ 0)
    either = elim (dec_lt 0 (total accepted boot cs)) [
      | yes h ↦ inl (none_granted (accepted-total boot cs h))
      | no h ↦ inr (omega arith)
    ]
      where
        none_granted : (run_calls boot cs).planned ≡ true → total granted boot cs ≡ 0
        none_granted h =
            free (run_calls boot cs).recovery_committed (granted-total boot cs)
              ((run_calls-boot-IsArbitrated cs).exclusive h)
          where
            free :
                (b : Bool)
                → 0 + total granted boot cs ≡ bit b
                → b ≡ false
                → total granted boot cs ≡ 0
            free true e k = cc
            free false e k = omega arith
