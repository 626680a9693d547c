-- ===== src/Restart.antt =====
-- main/APP/Restart/system_restart.c: the one-key restart, planned once and arbitrated against the
-- restart of the network's self-recovery. Times are microseconds since the start, so never negative.
pub mod Laws
pub mod History
mod Examples
use esp32aging.Base.{
  ℕ, zero, suc, ◌+◌, ◌-◌, ◌*◌, ◌/◌, ◌%◌, ◌^◌, ◌≤◌, ◌<◌, bit_and, bit_or, bit_xor, ◌≡◌, refl, sym,
  ap, ap₂, ◌∙◌, subst, ◌≢◌, ◌↔◌, ◌⊎◌, inl, inr, Bool, true, false, not, ◌&&◌, ◌||◌, Option, none,
  some, List, [], ◌∷◌, ◌++◌, map, arith, ltb, leb, ◌==◌, ==_iff, if◌then◌else◌, Bool-cases,
  Option-cases, length, get_elem?, get_or, set, take, drop, replicate, u8, u16, u32, ◌<<<◌, ◌>>>◌,
  ◌>>=◌, fill, dec_lt, dec_le, ℕ_discrete, ℤ, pos, negsuc, signed16, signed32, some_inj, if_cases,
  ltb_ℤ, suc_ℤ, int_max, str_eq, str_eq_iff, is_empty,
}

pub data Err : Type 0 where
  ok invalid_arg invalid_state no_mem : Err

-- `system_restart_plan_t`
pub record Plan : Type 0 where
  pub command_seq : ℤ
  pub level : ℕ
  pub delay_seconds : ℕ

-- The static variables.
pub record Restart : Type 0 where
  pub initialized : Bool
  pub planned : Bool
  pub paused : Bool
  pub recovery_committed : Bool
  pub plan : Plan
  pub pause_at_us : ℕ
  pub restart_at_us : ℕ
  pub disconnect_attempts : ℕ
  pub disconnected : Bool
  pub disconnect_retry_at_us : ℕ

abbrev pub base_delay_sec : ℕ
base_delay_sec = 30

abbrev pub level_interval_sec : ℕ
level_interval_sec = 30

abbrev pub disconnect_max_attempts : ℕ
disconnect_max_attempts = 3

abbrev pub disconnect_retry_ms : ℕ
disconnect_retry_ms = 1000

-- `system_restart_is_planned` and `system_restart_mesh_paused`
abbrev pub system_restart_is_planned : Restart → Bool
system_restart_is_planned r = r.planned

abbrev pub system_restart_mesh_paused : Restart → Bool
system_restart_mesh_paused r = r.paused

abbrev pub mesh_max_level : ℕ
mesh_max_level = 6

abbrev in_mesh : ℕ → Bool
in_mesh level = leb 2 level && leb level mesh_max_level

-- `mesh_get_restart_level` (main/Communication/Internet/Mesh/mesh.c), from the level that the SDK
-- gives now and the last valid one.
unfoldable pub mesh_get_restart_level : Bool → ℕ → ℕ → ℕ
mesh_get_restart_level true current last = 1
mesh_get_restart_level false current last =
    if in_mesh current then current else if in_mesh last then last else mesh_max_level

-- `system_restart_claim_recovery`
unfoldable pub system_restart_claim_recovery : Restart → Restart × Bool
system_restart_claim_recovery r =
    if not r.planned && not r.recovery_committed
    then (record r { recovery_committed = true }, true)
    else (r, false)

-- The plan for the level, an uint8_t; `level - 1u` wraps at 2^32.
unfoldable pub make_plan : ℤ → ℕ → Plan
make_plan seq level = record {
  command_seq = seq;
  level = level;
  delay_seconds = u32 (base_delay_sec + u32 (level + 2 ^ 32 - 1) * level_interval_sec);
}

-- The state with the plan committed at `now`.
unfoldable pub commit_plan : Restart → ℤ → ℕ → ℕ → Restart
commit_plan r seq level now = record r {
  plan = make_plan seq level;
  pause_at_us = now + base_delay_sec * 1000000;
  restart_at_us = now + (make_plan seq level).delay_seconds * 1000000;
  planned = true;
}

-- `system_restart_schedule`: `level` is the mesh's level and `now` the time read before the section;
-- the last result is `*out_plan`, where it is written.
unfoldable pub system_restart_schedule : Restart → ℤ → Bool → ℕ → ℕ → Restart × Err × Option Plan
system_restart_schedule r seq out_given level now =
    if ltb_ℤ seq (pos 0) || not out_given
    then (r, invalid_arg, none)
    else if not r.initialized || r.recovery_committed
    then (r, invalid_state, none)
    else let r' = if not r.planned then commit_plan r seq level now else r in (r', ok, some r'.plan)

-- The critical section of `system_restart_poll`: the Mesh is paused once its time has come.
unfoldable pub enter_pause : Restart → ℕ → Restart
enter_pause r now =
    if r.planned && not r.paused && leb r.pause_at_us now then record r { paused = true } else r

unfoldable pub may_disconnect : Restart → ℕ → Bool
may_disconnect r now =
    r.paused
    && not r.disconnected
    && ltb r.disconnect_attempts disconnect_max_attempts
    && leb r.disconnect_retry_at_us now

-- One attempt to leave the Mesh; `left` is that `mesh_pause_for_restart` returned ESP_OK.
unfoldable pub try_disconnect : Restart → ℕ → Bool → Restart
try_disconnect r now left =
    if may_disconnect r now
    then record r {
      disconnect_attempts = r.disconnect_attempts + 1;
      disconnected = left;
      disconnect_retry_at_us = now + disconnect_retry_ms * 1000;
    }
    else r

-- `system_restart_poll`, which reads the time twice; the last result is that it restarts.
unfoldable pub system_restart_poll : Restart → ℕ → ℕ → Bool → Restart × Bool
system_restart_poll r now later left =
    if not r.planned
    then (r, false)
    else (try_disconnect (enter_pause r now) now left, leb r.restart_at_us later)

-- `system_restart_init`; `created` is that the service task could be created.
unfoldable pub system_restart_init : Restart → Bool → Restart × Err
system_restart_init r created =
    if r.initialized
    then (r, ok)
    else if not created
    then (r, no_mem)
    else (record r { initialized = true }, ok)

-- The static variables at the start.
abbrev pub boot : Restart
boot = record {
  initialized = false;
  planned = false;
  paused = false;
  recovery_committed = false;
  plan = record { command_seq = pos 0; level = 0; delay_seconds = 0 };
  pause_at_us = 0;
  restart_at_us = 0;
  disconnect_attempts = 0;
  disconnected = false;
  disconnect_retry_at_us = 0;
}

-- The operations, in any order and from any task.
pub data Call : Type 0 where
  inits : Bool → Call
  schedules : ℤ → Bool → Bool → ℕ → ℕ → ℕ → Call
  claims : Call
  polls : ℕ → ℕ → Bool → Call

unfoldable pub run_call : Restart → Call → Restart
run_call r (inits created) = (system_restart_init r created).0
run_call r (schedules seq out_given is_root current last now) =
    (system_restart_schedule r seq out_given (mesh_get_restart_level is_root current last) now).0
run_call r claims = (system_restart_claim_recovery r).0
run_call r (polls now later left) = (system_restart_poll r now later left).0

unfoldable pub run_calls : Restart → List Call → Restart
run_calls r [] = r
run_calls r (c ∷ cs) = run_calls (run_call r c) cs
