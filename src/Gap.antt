-- ===== src/Gap.antt =====
-- main/Task/aging_gap.c: the sessions of the sampling, whose gaps at the server are filled once the
-- aging is over. The state of the module as records; strings are the bytes before their NUL.
pub mod Finalize
pub mod Lifecycle
pub mod Inv
pub mod Ids
pub mod Poll
mod Examples
use esp32aging.Base.{
  ℕ, zero, suc, ◌+◌, ◌-◌, ◌*◌, ◌/◌, ◌%◌, ◌^◌, ◌≤◌, ◌<◌, bit_and, bit_or, bit_xor, ◌≡◌, refl, sym,
  ap, ap₂, ◌∙◌, subst, ◌≢◌, ◌↔◌, ◌⊎◌, inl, inr, Bool, true, false, not, ◌&&◌, ◌||◌, Option, none,
  some, List, [], ◌∷◌, ◌++◌, map, arith, ltb, leb, ◌==◌, ==_iff, if◌then◌else◌, Bool-cases,
  Option-cases, length, get_elem?, get_or, set, take, drop, replicate, u8, u16, u32, ◌<<<◌, ◌>>>◌,
  ◌>>=◌, fill, dec_lt, dec_le, ℕ_discrete, ℤ, pos, negsuc, signed16, signed32, ltb_ℤ, suc_ℤ,
  int_max, str_eq, str_eq_iff, is_empty,
}

pub data Phase : Type 0 where
  query send verify : Phase

-- `GapSession`. The counters are uint32_t, `next_id` and `last_id` are int, `due` counts ticks.
pub record Session : Type 0 where
  pub used : Bool
  pub closed : Bool
  pub intent : Bool
  pub token : ℕ
  pub accepted : ℕ
  pub processed : ℕ
  pub persisted : ℕ
  pub revision : ℕ
  pub trigger : ℕ
  pub pn : List ℕ
  pub record_id : List ℕ
  pub next_id : ℤ
  pub last_id : ℤ
  pub round : ℕ
  pub phase : Phase
  pub due : ℕ

-- `GapWork`, without the buffers that only the SDK fills.
pub record Work : Type 0 where
  pub token : ℕ
  pub revision : ℕ
  pub ids : List ℤ
  pub index : ℕ
  pub missing : ℕ

-- The static variables. `ready` is that the mutex and the slots exist; taking the mutex waits
-- without limit, so it fails in no other way.
pub record Gap : Type 0 where
  pub ready : Bool
  pub sessions : List Session
  pub work : Work
  pub next_token : ℕ
  pub current : ℕ
  pub running : Bool
  pub trigger : ℕ
  pub mqtt_ready : Bool

-- The texts handed to `gap_warn`.
pub data Warning : Type 0 where
  record_id_missing intents_full no_memory rounds_exhausted read_failed send_failed : Warning
  unavailable : ℕ → Warning

abbrev pub pending_max : ℕ
pending_max = 16

abbrev pub session_slots : ℕ
session_slots = pending_max + 6

-- `gap_find`: the first used slot with the token.
unfoldable pub gap_find : ℕ → List Session → Option Session
gap_find t [] = none
gap_find t (s ∷ ss) = if s.used && s.token == t then some s else gap_find t ss

-- A write through the pointer that `gap_find` returned.
unfoldable pub modify : ℕ → (Session → Session) → List Session → List Session
modify t f [] = []
modify t f (s ∷ ss) = if s.used && s.token == t then f s ∷ ss else s ∷ modify t f ss
