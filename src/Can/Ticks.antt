-- ===== src/Can/Ticks.antt =====
-- main/Communication/Can/can_extended.c, `remaining_ticks`: how long a call may still wait, on a
-- 32-bit tick count that wraps.
use esp32aging.Base.{
  ℕ, ◌+◌, ◌-◌, ◌^◌, ◌≤◌, ◌<◌, ◌≡◌, Bool, not, ◌&&◌, arith, ltb, leb, ◌==◌, if◌then◌else◌, u32,
}

abbrev pub port_max_delay : ℕ
port_max_delay = 2 ^ 32 - 1

-- `remaining_ticks`, where the tick count reads `now`.
unfoldable pub remaining_ticks : ℕ → ℕ → ℕ → ℕ
remaining_ticks deadline start_timeout now =
    if start_timeout == port_max_delay
    then port_max_delay
    else if ltb (u32 (now + 2 ^ 32 - deadline)) 0x80000000
    then 0
    else u32 (deadline + 2 ^ 32 - now)

-- The test at the head of each loop: the time is up.
unfoldable pub timed_out : ℕ → ℕ → ℕ → Bool
timed_out deadline timeout_ticks now =
    remaining_ticks deadline timeout_ticks now == 0 && not (timeout_ticks == port_max_delay)

-- The deadline of a call that begins at `start`.
abbrev pub deadline_of : ℕ → ℕ → ℕ
deadline_of start timeout_ticks = u32 (start + timeout_ticks)

-- A call that began at any tick count, with a timeout of at most 2^31 ticks, waits for the rest of
-- its timeout as long as less time has passed, and its time is up from then on until 2^31 ticks
-- later, also where the tick count wraps in between.
pub remaining_ticks_lem :
    (start timeout_ticks elapsed : ℕ)
    → start < 2 ^ 32
    → timeout_ticks ≤ 2 ^ 31
    → elapsed < timeout_ticks + 2 ^ 31
    → (remaining_ticks (deadline_of start timeout_ticks) timeout_ticks (u32 (start + elapsed))
        ≡ timeout_ticks - elapsed)
      × (timed_out (deadline_of start timeout_ticks) timeout_ticks (u32 (start + elapsed))
          ≡ leb timeout_ticks elapsed)
unfolding remaining_ticks timed_out
remaining_ticks_lem start timeout_ticks elapsed hs ht he = (ground arith, ground arith)
