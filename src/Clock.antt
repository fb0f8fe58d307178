-- ===== src/Clock.antt =====
-- The time of day in Kernel/syscalls/syscallHandler.c and the timer of Kernel/drivers/time.c.
pub mod Zone
pub mod Waits
mod Tests
use tp2_sistemas_operativos.Base.{
  ℕ, zero, suc, ◌+◌, ◌-◌, ◌*◌, ◌/◌, ◌%◌, ◌^◌, Option, none, some, ℤ, pos, negsuc, ltb, leb, ◌==◌,
  if◌then◌else◌,
}
use tp2_sistemas_operativos.Proc.{to_i32}

-- The hours that the real-time clock shows, three hours behind.
unfoldable pub local_hours : ℕ → ℕ
local_hours hours =
    if leb 3 hours then hours - 3 else if hours == 2 then 23 else if hours == 1 then 22 else 21

unfoldable pub get_current_time : ℕ → ℕ → ℕ → ℕ
get_current_time hours minutes seconds = local_hours hours * 10000 + minutes * 100 + seconds

-- `timer_handler`, on the number of ticks.
unfoldable pub timer_handler : ℕ → ℕ
timer_handler ticks = (ticks + 1) % 2 ^ 64

unfoldable pub ticks_elapsed : ℕ → ℤ
ticks_elapsed ticks = to_i32 ticks

unfoldable pub millis_elapsed : ℕ → ℤ
millis_elapsed ticks = to_i32 (ticks * (1000 / 18) % 2 ^ 64)

unfoldable pub seconds_elapsed : ℕ → ℤ
seconds_elapsed ticks = to_i32 (ticks / 18)

-- `ticks - initialTicks` as an unsigned number of 64 bits.
unfoldable pub since : ℕ → ℤ → ℕ
since ticks (pos initial) = (ticks + 2 ^ 64 - initial) % 2 ^ 64
since ticks (negsuc n) = (ticks + (n + 1)) % 2 ^ 64

-- The loop of `timer_wait`: `ticks n` is the number of ticks after the processor has halted `n` times. The
-- result is the number of halts.
unfoldable pub wait_loop : ℕ → (ℕ → ℕ) → ℤ → ℕ → ℕ → Option ℕ
wait_loop zero ticks initial delta n = none
wait_loop (suc fuel) ticks initial delta n =
    let rest = wait_loop fuel ticks initial delta (n + 1) in
    if ltb (since (ticks n) initial) delta then rest else some n

unfoldable pub timer_wait : ℕ → (ℕ → ℕ) → ℕ → Option ℕ
timer_wait fuel ticks delta = wait_loop fuel ticks (to_i32 (ticks 0)) delta 0

-- `wait`, for at most 2 ^ 31 / 18 milliseconds: the number of ticks that it waits for.
unfoldable pub delta_of : ℕ → ℕ
delta_of millis = millis * 18 / 1000
