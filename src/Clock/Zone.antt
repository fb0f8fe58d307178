-- ===== src/Clock/Zone.antt =====
-- The local time of Kernel/syscalls/syscallHandler.c.
use tp2_sistemas_operativos.Base.{ℕ, ◌+◌, ◌/◌, ◌%◌, ◌<◌, ◌≡◌, arith}
use tp2_sistemas_operativos.Clock.{local_hours, get_current_time}

-- For a time of day, the six digits of get_current_time are the hour three hours earlier, on the day
-- before where needed, the minutes and the seconds, and each can be read from them.
pub get_current_time-zone :
    (hours minutes seconds : ℕ)
    → hours < 24
    → minutes < 60
    → seconds < 60
    → (get_current_time hours minutes seconds / 10000 ≡ (hours + 21) % 24)
      × (get_current_time hours minutes seconds / 100 % 100 ≡ minutes)
      × (get_current_time hours minutes seconds % 100 ≡ seconds)
unfolding get_current_time local_hours
get_current_time-zone hours minutes seconds h m s = (ground arith, ground arith, ground arith)
