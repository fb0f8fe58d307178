-- ===== src/Clock/Tests.antt =====
-- The clock an hour after midnight, and waits of two ticks.
use tp2_sistemas_operativos.Base.{ℕ, ◌+◌, ◌/◌, ◌%◌, ◌^◌, ◌≡◌, refl, arith, some}
use tp2_sistemas_operativos.Proc.{to_i32}
use tp2_sistemas_operativos.Clock.{get_current_time, since, wait_loop, timer_wait}
use tp2_sistemas_operativos.Clock.Zone.{get_current_time-zone}
use tp2_sistemas_operativos.Clock.Waits.{Waits}

get_current_time-zone_example :
    (get_current_time 1 20 30 / 10000 ≡ (1 + 21) % 24)
    × (get_current_time 1 20 30 / 100 % 100 ≡ 20)
    × (get_current_time 1 20 30 % 100 ≡ 30)
get_current_time-zone_example =
    get_current_time-zone 1 20 30 (omega arith) (omega arith) (omega arith)

-- One tick for each halt, from tick 7 on.
abbrev steady : ℕ → ℕ
steady n = 7 + n

-- From tick 2 ^ 31 on the start is taken for a negative number, and no wait lasts.
late_wait : timer_wait 3 (λ n. 2 ^ 31 + n) 2 ≡ some 0
unfolding timer_wait wait_loop since to_i32
late_wait = refl
