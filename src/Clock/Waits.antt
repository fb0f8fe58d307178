-- ===== src/Clock/Waits.antt =====
-- How long timer_wait of Kernel/drivers/time.c waits.
use tp2_sistemas_operativos.Base.{ℕ, ◌+◌, ◌≤◌, ◌<◌, ◌≡◌, Option, some}

-- The wait ends at the first halt after `delta` ticks.
pub record Waits (ticks : ℕ → ℕ) (delta : ℕ) (result : Option ℕ) : Type 0 where
  pub halts : ℕ
  pub returns : result ≡ some halts
  pub long_enough : ticks 0 + delta ≤ ticks halts
  pub no_longer : (k : ℕ) → k < halts → ticks k < ticks 0 + delta
