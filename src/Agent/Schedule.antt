-- ===== src/Agent/Schedule.antt =====
-- apps-agent/src/loop/scheduler.ts: the delay between two rounds. `Math.random()` is a fraction
-- p / q with p < q.
use psybot_ai.Base.{ℕ, ◌+◌, ◌*◌, ◌/◌, ◌≤◌, ◌<◌, min, arith}

pub record ScheduleConfig : Type 0 where
  pub min_loop_delay_ms : ℕ
  pub max_loop_delay_ms : ℕ
  pub jitter_ms : ℕ
  pub heartbeat_every_ticks : ℕ

abbrev pub default_schedule_config : ScheduleConfig
default_schedule_config = record {
  min_loop_delay_ms = 750;
  max_loop_delay_ms = 12000;
  jitter_ms = 250;
  heartbeat_every_ticks = 3;
}

unfoldable pub compute_loop_delay_ms : ScheduleConfig → ℕ → ℕ → ℕ → ℕ
compute_loop_delay_ms cfg tick p q =
    min cfg.max_loop_delay_ms (cfg.min_loop_delay_ms + tick / 10 * 250) + p * cfg.jitter_ms / q

jitter_bound : (p q j : ℕ) → p < q → 0 < j → p * j / q < j
jitter_bound p q j h k = grind arith

-- A round never waits less than the smaller of the two configured delays, nor as much as the larger
-- delay and the whole jitter together.
pub compute_loop_delay_bounds :
    (cfg : ScheduleConfig) (tick p q : ℕ)
    → p < q
    → 0 < cfg.jitter_ms
    → (min cfg.max_loop_delay_ms cfg.min_loop_delay_ms ≤ compute_loop_delay_ms cfg tick p q)
      × (compute_loop_delay_ms cfg tick p q < cfg.max_loop_delay_ms + cfg.jitter_ms)
unfolding compute_loop_delay_ms
compute_loop_delay_bounds cfg tick p q h k = omega (arith, jitter_bound p q cfg.jitter_ms h k)
