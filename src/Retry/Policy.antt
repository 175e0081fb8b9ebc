-- ===== src/Retry/Policy.antt =====
-- webtor/src/retry.rs: `RetryPolicy`. A `Duration` is a number of nanoseconds. The floating-point
-- numbers and what `delay_for_attempt` asks of them are a parameter.
use webtor_rs.Base.{ℕ, ◌-◌, ◌*◌, ◌/◌, ◌≤◌, ◌≡◌, arith, min, leb, if◌then◌else◌}

pub record Floats : Type 1 where
  pub F64 : Type 0
  pub two : F64
  pub one_and_a_half : F64
  -- `(n as f64 * factor.powi(k)) as u64`
  pub scale : F64 → ℕ → ℕ → ℕ

abbrev pub from_millis : ℕ → ℕ
from_millis n = n * 1_000_000

abbrev pub from_secs : ℕ → ℕ
from_secs n = n * 1_000_000_000

abbrev pub as_millis : ℕ → ℕ
as_millis d = d / 1_000_000

module _ (floats : Floats) where
  open floats use {F64, two, one_and_a_half, scale}

  pub record RetryPolicy : Type 0 where
    pub max_attempts : ℕ
    pub initial_delay : ℕ
    pub max_delay : ℕ
    pub backoff_factor : F64

  abbrev pub default : RetryPolicy
  default = record {
    max_attempts = 3;
    initial_delay = from_millis 1000;
    max_delay = from_secs 30;
    backoff_factor = two;
  }

  abbrev pub new : ℕ → RetryPolicy
  new max_attempts = record default { max_attempts = max_attempts }

  abbrev pub network : RetryPolicy
  network = record {
    max_attempts = 5;
    initial_delay = from_millis 2000;
    max_delay = from_secs 30;
    backoff_factor = one_and_a_half;
  }

  abbrev pub circuit : RetryPolicy
  circuit = record {
    max_attempts = 3;
    initial_delay = from_millis 500;
    max_delay = from_secs 10;
    backoff_factor = two;
  }

  abbrev pub bootstrap : RetryPolicy
  bootstrap = record {
    max_attempts = 3;
    initial_delay = from_millis 1000;
    max_delay = from_secs 15;
    backoff_factor = two;
  }

  abbrev pub with_max_attempts : RetryPolicy → ℕ → RetryPolicy
  with_max_attempts p max_attempts = record p { max_attempts = max_attempts }

  abbrev pub with_initial_delay : RetryPolicy → ℕ → RetryPolicy
  with_initial_delay p delay = record p { initial_delay = delay }

  abbrev pub with_max_delay : RetryPolicy → ℕ → RetryPolicy
  with_max_delay p delay = record p { max_delay = delay }

  -- Attempts count from 1.
  unfoldable pub delay_for_attempt : RetryPolicy → ℕ → ℕ
  delay_for_attempt p attempt =
      if leb attempt 1
      then 0
      else min (from_millis (scale p.backoff_factor (attempt - 2) (as_millis p.initial_delay)))
          p.max_delay

  -- No delay before the first attempt, none above the maximum, and none shorter than an earlier one
  -- where scaling by the factor does not shrink as the exponent grows.
  pub delay_for_attempt_bounds :
      (p : RetryPolicy)
      → ((j k n : ℕ) → j ≤ k → scale p.backoff_factor j n ≤ scale p.backoff_factor k n)
      → (a b : ℕ) → a ≤ b
      → (delay_for_attempt p 1 ≡ 0)
        × (delay_for_attempt p b ≤ p.max_delay)
        × (delay_for_attempt p a ≤ delay_for_attempt p b)
  unfolding delay_for_attempt
  delay_for_attempt_bounds p mono a b h =
      ground (arith, mono (a - 2) (b - 2) (as_millis p.initial_delay) (omega arith))
