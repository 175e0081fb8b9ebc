-- ===== src/Retry/Runs.antt =====
-- Concrete runs of webtor/src/retry.rs, and the theorems at concrete inputs.
use webtor_rs.Base.{
  ℕ, zero, suc, ◌+◌, ◌*◌, ◌/◌, ◌≤◌, ◌≡◌, refl, arith, true, false, List, [], ◌∷◌, none, some,
  if◌then◌else◌, ltb,
}
use webtor_rs.Base.Outcome.{ok, err}
use webtor_rs.Base.Action.{Action}
use webtor_rs.Error.{TorError, is_retryable}
use webtor_rs.Retry.Policy
use webtor_rs.Retry.Policy.{Floats, RetryPolicy, delay_for_attempt, delay_for_attempt_bounds}
use webtor_rs.Retry.Backoff.{retry_with_backoff, attempts_from, pause}
use webtor_rs.Retry.Attempts.{Runs, retry_with_backoff-Runs}
use webtor_rs.Retry.Race.{Tick, Answer, Select}

-- Factors as numbers of halves, with powers rounded down step by step.
unfoldable grow : ℕ → ℕ → ℕ → ℕ
grow f zero n = n
grow f (suc k) n = grow f k n * f / 2

abbrev halves : Floats
halves = record { F64 = ℕ; two = 4; one_and_a_half = 3; scale = grow }

grow_mono : (j k n : ℕ) → j ≤ k → grow 4 j n ≤ grow 4 k n
unfolding grow
grow_mono zero zero n h = omega arith
grow_mono zero (suc k) n h = omega (arith, grow_mono zero k n (omega arith))
grow_mono (suc j) zero n h = absurd (omega arith)
grow_mono (suc j) (suc k) n h = omega (arith, grow_mono j k n (omega arith))

-- The world counts the nanoseconds slept.
abbrev sleep : ℕ → ℕ → ℕ
sleep delay w = w + delay

abbrev failing : ℕ → Action ℕ TorError ℕ
failing attempt w = (err (TorError.network "down"), w)

-- Two failures, then a result.
abbrev recovering : ℕ → Action ℕ TorError ℕ
recovering attempt w = if ltb attempt 3 then (err (TorError.network "down"), w) else (ok attempt, w)

recovers :
    retry_with_backoff halves sleep (Policy.default halves) is_retryable recovering 0
    ≡ (ok 3, 3_000_000_000)
unfolding retry_with_backoff attempts_from pause delay_for_attempt grow is_retryable
recovers = refl

retry_with_backoff-Runs_example :
    Runs halves sleep
      (Policy.default halves)
      is_retryable
      recovering
      1
      0
      (retry_with_backoff halves sleep (Policy.default halves) is_retryable recovering 0)
retry_with_backoff-Runs_example =
    retry_with_backoff-Runs halves sleep (Policy.default halves) is_retryable recovering 0
      (omega arith)

unfoldable first_answer :
    {T : Type 0} → (Tick T → Answer T) → (Tick T → Answer T) → List (Tick T) → Answer T
first_answer a b [] = none
first_answer a b (t ∷ ts) =
    let later = first_answer a b ts in
    elim (a t) [ some r ↦ some r | none ↦ elim (b t) [ some r ↦ some r | none ↦ later ] ]

abbrev futures : Select ℕ
futures = record {
  select = first_answer;
  select-nil = λ a b. (unfold first_answer in refl);
  select-cons = λ a b t ts. (unfold first_answer in refl);
}

abbrev idle : Tick ℕ
idle = record { result = none; expired = false; cancelled = false }

abbrev all_at_once : Tick ℕ
all_at_once = record { result = some (ok 5); expired = true; cancelled = true }

abbrev late : Tick ℕ
late = record { result = none; expired = true; cancelled = false }
