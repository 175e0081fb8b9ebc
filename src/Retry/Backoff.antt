-- ===== src/Retry/Backoff.antt =====
-- webtor/src/retry.rs: `retry_with_backoff`. The operation and the sleep act on a world `W`.
use webtor_rs.Base.{ℕ, zero, suc, ◌+◌, Bool, ◌&&◌, ltb, ◌==◌, if◌then◌else◌}
use webtor_rs.Base.Outcome.{ok, err, panics, stuck}
use webtor_rs.Base.Action.{Action}
use webtor_rs.Error.{TorError}
use webtor_rs.Retry.Policy.{Floats, RetryPolicy, delay_for_attempt}

module _ (floats : Floats) {W T : Type 0} (sleep : ℕ → W → W) (policy : RetryPolicy floats)
    (is_retryable : TorError → Bool) (operation : ℕ → Action W TorError T) where
  -- The sleep before an attempt.
  unfoldable pub pause : ℕ → W → W
  pause attempt w =
      let delay = delay_for_attempt floats policy attempt in if delay == 0 then w else sleep delay w

  abbrev pub can_retry : ℕ → TorError → Bool
  can_retry attempt e = ltb attempt policy.max_attempts && is_retryable e

  -- `for attempt in attempt..=max_attempts`, with the rounds that are left.
  unfoldable pub attempts_from : ℕ → ℕ → Action W TorError T
  attempts_from zero attempt w = (panics, w)
  attempts_from (suc left) attempt w =
      let (r, w') = operation attempt (pause attempt w) in
      elim r [
        | ok result ↦ (ok result, w')
        | err e ↦
            let again = attempts_from left (attempt + 1) w' in
            if can_retry attempt e then again else (err e, w')
        | panics ↦ (panics, w')
        | stuck ↦ (stuck, w')
      ]

  -- The `debug_assert!` is left out, as in a release build.
  unfoldable pub retry_with_backoff : Action W TorError T
  retry_with_backoff w =
      if policy.max_attempts == 0
      then (err (TorError.internal "invalid retry policy (max_attempts = 0)"), w)
      else attempts_from policy.max_attempts 1 w
