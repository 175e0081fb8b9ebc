-- ===== src/Retry/Attempts.antt =====
-- What `retry_with_backoff` of webtor/src/retry.rs promises: a run of attempts.
use webtor_rs.Base.{
  ℕ, zero, suc, ◌+◌, ◌≤◌, ◌<◌, ◌≡◌, refl, subst, arith, Bool, true, false, Bool-cases, inl, inr,
  ◌⊎◌,
}
use webtor_rs.Base.Outcome.{Result, ok, err, panics, stuck}
use webtor_rs.Base.Action.{Action}
use webtor_rs.Error.{TorError}
use webtor_rs.Retry.Policy.{Floats, RetryPolicy}
use webtor_rs.Retry.Backoff.{pause, can_retry, attempts_from, retry_with_backoff}

module _ (floats : Floats) {W T : Type 0} (sleep : ℕ → W → W) (policy : RetryPolicy floats)
    (is_retryable : TorError → Bool) (operation : ℕ → Action W TorError T) where
  abbrev run : ℕ → W → Result TorError T × W
  run attempt w = operation attempt (pause floats sleep policy is_retryable operation attempt w)

  -- What ends a run at attempt `a`: anything but a retryable error that may be tried again.
  abbrev pub IsFinal : ℕ → Result TorError T → Type 0
  IsFinal a (err e) = (is_retryable e ≡ false) ⊎ (a ≡ policy.max_attempts)
  IsFinal a _ = Unit {0}

  -- The attempts from number `a` on, `n` of them, that end with a result and a world. Each attempt
  -- but the last fails with a retryable error; the last succeeds, fails for good, or is the last
  -- that the policy allows.
  pub data Attempts : ℕ → W → ℕ → Result TorError T → W → Type 0 where
    last :
        {a : ℕ} {w w' : W} {r : Result TorError T}
        → run a w ≡ (r, w')
        → IsFinal a r
        → Attempts a w 1 r w'
    again :
        {a n : ℕ} {w w₁ w' : W} {e : TorError} {r : Result TorError T}
        → run a w ≡ (err e, w₁)
        → is_retryable e ≡ true
        → Attempts (a + 1) w₁ n r w'
        → Attempts a w (suc n) r w'

  -- A run that takes every allowed attempt at most.
  abbrev pub Runs : ℕ → W → Result TorError T × W → Type 0
  Runs a w p = (n : ℕ) × Attempts a w n p.0 p.1 × (a + n ≤ policy.max_attempts + 1)

  -- One round, given the rounds that are left.
  round-Runs :
      (left a : ℕ) (w : W)
      → a + suc left ≡ policy.max_attempts + 1
      → ((w₁ : W)
          → a < policy.max_attempts
          → Runs
              (a + 1)
              w₁
              (attempts_from floats sleep policy is_retryable operation left (a + 1) w₁))
      → Runs a w (attempts_from floats sleep policy is_retryable operation (suc left) a w)
  unfolding attempts_from
  round-Runs left a w h ih = go (run a w).0 refl
    where
      w₁ : W
      w₁ = (run a w).1

      whole : (r : Result TorError T) → (run a w).0 ≡ r → run a w ≡ (r, w₁)
      whole r e = λ i. (e i, w₁)

      go :
          (r : Result TorError T)
          → (run a w).0 ≡ r
          → Runs a w (attempts_from floats sleep policy is_retryable operation (suc left) a w)
      go (ok x) e = rw (e, attempts_from) (1, last (whole (ok x) e) tt, omega arith)
      go (err x) e = elim (Bool-cases (can_retry floats sleep policy is_retryable operation a x)) [
        | inl retry ↦
            let (n, run_on, bound) = ih w₁ (ground arith) in
            rw (e, attempts_from)
              (rw retry (suc n, again (whole (err x) e) (ground arith) run_on, omega arith))
        | inr stop ↦
            rw (e, attempts_from) (rw stop (1, last (whole (err x) e) (ground arith), omega arith))
      ]
      go panics e = rw (e, attempts_from) (1, last (whole panics e) tt, omega arith)
      go stuck e = rw (e, attempts_from) (1, last (whole stuck e) tt, omega arith)

  attempts_from-Runs :
      (left a : ℕ) (w : W)
      → a + left ≡ policy.max_attempts + 1
      → a ≤ policy.max_attempts
      → Runs a w (attempts_from floats sleep policy is_retryable operation left a w)
  attempts_from-Runs zero a w h p = absurd (omega arith)
  attempts_from-Runs (suc left) a w h p =
      round-Runs left a w h (λ w₁ q. attempts_from-Runs left (a + 1) w₁ (omega arith) (omega arith))

  -- With at least one attempt allowed the call makes a run of attempts from the first one, with at
  -- most `max_attempts` of them, and returns what the run ends with: the loop is never left by its
  -- end.
  pub retry_with_backoff-Runs :
      (w : W)
      → 0 < policy.max_attempts
      → Runs 1 w (retry_with_backoff floats sleep policy is_retryable operation w)
  unfolding retry_with_backoff
  retry_with_backoff-Runs w h =
      ground (arith, attempts_from-Runs policy.max_attempts 1 w (omega arith) (omega arith))

  -- A retryable error comes out only once every allowed attempt has been made.
  pub Attempts-exhausted :
      {a n : ℕ} {w w' : W} {e : TorError} {r : Result TorError T}
      → Attempts a w n r w'
      → r ≡ err e
      → is_retryable e ≡ true
      → a + n ≡ policy.max_attempts + 1
  Attempts-exhausted {a = a} (last run_now final) p q =
      let ends : IsFinal a (err _) = subst (IsFinal a) p final in ground arith
  Attempts-exhausted (again run_now retry rest) p q = omega (arith, Attempts-exhausted rest p q)

  -- So a retryable error means that `max_attempts` attempts failed, each but the last with a
  -- retryable error.
  pub retry_with_backoff_exhausted :
      (w : W) (e : TorError)
      → 0 < policy.max_attempts
      → (retry_with_backoff floats sleep policy is_retryable operation w).0 ≡ err e
      → is_retryable e ≡ true
      → Attempts 1 w policy.max_attempts
          (err e)
          (retry_with_backoff floats sleep policy is_retryable operation w).1
  retry_with_backoff_exhausted w e h p q =
      let (n, run_on, bound) = retry_with_backoff-Runs w h in
      let w' = (retry_with_backoff floats sleep policy is_retryable operation w).1 in
      let count : n ≡ policy.max_attempts = omega (arith, Attempts-exhausted run_on p q) in
      subst (λ k. Attempts 1 w k (err e) w') count (subst (λ r. Attempts 1 w n r w') p run_on)
