-- ===== src/Retry/Race.antt =====
-- webtor/src/retry.rs: `with_timeout`, `with_cancellation` and both together, as built for wasm32.
-- A run is the list of its polls; past the end of the list nothing happens any more, and the call stays pending.
use webtor_rs.Base.{
  ◌≡◌, refl, arith, Bool, true, false, List, [], ◌∷◌, ◌++◌, Option, none, some, if◌then◌else◌, All,
}
use webtor_rs.Base.Outcome.{Result, err}
use webtor_rs.Error.{TorError}

-- What the three futures answer at one poll: the operation's result, whether the timer has run out,
-- and whether the token's `cancelled()` has completed.
pub record Tick (T : Type 0) : Type 0 where
  pub result : Option (Result TorError T)
  pub expired : Bool
  pub cancelled : Bool

abbrev pub Answer : Type 0 → Type 0
Answer T = Option (Result TorError T)

-- `select(first, second).await` of the futures crate over the polls: the first future is polled
-- before the second, and the first answer ends the wait.
pub record Select (T : Type 0) : Type 0 where
  pub select : (Tick T → Answer T) → (Tick T → Answer T) → List (Tick T) → Answer T
  pub select-nil : (first second : Tick T → Answer T) → select first second [] ≡ none
  pub select-cons :
      (first second : Tick T → Answer T) (t : Tick T) (ts : List (Tick T))
      → select first second (t ∷ ts) ≡ (elim (first t) [
        | some r ↦ some r
        | none ↦ elim (second t) [ some r ↦ some r | none ↦ select first second ts ]
      ])

abbrev pub timed_out : {T : Type 0} → Result TorError T
timed_out = err (TorError.timeout "timed out")

module _ {T : Type 0} (futures : Select T) where
  open futures use {select, select-nil, select-cons}

  abbrev pub operation : Tick T → Answer T
  operation t = t.result

  abbrev pub timer : Tick T → Answer T
  timer t = if t.expired then some timed_out else none

  abbrev pub cancellation : Tick T → Answer T
  cancellation t = if t.cancelled then some (err TorError.cancelled) else none

  -- `timeout_or_cancel`: the timer is polled before the token.
  abbrev pub timer_or_cancellation : Tick T → Answer T
  timer_or_cancellation t = if t.expired then some timed_out else cancellation t

  unfoldable pub with_timeout : List (Tick T) → Answer T
  with_timeout = select operation timer

  -- The first argument is `token.is_cancelled()` at the call.
  unfoldable pub with_cancellation : Bool → List (Tick T) → Answer T
  with_cancellation is_cancelled ts =
      if is_cancelled then some (err TorError.cancelled) else select operation cancellation ts

  unfoldable pub with_timeout_and_cancellation : Bool → List (Tick T) → Answer T
  with_timeout_and_cancellation is_cancelled ts =
      if is_cancelled
      then some (err TorError.cancelled)
      else select operation timer_or_cancellation ts

  -- Polls at which nothing is ready.
  abbrev pub Idle : Tick T → Type 0
  Idle t = (t.result ≡ none) × (t.expired ≡ false) × (t.cancelled ≡ false)

  Idle-then :
      (before after : List (Tick T)) (t : Tick T)
      → All Idle before
      → (select operation timer_or_cancellation (before ++ t ∷ after)
          ≡ select operation timer_or_cancellation (t ∷ after))
  Idle-then [] after t h = refl
  Idle-then (b ∷ before) after t h = ground (
    arith,
    select-cons operation timer_or_cancellation b (before ++ t ∷ after),
    Idle-then before after t h.1,
  )

  -- The first poll at which something is ready decides, and there the operation's own result comes
  -- before the timeout, and the timeout before the cancellation.
  pub with_timeout_and_cancellation_first :
      (before after : List (Tick T)) (t : Tick T)
      → All Idle before
      → with_timeout_and_cancellation false (before ++ t ∷ after) ≡ (elim t.result [
        | some r ↦ some r
        | none ↦
            if t.expired
            then some timed_out
            else if t.cancelled
            then some (err TorError.cancelled)
            else with_timeout_and_cancellation false after
      ])
  unfolding with_timeout_and_cancellation
  with_timeout_and_cancellation_first before after t h =
      ground
        (arith, Idle-then before after t h, select-cons operation timer_or_cancellation t after)

  -- Without a cancellation the token changes nothing, and with a token that is cancelled already the
  -- operation is not polled.
  pub with_timeout_and_cancellation_token :
      (ts : List (Tick T))
      → All (λ t. t.cancelled ≡ false) ts
      → (with_timeout_and_cancellation false ts ≡ with_timeout ts)
        × (with_timeout_and_cancellation true ts ≡ some (err TorError.cancelled))
  unfolding with_timeout_and_cancellation with_timeout
  with_timeout_and_cancellation_token [] h =
      ground (arith, select-nil operation timer_or_cancellation, select-nil operation timer)
  with_timeout_and_cancellation_token (t ∷ ts) h = ground (
    arith,
    select-cons operation timer_or_cancellation t ts,
    select-cons operation timer t ts,
    with_timeout_and_cancellation_token ts h.1,
  )
