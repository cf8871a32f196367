-- ===== src/Retry.antt =====
-- src/utils/retry.ts. Delays are in whole milliseconds; `Math.random()` is a fraction below one, and
-- the floating-point arithmetic on it is taken as exact. Attempts are numbered from 1.
pub mod Delays
pub mod Outcomes
mod Tests
use homebridge_myalarmcom.Common.{
  ℕ, zero, suc, ◌+◌, ◌-◌, ◌*◌, ◌/◌, ◌^◌, min, max, Bool, true, false, not, ◌||◌, Option, none, some,
  List, [], ◌∷◌, ltb, leb, if◌then◌else◌,
}
use homebridge_myalarmcom.Settings.{max_api_retry_attempts, max_retry_backoff_ms}
use homebridge_myalarmcom.Errors.{
  AlarmComError, aborted, rate_limit, login_throttled_error, Thrown, ours, foreign, is_retryable,
}

-- A value of `Math.random()`.
pub record Fraction : Type 0 where
  pub num : ℕ
  pub den : ℕ

-- `Math.min(baseDelayMs * 2 ** (attempt - 1), maxDelayMs)`
pub exponential_ms : ℕ → ℕ → ℕ → ℕ
exponential_ms attempt base_delay_ms max_delay_ms =
    min (base_delay_ms * 2 ^ (attempt - 1)) max_delay_ms

-- With e the exponential, `Math.round(e + (random * 2 - 1) * e * 0.25)` is the floor of
-- e (3 den + 2 num) / (4 den) + 1/2, which is never negative.
unfoldable pub compute_backoff_ms : ℕ → ℕ → ℕ → Fraction → ℕ
unfolding exponential_ms
compute_backoff_ms attempt base_delay_ms max_delay_ms random =
    let e = exponential_ms attempt base_delay_ms max_delay_ms in
    min max_delay_ms
      ((2 * (e * (3 * random.den + 2 * random.num)) + 4 * random.den) / (8 * random.den))

-- The module's own `isRetryable`, on any thrown value.
unfoldable pub is_retryable_thrown : Thrown → Bool
is_retryable_thrown (ours error) = is_retryable error
is_retryable_thrown foreign = false

unfoldable pub server_requested_delay_ms : Thrown → Option ℕ
server_requested_delay_ms (ours (rate_limit retry_after_ms)) = retry_after_ms
server_requested_delay_ms (ours (login_throttled_error retry_after_ms)) = some retry_after_ms
server_requested_delay_ms _ = none

unfoldable pub reconcile : Option ℕ → ℕ → ℕ → Option ℕ
reconcile none backoff_ms max_delay_ms = some backoff_ms
reconcile (some server_delay_ms) backoff_ms max_delay_ms =
    if ltb max_delay_ms server_delay_ms then none else some (max server_delay_ms backoff_ms)

-- `none` is the `null` that abandons the retry.
unfoldable pub resolve_delay_ms : Thrown → ℕ → ℕ → ℕ → Fraction → Option ℕ
unfolding reconcile
resolve_delay_ms error attempt base_delay_ms max_delay_ms random =
    reconcile (server_requested_delay_ms error)
      (compute_backoff_ms attempt base_delay_ms max_delay_ms random) max_delay_ms

-- What an attempt of the operation does.
pub data Outcome {ℓ} (A : Type ℓ) : Type ℓ where
  returns : A → Outcome A
  throws : Thrown → Outcome A

-- A call of `onRetry`, followed by the wait.
pub record Retry : Type 0 where
  pub attempt : ℕ
  pub delay_ms : ℕ
  pub error : Thrown

-- How a run of the loop ends: a value, an error, or, in the model only, no fuel.
pub data Ending {ℓ} (A : Type ℓ) : Type ℓ where
  returned : A → Ending A
  threw : Thrown → Ending A
  out_of_fuel : Ending A

pub record Run {ℓ} (A : Type ℓ) : Type ℓ where
  pub ending : Ending A
  pub last_attempt : ℕ
  pub retries : List Retry

-- The operation's outcome and the random draw for each attempt, and whether the wait after it is
-- rejected because the signal aborted.
pub record World {ℓ} (A : Type ℓ) : Type ℓ where
  pub operation : ℕ → Outcome A
  pub random : ℕ → Fraction
  pub is_aborted : ℕ → Bool

pub record RetryOptions : Type 0 where
  pub max_attempts : ℕ
  pub base_delay_ms : ℕ
  pub max_delay_ms : ℕ
  pub should_retry : Thrown → Bool

-- `RETRY_DEFAULTS`, with the caller's `isRetryable`.
abbrev pub retry_defaults : (Thrown → Bool) → RetryOptions
retry_defaults should_retry = record {
  max_attempts = max_api_retry_attempts;
  base_delay_ms = 1000;
  max_delay_ms = max_retry_backoff_ms;
  should_retry = should_retry;
}

module _ {ℓ} {A : Type ℓ} where
  abbrev pub gives_up : Ending A → ℕ → List Retry → Run A
  gives_up ending attempt retries = record {
    ending = ending;
    last_attempt = attempt;
    retries = retries;
  }

  -- `rest` is the run of the loop from the next attempt.
  unfoldable pub after_delay : Option ℕ → Thrown → ℕ → Bool → Run A → Run A
  after_delay none error attempt is_aborted rest = gives_up (threw error) attempt []
  after_delay (some delay_ms) error attempt is_aborted rest =
      let retry : Retry = record { attempt = attempt; delay_ms = delay_ms; error = error } in
      if is_aborted
      then gives_up (threw (ours aborted)) attempt (retry ∷ [])
      else record rest { retries = retry ∷ rest.retries }

  unfoldable pub after_outcome : Outcome A → RetryOptions → World A → ℕ → Run A → Run A
  unfolding after_delay
  after_outcome (returns value) options world attempt rest = gives_up (returned value) attempt []
  after_outcome (throws error) options world attempt rest =
      if not (options.should_retry error) || leb options.max_attempts attempt
      then gives_up (threw error) attempt []
      else after_delay
          (resolve_delay_ms error attempt options.base_delay_ms options.max_delay_ms
            (world.random attempt))
          error attempt (world.is_aborted attempt) rest

  unfoldable pub attempt_from : ℕ → RetryOptions → World A → ℕ → Run A
  unfolding after_outcome
  attempt_from zero options world attempt = gives_up out_of_fuel attempt []
  attempt_from (suc fuel) options world attempt =
      let rest = attempt_from fuel options world (attempt + 1) in
      after_outcome (world.operation attempt) options world attempt rest

  -- `withRetry`. The loop makes at most `max_attempts` attempts, and at least one.
  unfoldable pub with_retry : RetryOptions → World A → Run A
  unfolding attempt_from
  with_retry options world = attempt_from (suc options.max_attempts) options world 1
