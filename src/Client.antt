-- ===== src/Client.antt =====
-- src/api/client.ts: the client of the JSON:API. One attempt signs in, claims a slot of the rate
-- limiter, asks the circuit breaker and sends; the recovery of a lapsed session wraps it, and the retry
-- loop wraps that. What an attempt meets is an argument: how the sign-in ends, the clock where the code
-- reads it, whether the wait was cancelled, and what the fetch does. The log is left out.
pub mod Outages
pub mod Calls
pub mod Attempts
pub mod Recoveries
pub mod Samples
pub mod Requests
pub mod Batches
pub mod Documents
mod Tests
use homebridge_myalarmcom.Common.{
  ℕ, zero, suc, ◌+◌, ◌-◌, Bool, true, false, not, ◌&&◌, ◌||◌, Option, none, some, List, [], ◌∷◌,
  length, if◌then◌else◌,
}
use homebridge_myalarmcom.Errors.{
  AlarmComError, Thrown, ours, foreign, session_expired_error, api_parse, circuit_breaker,
  login_throttled_error, pacing, aborted, is_retryable, circuit_breaker_error, create_api_error,
  parse_retry_after_ms,
}
use homebridge_myalarmcom.Retry.{
  Fraction, Outcome, returns, throws, Retry, Ending, Run, World, RetryOptions, retry_defaults,
  with_retry,
}
use homebridge_myalarmcom.Circuit.{
  CircuitState, closed, opened, half_open, CircuitBreaker, Admission, refused, admitted,
  begin_execute, settle_execute,
}
use homebridge_myalarmcom.RateLimiter.{
  RateLimiter, Claim, claimed, pacing_refused, wait_aborted, acquire,
}
use homebridge_myalarmcom.Http.{
  HttpResponse, HttpRequest, Exchange, responded, failed, is_ok_status, http_request,
}

pub record ApiRequestMetric : Type 0 where
  pub duration_ms : ℕ
  pub is_ok : Bool
  pub was_networked : Bool

-- `invalidations` counts the calls of `#sessionManager.invalidate`, `throttles` those of `#onThrottle`
-- and `retries` those of `#onRetry`; `sends` counts the requests that left the process. The samples
-- are newest first.
pub record AlarmComClient : Type 0 where
  pub breaker : CircuitBreaker
  pub limiter : RateLimiter
  pub invalidations : ℕ
  pub throttles : ℕ
  pub retries : ℕ
  pub sends : ℕ
  pub samples : List ApiRequestMetric

abbrev pub new_client : CircuitBreaker → RateLimiter → AlarmComClient
new_client breaker limiter = record {
  breaker = breaker;
  limiter = limiter;
  invalidations = 0;
  throttles = 0;
  retries = 0;
  sends = 0;
  samples = [];
}

-- What one attempt meets. `sign_in` is the error of `getSession`, if it throws.
pub record Draw {ℓ} (A : Type ℓ) : Type ℓ where
  pub sign_in : Option Thrown
  pub started_at : ℕ
  pub turn_at : ℕ
  pub claimed_at : ℕ
  pub is_wait_aborted : Bool
  pub asked_at : ℕ
  pub is_aborted : Bool
  pub exchange : Exchange A
  pub settled_at : ℕ
  pub ended_at : ℕ

unfoldable pub is_lapsed_session : Thrown → Bool
is_lapsed_session (ours session_expired_error) = true
is_lapsed_session (ours api_parse) = true
is_lapsed_session _ = false

unfoldable pub is_rejected_outright : Thrown → Bool
is_rejected_outright (ours session_expired_error) = true
is_rejected_outright _ = false

unfoldable pub is_worth_retrying : Thrown → Bool
unfolding is_lapsed_session
is_worth_retrying foreign = false
is_worth_retrying (ours (circuit_breaker _)) = false
is_worth_retrying (ours (login_throttled_error _)) = false
is_worth_retrying (ours error) = not (is_lapsed_session (ours error)) && is_retryable error

module _ {ℓ} {A : Type ℓ} where
  abbrev parsed : Option A → Outcome A
  parsed none = throws (ours api_parse)
  parsed (some document) = returns document

  -- What `#send` makes of the answer; `now` is the time of an HTTP date in `Retry-After`.
  unfoldable pub receive : ℕ → Outcome (HttpResponse A) → Outcome A
  receive now (throws error) = throws error
  receive now (returns response) =
      if is_ok_status response.status
      then parsed response.document
      else throws (
          ours (
            create_api_error response.status response.is_marked
              (parse_retry_after_ms response.retry_after now)))

  abbrev pub is_return : Outcome A → Bool
  is_return (returns _) = true
  is_return (throws _) = false

  abbrev pub is_pacing : Outcome A → Bool
  is_pacing (throws (ours (pacing _ _))) = true
  is_pacing _ = false

  abbrev pub is_circuit_breaker : Outcome A → Bool
  is_circuit_breaker (throws (ours (circuit_breaker _))) = true
  is_circuit_breaker _ = false

  module _ (origin_of : List ℕ → Option (List ℕ)) (to_lower_case : List ℕ → List ℕ) where
    -- `#send`
    unfoldable pub send : HttpRequest → Draw A → Bool × Outcome A
    unfolding receive
    send request d =
        let (is_sent, outcome) =
          http_request origin_of to_lower_case request d.is_aborted d.exchange in
        (is_sent, receive d.settled_at outcome)

    -- `this.#breaker.execute(() => this.#send(…))`
    unfoldable pub through_breaker :
        AlarmComClient
        → HttpRequest
        → Draw A
        → CircuitBreaker × Admission
        → AlarmComClient × Outcome A
    unfolding send
    through_breaker c request d (breaker, refused wait_ms) =
        (record c { breaker = breaker }, throws (ours (circuit_breaker_error d.asked_at wait_ms)))
    through_breaker c request d (breaker, admitted is_probe) =
        let (is_sent, outcome) = send request d in
        (
          record c {
            breaker = settle_execute breaker d.settled_at is_probe (is_return outcome);
            sends = if is_sent then c.sends + 1 else c.sends;
          },
          outcome,
        )

    -- `this.#limiter.execute(…)`
    unfoldable pub through_limiter :
        AlarmComClient → HttpRequest → Draw A → RateLimiter × Claim → AlarmComClient × Outcome A
    unfolding through_breaker
    through_limiter c request d (limiter, pacing_refused wait_ms max_wait_ms) =
        (record c { limiter = limiter }, throws (ours (pacing wait_ms max_wait_ms)))
    through_limiter c request d (limiter, wait_aborted) =
        (record c { limiter = limiter }, throws (ours aborted))
    through_limiter c request d (limiter, claimed) =
        through_breaker (record c { limiter = limiter }) request d
          (begin_execute c.breaker d.asked_at)

    -- `#timedAttempt`, after the operation.
    unfoldable pub timed : AlarmComClient × Outcome A → Draw A → AlarmComClient × Outcome A
    timed (c, outcome) d =
        let sample : ApiRequestMetric = record {
          duration_ms = d.ended_at - d.started_at;
          is_ok = is_return outcome;
          was_networked = not (is_pacing outcome) && not (is_circuit_breaker outcome);
        } in
        (
          record c {
            throttles = if is_pacing outcome then c.throttles + 1 else c.throttles;
            samples = sample ∷ c.samples;
          },
          outcome,
        )

    -- The attempt once `getSession` has ended.
    unfoldable pub attempt_signed :
        Option Thrown → AlarmComClient → HttpRequest → Draw A → AlarmComClient × Outcome A
    unfolding through_limiter timed
    attempt_signed (some error) c request d = (c, throws error)
    attempt_signed none c request d =
        timed
          (through_limiter c request d (acquire c.limiter d.turn_at d.claimed_at d.is_wait_aborted))
          d

    -- `#guardedAttempt`
    unfoldable pub guarded_attempt :
        AlarmComClient → HttpRequest → Draw A → AlarmComClient × Outcome A
    unfolding attempt_signed
    guarded_attempt c request d = attempt_signed d.sign_in c request d

    abbrev pub recover_from :
        (Thrown → Bool)
        → HttpRequest
        → Draw A
        → AlarmComClient × Outcome A
        → AlarmComClient × Outcome A
    recover_from is_replayable request again (c, returns value) = (c, returns value)
    recover_from is_replayable request again (c, throws error) =
        let replayed =
          guarded_attempt (record c { invalidations = c.invalidations + 1 }) request again in
        if is_replayable error then replayed else (c, throws error)

    -- `#withSessionRecovery`; the second draw is met only by the replay.
    unfoldable pub with_session_recovery :
        (Thrown → Bool)
        → AlarmComClient
        → HttpRequest
        → Draw A
        → Draw A
        → AlarmComClient × Outcome A
    unfolding guarded_attempt
    with_session_recovery is_replayable c request first again =
        recover_from is_replayable request again (guarded_attempt c request first)
