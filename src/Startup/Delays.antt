-- ===== src/Startup/Delays.antt =====
-- What a failure means for startup, over every error.
use homebridge_myalarmcom.Common.{
  ℕ, zero, suc, ◌-◌, ◌^◌, ◌≤◌, ◌<◌, ◌≡◌, ◌↔◌, max, Bool, true, false, ◌||◌, not, some, arith,
}
use homebridge_myalarmcom.Errors.{
  AlarmComError, read_only, api_response, ours, is_authentication, is_retryable,
  circuit_retry_after_ms, circuit_breaker,
}
use homebridge_myalarmcom.Retry.{Fraction, compute_backoff_ms}
use homebridge_myalarmcom.Retry.Delays.{compute_backoff-bounds}
use homebridge_myalarmcom.Startup.{
  is_permanent, initial_discovery_retry_delay_ms, retry_delay_of, failure_log_level, error_level,
  is_login_form, is_configuration,
}

-- The failures that are logged as errors though startup waits them out.
abbrev pub is_quietly_waited : AlarmComError → Bool
is_quietly_waited read_only = true
is_quietly_waited (api_response status) = not (is_retryable (api_response status))
is_quietly_waited _ = false

-- Every failure that startup gives up on is logged as an error; and a failure of the plugin's own is
-- logged as an error exactly when startup gives up on it, but for a read-only partition and an HTTP
-- status below 500.
pub failure_log_level_facts :
    (error : AlarmComError)
    → (failure_log_level (ours error) ≡ error_level)
      ↔ ((is_permanent error || is_quietly_waited error) ≡ true)
unfolding failure_log_level is_permanent is_authentication is_login_form is_configuration
    is_retryable
failure_log_level_facts error = (λ e. ground arith, λ e. ground arith)

-- A power of two is positive.
pow_two-positive : (n : ℕ) → 1 ≤ 2 ^ n
pow_two-positive zero = omega arith
pow_two-positive (suc n) = let before = pow_two-positive n in omega arith

backoff-bounds :
    (attempt : ℕ) (random : Fraction)
    → 0 < random.den
    → let delay = compute_backoff_ms attempt 5000 300000 random in (3750 ≤ delay) × (delay ≤ 300000)
backoff-bounds attempt random positive =
    let grown = pow_two-positive (attempt - 1) in
    let bounds = compute_backoff-bounds attempt 5000 300000 random positive in
    (omega (arith, bounds.1), bounds.0)

-- The wait until an open breaker may be tried, if the failure is one.
abbrev pub breaker_wait_ms : AlarmComError → ℕ → ℕ
breaker_wait_ms (circuit_breaker reset_time) now = circuit_retry_after_ms reset_time now
breaker_wait_ms _ now = 0

retry_delay-bounds :
    (error : AlarmComError) (attempt : ℕ) (random : Fraction) (now : ℕ)
    → 0 < random.den
    → let delay = retry_delay_of error attempt random now in
      (3750 ≤ delay)
      × (breaker_wait_ms error now ≤ delay)
      × (delay ≤ max 300000 (breaker_wait_ms error now))
unfolding retry_delay_of
retry_delay-bounds (circuit_breaker t) attempt random now positive =
    (omega arith, omega arith, omega arith)
retry_delay-bounds _ attempt random now positive =
    let (low, high) = backoff-bounds attempt random positive in
    (low, omega arith, omega (arith, high))

-- With any random draw, startup tries again after each failure of the plugin's own that is not
-- permanent: after at least 3.75 seconds, not before an open breaker's reset, and within five minutes
-- or that reset, whichever is later.
pub initial_discovery_retry-bounds :
    (error : AlarmComError) (attempt : ℕ) (random : Fraction) (now : ℕ)
    → 0 < random.den
    → is_permanent error ≡ false
    → (delay : ℕ) × (initial_discovery_retry_delay_ms (ours error) attempt random now ≡ some delay)
      × (3750 ≤ delay)
      × (breaker_wait_ms error now ≤ delay)
      × (delay ≤ max 300000 (breaker_wait_ms error now))
unfolding initial_discovery_retry_delay_ms
initial_discovery_retry-bounds error attempt random now positive passing =
    let (low, waits, high) = retry_delay-bounds error attempt random now positive in
    (retry_delay_of error attempt random now, rw passing, low, waits, high)
