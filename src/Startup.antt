-- ===== src/Startup.antt =====
-- src/utils/discovery-retry.ts and src/utils/failure-log-level.ts: what a failure means for startup
-- and for the log.
pub mod Delays
mod Tests
use homebridge_myalarmcom.Common.{
  ℕ, max, Bool, true, false, ◌||◌, Option, none, some, if◌then◌else◌,
}
use homebridge_myalarmcom.Settings.{initial_discovery_retry_base_ms, initial_discovery_retry_max_ms}
use homebridge_myalarmcom.Errors.{
  AlarmComError, configuration, login_form, aborted, circuit_breaker, forbidden, pacing, Thrown,
  ours, foreign, is_authentication, is_retryable, circuit_retry_after_ms,
}
use homebridge_myalarmcom.Retry.{Fraction, compute_backoff_ms}

is_login_form : AlarmComError → Bool
is_login_form login_form = true
is_login_form _ = false

is_configuration : AlarmComError → Bool
is_configuration configuration = true
is_configuration _ = false

unfoldable pub is_permanent : AlarmComError → Bool
unfolding is_login_form is_configuration
is_permanent error = is_authentication error || is_login_form error || is_configuration error

retry_delay_of : AlarmComError → ℕ → Fraction → ℕ → ℕ
retry_delay_of (circuit_breaker reset_time) attempt random now =
    max (circuit_retry_after_ms reset_time now) initial_discovery_retry_base_ms
retry_delay_of error attempt random now =
    compute_backoff_ms attempt initial_discovery_retry_base_ms initial_discovery_retry_max_ms random

-- `none` is the `null` of a permanent failure.
unfoldable pub initial_discovery_retry_delay_ms : Thrown → ℕ → Fraction → ℕ → Option ℕ
unfolding retry_delay_of
initial_discovery_retry_delay_ms (ours error) attempt random now =
    if is_permanent error then none else some (retry_delay_of error attempt random now)
initial_discovery_retry_delay_ms foreign attempt random now = none

pub data FailureLevel : Type 0 where
  debug_level error_level : FailureLevel

unfoldable pub failure_log_level : Thrown → FailureLevel
failure_log_level (ours aborted) = debug_level
failure_log_level (ours (circuit_breaker _)) = debug_level
failure_log_level (ours forbidden) = debug_level
failure_log_level (ours (pacing _ _)) = debug_level
failure_log_level (ours error) = if is_retryable error then debug_level else error_level
failure_log_level foreign = error_level
