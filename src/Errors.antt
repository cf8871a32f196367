-- ===== src/Errors.antt =====
-- src/errors/index.ts: the error classes as one data type, their codes and retry hints, and the
-- mapping from an HTTP response to an error. Messages are left out, but for the data that callers
-- read back (a wait, a status, a reset time).
pub mod Classification
mod Tests
use homebridge_myalarmcom.Common.{
  ℕ, ◌+◌, ◌-◌, Bool, true, false, ◌&&◌, Option, none, some, leb, ◌==◌, if◌then◌else◌,
}

pub data ErrorCode : Type 0 where
  config_error auth_error two_factor_required login_form_error login_throttled : ErrorCode
  session_expired forbidden_error read_only_partition system_unavailable : ErrorCode
  network_error timeout_error rate_limit_error request_pacing : ErrorCode
  api_response_error api_parse_error circuit_open operation_aborted : ErrorCode

-- One constructor for each concrete class; `TwoFactorRequiredError extends AuthenticationError`.
pub data AlarmComError : Type 0 where
  configuration authentication two_factor login_form session_expired_error : AlarmComError
  login_throttled_error : ℕ → AlarmComError
  pacing : ℕ → ℕ → AlarmComError
  aborted forbidden read_only unavailable network timeout : AlarmComError
  rate_limit : Option ℕ → AlarmComError
  api_response : ℕ → AlarmComError
  api_parse : AlarmComError
  circuit_breaker : ℕ → AlarmComError

-- What a `catch` clause may hold: one of the plugin's errors, or any other value.
pub data Thrown : Type 0 where
  ours : AlarmComError → Thrown
  foreign : Thrown

unfoldable pub code : AlarmComError → ErrorCode
code configuration = config_error
code authentication = auth_error
code two_factor = two_factor_required
code login_form = login_form_error
code session_expired_error = session_expired
code (login_throttled_error _) = login_throttled
code (pacing _ _) = request_pacing
code aborted = operation_aborted
code forbidden = forbidden_error
code read_only = read_only_partition
code unavailable = system_unavailable
code network = network_error
code timeout = timeout_error
code (rate_limit _) = rate_limit_error
code (api_response _) = api_response_error
code api_parse = api_parse_error
code (circuit_breaker _) = circuit_open

unfoldable pub is_retryable : AlarmComError → Bool
is_retryable configuration = false
is_retryable authentication = false
is_retryable two_factor = false
is_retryable login_form = false
is_retryable session_expired_error = true
is_retryable (login_throttled_error _) = true
is_retryable (pacing _ _) = false
is_retryable aborted = false
is_retryable forbidden = false
is_retryable read_only = false
is_retryable unavailable = true
is_retryable network = true
is_retryable timeout = true
is_retryable (rate_limit _) = true
is_retryable (api_response status) = leb 500 status
is_retryable api_parse = true
is_retryable (circuit_breaker _) = false

-- `error instanceof AuthenticationError`, the subclass included.
unfoldable pub is_authentication : AlarmComError → Bool
is_authentication authentication = true
is_authentication two_factor = true
is_authentication _ = false

-- `new CircuitBreakerError(resetTimeMs)` at the time `now` holds the absolute reset time.
unfoldable pub circuit_breaker_error : ℕ → ℕ → AlarmComError
circuit_breaker_error now reset_time_ms = circuit_breaker (now + reset_time_ms)

-- `get retryAfterMs()`, read at the time `now`; `-` stops at 0 as `Math.max(0, …)` does.
unfoldable pub circuit_retry_after_ms : ℕ → ℕ → ℕ
circuit_retry_after_ms reset_time now = reset_time - now

-- A `Retry-After` header after `trim`, by what `Number` and `Date.parse` make of it: nothing, a
-- number of thousandths of a second that is not negative, a date, or neither.
pub data RetryAfter : Type 0 where
  blank : RetryAfter
  thousandths : ℕ → RetryAfter
  date : ℕ → RetryAfter
  unreadable : RetryAfter

unfoldable pub parse_retry_after_ms : Option RetryAfter → ℕ → Option ℕ
parse_retry_after_ms none now = none
parse_retry_after_ms (some blank) now = none
parse_retry_after_ms (some (thousandths t)) now = some t
parse_retry_after_ms (some (date at)) now = some (at - now)
parse_retry_after_ms (some unreadable) now = none

-- `marked` is whether the body, in lower case, includes the two-factor marker.
unfoldable pub create_api_error : ℕ → Bool → Option ℕ → AlarmComError
create_api_error status marked retry_after_ms =
    if status == 401
    then session_expired_error
    else if (status == 409) && marked
    then two_factor
    else if status == 403
    then forbidden
    else if status == 429
    then rate_limit retry_after_ms
    else api_response status
