-- ===== src/Circuit.antt =====
-- src/api/circuit-breaker.ts: the circuit breaker in front of every request to Alarm.com.
-- `Date.now()` is the argument `now`, in milliseconds. A comparison of a difference of times is
-- written with the subtrahend on the other side, so it holds for any clock, a stepped one too.
-- `execute` awaits the guarded operation, so it is two functions: what runs before the await and
-- what runs after it. The calls of `#onStateChange` are kept as a list, newest first.
pub mod Invariant
pub mod Refusals
pub mod Failures
pub mod Recovery
pub mod Transitions
mod Tests
use homebridge_myalarmcom.Common.{
  ℕ, ◌+◌, ◌-◌, ◌*◌, Bool, true, false, ◌&&◌, Option, none, some, List, [], ◌∷◌, ◌++◌, ltb, leb,
  if◌then◌else◌, length, get_last?, keep,
}
use homebridge_myalarmcom.Settings.{ms_per_second, ms_per_minute}

pub data CircuitState : Type 0 where
  closed opened half_open : CircuitState

pub record CircuitBreakerConfig : Type 0 where
  pub failure_threshold : ℕ
  pub reset_timeout_ms : ℕ
  pub successes_to_close : ℕ
  pub half_open_probes : ℕ
  pub failure_window_ms : ℕ
  pub failure_coalesce_ms : ℕ

abbrev pub default_circuit_breaker_config : CircuitBreakerConfig
default_circuit_breaker_config = record {
  failure_threshold = 5;
  reset_timeout_ms = 30 * ms_per_second;
  successes_to_close = 3;
  half_open_probes = 3;
  failure_window_ms = 5 * ms_per_minute;
  failure_coalesce_ms = 15 * ms_per_second;
}

pub record CircuitBreaker : Type 0 where
  pub config : CircuitBreakerConfig
  pub open config use *
  pub state : CircuitState
  pub successes : ℕ
  pub last_failure_time : Option ℕ
  pub half_open_requests : ℕ
  pub failure_timestamps : List ℕ
  pub transitions : List (CircuitState × CircuitState)

unfoldable pub new_circuit_breaker : CircuitBreakerConfig → CircuitBreaker
new_circuit_breaker config = record {
  config = config;
  state = closed;
  successes = 0;
  last_failure_time = none;
  half_open_requests = 0;
  failure_timestamps = [];
  transitions = [];
}

abbrev same_state : CircuitState → CircuitState → Bool
same_state closed closed = true
same_state opened opened = true
same_state half_open half_open = true
same_state _ _ = false

transition_to : CircuitBreaker → CircuitState → CircuitBreaker
transition_to b next =
    if same_state b.state next
    then b
    else record b { state = next; transitions = (b.state, next) ∷ b.transitions }

prune_failures : CircuitBreaker → ℕ → CircuitBreaker
prune_failures b now = record b {
  failure_timestamps = keep (λ ts. ltb now (ts + b.failure_window_ms)) b.failure_timestamps;
}

-- `#lastFailureTime !== null && Date.now() - #lastFailureTime >= #resetTimeoutMs`
is_cooldown_elapsed : Option ℕ → ℕ → ℕ → Bool
is_cooldown_elapsed none reset_timeout_ms now = false
is_cooldown_elapsed (some t) reset_timeout_ms now = leb (t + reset_timeout_ms) now

can_request_in : CircuitState → CircuitBreaker → ℕ → CircuitBreaker × Bool
unfolding transition_to is_cooldown_elapsed
can_request_in closed b now = (b, true)
can_request_in opened b now =
    if is_cooldown_elapsed b.last_failure_time b.reset_timeout_ms now
    then (transition_to (record b { half_open_requests = 0; successes = 0 }) half_open, true)
    else (b, false)
can_request_in half_open b now = (b, ltb b.half_open_requests b.half_open_probes)

unfoldable pub can_request : CircuitBreaker → ℕ → CircuitBreaker × Bool
unfolding can_request_in
can_request b now = can_request_in b.state b now

unfoldable pub reset : CircuitBreaker → CircuitBreaker
unfolding transition_to
reset b =
    transition_to
      (record b {
        successes = 0;
        last_failure_time = none;
        half_open_requests = 0;
        failure_timestamps = [];
      })
      closed

record_success_in : CircuitState → CircuitBreaker → ℕ → CircuitBreaker
unfolding reset prune_failures
record_success_in half_open b now =
    let counted = record b { successes = b.successes + 1 } in
    if leb b.successes_to_close counted.successes then reset counted else counted
record_success_in _ b now = prune_failures b now

unfoldable pub record_success : CircuitBreaker → ℕ → CircuitBreaker
unfolding record_success_in
record_success b now = record_success_in b.state b now

-- `previous !== undefined && now - previous < #failureCoalesceMs`
is_same_burst : Option ℕ → ℕ → ℕ → Bool
is_same_burst none failure_coalesce_ms now = false
is_same_burst (some previous) failure_coalesce_ms now = ltb now (previous + failure_coalesce_ms)

-- The timestamps after the push of `recordFailure`.
push_failure : CircuitBreaker → ℕ → List ℕ
unfolding is_same_burst
push_failure b now =
    if is_same_burst (get_last? b.failure_timestamps) b.failure_coalesce_ms now
    then b.failure_timestamps
    else b.failure_timestamps ++ (now ∷ [])

open_if_exhausted : CircuitBreaker → CircuitBreaker
unfolding transition_to
open_if_exhausted b =
    if leb b.failure_threshold (length b.failure_timestamps) then transition_to b opened else b

record_failure_in : CircuitState → CircuitBreaker → ℕ → CircuitBreaker
unfolding transition_to prune_failures open_if_exhausted
record_failure_in half_open b now =
    transition_to (record b { half_open_requests = 0; successes = 0 }) opened
record_failure_in closed b now = open_if_exhausted (prune_failures b now)
record_failure_in opened b now = b

unfoldable pub record_failure : CircuitBreaker → ℕ → CircuitBreaker
unfolding push_failure record_failure_in
record_failure b now =
    record_failure_in b.state
      (record b { last_failure_time = some now; failure_timestamps = push_failure b now }) now

-- `#remainingResetTimeMs()`; `-` stops at 0 as `Math.max(0, …)` does.
remaining_in : CircuitState → Option ℕ → ℕ → ℕ → Option ℕ
remaining_in opened (some t) reset_timeout_ms now = some ((reset_timeout_ms + t) - now)
remaining_in _ _ reset_timeout_ms now = none

remaining_reset_time_ms : CircuitBreaker → ℕ → Option ℕ
unfolding remaining_in
remaining_reset_time_ms b now = remaining_in b.state b.last_failure_time b.reset_timeout_ms now

pub record CircuitBreakerStatus : Type 0 where
  pub state : CircuitState
  pub failures : ℕ
  pub remaining : Option ℕ

unfoldable pub get_status : CircuitBreaker → ℕ → CircuitBreaker × CircuitBreakerStatus
unfolding prune_failures remaining_reset_time_ms
get_status b now =
    let pruned = prune_failures b now in
    (
      pruned,
      record {
        state = pruned.state;
        failures = length pruned.failure_timestamps;
        remaining = remaining_reset_time_ms pruned now;
      },
    )

-- What `execute` does before the operation runs: it throws with a wait, or calls the operation,
-- as a probe or not.
pub data Admission : Type 0 where
  refused : ℕ → Admission
  admitted : Bool → Admission

abbrev or_else : Option ℕ → ℕ → ℕ
or_else none d = d
or_else (some n) d = n

abbrev admit : CircuitBreaker → CircuitBreaker × Admission
admit b =
    if same_state b.state half_open
    then (record b { half_open_requests = b.half_open_requests + 1 }, admitted true)
    else (b, admitted false)

unfoldable pub begin_execute : CircuitBreaker → ℕ → CircuitBreaker × Admission
unfolding can_request remaining_reset_time_ms
begin_execute b now =
    let (asked, may) = can_request b now in
    if may
    then admit asked
    else (asked, refused (or_else (remaining_reset_time_ms asked now) asked.reset_timeout_ms))

-- The `try`, `catch` and `finally` after the operation settles.
unfoldable pub settle_execute : CircuitBreaker → ℕ → Bool → Bool → CircuitBreaker
unfolding record_success record_failure
settle_execute b now is_probe is_ok =
    let noted = if is_ok then record_success b now else record_failure b now in
    if is_probe then record noted { half_open_requests = noted.half_open_requests - 1 } else noted
