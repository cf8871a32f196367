-- ===== src/Circuit/Tests.antt =====
-- The breaker's theorems at small histories.
use homebridge_myalarmcom.Common.{
  ℕ, ◌+◌, ◌≤◌, ◌<◌, ◌≡◌, refl, false, some, [], ◌∷◌, arith, leb, length, All, Spaced,
}
use homebridge_myalarmcom.Circuit.{
  closed, opened, half_open, CircuitBreakerConfig, CircuitBreaker, can_request, record_failure,
  record_success, new_circuit_breaker, begin_execute, settle_execute,
}
use homebridge_myalarmcom.Circuit.Invariant.{
  System, start, settle_call, Reach, here, next, fresh, IsPositive, IsWellFormed,
  Reach-IsWellFormed,
}
use homebridge_myalarmcom.Circuit.Refusals.{idle_refusal, refusal_exact}
use homebridge_myalarmcom.Circuit.Failures.{opens_on_spread_failures}
use homebridge_myalarmcom.Circuit.Recovery.{record_successes, half_open_successes}

abbrev brittle : CircuitBreakerConfig
brittle = record {
  failure_threshold = 1;
  reset_timeout_ms = 100;
  successes_to_close = 2;
  half_open_probes = 1;
  failure_window_ms = 1000;
  failure_coalesce_ms = 10;
}

brittle-IsPositive : IsPositive brittle
brittle-IsPositive = omega arith

-- One ordinary call has started.
abbrev calling : System
calling = record (fresh brittle) { calls = 1 }

calling-Reach : Reach (fresh brittle) calling
unfolding begin_execute fresh new_circuit_breaker
calling-Reach = next here (start 5)

-- It has failed at time 7.
abbrev tripped : System
tripped = record {
  breaker = record {
    config = brittle;
    state = opened;
    successes = 0;
    last_failure_time = some 7;
    half_open_requests = 0;
    failure_timestamps = 7 ∷ [];
    transitions = (closed, opened) ∷ [];
  };
  probes = 0;
  calls = 0;
}

tripped-Reach : Reach (fresh brittle) tripped
unfolding settle_execute fresh new_circuit_breaker
tripped-Reach = next calling-Reach (settle_call 7 false (omega arith))

Reach-IsWellFormed_example : IsWellFormed tripped.breaker 0
Reach-IsWellFormed_example = Reach-IsWellFormed brittle tripped brittle-IsPositive tripped-Reach

idle_refusal_example :
    (tripped.breaker.state ≡ opened)
    × (t : ℕ) × (tripped.breaker.last_failure_time ≡ some t)
    × (20 < t + tripped.breaker.reset_timeout_ms)
    × (20 + 87 ≡ t + tripped.breaker.reset_timeout_ms)
unfolding begin_execute
idle_refusal_example = idle_refusal brittle tripped 20 87 brittle-IsPositive tripped-Reach refl refl

refusal_exact_example :
    ((begin_execute tripped.breaker 20).0 ≡ tripped.breaker)
    × ((can_request tripped.breaker 107).1 ≡ leb (20 + 87) 107)
unfolding begin_execute
refusal_exact_example = refusal_exact tripped.breaker 20 87 7 107 refl refl refl

opens_on_spread_failures_example :
    let b = record_failure calling.breaker 7 in
    (b.failure_threshold ≤ length b.failure_timestamps)
    × All (λ ts. 7 < ts + b.failure_window_ms) b.failure_timestamps
    × Spaced b.failure_coalesce_ms b.failure_timestamps
unfolding record_failure fresh new_circuit_breaker
opens_on_spread_failures_example =
    opens_on_spread_failures brittle calling 7 calling-Reach refl refl

abbrev probing : CircuitBreaker
probing = record tripped.breaker { state = half_open }

half_open_successes_example :
    let q = record_successes probing (120 ∷ []) in
    (q.state ≡ half_open)
    × ((record_success q 130).state ≡ closed)
    × ((record_success q 130).failure_timestamps ≡ [])
    × ((record_failure q 130).state ≡ opened)
    × ((can_request (record_failure q 130) 200).1 ≡ leb (130 + 100) 200)
half_open_successes_example = half_open_successes probing (120 ∷ []) 130 200 refl (omega arith)
