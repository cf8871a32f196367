-- ===== src/Circuit/Transitions.antt =====
-- The transitions that a breaker reports, over every history of its operations.
use homebridge_myalarmcom.Common.{ℕ, ◌≡◌, refl, Bool, true, false, ◌&&◌, List, [], ◌∷◌, arith}
use homebridge_myalarmcom.Circuit.{
  CircuitState, closed, opened, half_open, CircuitBreakerConfig, CircuitBreaker,
  new_circuit_breaker, reset, prune_failures, open_if_exhausted, record_success, record_success_in,
  record_failure, record_failure_in, transition_to, begin_execute, settle_execute, get_status,
  can_request, can_request_in, same_state,
}
use homebridge_myalarmcom.Circuit.Invariant.{
  System, started, Step, start, settle_probe, settle_call, status, Reach, here, next, fresh,
}

-- The edges of the state machine.
abbrev pub is_edge : CircuitState → CircuitState → Bool
is_edge closed opened = true
is_edge opened half_open = true
is_edge half_open opened = true
is_edge half_open closed = true
is_edge _ _ = false

-- The transitions, newest first, lead along edges from the closed state to this one.
unfoldable pub is_chain : CircuitState → List (CircuitState × CircuitState) → Bool
is_chain now [] = same_state now closed
is_chain now ((from, to) ∷ past) = (is_edge from to && same_state to now) && is_chain from past

abbrev IsChained : CircuitBreaker → Type 0
IsChained b = is_chain b.state b.transitions ≡ true

record_success-IsChained :
    (b : CircuitBreaker) (now : ℕ) → IsChained b → IsChained (record_success b now)
unfolding record_success record_success_in reset transition_to prune_failures is_chain
record_success-IsChained b now h = ground arith

record_failure-IsChained :
    (b : CircuitBreaker) (now : ℕ) → IsChained b → IsChained (record_failure b now)
unfolding record_failure record_failure_in open_if_exhausted transition_to prune_failures is_chain
record_failure-IsChained b now h = ground arith

settle_execute-IsChained :
    (b : CircuitBreaker) (now : ℕ) (is_probe is_ok : Bool)
    → IsChained b
    → IsChained (settle_execute b now is_probe is_ok)
unfolding settle_execute
settle_execute-IsChained b now is_probe is_ok h =
    ground (arith, record_success-IsChained b now, record_failure-IsChained b now)

begin_execute-IsChained :
    (s : System) (now : ℕ)
    → IsChained s.breaker
    → IsChained (started s (begin_execute s.breaker now)).breaker
unfolding begin_execute can_request can_request_in transition_to is_chain
begin_execute-IsChained s now h = ground arith

Step-IsChained : {s t : System} → Step s t → IsChained s.breaker → IsChained t.breaker
unfolding get_status prune_failures
Step-IsChained {s} (start now) h = begin_execute-IsChained s now h
Step-IsChained {s} (settle_probe now is_ok l) h =
    settle_execute-IsChained s.breaker now true is_ok h
Step-IsChained {s} (settle_call now is_ok l) h =
    settle_execute-IsChained s.breaker now false is_ok h
Step-IsChained {s} (status now) h = h

-- In every history of a breaker, the transitions that it has reported form one path from the closed
-- state to its present state, along the edges closed to open, open to half-open, and half-open to
-- open or closed.
pub Reach-is_chain :
    (c : CircuitBreakerConfig) (s : System)
    → Reach (fresh c) s
    → is_chain s.breaker.state s.breaker.transitions ≡ true
unfolding fresh new_circuit_breaker is_chain
Reach-is_chain c s here = refl
Reach-is_chain c s (next {t} r st) = Step-IsChained st (Reach-is_chain c t r)
