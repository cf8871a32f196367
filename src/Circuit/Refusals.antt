-- ===== src/Circuit/Refusals.antt =====
-- When the breaker refuses a request, and what the refusal says.
use homebridge_myalarmcom.Common.{ℕ, ◌+◌, ◌<◌, ◌≡◌, some, arith, leb, Option-cases, inl, inr}
use homebridge_myalarmcom.Circuit.{
  opened, CircuitBreakerConfig, CircuitBreaker, can_request, begin_execute, refused,
}
use homebridge_myalarmcom.Circuit.Invariant.{System, Reach, fresh, IsPositive, Inv, Reach-Inv}

refused_idle :
    (b : CircuitBreaker) (now wait : ℕ)
    → Inv b 0
    → (begin_execute b now).1 ≡ refused wait
    → (b.state ≡ opened)
      × (t : ℕ) × (b.last_failure_time ≡ some t)
      × (now < t + b.reset_timeout_ms)
      × (now + wait ≡ t + b.reset_timeout_ms)
unfolding begin_execute
refused_idle b now wait v e = elim (Option-cases b.last_failure_time) [
  | inl missing ↦ absurd (ground (arith, v.timed, v.positive.probes))
  | inr (t, known) ↦ (
    ground (arith, v.positive.probes),
    t,
    known,
    ground (arith, v.positive.probes),
    ground (arith, v.positive.probes),
  )
]

-- The breaker never wedges: in every history of a breaker whose threshold, probe limit and success
-- count are positive, once no probe is out a request is refused only while the breaker is open and
-- its cooldown since the last failure is running, and the wait reported is what is left of it.
pub idle_refusal :
    (c : CircuitBreakerConfig) (s : System) (now wait : ℕ)
    → IsPositive c
    → Reach (fresh c) s
    → s.probes ≡ 0
    → (begin_execute s.breaker now).1 ≡ refused wait
    → (s.breaker.state ≡ opened)
      × (t : ℕ) × (s.breaker.last_failure_time ≡ some t)
      × (now < t + s.breaker.reset_timeout_ms)
      × (now + wait ≡ t + s.breaker.reset_timeout_ms)
idle_refusal c s now wait p r idle e =
    refused_idle s.breaker now wait (rw idle at (Reach-Inv c p r)) e

-- A refusal by an open breaker leaves it as it is, and a request at any time is then admitted
-- exactly when the reported wait is over; the state alone is read, so the clock may be any.
pub refusal_exact :
    (b : CircuitBreaker) (now wait t later : ℕ)
    → b.state ≡ opened
    → b.last_failure_time ≡ some t
    → (begin_execute b now).1 ≡ refused wait
    → ((begin_execute b now).0 ≡ b) × ((can_request b later).1 ≡ leb (now + wait) later)
unfolding begin_execute
refusal_exact b now wait t later o l e = (ground arith, ground arith)
