-- ===== src/Circuit/Recovery.antt =====
-- How a half-open breaker closes or reopens, and the transition diagram.
use homebridge_myalarmcom.Common.{
  ◌==◌, ℕ, ◌+◌, ◌≤◌, ◌<◌, ◌≡◌, ◌∙◌, none, List, [], ◌∷◌, arith, leb, length, if◌then◌else◌,
}
use homebridge_myalarmcom.Circuit.{
  closed, opened, half_open, CircuitBreaker, can_request, record_failure, record_success,
}

-- Successes recorded one after the other, at the given times.
pub record_successes : CircuitBreaker → List ℕ → CircuitBreaker
record_successes b [] = b
record_successes b (t ∷ ts) = record_successes (record_success b t) ts

success_counted :
    (b : CircuitBreaker) (t : ℕ)
    → b.state ≡ half_open
    → b.successes + 1 < b.successes_to_close
    → record_success b t ≡ record b { successes = b.successes + 1 }
unfolding record_success
success_counted b t h l = ground arith

success_closes :
    (b : CircuitBreaker) (t : ℕ)
    → b.state ≡ half_open
    → b.successes_to_close ≤ b.successes + 1
    → ((record_success b t).state ≡ closed)
      × ((record_success b t).failure_timestamps ≡ [])
      × ((record_success b t).half_open_requests ≡ 0)
      × ((record_success b t).last_failure_time ≡ none)
unfolding record_success
success_closes b t h l = ground arith

successes_counted :
    (b : CircuitBreaker) (ts : List ℕ)
    → b.state ≡ half_open
    → b.successes + length ts < b.successes_to_close
    → record_successes b ts ≡ record b { successes = b.successes + length ts }
unfolding record_successes
successes_counted b [] h l = ground arith
successes_counted b (t ∷ ts) h l =
    rw (success_counted b t h (omega arith)) (
      successes_counted (record b { successes = b.successes + 1 }) ts h (omega arith)
      ∙ ground arith)

-- A half-open breaker stays half open while fewer than the configured number of successes have been
-- recorded; the next success closes it, and forgets every recorded failure, exactly if it is the last
-- one needed; a failure instead reopens it, and no request is admitted until a full cooldown after.
pub half_open_successes :
    (b : CircuitBreaker) (ts : List ℕ) (t later : ℕ)
    → b.state ≡ half_open
    → b.successes + length ts < b.successes_to_close
    → let q = record_successes b ts in
      let is_last = (b.successes + length ts + 1) == b.successes_to_close in
      (q.state ≡ half_open)
      × ((record_success q t).state ≡ (if is_last then closed else half_open))
      × ((record_success q t).failure_timestamps ≡ (if is_last then [] else b.failure_timestamps))
      × ((record_failure q t).state ≡ opened)
      × ((can_request (record_failure q t) later).1 ≡ leb (t + b.reset_timeout_ms) later)
unfolding record_success record_failure can_request
half_open_successes b ts t later h l =
    rw (successes_counted b ts h l) (h, ground arith, ground arith, ground arith, ground arith)
