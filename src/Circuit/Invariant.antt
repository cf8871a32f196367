-- ===== src/Circuit/Invariant.antt =====
-- Histories of the breaker: guarded operations start, run side by side and settle in any order,
-- and the diagnostics read the status between them.
use homebridge_myalarmcom.Common.{
  ℕ, ◌+◌, ◌-◌, ◌≤◌, ◌<◌, ◌≡◌, ◌≢◌, refl, Bool, true, false, none, arith,
}
use homebridge_myalarmcom.Circuit.{
  CircuitState, closed, opened, half_open, CircuitBreakerConfig, CircuitBreaker,
  new_circuit_breaker, reset, record_success, record_success_in, record_failure, prune_failures,
  get_status, begin_execute, settle_execute, Admission, refused, admitted,
}
use homebridge_myalarmcom.Common.{length, length-keep-le}

-- The breaker with the operations that have started and not settled: how many of them as probes.
pub record System : Type 0 where
  pub breaker : CircuitBreaker
  pub probes : ℕ
  pub calls : ℕ

abbrev pub started : System → CircuitBreaker × Admission → System
started s (b, refused wait) = record s { breaker = b }
started s (b, admitted true) = record s { breaker = b; probes = s.probes + 1 }
started s (b, admitted false) = record s { breaker = b; calls = s.calls + 1 }

-- Times are not related: the invariant holds under a clock that is stepped back.
pub data Step (s : System) : System → Type 0 where
  start : (now : ℕ) → Step s (started s (begin_execute s.breaker now))
  settle_probe :
      (now : ℕ) (is_ok : Bool)
      → 0 < s.probes
      → Step s
          (record s { breaker = settle_execute s.breaker now true is_ok; probes = s.probes - 1 })
  settle_call :
      (now : ℕ) (is_ok : Bool)
      → 0 < s.calls
      → Step s
          (record s { breaker = settle_execute s.breaker now false is_ok; calls = s.calls - 1 })
  status : (now : ℕ) → Step s (record s { breaker = (get_status s.breaker now).0 })

pub data Reach (s : System) : System → Type 0 where
  here : Reach s s
  next : {t u : System} → Reach s t → Step t u → Reach s u

unfoldable pub fresh : CircuitBreakerConfig → System
fresh config = record { breaker = new_circuit_breaker config; probes = 0; calls = 0 }

pub record IsPositive (c : CircuitBreakerConfig) : Type 0 where
  pub threshold : 0 < c.failure_threshold
  pub probes : 0 < c.half_open_probes
  pub to_close : 0 < c.successes_to_close

-- `out` is the number of probes that have not settled.
pub record Inv (b : CircuitBreaker) (out : ℕ) : Type 0 where
  pub positive : IsPositive b.config
  pub released : b.half_open_requests ≤ out
  pub capped : b.half_open_requests ≤ b.half_open_probes
  pub timed : b.state ≡ opened → b.last_failure_time ≢ none
  pub below_threshold : b.state ≡ closed → length b.failure_timestamps < b.failure_threshold
  pub unfinished : b.successes < b.successes_to_close

fresh-Inv : (c : CircuitBreakerConfig) → IsPositive c → Inv (fresh c).breaker (fresh c).probes
unfolding fresh new_circuit_breaker
fresh-Inv c p = record {
  positive = p;
  released = omega arith;
  capped = omega arith;
  timed = λ e. ground arith;
  below_threshold = λ e. p.threshold;
  unfinished = p.to_close;
}

prune_failures-Inv : (b : CircuitBreaker) (out now : ℕ) → Inv b out → Inv (prune_failures b now) out
unfolding prune_failures
prune_failures-Inv b out now v = record {
  positive = v.positive;
  released = v.released;
  capped = v.capped;
  timed = v.timed;
  below_threshold =
      λ e. omega (arith, v.below_threshold e, length-keep-le {0} _ b.failure_timestamps);
  unfinished = v.unfinished;
}

reset-Inv : (b : CircuitBreaker) (out : ℕ) → Inv b out → Inv (reset b) out
unfolding reset
reset-Inv b out v = ground (arith, v.positive.threshold, v.positive.to_close)

record_success-Inv : (b : CircuitBreaker) (out now : ℕ) → Inv b out → Inv (record_success b now) out
unfolding record_success
record_success-Inv b out now v = go b.state refl
  where
    go : (st : CircuitState) → b.state ≡ st → Inv (record_success_in st b now) out
    go half_open e =
        ground (arith, reset-Inv (record b { successes = b.successes + 1 }) out, v.unfinished)
    go closed e = prune_failures-Inv b out now v
    go opened e = prune_failures-Inv b out now v

-- A failure stamps the time first, so an open breaker always knows when it failed.
record_failure-Inv : (b : CircuitBreaker) (out now : ℕ) → Inv b out → Inv (record_failure b now) out
unfolding record_failure
record_failure-Inv b out now v = ground (arith, v.positive.threshold, v.positive.to_close)

-- One probe fewer is out, and one fewer is counted.
release-Inv :
    (b : CircuitBreaker) (out : ℕ)
    → Inv b out
    → Inv (record b { half_open_requests = b.half_open_requests - 1 }) (out - 1)
release-Inv b out v = ground (arith, v.positive.threshold, v.positive.to_close)

settle_probe-Inv :
    (b : CircuitBreaker) (out now : ℕ) (is_ok : Bool)
    → Inv b out
    → Inv (settle_execute b now true is_ok) (out - 1)
unfolding settle_execute
settle_probe-Inv b out now true v = release-Inv _ out (record_success-Inv b out now v)
settle_probe-Inv b out now false v = release-Inv _ out (record_failure-Inv b out now v)

settle_call-Inv :
    (b : CircuitBreaker) (out now : ℕ) (is_ok : Bool)
    → Inv b out
    → Inv (settle_execute b now false is_ok) out
unfolding settle_execute
settle_call-Inv b out now true v = record_success-Inv b out now v
settle_call-Inv b out now false v = record_failure-Inv b out now v

begin_execute-Inv :
    (s : System) (now : ℕ)
    → Inv s.breaker s.probes
    → let t = started s (begin_execute s.breaker now) in Inv t.breaker t.probes
unfolding begin_execute
begin_execute-Inv s now v =
    ground (arith, v.positive.threshold, v.positive.to_close, v.positive.probes)

Step-Inv : {s t : System} → Step s t → Inv s.breaker s.probes → Inv t.breaker t.probes
unfolding get_status
Step-Inv {s} (start now) v = begin_execute-Inv s now v
Step-Inv {s} (settle_probe now is_ok h) v = settle_probe-Inv s.breaker s.probes now is_ok v
Step-Inv {s} (settle_call now is_ok h) v = settle_call-Inv s.breaker s.probes now is_ok v
Step-Inv {s} (status now) v = prune_failures-Inv s.breaker s.probes now v

pub Reach-Inv :
    (c : CircuitBreakerConfig) {s : System}
    → IsPositive c
    → Reach (fresh c) s
    → Inv s.breaker s.probes
Reach-Inv c p here = fresh-Inv c p
Reach-Inv c p (next r st) = Step-Inv st (Reach-Inv c p r)

-- What a breaker in each state knows.
abbrev pub InState : CircuitState → CircuitBreaker → Type 0
InState closed b = length b.failure_timestamps < b.failure_threshold
InState opened b = b.last_failure_time ≢ none
InState half_open b = b.successes < b.successes_to_close

pub record IsWellFormed (b : CircuitBreaker) (out : ℕ) : Type 0 where
  pub released : b.half_open_requests ≤ out
  pub capped : b.half_open_requests ≤ b.half_open_probes
  pub in_state : InState b.state b

in_state :
    (st : CircuitState) (b : CircuitBreaker) (out : ℕ) → b.state ≡ st → Inv b out → InState st b
in_state closed b out e v = v.below_threshold e
in_state opened b out e v = v.timed e
in_state half_open b out e v = v.unfinished

-- In every history of a breaker whose threshold, probe limit and success count are positive: the
-- probe counter never exceeds the probes that are out nor the limit, an open breaker knows its last
-- failure, a closed one has fewer failures than the threshold, and a half-open one has fewer
-- successes than it takes to close.
pub Reach-IsWellFormed :
    (c : CircuitBreakerConfig) (s : System)
    → IsPositive c
    → Reach (fresh c) s
    → IsWellFormed s.breaker s.probes
Reach-IsWellFormed c s p r =
    let v = Reach-Inv c p r in
    record {
      released = v.released;
      capped = v.capped;
      in_state = in_state s.breaker.state s.breaker s.probes refl v;
    }
