-- ===== src/Circuit/Failures.antt =====
-- How failures are counted, and what it takes to open the breaker.
use homebridge_myalarmcom.Common.{
  ℕ, ◌+◌, ◌≤◌, ◌<◌, ◌≡◌, ◌∙◌, refl, Bool, true, false, none, some, List, [], ◌∷◌, arith, leb, ltb,
  ltb→lt, not-ltb→le, Bool-cases, inl, inr, length, get_last?, keep, All, Spaced, Spaced-keep,
  Spaced-snoc,
}
use homebridge_myalarmcom.Circuit.{
  CircuitState, closed, opened, half_open, CircuitBreakerConfig, CircuitBreaker, prune_failures,
  push_failure, is_same_burst, open_if_exhausted, record_failure, record_failure_in, record_success,
  record_success_in, reset, transition_to, new_circuit_breaker, begin_execute, settle_execute,
  get_status,
}
use homebridge_myalarmcom.Circuit.Invariant.{
  System, Step, start, settle_probe, settle_call, status, Reach, here, next, fresh, started,
}

abbrev pub IsSpread : CircuitBreaker → Type 0
IsSpread b = Spaced b.failure_coalesce_ms b.failure_timestamps

push_failure-Spaced :
    (b : CircuitBreaker) (now : ℕ) → IsSpread b → Spaced b.failure_coalesce_ms (push_failure b now)
unfolding push_failure
push_failure-Spaced b now h =
    elim (Bool-cases (is_same_burst (get_last? b.failure_timestamps) b.failure_coalesce_ms now)) [
      | inl same ↦ rw same h
      | inr other ↦ rw other (
          Spaced-snoc b.failure_coalesce_ms b.failure_timestamps now h
            (λ p e. not-ltb→le now (p + b.failure_coalesce_ms) (rw (e, is_same_burst) at other)))
    ]

prune_failures-IsSpread :
    (b : CircuitBreaker) (now : ℕ) → IsSpread b → IsSpread (prune_failures b now)
unfolding prune_failures
prune_failures-IsSpread b now h = Spaced-keep b.failure_coalesce_ms _ b.failure_timestamps h

open_if_exhausted_kept :
    (b : CircuitBreaker)
    → ((open_if_exhausted b).failure_timestamps ≡ b.failure_timestamps)
      × ((open_if_exhausted b).config ≡ b.config)
unfolding open_if_exhausted
open_if_exhausted_kept b = (ground arith, ground arith)

open_if_exhausted-IsSpread : (b : CircuitBreaker) → IsSpread b → IsSpread (open_if_exhausted b)
open_if_exhausted-IsSpread b h = rw ((open_if_exhausted_kept b).0, (open_if_exhausted_kept b).1) h

transition_to_kept :
    (b : CircuitBreaker) (to : CircuitState)
    → ((transition_to b to).failure_timestamps ≡ b.failure_timestamps)
      × ((transition_to b to).config ≡ b.config)
unfolding transition_to
transition_to_kept b to = (ground arith, ground arith)

transition_to-IsSpread :
    (b : CircuitBreaker) (to : CircuitState) → IsSpread b → IsSpread (transition_to b to)
transition_to-IsSpread b to h = rw ((transition_to_kept b to).0, (transition_to_kept b to).1) h

record_failure-IsSpread :
    (b : CircuitBreaker) (now : ℕ) → IsSpread b → IsSpread (record_failure b now)
unfolding record_failure
record_failure-IsSpread b now h = go b.state
  where
    failed : CircuitBreaker
    failed = record b { last_failure_time = some now; failure_timestamps = push_failure b now }

    go : (st : CircuitState) → IsSpread (record_failure_in st failed now)
    go half_open =
        transition_to-IsSpread (record failed { half_open_requests = 0; successes = 0 }) opened
          (push_failure-Spaced b now h)
    go opened = push_failure-Spaced b now h
    go closed =
        open_if_exhausted-IsSpread (prune_failures failed now)
          (prune_failures-IsSpread failed now (push_failure-Spaced b now h))

reset-IsSpread : (b : CircuitBreaker) → IsSpread (reset b)
unfolding reset
reset-IsSpread b =
    transition_to-IsSpread
      (record b {
        successes = 0;
        last_failure_time = none;
        half_open_requests = 0;
        failure_timestamps = [];
      })
      closed tt

record_success-IsSpread :
    (b : CircuitBreaker) (now : ℕ) → IsSpread b → IsSpread (record_success b now)
unfolding record_success
record_success-IsSpread b now h = go b.state
  where
    counted : CircuitBreaker
    counted = record b { successes = b.successes + 1 }

    go : (st : CircuitState) → IsSpread (record_success_in st b now)
    go half_open = elim (Bool-cases (leb b.successes_to_close (b.successes + 1))) [
      | inl enough ↦ rw enough (reset-IsSpread counted)
      | inr fewer ↦ rw fewer h
    ]
    go opened = prune_failures-IsSpread b now h
    go closed = prune_failures-IsSpread b now h

settle_execute-IsSpread :
    (b : CircuitBreaker) (now : ℕ) (is_probe is_ok : Bool)
    → IsSpread b
    → IsSpread (settle_execute b now is_probe is_ok)
unfolding settle_execute
settle_execute-IsSpread b now true true h = record_success-IsSpread b now h
settle_execute-IsSpread b now true false h = record_failure-IsSpread b now h
settle_execute-IsSpread b now false true h = record_success-IsSpread b now h
settle_execute-IsSpread b now false false h = record_failure-IsSpread b now h

start_kept :
    (s : System) (now : ℕ)
    → let t = started s (begin_execute s.breaker now) in
      (t.breaker.failure_timestamps ≡ s.breaker.failure_timestamps)
      × (t.breaker.config ≡ s.breaker.config)
unfolding begin_execute
start_kept s now = (ground arith, ground arith)

Step-IsSpread : {s t : System} → Step s t → IsSpread s.breaker → IsSpread t.breaker
unfolding get_status
Step-IsSpread {s} (start now) h = rw ((start_kept s now).0, (start_kept s now).1) h
Step-IsSpread {s} (settle_probe now is_ok _) h = settle_execute-IsSpread s.breaker now true is_ok h
Step-IsSpread {s} (settle_call now is_ok _) h = settle_execute-IsSpread s.breaker now false is_ok h
Step-IsSpread {s} (status now) h = prune_failures-IsSpread s.breaker now h

Reach-IsSpread : {s t : System} → Reach s t → IsSpread s.breaker → IsSpread t.breaker
Reach-IsSpread here h = h
Reach-IsSpread (next r st) h = Step-IsSpread st (Reach-IsSpread r h)

All-keep_self : (p : ℕ → Bool) (xs : List ℕ) → All (λ x. p x ≡ true) (keep p xs)
All-keep_self p [] = tt
All-keep_self p (x ∷ xs) = elim (Bool-cases (p x)) [
  | inl e ↦ rw e (e, All-keep_self p xs)
  | inr e ↦ rw e (All-keep_self p xs)
]

All-ltb :
    (now window : ℕ) (xs : List ℕ)
    → All (λ ts. ltb now (ts + window) ≡ true) xs
    → All (λ ts. now < ts + window) xs
All-ltb now window [] h = tt
All-ltb now window (x ∷ xs) h = (ltb→lt now (x + window) h.0, All-ltb now window xs h.1)

open_if_exhausted-opened :
    (b : CircuitBreaker)
    → b.state ≡ closed
    → (open_if_exhausted b).state ≡ opened
    → b.failure_threshold ≤ length b.failure_timestamps
unfolding open_if_exhausted
open_if_exhausted-opened b c o = ground arith

-- The breaker after a failure that a closed breaker counts, before the threshold is tested.
counted_failure : CircuitBreaker → ℕ → CircuitBreaker
counted_failure b now =
    prune_failures
      (record b { last_failure_time = some now; failure_timestamps = push_failure b now }) now

record_failure-closed :
    (b : CircuitBreaker) (now : ℕ)
    → b.state ≡ closed
    → record_failure b now ≡ open_if_exhausted (counted_failure b now)
unfolding record_failure counted_failure
record_failure-closed b now e = rw (e, record_failure_in)

counted_failure_young :
    (b : CircuitBreaker) (now : ℕ)
    → let q = counted_failure b now in
      (q.state ≡ b.state) × All (λ ts. now < ts + q.failure_window_ms) q.failure_timestamps
unfolding counted_failure prune_failures
counted_failure_young b now =
    (refl, All-ltb now b.failure_window_ms _ (All-keep_self _ (push_failure b now)))

counted_failure-IsSpread :
    (b : CircuitBreaker) (now : ℕ) → IsSpread b → IsSpread (counted_failure b now)
unfolding counted_failure
counted_failure-IsSpread b now h =
    prune_failures-IsSpread
      (record b { last_failure_time = some now; failure_timestamps = push_failure b now }) now
      (push_failure-Spaced b now h)

closed_failure_opens :
    (b : CircuitBreaker) (now : ℕ)
    → IsSpread b
    → b.state ≡ closed
    → (record_failure b now).state ≡ opened
    → let q = record_failure b now in
      (q.failure_threshold ≤ length q.failure_timestamps)
      × All (λ ts. now < ts + q.failure_window_ms) q.failure_timestamps
      × Spaced q.failure_coalesce_ms q.failure_timestamps
closed_failure_opens b now h e o =
    let same = record_failure-closed b now e in
    let young = counted_failure_young b now in
    let (times, config) = open_if_exhausted_kept (counted_failure b now) in
    rw (same, times, config)
      (
        open_if_exhausted-opened (counted_failure b now) (young.0 ∙ e) (rw same at o),
        young.1,
        counted_failure-IsSpread b now h,
      )

-- In every history, a failure opens a closed breaker only if at least the threshold of failures is
-- then on record, all of them younger than the failure window, and any two of them at least the
-- coalescing time apart: one burst of retries is one failure.
pub opens_on_spread_failures :
    (c : CircuitBreakerConfig) (s : System) (now : ℕ)
    → Reach (fresh c) s
    → s.breaker.state ≡ closed
    → (record_failure s.breaker now).state ≡ opened
    → let b = record_failure s.breaker now in
      (b.failure_threshold ≤ length b.failure_timestamps)
      × All (λ ts. now < ts + b.failure_window_ms) b.failure_timestamps
      × Spaced b.failure_coalesce_ms b.failure_timestamps
unfolding fresh new_circuit_breaker
opens_on_spread_failures c s now r e o =
    closed_failure_opens s.breaker now (Reach-IsSpread r tt) e o
