-- ===== src/Retry/Tests.antt =====
-- A rate-limited operation that succeeds at the second attempt.
use homebridge_myalarmcom.Common.{ℕ, suc, ◌≡◌, refl, false, some, [], ◌∷◌}
use homebridge_myalarmcom.Errors.{ours, rate_limit, is_retryable}
use homebridge_myalarmcom.Retry.{
  Fraction, Outcome, returns, throws, World, RetryOptions, returned, with_retry,
  is_retryable_thrown, compute_backoff_ms, after_outcome, after_delay, attempt_from,
  resolve_delay_ms, reconcile, server_requested_delay_ms, exponential_ms,
}
use homebridge_myalarmcom.Retry.Outcomes.{IsSound, with_retry-IsSound}

abbrev half : Fraction
half = record { num = 1; den = 2 }

abbrev second_time : ℕ → Outcome ℕ
second_time (suc (suc n)) = returns 7
second_time n = throws (ours (rate_limit (some 2500)))

abbrev busy : World ℕ
busy = record { operation = second_time; random = λ n. half; is_aborted = λ n. false }

abbrev defaults : RetryOptions
defaults = record {
  max_attempts = 3;
  base_delay_ms = 1000;
  max_delay_ms = 60000;
  should_retry = is_retryable_thrown;
}

second_attempt_succeeds : with_retry defaults busy ≡ record {
  ending = returned 7;
  last_attempt = 2;
  retries = (record { attempt = 1; delay_ms = 2500; error = ours (rate_limit (some 2500)) }) ∷ [];
}
unfolding with_retry attempt_from after_outcome after_delay resolve_delay_ms reconcile
    compute_backoff_ms exponential_ms server_requested_delay_ms is_retryable_thrown is_retryable
second_attempt_succeeds = refl

with_retry-IsSound_example : IsSound defaults busy 1 (with_retry defaults busy)
with_retry-IsSound_example = with_retry-IsSound defaults busy
