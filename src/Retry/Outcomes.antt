-- ===== src/Retry/Outcomes.antt =====
-- How the retry loop ends, and what it does on the way.
use homebridge_myalarmcom.Common.{
  ℕ, zero, suc, ◌+◌, ◌≤◌, ◌<◌, ◌≡◌, ◌⊎◌, inl, inr, refl, max, true, false, Option, none, some, All,
  arith, leb, Bool-cases, leb→le,
}
use homebridge_myalarmcom.Errors.{Thrown, ours, aborted}
use homebridge_myalarmcom.Retry.{
  Fraction, server_requested_delay_ms, reconcile, resolve_delay_ms, compute_backoff_ms, Outcome,
  returns, throws, Retry, Ending, returned, threw, out_of_fuel, Run, World, RetryOptions,
  after_delay, after_outcome, attempt_from, with_retry,
}

-- A server's wait that a delay honours.
abbrev pub IsHonoured : Option ℕ → ℕ → Type 0
IsHonoured none delay_ms = Unit
IsHonoured (some wait_ms) delay_ms = wait_ms ≤ delay_ms

resolve_delay-facts :
    (error : Thrown) (attempt base_delay_ms max_delay_ms : ℕ) (random : Fraction) (delay_ms : ℕ)
    → resolve_delay_ms error attempt base_delay_ms max_delay_ms random ≡ some delay_ms
    → (delay_ms ≤ max_delay_ms) × IsHonoured (server_requested_delay_ms error) delay_ms
unfolding resolve_delay_ms
resolve_delay-facts error attempt base_delay_ms max_delay_ms random delay_ms =
    go (server_requested_delay_ms error)
  where
    go :
        (server : Option ℕ)
        → reconcile server
            (compute_backoff_ms attempt base_delay_ms max_delay_ms random)
            max_delay_ms
          ≡ some delay_ms
        → (delay_ms ≤ max_delay_ms) × IsHonoured server delay_ms
    go none = unfold reconcile compute_backoff_ms in λ e. (grind arith, tt)
    go (some wait_ms) = unfold reconcile compute_backoff_ms in λ e. (ground arith, ground arith)

module _ {ℓ} {A : Type ℓ} (options : RetryOptions) (world : World A) where
  abbrev pub settled : Outcome A → Ending A
  settled (returns value) = returned value
  settled (throws error) = threw error

  -- Why no further attempt was made.
  abbrev pub IsFinal : Ending A → ℕ → Type 0
  IsFinal (returned value) last = Unit
  IsFinal (threw error) last =
      (options.should_retry error ≡ false)
      ⊎ ((options.max_attempts ≤ last)
          ⊎ ((resolve_delay_ms error last options.base_delay_ms options.max_delay_ms
                  (world.random last)
                ≡ none)
              ⊎ ((error ≡ ours aborted) × (world.is_aborted last ≡ true))))
  IsFinal out_of_fuel last = ⊥

  -- What a retry follows from, and its delay.
  pub record IsFair (retry : Retry) : Type ℓ where
    pub thrown : world.operation retry.attempt ≡ throws retry.error
    pub worth : options.should_retry retry.error ≡ true
    pub below : retry.attempt < options.max_attempts
    pub capped : retry.delay_ms ≤ options.max_delay_ms
    pub honoured : IsHonoured (server_requested_delay_ms retry.error) retry.delay_ms

  pub record IsSound (first : ℕ) (run : Run A) : Type ℓ where
    pub ends :
        (run.ending ≡ settled (world.operation run.last_attempt))
        ⊎ (run.ending ≡ threw (ours aborted))
    pub final : IsFinal run.ending run.last_attempt
    pub in_bounds : run.last_attempt ≤ max first options.max_attempts
    pub fair : All IsFair run.retries

  after_delay-IsSound :
      (delay : Option ℕ) (error : Thrown) (attempt : ℕ) (rest : Run A)
      → world.operation attempt ≡ throws error
      → options.should_retry error ≡ true
      → attempt < options.max_attempts
      → resolve_delay_ms error attempt options.base_delay_ms options.max_delay_ms
          (world.random attempt)
        ≡ delay
      → IsSound (attempt + 1) rest
      → IsSound attempt (after_delay delay error attempt (world.is_aborted attempt) rest)
  unfolding after_delay
  after_delay-IsSound none error attempt rest thrown worth below delay v = record {
    ends = inl (rw thrown refl);
    final = inr (inr (inl delay));
    in_bounds = omega arith;
    fair = tt;
  }
  after_delay-IsSound (some ms) error attempt rest thrown worth below delay v =
      let facts = resolve_delay-facts error attempt _ _ (world.random attempt) ms delay in
      let retry : IsFair (record { attempt = attempt; delay_ms = ms; error = error }) = record {
        thrown = thrown;
        worth = worth;
        below = below;
        capped = facts.0;
        honoured = facts.1;
      } in
      elim (Bool-cases (world.is_aborted attempt)) [
        | inl e ↦ rw e (record {
          ends = inr refl;
          final = inr (inr (inr (refl, e)));
          in_bounds = omega arith;
          fair = (retry, tt);
        })
        | inr e ↦ rw e (record {
          ends = v.ends;
          final = v.final;
          in_bounds = omega (arith, v.in_bounds);
          fair = (retry, v.fair);
        })
      ]

  after_outcome-IsSound :
      (outcome : Outcome A) (attempt : ℕ) (rest : Run A)
      → world.operation attempt ≡ outcome
      → (attempt < options.max_attempts → IsSound (attempt + 1) rest)
      → IsSound attempt (after_outcome outcome options world attempt rest)
  unfolding after_outcome
  after_outcome-IsSound (returns value) attempt rest e v = record {
    ends = inl (rw e refl);
    final = tt;
    in_bounds = omega arith;
    fair = tt;
  }
  after_outcome-IsSound (throws error) attempt rest e v =
      let stop = leb options.max_attempts attempt in
      elim (Bool-cases (options.should_retry error)) [
        | inr unfit ↦ rw unfit (record {
          ends = inl (rw e refl);
          final = inl unfit;
          in_bounds = omega arith;
          fair = tt;
        })
        | inl worth ↦ elim (Bool-cases stop) [
          | inl last ↦
              rw (worth, last)
                (record {
                  ends = inl (rw e refl);
                  final = inr (inl (leb→le _ _ last));
                  in_bounds = omega arith;
                  fair = tt;
                })
          | inr more ↦
              let below : attempt < options.max_attempts = ground arith in
              rw (worth, more)
                (after_delay-IsSound _ error attempt rest e worth below refl (v below))
        ]
      ]

  attempt_from-IsSound :
      (fuel attempt : ℕ)
      → options.max_attempts < attempt + suc fuel
      → IsSound attempt (attempt_from (suc fuel) options world attempt)
  unfolding attempt_from
  attempt_from-IsSound zero attempt enough =
      after_outcome-IsSound (world.operation attempt) attempt _ refl λ below. absurd (omega arith)
  attempt_from-IsSound (suc fuel) attempt enough =
      after_outcome-IsSound (world.operation attempt) attempt _ refl
        λ below. attempt_from-IsSound fuel (attempt + 1) (omega arith)

-- For any operation, draws and aborts, the loop ends, within the configured number of attempts or
-- after one, with the outcome of its last attempt or with the abort of the wait after it. It gives up
-- only on an error that is not retryable, out of attempts, on a server's wait beyond the ceiling, or
-- on an abort. Each retry follows a retryable error thrown with attempts left, and its delay is
-- within the ceiling and no shorter than the server asked.
pub with_retry-IsSound {ℓ} :
    {A : Type ℓ} (options : RetryOptions) (world : World A)
    → IsSound options world 1 (with_retry options world)
unfolding with_retry
with_retry-IsSound options world =
    attempt_from-IsSound options world options.max_attempts 1 (omega arith)
