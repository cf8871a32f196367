-- ===== src/Client/Samples.antt =====
-- The samples that a client reports, against what it sent.
use homebridge_myalarmcom.Common.{
  ℕ, zero, suc, ◌+◌, ◌≤◌, ◌≡◌, inl, inr, refl, subst, Bool, false, not, ◌&&◌, Option, none, some,
  List, [], ◌∷◌, arith, if◌then◌else◌,
}
use homebridge_myalarmcom.Errors.{Thrown, create_api_error}
use homebridge_myalarmcom.Retry.{Outcome, throws}
use homebridge_myalarmcom.Circuit.{CircuitBreaker, Admission, refused, admitted, begin_execute}
use homebridge_myalarmcom.RateLimiter.{
  RateLimiter, Claim, claimed, pacing_refused, wait_aborted, acquire,
}
use homebridge_myalarmcom.Http.{HttpRequest, Exchange, responded, failed, received}
use homebridge_myalarmcom.Client.{
  AlarmComClient, ApiRequestMetric, Draw, is_pacing, is_circuit_breaker, receive, is_lapsed_session,
  is_rejected_outright, through_breaker, through_limiter, timed, attempt_signed, guarded_attempt,
}
use homebridge_myalarmcom.Client.Attempts.{through_limiter-sends}
use homebridge_myalarmcom.Client.Recoveries.{IsRecovered, once, twice, recovery-cases}
use homebridge_myalarmcom.Client.Calls.{
  Draws, attempt_numbered, after_attempts, request, request_run, command_partition,
}

-- The samples that are counted as a network request.
pub networked : List ApiRequestMetric → ℕ
networked [] = 0
networked (sample ∷ samples) =
    let rest = networked samples in if sample.was_networked then rest + 1 else rest

abbrev pub is_refused {ℓ} : {A : Type ℓ} → Outcome A → Bool
is_refused outcome = not (not (is_pacing outcome) && not (is_circuit_breaker outcome))

module _ {ℓ} {A : Type ℓ} (origin_of : List ℕ → Option (List ℕ))
    (to_lower_case : List ℕ → List ℕ) where
  receive-networked :
      (now : ℕ) (exchange : Exchange A) → is_refused (receive now (received exchange)) ≡ false
  unfolding receive create_api_error
  receive-networked now (failed is_timed_out is_cancelled) = ground arith
  receive-networked now (responded response) = ground arith

  through_breaker-samples :
      (c : AlarmComClient) (request : HttpRequest) (d : Draw A)
      (answer : CircuitBreaker × Admission)
      → let (q, outcome) = through_breaker origin_of to_lower_case c request d answer in
        q.samples ≡ c.samples
  unfolding through_breaker
  through_breaker-samples c request d (breaker, refused wait_ms) = refl
  through_breaker-samples c request d (breaker, admitted is_probe) = refl

  through_limiter-samples :
      (c : AlarmComClient) (request : HttpRequest) (d : Draw A) (answer : RateLimiter × Claim)
      → let (q, outcome) = through_limiter origin_of to_lower_case c request d answer in
        q.samples ≡ c.samples
  unfolding through_limiter
  through_limiter-samples c request d (limiter, pacing_refused wait_ms max_wait_ms) = refl
  through_limiter-samples c request d (limiter, wait_aborted) = refl
  through_limiter-samples c request d (limiter, claimed) =
      through_breaker-samples (record c { limiter = limiter }) request d
        (begin_execute c.breaker d.asked_at)

  timed-samples :
      (x : AlarmComClient × Outcome A) (d : Draw A)
      → let (c, outcome) = x in
        let (q, same) = timed origin_of to_lower_case x d in
        networked q.samples
        ≡ (if is_refused outcome then networked c.samples else networked c.samples + 1)
  unfolding timed networked
  timed-samples (c, outcome) d = ground arith

  -- What an attempt sends is covered by the samples that it adds.
  attempt-samples :
      (c : AlarmComClient) (request : HttpRequest) (d : Draw A)
      → let (q, outcome) = guarded_attempt origin_of to_lower_case c request d in
        q.sends + networked c.samples ≤ c.sends + networked q.samples
  unfolding guarded_attempt attempt_signed
  attempt-samples c request d = go d.sign_in refl
    where
      go :
          (o : Option Thrown)
          → d.sign_in ≡ o
          → let (q, outcome) = attempt_signed origin_of to_lower_case o c request d in
            q.sends + networked c.samples ≤ c.sends + networked q.samples
      go (some error) e = omega arith
      go none e =
          let answer = acquire c.limiter d.turn_at d.claimed_at d.is_wait_aborted in
          let x = through_limiter origin_of to_lower_case c request d answer in
          let kept = through_limiter-samples c request d answer in
          let sampled = timed-samples x d in
          elim (through_limiter-sends origin_of to_lower_case c request d answer) [
            | inl same ↦ ground (arith, kept, sampled)
            | inr (more, paced, let_in, sent, answered) ↦
                ground (arith, kept, sampled, receive-networked d.settled_at d.exchange)
          ]

  sampled_at :
      (c : AlarmComClient) (request : HttpRequest) (d : Draw A) (q : AlarmComClient)
      (outcome : Outcome A)
      → guarded_attempt origin_of to_lower_case c request d ≡ (q, outcome)
      → q.sends + networked c.samples ≤ c.sends + networked q.samples
  sampled_at c request d q outcome e =
      subst
        (λ out.
          let (left, result) = out in
          left.sends + networked c.samples ≤ c.sends + networked left.samples)
        e (attempt-samples c request d)

  recovered-samples :
      (is_replayable : Thrown → Bool) (c : AlarmComClient) (r : HttpRequest) (first again : Draw A)
      (q : AlarmComClient) (outcome : Outcome A)
      → IsRecovered origin_of to_lower_case is_replayable c r first again (q, outcome)
      → q.sends + networked c.samples ≤ c.sends + networked q.samples
  recovered-samples is_replayable c r first again q outcome (once e) =
      sampled_at c r first q outcome e
  recovered-samples is_replayable c r first again q outcome (twice left error e may e2) =
      let resent : AlarmComClient = record left { invalidations = left.invalidations + 1 } in
      omega
        (arith, sampled_at c r first left (throws error) e, sampled_at resent r again q outcome e2)

  after_attempts-samples :
      (n : ℕ) (c : AlarmComClient) (r : HttpRequest) (draws : Draws A)
      → let q = after_attempts origin_of to_lower_case n c r draws in
        q.sends + networked c.samples ≤ c.sends + networked q.samples
  unfolding after_attempts attempt_numbered
  after_attempts-samples zero c r draws = omega arith
  after_attempts-samples (suc n) c r draws =
      let before = after_attempts origin_of to_lower_case n c r draws in
      omega (
        arith,
        after_attempts-samples n c r draws,
        recovered-samples is_lapsed_session before r (draws.first (suc n)) (draws.again (suc n)) _ _
            (recovery-cases origin_of to_lower_case is_lapsed_session before r (draws.first (suc n))
              (draws.again (suc n))),
      )

-- Over a request, and over a command, the client sends no more requests than it adds samples that are
-- counted as networked: every request that leaves the process is reported, and none under a refusal to
-- pace or an open circuit.
pub calls-samples {ℓ} :
    {A : Type ℓ} (origin_of : List ℕ → Option (List ℕ)) (to_lower_case : List ℕ → List ℕ)
    (c : AlarmComClient) (r : HttpRequest) (draws : Draws A) (first again : Draw A)
    → let (q, ending) = request origin_of to_lower_case c r draws in
      let (p, outcome) = command_partition origin_of to_lower_case c r first again in
      (q.sends + networked c.samples ≤ c.sends + networked q.samples)
      × (p.sends + networked c.samples ≤ c.sends + networked p.samples)
unfolding request command_partition
calls-samples origin_of to_lower_case c r draws first again = (
  after_attempts-samples origin_of to_lower_case
      (request_run origin_of to_lower_case c r draws).last_attempt c r draws,
  recovered-samples origin_of to_lower_case is_rejected_outright c r first again _ _
      (recovery-cases origin_of to_lower_case is_rejected_outright c r first again),
)
