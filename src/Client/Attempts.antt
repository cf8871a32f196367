-- ===== src/Client/Attempts.antt =====
-- One attempt of the client: what it may send, count and report.
use homebridge_myalarmcom.Common.{
  ℕ, ◌+◌, ◌≡◌, ◌⊎◌, inl, inr, refl, ap, subst, Bool, true, Option, none, some, List, arith,
  Bool-cases,
}
use homebridge_myalarmcom.Errors.{Thrown}
use homebridge_myalarmcom.Retry.{Outcome}
use homebridge_myalarmcom.Circuit.{CircuitBreaker, Admission, refused, admitted, begin_execute}
use homebridge_myalarmcom.RateLimiter.{
  RateLimiter, Claim, claimed, pacing_refused, wait_aborted, acquire,
}
use homebridge_myalarmcom.Http.{HttpRequest, received, http_request}
use homebridge_myalarmcom.Http.Cookies.{http_request_guarded}
use homebridge_myalarmcom.Client.{
  AlarmComClient, Draw, receive, send, through_breaker, through_limiter, timed, attempt_signed,
  guarded_attempt,
}

-- The breaker's answer lets the operation run.
abbrev pub IsAdmitted : CircuitBreaker × Admission → Type 0
IsAdmitted (breaker, admission) = (is_probe : Bool) × (admission ≡ admitted is_probe)

abbrev pub IsClaimed : RateLimiter × Claim → Type 0
IsClaimed (limiter, claim) = claim ≡ claimed

module _ {ℓ} {A : Type ℓ} (origin_of : List ℕ → Option (List ℕ))
    (to_lower_case : List ℕ → List ℕ) where
  abbrev IsSent : HttpRequest → Draw A → Type 0
  IsSent request d =
      let (is_sent, outcome) =
        http_request origin_of to_lower_case request d.is_aborted d.exchange in
      is_sent ≡ true

  -- The outcome is the fetch's, as `#send` reads it.
  abbrev IsAnswered : HttpRequest → Draw A → Outcome A → Type ℓ
  IsAnswered request d outcome = outcome ≡ receive d.settled_at (received d.exchange)

  send-IsAnswered :
      (request : HttpRequest) (d : Draw A)
      → let (is_sent, outcome) = send origin_of to_lower_case request d in
        (is_sent ≡ true) → IsAnswered request d outcome
  unfolding send
  send-IsAnswered request d h =
      elim (http_request_guarded origin_of to_lower_case request d.is_aborted d.exchange) [
        | inl (may, running, e) ↦ ap (λ r. receive d.settled_at r.1) e
        | inr (inl (may, stopped, e)) ↦ ground arith
        | inr (inr (may_not, e)) ↦ ground arith
      ]

  -- Every guard let the attempt pass.
  pub record IsPassed (c : AlarmComClient) (request : HttpRequest) (d : Draw A)
      (outcome : Outcome A) : Type ℓ where
    pub signed_in : d.sign_in ≡ none
    pub paced : IsClaimed (acquire c.limiter d.turn_at d.claimed_at d.is_wait_aborted)
    pub let_in : IsAdmitted (begin_execute c.breaker d.asked_at)
    pub sent : IsSent request d
    pub answered : IsAnswered request d outcome

  through_breaker-sends :
      (c : AlarmComClient) (request : HttpRequest) (d : Draw A)
      (answer : CircuitBreaker × Admission)
      → let (q, outcome) = through_breaker origin_of to_lower_case c request d answer in
        (q.sends ≡ c.sends)
        ⊎ ((q.sends ≡ c.sends + 1)
            × IsAdmitted answer
            × IsSent request d
            × IsAnswered request d outcome)
  unfolding through_breaker send
  through_breaker-sends c request d (breaker, refused wait_ms) = inl refl
  through_breaker-sends c request d (breaker, admitted is_probe) = elim (Bool-cases is_sent) [
    | inl e ↦ inr (ground arith, (is_probe, refl), e, send-IsAnswered request d e)
    | inr e ↦ inl (ground arith)
  ]
    where
      is_sent : Bool
      is_sent =
          let (sent, outcome) =
            http_request origin_of to_lower_case request d.is_aborted d.exchange in
          sent

  pub through_limiter-sends :
      (c : AlarmComClient) (request : HttpRequest) (d : Draw A) (answer : RateLimiter × Claim)
      → let (q, outcome) = through_limiter origin_of to_lower_case c request d answer in
        (q.sends ≡ c.sends)
        ⊎ ((q.sends ≡ c.sends + 1)
            × IsClaimed answer
            × IsAdmitted (begin_execute c.breaker d.asked_at)
            × IsSent request d
            × IsAnswered request d outcome)
  unfolding through_limiter
  through_limiter-sends c request d (limiter, pacing_refused wait_ms max_wait_ms) = inl refl
  through_limiter-sends c request d (limiter, wait_aborted) = inl refl
  through_limiter-sends c request d (limiter, claimed) =
      elim (through_breaker-sends (record c { limiter = limiter }) request d
        (begin_execute c.breaker d.asked_at)) [
          | inl e ↦ inl e
          | inr (e, let_in, sent, answered) ↦ inr (e, refl, let_in, sent, answered)
        ]

-- One attempt sends no request or one; and it sends one only where the sign-in succeeded, the rate
-- limiter granted the claim, the circuit breaker admitted the operation, and the guard on cookies and
-- the abort signal let the request leave; and then its outcome is what the fetch gave.
pub attempt-IsPassed {ℓ} :
    {A : Type ℓ} (origin_of : List ℕ → Option (List ℕ)) (to_lower_case : List ℕ → List ℕ)
    (c : AlarmComClient) (request : HttpRequest) (d : Draw A)
    → let (q, outcome) = guarded_attempt origin_of to_lower_case c request d in
      (q.sends ≡ c.sends)
      ⊎ ((q.sends ≡ c.sends + 1) × IsPassed origin_of to_lower_case c request d outcome)
unfolding guarded_attempt attempt_signed timed
attempt-IsPassed origin_of to_lower_case c request d = go d.sign_in refl
  where
    go :
        (o : Option Thrown)
        → d.sign_in ≡ o
        → let (q, outcome) = attempt_signed origin_of to_lower_case o c request d in
          (q.sends ≡ c.sends)
          ⊎ ((q.sends ≡ c.sends + 1) × IsPassed origin_of to_lower_case c request d outcome)
    go (some error) e = inl refl
    go none e =
        elim (through_limiter-sends origin_of to_lower_case c request d
          (acquire c.limiter d.turn_at d.claimed_at d.is_wait_aborted)) [
            | inl same ↦ inl same
            | inr (more, paced, let_in, sent, answered) ↦ inr (
              more,
              record {
                signed_in = e;
                paced = paced;
                let_in = let_in;
                sent = sent;
                answered = answered;
              },
            )
          ]

module _ {ℓ} {A : Type ℓ} (origin_of : List ℕ → Option (List ℕ))
    (to_lower_case : List ℕ → List ℕ) where
  -- The same of an attempt by its result.
  pub attempt-sends :
      (c : AlarmComClient) (request : HttpRequest) (d : Draw A) (q : AlarmComClient)
      (outcome : Outcome A)
      → guarded_attempt origin_of to_lower_case c request d ≡ (q, outcome)
      → (q.sends ≡ c.sends)
        ⊎ ((q.sends ≡ c.sends + 1) × IsPassed origin_of to_lower_case c request d outcome)
  attempt-sends c request d q outcome e =
      subst
        (λ out.
          let (left, result) = out in
          (left.sends ≡ c.sends)
          ⊎ ((left.sends ≡ c.sends + 1) × IsPassed origin_of to_lower_case c request d result))
        e (attempt-IsPassed origin_of to_lower_case c request d)
