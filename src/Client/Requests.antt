-- ===== src/Client/Requests.antt =====
-- A whole request: its retry loop over the recovery.
use homebridge_myalarmcom.Common.{
  ℕ, zero, suc, ◌+◌, ◌*◌, ◌≤◌, ◌≡◌, ◌≢◌, sym, subst, Bool, true, false, Option, List, All, All-map,
  ◌∙◌, leb, arith,
}
use homebridge_myalarmcom.Errors.{
  Thrown, ours, network, timeout, rate_limit, unavailable, api_response, is_retryable,
}
use homebridge_myalarmcom.Retry.{Outcome, throws, out_of_fuel, retry_defaults, with_retry}
use homebridge_myalarmcom.Retry.Outcomes.{IsFinal, IsFair, with_retry-IsSound}
use homebridge_myalarmcom.Http.{HttpRequest}
use homebridge_myalarmcom.Client.{AlarmComClient, Draw, is_lapsed_session, is_worth_retrying}
use homebridge_myalarmcom.Client.Calls.{
  Draws, attempt_numbered, after_attempts, world_of, request_run, request,
}
use homebridge_myalarmcom.Client.Attempts.{attempt-sends}
use homebridge_myalarmcom.Client.Recoveries.{IsRecovered, once, twice, recovery-cases}

module _ {ℓ} {A : Type ℓ} (origin_of : List ℕ → Option (List ℕ))
    (to_lower_case : List ℕ → List ℕ) where
  recovered-sends :
      (is_replayable : Thrown → Bool) (c : AlarmComClient) (r : HttpRequest) (first again : Draw A)
      (q : AlarmComClient) (outcome : Outcome A)
      → IsRecovered origin_of to_lower_case is_replayable c r first again (q, outcome)
      → q.sends ≤ c.sends + 2
  recovered-sends is_replayable c r first again q outcome (once e) =
      ground (arith, attempt-sends origin_of to_lower_case c r first q outcome e)
  recovered-sends is_replayable c r first again q outcome (twice left error e may e2) =
      let resent : AlarmComClient = record left { invalidations = left.invalidations + 1 } in
      ground (
        arith,
        attempt-sends origin_of to_lower_case c r first left (throws error) e,
        attempt-sends origin_of to_lower_case resent r again q outcome e2,
      )

  after_attempts-sends :
      (n : ℕ) (c : AlarmComClient) (r : HttpRequest) (draws : Draws A)
      → (after_attempts origin_of to_lower_case n c r draws).sends ≤ c.sends + 2 * n
  unfolding after_attempts attempt_numbered
  after_attempts-sends zero c r draws = omega arith
  after_attempts-sends (suc n) c r draws =
      let before = after_attempts origin_of to_lower_case n c r draws in
      omega (
        arith,
        after_attempts-sends n c r draws,
        recovered-sends is_lapsed_session before r (draws.first (suc n)) (draws.again (suc n)) _ _ (
            recovery-cases origin_of to_lower_case is_lapsed_session before r (draws.first (suc n))
              (draws.again (suc n))),
      )

-- The failures that a request retries, listed: the network's, a timeout, a rate limit, a system that
-- is not reported, and a status of 500 or above.
abbrev pub is_transient : Thrown → Bool
is_transient (ours network) = true
is_transient (ours timeout) = true
is_transient (ours (rate_limit _)) = true
is_transient (ours unavailable) = true
is_transient (ours (api_response status)) = leb 500 status
is_transient _ = false

is_worth_retrying_lem : (error : Thrown) → is_worth_retrying error ≡ is_transient error
unfolding is_worth_retrying is_lapsed_session is_retryable
is_worth_retrying_lem error = ground arith

-- A request always ends, with a value or an error, and sends at most six requests, whatever it meets.
-- It waits and tries again only after a failure that is one of the transient ones, never after an open
-- circuit, a throttled login, a refusal to pace or a lapsed session that its recovery did not clear;
-- and no wait is longer than a minute.
pub request-ends {ℓ} :
    {A : Type ℓ} (origin_of : List ℕ → Option (List ℕ)) (to_lower_case : List ℕ → List ℕ)
    (c : AlarmComClient) (r : HttpRequest) (draws : Draws A)
    → let (q, ending) = request origin_of to_lower_case c r draws in
      (ending ≢ out_of_fuel)
      × (q.sends ≤ c.sends + 6)
      × All
          (λ retry. (is_transient retry.error ≡ true) × (retry.delay_ms ≤ 60000))
          (request_run origin_of to_lower_case c r draws).retries
unfolding request request_run
request-ends origin_of to_lower_case c r draws =
    let options = retry_defaults is_worth_retrying in
    let world = world_of origin_of to_lower_case c r draws in
    let run = with_retry options world in
    let sound = with_retry-IsSound options world in
    (
      λ e. subst (λ ending. IsFinal options world ending run.last_attempt) e sound.final,
      omega (
        arith,
        after_attempts-sends origin_of to_lower_case run.last_attempt c r draws,
        sound.in_bounds,
      ),
      All-map (IsFair options world)
          (λ retry. (is_transient retry.error ≡ true) × (retry.delay_ms ≤ 60000))
          (λ retry fair. (sym (is_worth_retrying_lem retry.error) ∙ fair.worth, fair.capped))
          run.retries sound.fair,
    )
