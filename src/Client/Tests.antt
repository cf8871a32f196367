-- ===== src/Client/Tests.antt =====
-- Concrete runs of the client, and the witnesses.
use homebridge_myalarmcom.Common.{
  ℕ, ◌+◌, ◌-◌, ◌*◌, ◌≤◌, ◌≡◌, ◌≢◌, ◌⊎◌, refl, true, false, Option, none, some, List, [], ◌∷◌, All,
  map, arith,
}
use homebridge_myalarmcom.Errors.{create_api_error}
use homebridge_myalarmcom.Retry.{Ending, returned, out_of_fuel}
use homebridge_myalarmcom.Circuit.{
  new_circuit_breaker, default_circuit_breaker_config, begin_execute, settle_execute,
}
use homebridge_myalarmcom.Circuit.Invariant.{
  System, Reach, here, next, settle_call, start, started, fresh,
}
use homebridge_myalarmcom.RateLimiter.{
  new_rate_limiter, default_rate_limiter_config, acquire, compute_wait_ms,
}
use homebridge_myalarmcom.Http.{
  HttpResponse, HttpRequest, Exchange, responded, failed, manual, cookie_name, allowed_api_origin,
  has_cookie, http_request, assert_cookie_destination,
}
use homebridge_myalarmcom.Client.{
  AlarmComClient, new_client, Draw, guarded_attempt, is_rejected_outright,
}
use homebridge_myalarmcom.Client.Calls.{
  Draws, request, request_run, command_partition, chunk_ids, get_batched,
}
use homebridge_myalarmcom.Client.Attempts.{IsPassed, attempt-IsPassed}
use homebridge_myalarmcom.Client.Recoveries.{command_partition-sends}
use homebridge_myalarmcom.Client.Requests.{is_transient, request-ends}
use homebridge_myalarmcom.Client.Outages.{
  reported, outages, recoveries, IsReported, Reach-IsReported,
}
use homebridge_myalarmcom.Client.Batches.{concat, IsChunk, concat-chunk_ids, get_batched-map}

abbrev client : AlarmComClient
client =
    new_client (new_circuit_breaker default_circuit_breaker_config)
      (new_rate_limiter default_rate_limiter_config)

abbrev own_origin : List ℕ → Option (List ℕ)
own_origin url = some url

abbrev as_is : List ℕ → List ℕ
as_is name = name

abbrev home : HttpRequest
home = record { url = allowed_api_origin; header_names = cookie_name ∷ []; redirect = manual }

abbrev answer : ℕ → Option ℕ → Exchange ℕ
answer status document =
    responded
      (record { status = status; retry_after = none; document = document; is_marked = false })

abbrev met : ℕ → Exchange ℕ → Draw ℕ
met now exchange = record {
  sign_in = none;
  started_at = now;
  turn_at = now;
  claimed_at = now;
  is_wait_aborted = false;
  asked_at = now;
  is_aborted = false;
  exchange = exchange;
  settled_at = now + 80;
  ended_at = now + 80;
}

-- The session has lapsed, and the replay after the next sign-in succeeds.
abbrev lapsed : Draw ℕ
lapsed = met 5000 (answer 401 none)

abbrev renewed : Draw ℕ
renewed = met 9000 (answer 200 (some 7))

-- Every attempt fails on the network.
abbrev unreachable : Draws ℕ
unreachable = record {
  first = λ n. met (n * 60000) (failed false false);
  again = λ n. met (n * 60000 + 2000) (failed false false);
  random = λ n. record { num = 1; den = 2 };
  is_aborted = λ n. false;
}

-- The command is sent twice.
command_twice : (command_partition own_origin as_is client home lapsed renewed).0.sends ≡ 2
unfolding command_partition new_circuit_breaker new_rate_limiter begin_execute settle_execute
    acquire compute_wait_ms http_request create_api_error is_rejected_outright has_cookie
    assert_cookie_destination homebridge_myalarmcom.Http.is_ok_status
command_twice = refl

attempt-IsPassed_example :
    let (q, outcome) = guarded_attempt own_origin as_is client home renewed in
    (q.sends ≡ 0) ⊎ ((q.sends ≡ 1) × IsPassed own_origin as_is client home renewed outcome)
attempt-IsPassed_example = attempt-IsPassed own_origin as_is client home renewed

command_partition-sends_example :
    let (q, outcome) = command_partition own_origin as_is client home lapsed renewed in
    (q.sends ≤ 1)
    ⊎ ((q.sends ≡ 2)
        × ((response : HttpResponse ℕ) × (lapsed.exchange ≡ responded response)
            × (response.status ≡ 401)))
command_partition-sends_example =
    command_partition-sends own_origin as_is client home lapsed renewed

request-ends_example :
    let (q, ending) = request own_origin as_is client home unreachable in
    (ending ≢ out_of_fuel)
    × (q.sends ≤ 6)
    × All
        (λ retry. (is_transient retry.error ≡ true) × (retry.delay_ms ≤ 60000))
        (request_run own_origin as_is client home unreachable).retries
request-ends_example = request-ends own_origin as_is client home unreachable

-- Five ids in batches of two.
abbrev five : List ℕ
five = 1 ∷ 2 ∷ 3 ∷ 4 ∷ 5 ∷ []

three_chunks : chunk_ids five 2 ≡ (1 ∷ 2 ∷ []) ∷ (3 ∷ 4 ∷ []) ∷ (5 ∷ []) ∷ []
unfolding chunk_ids
three_chunks = refl

concat-chunk_ids_example : (concat (chunk_ids five 2) ≡ five) × All (IsChunk 2) (chunk_ids five 2)
concat-chunk_ids_example = concat-chunk_ids five 2 (omega arith)

-- A server that answers each id with its double, and counts the requests.
abbrev doubles : ℕ → List ℕ → ℕ × Ending (List ℕ)
doubles n ids = (n + 1, returned (map (λ id. id * 2) ids))

doubles_answer :
    (n : ℕ) (ids : List ℕ) → IsChunk 50 ids → (doubles n ids).1 ≡ returned (map (λ id. id * 2) ids)
doubles_answer n ids h = refl

get_batched-map_example :
    (get_batched doubles (4 ∷ 6 ∷ []) 0).1 ≡ returned (map (λ id. id * 2) (4 ∷ 6 ∷ []))
get_batched-map_example = get_batched-map doubles (λ id. id * 2) doubles_answer (4 ∷ 6 ∷ []) 0

-- A breaker that opens on its first failure.
abbrev touchy : System
touchy = fresh (record default_circuit_breaker_config { failure_threshold = 1 })

abbrev calling : System
calling = started touchy (begin_execute touchy.breaker 1000)

abbrev tripped : System
tripped = record calling {
  breaker = settle_execute calling.breaker 2000 false false;
  calls = calling.calls - 1;
}

tripped_run : Reach touchy tripped
unfolding fresh new_circuit_breaker begin_execute
tripped_run = next (next here (start 1000)) (settle_call 2000 false (omega arith))

Reach-IsReported_example :
    let past = tripped.breaker.transitions in
    IsReported (reported past) tripped.breaker.state (outages past) (recoveries past)
Reach-IsReported_example =
    Reach-IsReported (record default_circuit_breaker_config { failure_threshold = 1 }) tripped
      tripped_run

-- It has announced one outage.
one_outage : (reported tripped.breaker.transitions).circuit_opens ≡ 1
unfolding fresh new_circuit_breaker begin_execute settle_execute reported
one_outage = refl
