-- ===== src/Client/Calls.antt =====
-- src/api/client.ts: the calls of the client. `#request` is the retry loop over the recovery, where
-- attempt n meets the n-th pair of draws; a command is the recovery alone; a collection is read in
-- batches, one request after the other.
use homebridge_myalarmcom.Common.{
  ℕ, zero, suc, ◌+◌, ◌-◌, Bool, true, false, Option, none, some, List, [], ◌∷◌, ◌++◌, length, take,
  skip, if◌then◌else◌,
}
use homebridge_myalarmcom.Settings.{max_ids_per_request}
use homebridge_myalarmcom.Alarm.{PartitionAction, disarm}
use homebridge_myalarmcom.Retry.{
  Fraction, Outcome, Ending, returned, Run, World, retry_defaults, with_retry,
}
use homebridge_myalarmcom.Http.{HttpRequest}
use homebridge_myalarmcom.Client.{
  AlarmComClient, Draw, is_lapsed_session, is_rejected_outright, is_worth_retrying,
  with_session_recovery,
}

-- What a request meets: a pair of draws for each attempt, and the draw and the abort of each wait.
pub record Draws {ℓ} (A : Type ℓ) : Type ℓ where
  pub first : ℕ → Draw A
  pub again : ℕ → Draw A
  pub random : ℕ → Fraction
  pub is_aborted : ℕ → Bool

module _ {ℓ} {A : Type ℓ} (origin_of : List ℕ → Option (List ℕ))
    (to_lower_case : List ℕ → List ℕ) where
  -- Attempt n of the loop: the recovery that it runs, from the client that the attempts before left.
  unfoldable pub attempt_numbered :
      ℕ → AlarmComClient → HttpRequest → Draws A → AlarmComClient × Outcome A
  unfolding with_session_recovery is_lapsed_session
  attempt_numbered n c request draws =
      with_session_recovery origin_of to_lower_case is_lapsed_session c request (draws.first n)
        (draws.again n)

  -- The client after that many attempts.
  unfoldable pub after_attempts : ℕ → AlarmComClient → HttpRequest → Draws A → AlarmComClient
  unfolding attempt_numbered
  after_attempts zero c request draws = c
  after_attempts (suc n) c request draws =
      let (left, outcome) =
        attempt_numbered (suc n) (after_attempts n c request draws) request draws in
      left

  unfoldable pub world_of : AlarmComClient → HttpRequest → Draws A → World A
  unfolding after_attempts
  world_of c request draws = record {
    operation = λ n.
        let (left, outcome) =
          attempt_numbered n (after_attempts (n - 1) c request draws) request draws in
        outcome;
    random = draws.random;
    is_aborted = draws.is_aborted;
  }

  -- `#request`
  unfoldable pub request_run : AlarmComClient → HttpRequest → Draws A → Run A
  unfolding world_of is_worth_retrying
  request_run c request draws =
      with_retry (retry_defaults is_worth_retrying) (world_of c request draws)

  unfoldable pub request : AlarmComClient → HttpRequest → Draws A → AlarmComClient × Ending A
  unfolding request_run
  request c http_request draws =
      let run = request_run c http_request draws in
      let left = after_attempts run.last_attempt c http_request draws in
      (record left { retries = left.retries + length run.retries }, run.ending)

  -- `commandPartition`, the request that it makes.
  unfoldable pub command_partition :
      AlarmComClient → HttpRequest → Draw A → Draw A → AlarmComClient × Outcome A
  unfolding with_session_recovery is_rejected_outright
  command_partition c request first again =
      with_session_recovery origin_of to_lower_case is_rejected_outright c request first again

-- The body of a command: a key that is left out is `none`.
pub record CommandBody : Type 0 where
  pub state_poll_only : Bool
  pub no_entry_delay : Option Bool
  pub silent_arming : Option Bool
  pub night_arming : Option Bool
  pub force_bypass : Option Bool

abbrev pub is_disarm : PartitionAction → Bool
is_disarm disarm = true
is_disarm _ = false

abbrev pub when_set : Bool → Option Bool
when_set b = if b then some true else none

unfoldable pub command_body : PartitionAction → Bool → Bool → CommandBody
command_body action night_arming force_bypass =
    if is_disarm action
    then record {
      state_poll_only = false;
      no_entry_delay = none;
      silent_arming = none;
      night_arming = none;
      force_bypass = none;
    }
    else record {
      state_poll_only = false;
      no_entry_delay = some false;
      silent_arming = some false;
      night_arming = when_set night_arming;
      force_bypass = when_set force_bypass;
    }

module _ {ℓ} {A : Type ℓ} where
  -- `take` and `skip` are `ids.slice(index, index + size)` from the front, and the rest.
  abbrev pub chunk_step : List A → ℕ → List (List A) → List (List A)
  chunk_step [] size rest = []
  chunk_step (id ∷ ids) size rest = take size (id ∷ ids) ∷ rest

  -- The loop of `chunkIds`; as much fuel as there are ids is enough.
  unfoldable pub chunk_ids_from : ℕ → List A → ℕ → List (List A)
  chunk_ids_from zero ids size = []
  chunk_ids_from (suc fuel) ids size =
      let rest = chunk_ids_from fuel (skip size ids) size in chunk_step ids size rest

  unfoldable pub chunk_ids : List A → ℕ → List (List A)
  unfolding chunk_ids_from
  chunk_ids ids size = chunk_ids_from (length ids) ids size

module _ {ℓ κ} {S : Type ℓ} {A : Type κ} {R : Type κ}
    (fetch : S → List A → S × Ending (List R)) where
  abbrev pub push_results : List R → S × Ending (List R) → S × Ending (List R)
  push_results page (s, returned results) = (s, returned (page ++ results))
  push_results page (s, ending) = (s, ending)

  abbrev pub continue_with : (S → S × Ending (List R)) → S × Ending (List R) → S × Ending (List R)
  continue_with rest (s, returned page) = push_results page (rest s)
  continue_with rest (s, ending) = (s, ending)

  -- The loop over the chunks. `fetch` is the request for one of them; the results come in order.
  unfoldable pub fetch_chunks : List (List A) → S → S × Ending (List R)
  fetch_chunks [] s = (s, returned [])
  fetch_chunks (chunk ∷ chunks) s = continue_with (fetch_chunks chunks) (fetch s chunk)

  -- `#getBatched`
  unfoldable pub get_batched : List A → S → S × Ending (List R)
  unfolding fetch_chunks chunk_ids
  get_batched [] s = (s, returned [])
  get_batched (id ∷ ids) s = fetch_chunks (chunk_ids (id ∷ ids) max_ids_per_request) s
