-- ===== src/Client/Recoveries.antt =====
-- The recovery of a lapsed session, and the commands, which may be sent again only on a 401.
use homebridge_myalarmcom.Common.{
  ℕ, ◌+◌, ◌≤◌, ◌≡◌, ◌⊎◌, inl, inr, refl, Bool, true, Option, List, arith, Bool-cases,
}
use homebridge_myalarmcom.Errors.{Thrown, create_api_error}
use homebridge_myalarmcom.Retry.{Outcome, returns, throws}
use homebridge_myalarmcom.Http.{
  HttpRequest, HttpResponse, Exchange, responded, failed, received, is_ok_status,
}
use homebridge_myalarmcom.Client.{
  AlarmComClient, Draw, is_rejected_outright, receive, guarded_attempt, recover_from,
  with_session_recovery,
}
use homebridge_myalarmcom.Client.Calls.{command_partition}
use homebridge_myalarmcom.Client.Attempts.{attempt-sends}

module _ {ℓ} {A : Type ℓ} (origin_of : List ℕ → Option (List ℕ))
    (to_lower_case : List ℕ → List ℕ) where
  -- The recovery is one attempt, or a second one after a failure that may be replayed.
  pub data IsRecovered (is_replayable : Thrown → Bool) (c : AlarmComClient) (request : HttpRequest)
      (first again : Draw A) (out : AlarmComClient × Outcome A) : Type ℓ where
    once :
        guarded_attempt origin_of to_lower_case c request first ≡ out
        → IsRecovered is_replayable c request first again out
    twice :
        (left : AlarmComClient) (error : Thrown)
        → guarded_attempt origin_of to_lower_case c request first ≡ (left, throws error)
        → is_replayable error ≡ true
        → guarded_attempt origin_of to_lower_case
            (record left { invalidations = left.invalidations + 1 })
            request
            again
          ≡ out
        → IsRecovered is_replayable c request first again out

  pub recovery-cases :
      (is_replayable : Thrown → Bool) (c : AlarmComClient) (request : HttpRequest)
      (first again : Draw A)
      → IsRecovered is_replayable c request first again
          (with_session_recovery origin_of to_lower_case is_replayable c request first again)
  unfolding with_session_recovery
  recovery-cases is_replayable c request first again =
      go (guarded_attempt origin_of to_lower_case c request first) refl
    where
      go :
          (out : AlarmComClient × Outcome A)
          → guarded_attempt origin_of to_lower_case c request first ≡ out
          → IsRecovered is_replayable c request first again
              (recover_from origin_of to_lower_case is_replayable request again out)
      go (left, returns value) e = once e
      go (left, throws error) e = elim (Bool-cases (is_replayable error)) [
        | inl may ↦ rw may (twice left error e may refl)
        | inr not_ ↦ rw not_ (once e)
      ]

  rejected-status :
      (now : ℕ) (exchange : Exchange A) (error : Thrown)
      → is_rejected_outright error ≡ true
      → throws error ≡ receive now (received exchange)
      → (response : HttpResponse A) × (exchange ≡ responded response) × (response.status ≡ 401)
  unfolding receive is_rejected_outright create_api_error is_ok_status
  rejected-status now (failed is_timed_out is_cancelled) error h e = ground arith
  rejected-status now (responded response) error h e = (response, refl, ground arith)

-- A command is sent at most twice, and a second time only where the answer to the first was a status
-- 401: no other failure, and no answer that could mean the panel took the command, replays it.
pub command_partition-sends {ℓ} :
    {A : Type ℓ} (origin_of : List ℕ → Option (List ℕ)) (to_lower_case : List ℕ → List ℕ)
    (c : AlarmComClient) (request : HttpRequest) (first again : Draw A)
    → let (q, outcome) = command_partition origin_of to_lower_case c request first again in
      (q.sends ≤ c.sends + 1)
      ⊎ ((q.sends ≡ c.sends + 2)
          × ((response : HttpResponse A) × (first.exchange ≡ responded response)
              × (response.status ≡ 401)))
unfolding command_partition
command_partition-sends {A = A} origin_of to_lower_case c request first again =
    go (command_partition origin_of to_lower_case c request first again)
      (recovery-cases origin_of to_lower_case is_rejected_outright c request first again)
  where
    go :
        (out : AlarmComClient × Outcome A)
        → IsRecovered origin_of to_lower_case is_rejected_outright c request first again out
        → let (q, outcome) = out in
          (q.sends ≤ c.sends + 1)
          ⊎ ((q.sends ≡ c.sends + 2)
              × ((response : HttpResponse A) × (first.exchange ≡ responded response)
                  × (response.status ≡ 401)))
    go (q, outcome) (once e) =
        elim (attempt-sends origin_of to_lower_case c request first q outcome e) [
          | inl same ↦ inl (omega arith)
          | inr (more, passed) ↦ inl (omega arith)
        ]
    go (q, outcome) (twice left error e may e2) =
        let replay =
          attempt-sends origin_of to_lower_case
            (record left { invalidations = left.invalidations + 1 }) request again q outcome e2 in
        elim (attempt-sends origin_of to_lower_case c request first left (throws error) e) [
          | inl same ↦ inl (ground (arith, replay))
          | inr (more, passed) ↦ elim replay [
            | inl same ↦ inl (omega arith)
            | inr (again_more, again_passed) ↦ inr (
              omega arith,
              rejected-status origin_of to_lower_case first.settled_at first.exchange error may
                  passed.answered,
            )
          ]
        ]
