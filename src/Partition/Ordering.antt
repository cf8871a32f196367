-- ===== src/Partition/Ordering.antt =====
-- The order in which commands reach Alarm.com, over every history of requests, outcomes and polls.
use homebridge_myalarmcom.Common.{
  ℕ, ◌≤◌, ◌<◌, ◌≡◌, ◌≢◌, ◌⊎◌, inl, inr, refl, sym, ap, subst, Bool, true, Option, none, some, List,
  [], ◌∷◌, arith,
}
use homebridge_myalarmcom.Alarm.{PartitionAttributes}
use homebridge_myalarmcom.Partition.{
  Platform, QueuedRequest, CommandAttempt, Partition, new_partition, update, log, superseded,
}
use homebridge_myalarmcom.Partition.Commands.{
  refused, HapStatus, send_command, send_command_in, handle_target_state, settle, release_and_drain,
  record_outcome, drain, settle_rejected,
}
use homebridge_myalarmcom.Partition.Guards.{handle_target_state_cases}
use homebridge_myalarmcom.Partition.Readings.{CommandLine, line, line-update}

-- `Runs p wanted`: a new accessory has come to `p`, and `wanted` is the target of the last request
-- from HomeKit that was not refused. The client is usable throughout,
-- and no recording of an outcome throws.
pub data Runs : Partition → Option ℕ → Type 0 where
  begin : Runs new_partition none
  request :
      {p : Partition} {wanted : Option ℕ} (platform : Platform) (now target : ℕ)
      → Runs p wanted
      → ((status : HapStatus) → (handle_target_state p platform now target true).1 ≢ refused status)
      → Runs (handle_target_state p platform now target true).0 (some target)
  decline :
      {p : Partition} {wanted : Option ℕ} (platform : Platform) (now target : ℕ)
      (status : HapStatus)
      → Runs p wanted
      → (handle_target_state p platform now target true).1 ≡ refused status
      → Runs (handle_target_state p platform now target true).0 wanted
  finish :
      {p : Partition} {wanted : Option ℕ} (attempt : CommandAttempt) (is_ok : Bool) (now : ℕ)
      → Runs p wanted
      → p.in_flight ≡ some attempt
      → Runs (settle p attempt is_ok now true) wanted
  poll :
      {p : Partition} {wanted : Option ℕ} (platform : Platform) (attributes : PartitionAttributes)
      (is_debug : Bool) (now : ℕ)
      → Runs p wanted
      → Runs (update p platform attributes is_debug now) wanted

-- The target of the newest command sent.
abbrev pub last_target : List QueuedRequest → Option ℕ
last_target [] = none
last_target (c ∷ cs) = some c.target

abbrev settled_target : Option QueuedRequest → List QueuedRequest → Option ℕ
settled_target none commands = last_target commands
settled_target (some q) commands = some q.target

-- A request is held only behind a command, whose token it has retired; without one the command in
-- flight holds the newest token.
abbrev InTurn : Option CommandAttempt → Option QueuedRequest → ℕ → Type 0
InTurn none none sequence = Unit
InTurn none (some q) sequence = ⊥
InTurn (some attempt) none sequence = attempt.token ≡ sequence
InTurn (some attempt) (some q) sequence = attempt.token < sequence

pub record Inv (c : CommandLine) (wanted : Option ℕ) : Type 0 where
  pub lands : settled_target c.queued c.commands ≡ wanted
  pub in_turn : InTurn c.in_flight c.queued c.command_sequence

InTurn-idle : (q : Option QueuedRequest) (n : ℕ) → InTurn none q n → q ≡ none
InTurn-idle none n t = refl
InTurn-idle (some q) n t = absurd t

InTurn-le :
    (a : CommandAttempt) (q : Option QueuedRequest) (n : ℕ) → InTurn (some a) q n → a.token ≤ n
InTurn-le a none n t = omega arith
InTurn-le a (some q) n t = omega arith

send_command-Inv :
    (fl : Option CommandAttempt) (p : Partition) (now : ℕ) (r : QueuedRequest) (wanted : Option ℕ)
    → p.in_flight ≡ fl
    → Inv (line p) wanted
    → Inv (line (send_command_in fl p now r true).0) (some r.target)
unfolding send_command_in
send_command-Inv none p now r wanted e v =
    let idle = InTurn-idle p.queued p.command_sequence (rw e at v.in_turn) in
    record { lands = rw idle refl; in_turn = rw idle refl }
send_command-Inv (some running) p now r wanted e v =
    let below = InTurn-le running p.queued p.command_sequence (rw e at v.in_turn) in
    record { lands = refl; in_turn = rw e (omega arith) }

line-record_outcome :
    (p : Partition) (attempt : CommandAttempt) (is_ok : Bool)
    → line (record_outcome p attempt is_ok) ≡ line p
unfolding record_outcome
line-record_outcome p attempt is_ok = ground arith

-- An accessory whose slot has just been freed: what it holds is what is wanted.
release-Inv :
    (q : Option QueuedRequest) (p : Partition) (now : ℕ) (wanted : Option ℕ)
    → p.queued ≡ q
    → settled_target q p.commands ≡ wanted
    → Inv (line (drain q (record p { in_flight = none }) now true)) wanted
unfolding drain send_command send_command_in
release-Inv none p now wanted e lands = record { lands = rw e lands; in_turn = rw e tt }
release-Inv (some q) p now wanted e lands = record { lands = lands; in_turn = refl }

settle-Inv :
    (p : Partition) (attempt : CommandAttempt) (is_ok : Bool) (now : ℕ) (wanted : Option ℕ)
    → Inv (line p) wanted
    → Inv (line (settle p attempt is_ok now true)) wanted
unfolding settle release_and_drain
settle-Inv p attempt is_ok now wanted v =
    let noted = record_outcome p attempt is_ok in
    let same : line noted ≡ line p = line-record_outcome p attempt is_ok in
    let v' : Inv (line noted) wanted = subst (λ c. Inv c wanted) (sym same) v in
    release-Inv noted.queued noted now wanted refl v'.lands

begin-Inv : Inv (line new_partition) none
unfolding new_partition
begin-Inv = record { lands = refl; in_turn = tt }

send_command_accepted :
    (p : Partition) (now : ℕ) (r : QueuedRequest) (status : HapStatus)
    → (send_command p now r true).1 ≢ refused status
unfolding send_command
send_command_accepted p now r status = go p.in_flight
  where
    go : (fl : Option CommandAttempt) → (send_command_in fl p now r true).1 ≢ refused status
    go none e = ground arith
    go (some running) e = ground arith

handle-Inv :
    (p : Partition) (platform : Platform) (now target : ℕ) (wanted : Option ℕ)
    → Inv (line p) wanted
    → ((status : HapStatus) × (handle_target_state p platform now target true
          ≡ (p, refused status)))
      ⊎ Inv (line (handle_target_state p platform now target true).0) (some target)
unfolding send_command
handle-Inv p platform now target wanted v =
    elim (handle_target_state_cases p platform now target true) [
      | inl (status, cause, e) ↦ inl (status, e)
      | inr (r, cleared, e) ↦
          let set = record p { pending_target = some target; target_set_at = now } in
          inr (
            rw e (
              subst (λ t. Inv (line (send_command set now r true).0) (some t)) cleared.same_target
                (send_command-Inv p.in_flight set now r wanted refl v)))
    ]

Runs-Inv : {p : Partition} {wanted : Option ℕ} → Runs p wanted → Inv (line p) wanted
Runs-Inv begin = begin-Inv
Runs-Inv (request {p} {wanted} platform now target run accepted) =
    elim (handle-Inv p platform now target wanted (Runs-Inv run)) [
      | inl (status, e) ↦ absurd (accepted status (ap (λ r. r.1) e))
      | inr v ↦ v
    ]
Runs-Inv (decline {p} {wanted} platform now target status run e) =
    elim (handle_target_state_cases p platform now target true) [
      | inl (status', cause, e') ↦ rw e' (Runs-Inv run)
      | inr (r, cleared, e') ↦ absurd (send_command_accepted _ now r status (rw e' at e))
    ]
Runs-Inv (finish {p} {wanted} attempt is_ok now run e) =
    settle-Inv p attempt is_ok now wanted (Runs-Inv run)
Runs-Inv (poll {p} {wanted} platform attributes is_debug now run) =
    subst (λ c. Inv c wanted) (sym (line-update p platform attributes is_debug now)) (Runs-Inv run)

-- In every history with a usable client and no throw in recording an outcome, whenever no command
-- is in flight the newest command sent is for the target that HomeKit last asked for and was not
-- refused; and a request is held only while a command is in flight.
pub idle_landed :
    (p : Partition) (wanted : Option ℕ)
    → Runs p wanted
    → p.in_flight ≡ none
    → (p.queued ≡ none) × (last_target p.commands ≡ wanted)
idle_landed p wanted run e =
    let v = Runs-Inv run in
    let idle = InTurn-idle p.queued p.command_sequence (rw e at v.in_turn) in
    (idle, rw idle at v.lands)

record_outcome_older :
    (p : Partition) (attempt : CommandAttempt) (is_ok : Bool)
    → attempt.token < p.command_sequence
    → record_outcome p attempt is_ok ≡ log p (superseded attempt.target)
unfolding record_outcome
record_outcome_older p attempt is_ok h = ground arith

release_held :
    (p : Partition) (q : QueuedRequest) (now : ℕ)
    → p.queued ≡ some q
    → release_and_drain p now true ≡ drain (some q) (record p { in_flight = none }) now true
unfolding release_and_drain
release_held p q now e = ap (λ k. drain k (record p { in_flight = none }) now true) e

released_facts :
    (p : Partition) (attempt : CommandAttempt) (q : QueuedRequest) (now : ℕ)
    → let after =
        drain (some q) (record (log p (superseded attempt.target)) { in_flight = none }) now true in
      (after.pending_target ≡ p.pending_target)
      × (after.commands ≡ q ∷ p.commands)
      × (after.queued ≡ none)
      × (after.in_flight
          ≡ some (record { target = q.target; started_at = now; token = after.command_sequence }))
unfolding drain send_command send_command_in
released_facts p attempt q now = (refl, refl, refl, refl)

-- In every history with a usable client and no throw in recording an outcome, when a command ends
-- behind which another request is held, its outcome leaves the pending target alone, whatever it
-- was, and the held request is sent at once, as the one command in flight and under the newest
-- token.
pub superseded_hands_over :
    (p : Partition) (wanted : Option ℕ) (attempt : CommandAttempt) (q : QueuedRequest)
    (is_ok : Bool) (now : ℕ)
    → Runs p wanted
    → p.in_flight ≡ some attempt
    → p.queued ≡ some q
    → let after = settle p attempt is_ok now true in
      (after.pending_target ≡ p.pending_target)
      × (after.commands ≡ q ∷ p.commands)
      × (after.queued ≡ none)
      × (after.in_flight
          ≡ some (record { target = q.target; started_at = now; token = after.command_sequence }))
unfolding settle
superseded_hands_over p wanted attempt q is_ok now run flying held_ =
    let v = Runs-Inv run in
    let older : attempt.token < p.command_sequence = rw (flying, held_) at v.in_turn in
    rw (record_outcome_older p attempt is_ok older) (
      rw (release_held (log p (superseded attempt.target)) q now held_)
        (released_facts p attempt q now))

-- Where the recording of a late outcome throws while a request is held, the request is sent, and the
-- second release then frees the slot that it holds: it is out, and the next one will not be held.
rejected_frees :
    (p : Partition) (q : QueuedRequest) (now : ℕ)
    → p.queued ≡ some q
    → let after = settle_rejected p now true in
      (after.commands ≡ q ∷ p.commands) × (after.queued ≡ none) × (after.in_flight ≡ none)
unfolding settle_rejected release_and_drain drain send_command send_command_in
rejected_frees p q now e = (ground arith, ground arith, ground arith)
