-- ===== src/Partition/Targets.antt =====
-- The target state that HomeKit is shown is always one that HAP allows.
use homebridge_myalarmcom.Common.{
  ℕ, ◌+◌, ◌≤◌, ◌<◌, ◌≡◌, ◌⊎◌, inl, inr, refl, Bool, true, Option, none, some, arith, Bool-cases,
  Option-cases, le-cases, ◌==◌, ltb,
}
use homebridge_myalarmcom.Settings.{partition_target_settle_ms}
use homebridge_myalarmcom.Alarm.{PartitionAttributes}
use homebridge_myalarmcom.Mappers.{to_displayed_security_state, to_partition_action}
use homebridge_myalarmcom.Mappers.Safety.{displayed_state-le, to_partition_action_facts}
use homebridge_myalarmcom.Partition.{
  Platform, QueuedRequest, CommandAttempt, Partition, new_partition, update, read_target_state,
  target_to_show, target_or, displayed_of, target_of_shown,
}
use homebridge_myalarmcom.Partition.Commands.{
  send_command, send_command_in, handle_target_state, settle, release_and_drain, record_outcome,
  drain,
}
use homebridge_myalarmcom.Partition.Guards.{handle_target_state_cases}
use homebridge_myalarmcom.Partition.Display.{
  Pending, pending, unless_reached, unless_expired, shown_after, updated, updated_unrecognised,
  shown_or_last, write_if_some,
}
use homebridge_myalarmcom.Partition.Ordering.{Runs, begin, request, decline, finish, poll}

-- HAP allows the targets 0 to 3.
abbrev pub IsAllowed : Option ℕ → Type 0
IsAllowed none = Unit
IsAllowed (some t) = t < 4

record AllAllowed (s : Pending) : Type 0 where
  now : IsAllowed s.pending_target
  last : IsAllowed s.last_shown_target
  shown : IsAllowed s.shown_target

expired-IsAllowed :
    (t : Option ℕ) (set_at now : ℕ) → IsAllowed t → IsAllowed (unless_expired t set_at now)
expired-IsAllowed t set_at now h =
    elim (Bool-cases (ltb now (set_at + partition_target_settle_ms))) [
      | inl e ↦ rw e h
      | inr e ↦ rw e tt
    ]

reached-IsAllowed :
    (t : Option ℕ) (shown set_at now : ℕ)
    → IsAllowed t
    → IsAllowed (unless_reached t shown set_at now)
reached-IsAllowed none shown set_at now h = tt
reached-IsAllowed (some t) shown set_at now h = elim (Bool-cases (t == shown)) [
  | inl e ↦ rw e tt
  | inr e ↦ rw e (expired-IsAllowed (some t) set_at now h)
]

shown-IsAllowed :
    (t last : Option ℕ) (shown : ℕ)
    → IsAllowed t
    → IsAllowed last
    → shown ≤ 4
    → IsAllowed (shown_or_last t shown last)
shown-IsAllowed (some t) last shown h hl hs = h
shown-IsAllowed none last shown h hl hs = elim (Bool-cases (shown == 4)) [
  | inl e ↦ rw e hl
  | inr e ↦ rw e (ground arith)
]

write-IsAllowed : (t old : Option ℕ) → IsAllowed t → IsAllowed old → IsAllowed (write_if_some t old)
write-IsAllowed none old h ho = ho
write-IsAllowed (some t) old h ho = h

shown_after-AllAllowed :
    (s : Pending) (a : PartitionAttributes) (shown now : ℕ)
    → shown ≤ 4
    → AllAllowed s
    → AllAllowed (shown_after s a shown now)
shown_after-AllAllowed s a shown now le v =
    let target = reached-IsAllowed s.pending_target shown s.target_set_at now v.now in
    let to_show =
      shown-IsAllowed (unless_reached s.pending_target shown s.target_set_at now)
        s.last_shown_target shown target v.last le in
    record {
      now = target;
      last = write-IsAllowed _ s.last_shown_target to_show v.last;
      shown = write-IsAllowed _ s.shown_target to_show v.shown;
    }

update-AllAllowed :
    (p : Partition) (platform : Platform) (a : PartitionAttributes) (is_debug : Bool) (now : ℕ)
    → AllAllowed (pending p)
    → AllAllowed (pending (update p platform a is_debug now))
update-AllAllowed p platform a is_debug now v =
    elim (Option-cases (to_displayed_security_state a)) [
      | inl e ↦ rw (updated_unrecognised p platform a is_debug now e) (record {
        now = expired-IsAllowed p.pending_target p.target_set_at now v.now;
        last = v.last;
        shown = v.shown;
      })
      | inr (shown, e) ↦ rw (updated p platform a is_debug now shown e) (
          shown_after-AllAllowed (record (pending p) { attributes = some a }) a shown now
            (displayed_state-le a shown e) (record { now = v.now; last = v.last; shown = v.shown }))
    ]

send_command-AllAllowed :
    (fl : Option CommandAttempt) (p : Partition) (now : ℕ) (r : QueuedRequest)
    → AllAllowed (pending p)
    → AllAllowed (pending (send_command_in fl p now r true).0)
unfolding send_command_in
send_command-AllAllowed none p now r v = record { now = v.now; last = v.last; shown = v.shown }
send_command-AllAllowed (some a) p now r v = record { now = v.now; last = v.last; shown = v.shown }

release-AllAllowed :
    (q : Option QueuedRequest) (p : Partition) (now : ℕ)
    → AllAllowed (pending p)
    → AllAllowed (pending (drain q (record p { in_flight = none }) now true))
unfolding drain send_command send_command_in
release-AllAllowed none p now v = record { now = v.now; last = v.last; shown = v.shown }
release-AllAllowed (some q) p now v = record { now = v.now; last = v.last; shown = v.shown }

pending-record_outcome :
    (p : Partition) (attempt : CommandAttempt) (is_ok : Bool)
    → (pending (record_outcome p attempt is_ok) ≡ pending p)
      ⊎ (pending (record_outcome p attempt is_ok) ≡ record (pending p) { pending_target = none })
unfolding record_outcome
pending-record_outcome p attempt is_ok = ground arith

record_outcome-AllAllowed :
    (p : Partition) (attempt : CommandAttempt) (is_ok : Bool)
    → AllAllowed (pending p)
    → AllAllowed (pending (record_outcome p attempt is_ok))
record_outcome-AllAllowed p attempt is_ok v = elim (pending-record_outcome p attempt is_ok) [
  | inl e ↦ rw e v
  | inr e ↦ rw e (record { now = tt; last = v.last; shown = v.shown })
]

handle-AllAllowed :
    (p : Partition) (platform : Platform) (now target : ℕ)
    → AllAllowed (pending p)
    → AllAllowed (pending (handle_target_state p platform now target true).0)
unfolding send_command
handle-AllAllowed p platform now target v =
    elim (handle_target_state_cases p platform now target true) [
      | inl (status, cause, e) ↦ rw e v
      | inr (r, cleared, e) ↦ rw e (
          send_command-AllAllowed p.in_flight _ now r (record {
            now = commanded target r cleared.has_command;
            last = v.last;
            shown = v.shown;
          }))
    ]
  where
    commanded : (t : ℕ) (q : QueuedRequest) → to_partition_action t ≡ some q.action → t < 4
    commanded t q c = elim (le-cases 4 t) [
      | inl high ↦ let off = (to_partition_action_facts t).0.1 high in cc
      | inr low ↦ low
    ]

Runs-AllAllowed : {p : Partition} {wanted : Option ℕ} → Runs p wanted → AllAllowed (pending p)
unfolding new_partition settle release_and_drain
Runs-AllAllowed begin = record { now = tt; last = tt; shown = tt }
Runs-AllAllowed (request {p} platform now target run accepted) =
    handle-AllAllowed p platform now target (Runs-AllAllowed run)
Runs-AllAllowed (decline {p} platform now target status run e) =
    handle-AllAllowed p platform now target (Runs-AllAllowed run)
Runs-AllAllowed (finish {p} attempt is_ok now run e) =
    release-AllAllowed (record_outcome p attempt is_ok).queued (record_outcome p attempt is_ok) now
      (record_outcome-AllAllowed p attempt is_ok (Runs-AllAllowed run))
Runs-AllAllowed (poll {p} platform attributes is_debug now run) =
    update-AllAllowed p platform attributes is_debug now (Runs-AllAllowed run)

target_or-shown_or_last :
    (t last : Option ℕ) (shown : ℕ) → target_or t shown last ≡ shown_or_last t shown last
unfolding target_or
target_or-shown_or_last (some t) last shown = refl
target_or-shown_or_last none last shown = refl

displayed-IsAllowed :
    (p : Partition) (shown : Option ℕ)
    → AllAllowed (pending p)
    → ((s : ℕ) → shown ≡ some s → s ≤ 4)
    → IsAllowed (target_of_shown p shown)
unfolding target_of_shown target_to_show
displayed-IsAllowed p none v le = tt
displayed-IsAllowed p (some s) v le =
    rw (target_or-shown_or_last p.pending_target p.last_shown_target s)
      (shown-IsAllowed p.pending_target p.last_shown_target s v.now v.last (le s refl))

displayed_of-le : (a : Option PartitionAttributes) (s : ℕ) → displayed_of a ≡ some s → s ≤ 4
unfolding displayed_of
displayed_of-le none s e = ground arith
displayed_of-le (some a) s e = displayed_state-le a s e

-- In every history with a usable client and no throw in recording an outcome, the target state that
-- HomeKit has been given, and the one that a read of it returns, is one of the four that HAP
-- allows, also while an alarm is sounding.
pub target-IsAllowed :
    (p : Partition) (wanted : Option ℕ)
    → Runs p wanted
    → IsAllowed p.tile.target_state × IsAllowed (read_target_state p)
unfolding read_target_state
target-IsAllowed p wanted run =
    let v = Runs-AllAllowed run in
    (v.shown, displayed-IsAllowed p (displayed_of p.attributes) v (displayed_of-le p.attributes))
