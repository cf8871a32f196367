-- ===== src/Partition/Commands.antt =====
-- The command half of src/devices/partition.ts. A command outlives the reply to HomeKit, so its end
-- is a step of its own: `settle`, whenever it comes, or `settle_rejected` where the log or the refresh
-- throws in it. The reply at the HAP deadline changes nothing in
-- the accessory, and is left out. `is_client_usable` is whether `platform.client` can be read.
use homebridge_myalarmcom.Common.{
  ℕ, ◌+◌, Bool, true, false, ◌&&◌, not, Option, none, some, List, [], ◌∷◌, ◌==◌, if◌then◌else◌,
}
use homebridge_myalarmcom.Alarm.{
  PartitionAttributes, PartitionAction, disarm, bypass_sensors, accepts_arming_modifier,
}
use homebridge_myalarmcom.Mappers.{night_arm, to_partition_action, arming_mode_for}
use homebridge_myalarmcom.ChangeLog.{mark_reported}
use homebridge_myalarmcom.Partition.{
  Platform, CommandOptions, QueuedRequest, CommandAttempt, Partition, holding, requesting,
  superseded, could_not_reach, accepted_line, log, can_change_state,
}

-- The HAP statuses that a write may be refused with.
pub data HapStatus : Type 0 where
  insufficient_privileges invalid_value not_allowed_in_current_state communication_failure :
      HapStatus

-- `sent` is pending at Alarm.com; `held` waits for the command in flight.
pub data Reply : Type 0 where
  sent held : Reply
  refused : HapStatus → Reply

unfoldable pub will_bypass_open_sensors : PartitionAttributes → ℕ → Bool → Bool
will_bypass_open_sensors attributes target is_bypass_allowed =
    is_bypass_allowed && accepts_arming_modifier attributes (arming_mode_for target) bypass_sensors

unfoldable pub build_command_options : PartitionAttributes → ℕ → Bool → CommandOptions
build_command_options attributes target is_bypass_allowed = record {
  night_arming = target == night_arm;
  force_bypass = will_bypass_open_sensors attributes target is_bypass_allowed;
}

abbrev is_empty : List (List ℕ) → Bool
is_empty [] = true
is_empty (x ∷ xs) = false

-- `#refuseArmOverOpenSensors`: whether it throws.
unfoldable pub refuses_arm_over_open_sensors : Platform → PartitionAttributes → ℕ → Bool
refuses_arm_over_open_sensors platform attributes target =
    not (will_bypass_open_sensors attributes target platform.is_sensor_bypass_allowed)
    && not (is_empty platform.open_contacts)

-- The outcome of a command: accepted by Alarm.com, or not.
abbrev succeeded : Partition → CommandAttempt → Partition
succeeded p attempt = record (log p (accepted_line attempt.target)) {
  last_label = mark_reported p.last_label attempt.target;
  recorded_commands = p.recorded_commands + 1;
  refresh_requests = p.refresh_requests + 1;
}

unfoldable pub record_outcome : Partition → CommandAttempt → Bool → Partition
record_outcome p attempt is_ok =
    if not (attempt.token == p.command_sequence)
    then log p (superseded attempt.target)
    else if is_ok
    then succeeded p attempt
    else log (record p { pending_target = none; refresh_requests = p.refresh_requests + 1 })
        (could_not_reach attempt.target)

unfoldable pub send_command_in :
    Option CommandAttempt → Partition → ℕ → QueuedRequest → Bool → Partition × Reply
unfolding record_outcome
send_command_in (some running) p now request is_client_usable = (
  log (record p { queued = some request; command_sequence = p.command_sequence + 1 })
      (holding request.target),
  held,
)
send_command_in none p now request is_client_usable =
    let attempt : CommandAttempt = record {
      target = request.target;
      started_at = now;
      token = p.command_sequence + 1;
    } in
    let claimed =
      log (record p { command_sequence = p.command_sequence + 1 }) (requesting request.target) in
    if is_client_usable
    then (record claimed { in_flight = some attempt; commands = request ∷ p.commands }, sent)
    else (record_outcome claimed attempt false, refused communication_failure)

unfoldable pub send_command : Partition → ℕ → QueuedRequest → Bool → Partition × Reply
unfolding send_command_in
send_command p now request is_client_usable =
    send_command_in p.in_flight p now request is_client_usable

unfoldable pub drain : Option QueuedRequest → Partition → ℕ → Bool → Partition
drain none p now is_client_usable = p
drain (some next) p now is_client_usable =
    (send_command (record p { queued = none }) now next is_client_usable).0

unfoldable pub release_and_drain : Partition → ℕ → Bool → Partition
unfolding drain send_command
release_and_drain p now is_client_usable =
    drain p.queued (record p { in_flight = none }) now is_client_usable

unfoldable pub settle : Partition → CommandAttempt → Bool → ℕ → Bool → Partition
settle p attempt is_ok now is_client_usable =
    release_and_drain (record_outcome p attempt is_ok) now is_client_usable

-- A command that ends after HomeKit has been answered, and whose recording throws: `p` is the
-- accessory as the throw leaves it, which is released on the way out and again by the handler.
unfoldable pub settle_rejected : Partition → ℕ → Bool → Partition
unfolding release_and_drain
settle_rejected p now is_client_usable =
    release_and_drain (release_and_drain p now is_client_usable) now is_client_usable

abbrev pub is_disarm : PartitionAction → Bool
is_disarm disarm = true
is_disarm _ = false

unfoldable pub request_action :
    Option PartitionAction
    → Partition
    → Platform
    → PartitionAttributes
    → ℕ
    → ℕ
    → Bool
    → Partition × Reply
unfolding build_command_options
request_action none p platform attributes now target is_client_usable = (p, refused invalid_value)
request_action (some action) p platform attributes now target is_client_usable =
    let request : QueuedRequest = record {
      action = action;
      target = target;
      options = build_command_options attributes target platform.is_sensor_bypass_allowed;
    } in
    if not (is_disarm action) && refuses_arm_over_open_sensors platform attributes target
    then (p, refused not_allowed_in_current_state)
    else send_command (record p { pending_target = some target; target_set_at = now }) now request
        is_client_usable

unfoldable pub handle_for :
    Option PartitionAttributes → Partition → Platform → ℕ → ℕ → Bool → Partition × Reply
unfolding request_action
handle_for none p platform now target is_client_usable = (p, refused insufficient_privileges)
handle_for (some attributes) p platform now target is_client_usable =
    if can_change_state platform attributes
    then request_action (to_partition_action target) p platform attributes now target
        is_client_usable
    else (p, refused insufficient_privileges)

-- `#handleTargetState`. The characteristic is a `uint8`, so HAP hands over a natural number.
unfoldable pub handle_target_state : Partition → Platform → ℕ → ℕ → Bool → Partition × Reply
unfolding handle_for
handle_target_state p platform now target is_client_usable =
    handle_for p.attributes p platform now target is_client_usable
