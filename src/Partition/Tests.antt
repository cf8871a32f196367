-- ===== src/Partition/Tests.antt =====
-- A panel that may be armed from HomeKit, polled, commanded, and commanded again while the first
-- command is out.
use homebridge_myalarmcom.Common.{◌≡◌, refl, true, false, none, some, [], ◌∷◌, ◌||◌, if◌then◌else◌}
use homebridge_myalarmcom.Js.{pos, whole, Value, number, undefined, boolean}
use homebridge_myalarmcom.Alarm.{
  PartitionAttributes, arm_stay, supports_night_arming, is_night_armed,
}
use homebridge_myalarmcom.Mappers.{
  to_displayed_security_state, to_home_kit_security_state, to_partition_action,
}
use homebridge_myalarmcom.Partition.{
  Platform, QueuedRequest, CommandAttempt, Partition, new_partition, update, read_target_state,
  read_current_state, can_change_state,
}
use homebridge_myalarmcom.Partition.Commands.{
  sent, held, handle_target_state, settle, request_action, handle_for, send_command,
  send_command_in, refuses_arm_over_open_sensors, will_bypass_open_sensors, release_and_drain,
  drain, record_outcome,
}
use homebridge_myalarmcom.Partition.Guards.{IsHandled, handle_target_state_cases}
use homebridge_myalarmcom.Partition.Display.{
  recognised_shown, shown_or_last, unless_reached, write_if_some,
}
use homebridge_myalarmcom.Partition.Unread.{at_once, requested, unread_until_polled}
use homebridge_myalarmcom.Partition.Targets.{target-IsAllowed, IsAllowed}
use homebridge_myalarmcom.Partition.Ordering.{
  Runs, begin, request, poll, finish, last_target, idle_landed, superseded_hands_over,
}
use homebridge_myalarmcom.Partition.Props.{poll_props}

abbrev panel : Value → PartitionAttributes
panel state = record {
  description = undefined;
  state = state;
  has_permission_to_change_state = boolean true;
  extended_arming_options = λ m. undefined;
  has_active_alarm = undefined;
  is_malfunctioning = undefined;
}

abbrev disarmed_panel : PartitionAttributes
disarmed_panel = panel (number (whole (pos 1)))

abbrev home : Platform
home = record {
  is_home_kit_arming_allowed = true;
  is_sensor_bypass_allowed = false;
  open_contacts = [];
}

abbrev polled : Partition
polled = update new_partition home disarmed_panel false 1000

abbrev armed : Partition
armed = (handle_target_state polled home 2000 1 true).0

abbrev armed_twice : Partition
armed_twice = (handle_target_state armed home 3000 0 true).0

polled-Runs : Runs polled none
polled-Runs = poll home disarmed_panel false 1000 begin

first_reply : (handle_target_state polled home 2000 1 true).1 ≡ sent
unfolding update handle_target_state handle_for request_action send_command send_command_in
    can_change_state to_partition_action refuses_arm_over_open_sensors will_bypass_open_sensors
    new_partition to_displayed_security_state to_home_kit_security_state
    homebridge_myalarmcom.Partition.report_change homebridge_myalarmcom.ChangeLog.report
    homebridge_myalarmcom.Partition.publish_target homebridge_myalarmcom.Partition.target_to_show
    homebridge_myalarmcom.Partition.resolve_target_state
    homebridge_myalarmcom.Partition.report_alarm_state
    homebridge_myalarmcom.Partition.sync_target_state_props
first_reply = refl

armed-Runs : Runs armed (some 1)
armed-Runs = request home 2000 1 polled-Runs λ status e. cc (first_reply, e)

second_reply : (handle_target_state armed home 3000 0 true).1 ≡ held
unfolding update handle_target_state handle_for request_action send_command send_command_in
    can_change_state to_partition_action refuses_arm_over_open_sensors will_bypass_open_sensors
    new_partition to_displayed_security_state to_home_kit_security_state
    homebridge_myalarmcom.Partition.report_change homebridge_myalarmcom.ChangeLog.report
    homebridge_myalarmcom.Partition.publish_target homebridge_myalarmcom.Partition.target_to_show
    homebridge_myalarmcom.Partition.resolve_target_state
    homebridge_myalarmcom.Partition.report_alarm_state
    homebridge_myalarmcom.Partition.sync_target_state_props
second_reply = refl

armed_twice-Runs : Runs armed_twice (some 0)
armed_twice-Runs = request home 3000 0 armed-Runs λ status e. cc (second_reply, e)

handle_target_state_cases_example :
    IsHandled polled home 2000 1 true (handle_target_state polled home 2000 1 true)
handle_target_state_cases_example = handle_target_state_cases polled home 2000 1 true

abbrev first_attempt : CommandAttempt
first_attempt = record { target = 1; started_at = 2000; token = 1 }

in_flight_still : armed_twice.in_flight ≡ some first_attempt
unfolding update handle_target_state handle_for request_action send_command send_command_in
    can_change_state to_partition_action refuses_arm_over_open_sensors will_bypass_open_sensors
    new_partition to_displayed_security_state to_home_kit_security_state
    homebridge_myalarmcom.Partition.report_change homebridge_myalarmcom.ChangeLog.report
    homebridge_myalarmcom.Partition.publish_target homebridge_myalarmcom.Partition.target_to_show
    homebridge_myalarmcom.Partition.resolve_target_state
    homebridge_myalarmcom.Partition.report_alarm_state
    homebridge_myalarmcom.Partition.sync_target_state_props
in_flight_still = refl

abbrev held_stay : QueuedRequest
held_stay = record {
  action = arm_stay;
  target = 0;
  options = record { night_arming = false; force_bypass = false };
}

queued_stay : armed_twice.queued ≡ some held_stay
unfolding update handle_target_state handle_for request_action send_command send_command_in
    can_change_state to_partition_action refuses_arm_over_open_sensors will_bypass_open_sensors
    new_partition to_displayed_security_state to_home_kit_security_state
    homebridge_myalarmcom.Partition.report_change homebridge_myalarmcom.ChangeLog.report
    homebridge_myalarmcom.Partition.publish_target homebridge_myalarmcom.Partition.target_to_show
    homebridge_myalarmcom.Partition.resolve_target_state
    homebridge_myalarmcom.Partition.report_alarm_state
    homebridge_myalarmcom.Partition.sync_target_state_props
queued_stay = refl

-- The first command fails, the one held behind it goes out, and it is accepted.
abbrev handed_over : Partition
handed_over = settle armed_twice first_attempt false 3500 true

abbrev second_attempt : CommandAttempt
second_attempt = record { target = 0; started_at = 3500; token = 3 }

in_flight_second : handed_over.in_flight ≡ some second_attempt
unfolding update handle_target_state handle_for request_action send_command send_command_in
    can_change_state to_partition_action refuses_arm_over_open_sensors will_bypass_open_sensors
    new_partition to_displayed_security_state to_home_kit_security_state settle release_and_drain
    drain record_outcome homebridge_myalarmcom.Partition.report_change
    homebridge_myalarmcom.ChangeLog.report homebridge_myalarmcom.Partition.publish_target
    homebridge_myalarmcom.Partition.target_to_show
    homebridge_myalarmcom.Partition.resolve_target_state
    homebridge_myalarmcom.Partition.report_alarm_state
    homebridge_myalarmcom.Partition.sync_target_state_props
in_flight_second = refl

abbrev landed : Partition
landed = settle handed_over second_attempt true 4000 true

landed-Runs : Runs landed (some 0)
landed-Runs =
    finish second_attempt true 4000
      (finish first_attempt false 3500 armed_twice-Runs in_flight_still) in_flight_second

landed_idle : landed.in_flight ≡ none
unfolding update handle_target_state handle_for request_action send_command send_command_in
    can_change_state to_partition_action refuses_arm_over_open_sensors will_bypass_open_sensors
    new_partition to_displayed_security_state to_home_kit_security_state settle release_and_drain
    drain record_outcome homebridge_myalarmcom.Partition.report_change
    homebridge_myalarmcom.ChangeLog.report homebridge_myalarmcom.Partition.publish_target
    homebridge_myalarmcom.Partition.target_to_show
    homebridge_myalarmcom.Partition.resolve_target_state
    homebridge_myalarmcom.Partition.report_alarm_state
    homebridge_myalarmcom.Partition.sync_target_state_props
landed_idle = refl

idle_landed_example : (landed.queued ≡ none) × (last_target landed.commands ≡ some 0)
idle_landed_example = idle_landed landed (some 0) landed-Runs landed_idle

superseded_hands_over_example :
    let after = settle armed_twice first_attempt false 3500 true in
    (after.pending_target ≡ armed_twice.pending_target)
    × (after.commands ≡ held_stay ∷ armed_twice.commands)
    × (after.queued ≡ none)
    × (after.in_flight
        ≡ some (record { target = 0; started_at = 3500; token = after.command_sequence }))
superseded_hands_over_example =
    superseded_hands_over armed_twice (some 0) first_attempt held_stay false 3500 armed_twice-Runs
      in_flight_still queued_stay

-- HomeKit asks for a target after the poll.
abbrev unread : Partition
unread = update polled home (panel (number (whole (pos 9)))) false 4000

unread_until_polled_example :
    let q = (handle_target_state unread home 5000 1 true).0 in
    (q.tile.current_state ≡ polled.tile.current_state)
    × (q.tile.target_state ≡ polled.tile.target_state)
    × (q.tile.is_faulty ≡ true)
    × (read_current_state q ≡ none)
    × (read_target_state q ≡ none)
unfolding to_displayed_security_state to_home_kit_security_state
unread_until_polled_example =
    unread_until_polled polled home (panel (number (whole (pos 9)))) false 4000
      (handle_target_state unread home 5000 1 true).0 refl (requested home 5000 1 true at_once)

abbrev armed_panel : PartitionAttributes
armed_panel = panel (number (whole (pos 3)))

recognised_shown_example :
    let q = update armed home armed_panel false 4000 in
    let to_show = shown_or_last q.pending_target 1 armed.last_shown_target in
    (q.tile.current_state ≡ some 1)
    × (q.pending_target ≡ unless_reached armed.pending_target 1 armed.target_set_at 4000)
    × (q.tile.target_state ≡ write_if_some to_show armed.tile.target_state)
    × (q.tile.is_faulty ≡ false)
unfolding to_displayed_security_state to_home_kit_security_state
recognised_shown_example = recognised_shown armed home armed_panel false 1 4000 refl

target-IsAllowed_example :
    IsAllowed armed_twice.tile.target_state × IsAllowed (read_target_state armed_twice)
target-IsAllowed_example = target-IsAllowed armed_twice (some 0) armed_twice-Runs

poll_props_example :
    let q = update armed home armed_panel false 4000 in
    (q.tile.is_writable ≡ can_change_state home armed_panel)
    × (q.tile.valid_values ≡ (
        if supports_night_arming armed_panel || is_night_armed armed_panel
        then 0 ∷ 1 ∷ 3 ∷ 2 ∷ []
        else 0 ∷ 1 ∷ 3 ∷ []))
poll_props_example = poll_props armed (some 1) home armed_panel false 4000 armed-Runs
