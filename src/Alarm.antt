-- ===== src/Alarm.antt =====
-- src/types/alarm.ts: the device states of Alarm.com and the readings made of them. Attributes come
-- from an unvalidated response, so they are values of the language. Labels are constructors.
pub mod Readings
mod Tests
use homebridge_myalarmcom.Common.{
  ℕ, Bool, true, false, not, ◌&&◌, ◌||◌, Option, none, some, List, [], ◌∷◌, ◌==◌, if◌then◌else◌,
}
use homebridge_myalarmcom.Js.{
  Number, Value, undefined, null, boolean, number, string, array, object, Values, none_left, item,
  as_key, is_number, is_true,
}

pub data SensorServiceKind : Type 0 where
  contact motion smoke : SensorServiceKind

pub data SensorDeviceType : Type 0 where
  contact_device motion_device smoke_device : SensorDeviceType

pub data SensorState : Type 0 where
  unknown closed open_state idle active dry wet : SensorState

pub data OpenClosedStatus : Type 0 where
  unknown_status closed_status open_status : OpenClosedStatus

pub data PartitionState : Type 0 where
  unknown_panel disarmed armed_stay armed_away armed_night : PartitionState

-- Each enum read back from its numbers: 1, 2, 5; 0 to 6; 0, 2, 3; 0 to 4.
unfoldable pub sensor_device_type : Option ℕ → Option SensorDeviceType
sensor_device_type none = none
sensor_device_type (some n) =
    if n == 1
    then some contact_device
    else if n == 2
    then some motion_device
    else if n == 5
    then some smoke_device
    else none

unfoldable pub sensor_state : Option ℕ → Option SensorState
sensor_state none = none
sensor_state (some n) =
    if n == 0
    then some unknown
    else if n == 1
    then some closed
    else if n == 2
    then some open_state
    else if n == 3
    then some idle
    else if n == 4
    then some active
    else if n == 5
    then some dry
    else if n == 6
    then some wet
    else none

unfoldable pub open_closed_status : Option ℕ → Option OpenClosedStatus
open_closed_status none = none
open_closed_status (some n) =
    if n == 0
    then some unknown_status
    else if n == 2
    then some closed_status
    else if n == 3
    then some open_status
    else none

unfoldable pub partition_state : Option ℕ → Option PartitionState
partition_state none = none
partition_state (some n) =
    if n == 0
    then some unknown_panel
    else if n == 1
    then some disarmed
    else if n == 2
    then some armed_stay
    else if n == 3
    then some armed_away
    else if n == 4
    then some armed_night
    else none

unfoldable pub is_triggered_sensor_state : Option SensorState → Bool
is_triggered_sensor_state (some open_state) = true
is_triggered_sensor_state (some active) = true
is_triggered_sensor_state (some wet) = true
is_triggered_sensor_state _ = false

unfoldable pub is_resting_sensor_state : Option SensorState → Bool
is_resting_sensor_state (some closed) = true
is_resting_sensor_state (some idle) = true
is_resting_sensor_state (some dry) = true
is_resting_sensor_state _ = false

-- The label texts; `state_name` is the enum's own name for a state that the device has no label for.
pub data Label : Type 0 where
  closed_label open_label idle_label activated_label not_reset_label unknown_label : Label
  state_name : SensorState → Label

abbrev fallback_label : Option SensorState → Label
fallback_label none = unknown_label
fallback_label (some st) = state_name st

-- `labels?.get(state) ?? SensorState[state] ?? 'Unknown'`, over `STATE_LABELS`.
pub state_label : Option SensorDeviceType → Option SensorState → Label
state_label (some contact_device) (some closed) = closed_label
state_label (some contact_device) (some open_state) = open_label
state_label (some motion_device) (some idle) = idle_label
state_label (some motion_device) (some active) = activated_label
state_label (some smoke_device) (some closed) = not_reset_label
state_label (some smoke_device) (some active) = activated_label
state_label _ st = fallback_label st

pub record SensorReading : Type 0 where
  pub label : Label
  pub is_triggered : Bool
  pub is_ambiguous : Bool

abbrev pub differs : Bool → Bool → Bool
differs true b = not b
differs false b = b

abbrev pub is_open : Option OpenClosedStatus → Bool
is_open (some open_status) = true
is_open _ = false

-- The part after `openClosed` is known to be a number; `oc` is which of the enum it is, if any.
pub read_known : Label → Option SensorState → Option OpenClosedStatus → SensorReading
read_known label st (some unknown_status) = record {
  label = label;
  is_triggered = is_triggered_sensor_state st;
  is_ambiguous = not (is_triggered_sensor_state st || is_resting_sensor_state st);
}
read_known label st oc =
    let is_open_triggered = is_open oc in
    if is_triggered_sensor_state st || is_resting_sensor_state st
    then record {
      label = label;
      is_triggered = is_triggered_sensor_state st;
      is_ambiguous = differs (is_triggered_sensor_state st) is_open_triggered;
    }
    else record { label = label; is_triggered = is_open_triggered; is_ambiguous = true }

-- A number that is no key of the tables is as unrecognised as any other such number; a value that is
-- no number counts as an absent `openClosedStatus`.
pub read_state : Option SensorDeviceType → Option SensorState → Value → SensorReading
read_state device st (number x) =
    read_known (state_label device st) st (open_closed_status (as_key (number x)))
read_state device st _ = read_known (state_label device st) st (some unknown_status)

unfoldable pub read_sensor_state : Value → Value → Value → SensorReading
read_sensor_state device_type (number x) open_closed =
    read_state (sensor_device_type (as_key device_type)) (sensor_state (as_key (number x)))
      open_closed
read_sensor_state device_type _ open_closed = record {
  label = unknown_label;
  is_triggered = false;
  is_ambiguous = true;
}

pub record SensorAttributes : Type 0 where
  pub device_type : Value
  pub state : Value
  pub open_closed_status : Value
  pub is_monitoring_enabled : Value
  pub is_malfunctioning : Value

pub data PartitionAction : Type 0 where
  arm_stay arm_away disarm : PartitionAction

pub data ArmingModeName : Type 0 where
  disarmed_mode armed_stay_mode armed_away_mode armed_night_mode : ArmingModeName

pub data ArmingModifier : Type 0 where
  bypass_sensors no_entry_delay silent_arming night_arming selectively_bypass_sensors force_arm :
      ArmingModifier

-- `extended_arming_options` is the map from a mode to the modifiers that it accepts; a mode that it
-- lacks is `undefined`.
pub record PartitionAttributes : Type 0 where
  pub description : Value
  pub state : Value
  pub has_permission_to_change_state : Value
  pub extended_arming_options : ArmingModeName → Value
  pub has_active_alarm : Value
  pub is_malfunctioning : Value

abbrev is_array : Value → Bool
is_array (array _) = true
is_array _ = false

unfoldable pub supports_night_arming : PartitionAttributes → Bool
supports_night_arming attributes = is_array (attributes.extended_arming_options armed_night_mode)

unfoldable pub is_night_armed : PartitionAttributes → Bool
is_night_armed attributes = is_number attributes.state 4

abbrev modifier_number : ArmingModifier → ℕ
modifier_number bypass_sensors = 0
modifier_number no_entry_delay = 1
modifier_number silent_arming = 2
modifier_number night_arming = 3
modifier_number selectively_bypass_sensors = 4
modifier_number force_arm = 5

includes : Values → ℕ → Bool
includes none_left n = false
includes (item v vs) n = is_number v n || includes vs n

includes_in : Value → ℕ → Bool
unfolding includes
includes_in (array vs) n = includes vs n
includes_in _ n = false

unfoldable pub accepts_arming_modifier :
    PartitionAttributes → ArmingModeName → ArmingModifier → Bool
unfolding includes_in
accepts_arming_modifier attributes mode modifier =
    includes_in (attributes.extended_arming_options mode) (modifier_number modifier)
