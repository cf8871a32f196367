-- ===== src/Mappers.antt =====
-- src/utils/mappers.ts and the event hint of src/types/events.ts: the translation between the states
-- of Alarm.com and the values of HomeKit. HomeKit's values are numbers, as in the source.
pub mod Safety
mod Tests
use homebridge_myalarmcom.Common.{ℕ, Bool, true, false, Option, none, some, ◌==◌, if◌then◌else◌}
use homebridge_myalarmcom.Js.{Value, as_key, is_true, is_number}
use homebridge_myalarmcom.Alarm.{
  SensorServiceKind, contact, motion, smoke, SensorDeviceType, contact_device, motion_device,
  smoke_device, sensor_device_type, PartitionState, disarmed, armed_stay, armed_away, armed_night,
  partition_state, Label, closed_label, open_label, idle_label, activated_label, not_reset_label,
  SensorReading, read_sensor_state, SensorAttributes, PartitionAction, arm_stay, arm_away, disarm,
  ArmingModeName, disarmed_mode, armed_stay_mode, armed_away_mode, armed_night_mode,
  PartitionAttributes,
}

-- `HomeKitSecurityState` and `HomeKitSecurityTarget`; a target is never `alarm_triggered`.
abbrev pub stay_arm : ℕ
stay_arm = 0

abbrev pub away_arm : ℕ
away_arm = 1

abbrev pub night_arm : ℕ
night_arm = 2

abbrev pub disarmed_state : ℕ
disarmed_state = 3

abbrev pub alarm_triggered : ℕ
alarm_triggered = 4

-- `PARTITION_TO_HOMEKIT.get`
partition_to_homekit : Option PartitionState → Option ℕ
partition_to_homekit (some disarmed) = some disarmed_state
partition_to_homekit (some armed_stay) = some stay_arm
partition_to_homekit (some armed_away) = some away_arm
partition_to_homekit (some armed_night) = some night_arm
partition_to_homekit _ = none

unfoldable pub to_home_kit_security_state : Value → Option ℕ
unfolding partition_to_homekit partition_state
to_home_kit_security_state state = partition_to_homekit (partition_state (as_key state))

unfoldable pub to_partition_action : ℕ → Option PartitionAction
to_partition_action target =
    if target == stay_arm
    then some arm_stay
    else if target == away_arm
    then some arm_away
    else if target == night_arm
    then some arm_stay
    else if target == disarmed_state
    then some disarm
    else none

unfoldable pub arming_mode_for : ℕ → ArmingModeName
arming_mode_for target =
    if target == away_arm
    then armed_away_mode
    else if target == night_arm
    then armed_night_mode
    else if target == disarmed_state
    then disarmed_mode
    else armed_stay_mode

unfoldable pub to_displayed_security_state : PartitionAttributes → Option ℕ
to_displayed_security_state attributes =
    if is_true attributes.has_active_alarm
    then some alarm_triggered
    else to_home_kit_security_state attributes.state

pub data SecurityLabel : Type 0 where
  armed_stay_text armed_away_text armed_night_text disarmed_text alarm_text : SecurityLabel
  state_text : ℕ → SecurityLabel

unfoldable pub to_security_state_label : ℕ → SecurityLabel
to_security_state_label state =
    if state == stay_arm
    then armed_stay_text
    else if state == away_arm
    then armed_away_text
    else if state == night_arm
    then armed_night_text
    else if state == disarmed_state
    then disarmed_text
    else if state == alarm_triggered
    then alarm_text
    else state_text state

unfoldable pub to_immediate_sensor_label : SensorServiceKind → Bool → Label
to_immediate_sensor_label contact is_triggered = if is_triggered then open_label else closed_label
to_immediate_sensor_label motion is_triggered = if is_triggered then activated_label else idle_label
to_immediate_sensor_label smoke is_triggered =
    if is_triggered then activated_label else not_reset_label

-- `DEVICE_TYPE_TO_SERVICE.get`
device_type_to_service : Option SensorDeviceType → Option SensorServiceKind
device_type_to_service (some contact_device) = some contact
device_type_to_service (some motion_device) = some motion
device_type_to_service (some smoke_device) = some smoke
device_type_to_service none = none

unfoldable pub to_sensor_service_kind : Value → Option SensorServiceKind
unfolding device_type_to_service sensor_device_type
to_sensor_service_kind device_type =
    device_type_to_service (sensor_device_type (as_key device_type))

-- A number for a contact or smoke sensor, a Boolean for a motion sensor.
pub data SensorCharacteristicValue : Type 0 where
  level : ℕ → SensorCharacteristicValue
  flag : Bool → SensorCharacteristicValue

pub record MappedSensorState : Type 0 where
  pub kind : SensorServiceKind
  pub value : SensorCharacteristicValue
  pub label : Label
  pub is_triggered : Bool
  pub is_ambiguous : Bool

-- `CONTACT_DETECTED` and `SMOKE_NOT_DETECTED` are 0, `CONTACT_NOT_DETECTED` and `SMOKE_DETECTED` are 1.
unfoldable pub to_characteristic_value : SensorServiceKind → Bool → SensorCharacteristicValue
to_characteristic_value contact is_triggered = if is_triggered then level 1 else level 0
to_characteristic_value smoke is_triggered = if is_triggered then level 1 else level 0
to_characteristic_value motion is_triggered = flag is_triggered

mapped_sensor_state : Option SensorServiceKind → SensorReading → Option MappedSensorState
unfolding to_characteristic_value
mapped_sensor_state none reading = none
mapped_sensor_state (some kind) reading = some (record {
  kind = kind;
  value = to_characteristic_value kind reading.is_triggered;
  label = reading.label;
  is_triggered = reading.is_triggered;
  is_ambiguous = reading.is_ambiguous;
})

unfoldable pub to_home_kit_sensor_state : SensorAttributes → Option MappedSensorState
unfolding mapped_sensor_state
to_home_kit_sensor_state attributes =
    mapped_sensor_state (to_sensor_service_kind attributes.device_type)
      (read_sensor_state attributes.device_type attributes.state attributes.open_closed_status)

-- src/types/events.ts
pub record ImmediateStateHint : Type 0 where
  pub is_triggered : Bool
  pub is_transient : Bool

contact_event_hint : Value → Option ImmediateStateHint
contact_event_hint event_type =
    if is_number event_type 15
    then some (record { is_triggered = true; is_transient = false })
    else if is_number event_type 0
    then some (record { is_triggered = false; is_transient = false })
    else if is_number event_type 100
    then some (record { is_triggered = true; is_transient = true })
    else none

-- `kind` is the device's kind from discovery, not the event's own claim.
unfoldable pub read_sensor_event_hint : Value → Option SensorServiceKind → Option ImmediateStateHint
unfolding contact_event_hint
read_sensor_event_hint event_type (some contact) = contact_event_hint event_type
read_sensor_event_hint event_type _ = none
