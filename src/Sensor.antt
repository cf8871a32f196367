-- ===== src/Sensor.antt =====
-- src/devices/sensor.ts and src/devices/status-fault.ts: the sensor accessory. The fields `primary`,
-- `is_active` and `is_faulty` are what HomeKit has been given. Of the log, the warnings are counted;
-- names, the service and the lines of the change logger are left out.
pub mod Published
mod Tests
use homebridge_myalarmcom.Common.{
  ℕ, ◌+◌, Bool, true, false, not, ◌&&◌, Option, none, some, leb, if◌then◌else◌,
}
use homebridge_myalarmcom.Settings.{transient_hint_reset_ms}
use homebridge_myalarmcom.Js.{Value, boolean, is_true}
use homebridge_myalarmcom.Alarm.{SensorServiceKind, contact, motion, smoke, SensorAttributes}
use homebridge_myalarmcom.Mappers.{
  MappedSensorState, SensorCharacteristicValue, to_characteristic_value, to_home_kit_sensor_state,
}

-- `reset_due` is when the pending `#transientResetTimer` was set to fire.
pub record SensorAccessory : Type 0 where
  pub kind : SensorServiceKind
  pub is_triggered : Option Bool
  pub has_reported_unsupported_type : Bool
  pub has_reported_ambiguity : Bool
  pub reset_due : Option ℕ
  pub primary : Option SensorCharacteristicValue
  pub is_active : Option Bool
  pub is_faulty : Option Bool
  pub type_warnings : ℕ
  pub ambiguity_warnings : ℕ

unfoldable pub new_sensor : SensorServiceKind → SensorAccessory
new_sensor kind = record {
  kind = kind;
  is_triggered = none;
  has_reported_unsupported_type = false;
  has_reported_ambiguity = false;
  reset_due = none;
  primary = none;
  is_active = none;
  is_faulty = none;
  type_warnings = 0;
  ambiguity_warnings = 0;
}

abbrev is_contact : SensorServiceKind → Bool
is_contact contact = true
is_contact _ = false

abbrev is_some_true : Option Bool → Bool
is_some_true (some b) = b
is_some_true none = false

unfoldable pub is_open_contact : SensorAccessory → Bool
is_open_contact s = is_contact s.kind && is_some_true s.is_triggered

unfoldable pub clear_transient_reset : SensorAccessory → SensorAccessory
clear_transient_reset s = record s { reset_due = none }

unfoldable pub apply_immediate_state : SensorAccessory → ℕ → Bool → Bool → SensorAccessory
unfolding clear_transient_reset
apply_immediate_state s now is_triggered is_transient =
    let published = record (clear_transient_reset s) {
      is_triggered = some is_triggered;
      primary = some (to_characteristic_value s.kind is_triggered);
    } in
    if is_transient && is_triggered
    then record published { reset_due = some (now + transient_hint_reset_ms) }
    else published

-- The callback of the timer.
unfoldable pub reset_timer_fires : SensorAccessory → ℕ → SensorAccessory
unfolding apply_immediate_state
reset_timer_fires s now = apply_immediate_state (record s { reset_due = none }) now false false

abbrev pub same_kind : SensorServiceKind → SensorServiceKind → Bool
same_kind contact contact = true
same_kind motion motion = true
same_kind smoke smoke = true
same_kind _ _ = false

-- An unsupported device type and a changed one share the flag, and so the warning.
unfoldable pub report_unsupported_type : SensorAccessory → SensorAccessory
report_unsupported_type s =
    if s.has_reported_unsupported_type
    then s
    else record s { has_reported_unsupported_type = true; type_warnings = s.type_warnings + 1 }

unfoldable pub report_ambiguity : SensorAccessory → Bool → SensorAccessory
report_ambiguity s is_ambiguous =
    if is_ambiguous && not s.has_reported_ambiguity
    then record s { has_reported_ambiguity = true; ambiguity_warnings = s.ambiguity_warnings + 1 }
    else if not is_ambiguous
    then record s { has_reported_ambiguity = false }
    else s

-- `attributes.isMonitoringEnabled !== false`
abbrev pub is_not_false : Value → Bool
is_not_false (boolean b) = b
is_not_false _ = true

unfoldable pub apply_mapped :
    Option MappedSensorState → SensorAccessory → SensorAttributes → SensorAccessory
unfolding report_unsupported_type report_ambiguity
apply_mapped none s attributes = report_unsupported_type s
apply_mapped (some mapped) s attributes =
    let told = report_ambiguity s mapped.is_ambiguous in
    if same_kind mapped.kind s.kind
    then record told {
      primary = some mapped.value;
      is_triggered = some mapped.is_triggered;
      is_active = some (is_not_false attributes.is_monitoring_enabled);
      is_faulty = some (is_true attributes.is_malfunctioning);
    }
    else report_unsupported_type s

unfoldable pub update_sensor : SensorAccessory → SensorAttributes → SensorAccessory
unfolding apply_mapped clear_transient_reset
update_sensor s attributes =
    apply_mapped (to_home_kit_sensor_state attributes) (clear_transient_reset s) attributes

unfoldable pub dispose : SensorAccessory → SensorAccessory
unfolding clear_transient_reset
dispose s = clear_transient_reset s
