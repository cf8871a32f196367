-- ===== src/Sensor/Tests.antt =====
-- A door that opens and shuts in one event, and is then read as open.
use homebridge_myalarmcom.Common.{◌≡◌, true, false, none, some, arith, if◌then◌else◌}
use homebridge_myalarmcom.Js.{pos, whole, number, undefined, boolean}
use homebridge_myalarmcom.Alarm.{contact, SensorAttributes, read_sensor_state}
use homebridge_myalarmcom.Mappers.{to_characteristic_value, to_sensor_service_kind}
use homebridge_myalarmcom.Sensor.{SensorAccessory, new_sensor, apply_immediate_state, update_sensor}
use homebridge_myalarmcom.Sensor.Published.{
  begin, push, IsConsistent, history-IsConsistent, fits, update_sensor_facts,
}

abbrev pulsed : SensorAccessory
pulsed = apply_immediate_state (new_sensor contact) 500 true true

history-IsConsistent_example : IsConsistent contact pulsed 500
history-IsConsistent_example =
    history-IsConsistent contact pulsed 500 (push true true 500 (begin 0) (omega arith))

abbrev open_door : SensorAttributes
open_door = record {
  device_type = number (whole (pos 1));
  state = number (whole (pos 2));
  open_closed_status = number (whole (pos 3));
  is_monitoring_enabled = undefined;
  is_malfunctioning = boolean false;
}

update_sensor_facts_example :
    let q = update_sensor pulsed open_door in
    let is_fit = fits (to_sensor_service_kind open_door.device_type) pulsed.kind in
    let reading =
      (read_sensor_state open_door.device_type open_door.state
        open_door.open_closed_status).is_triggered in
    (q.is_triggered ≡ (if is_fit then some reading else pulsed.is_triggered))
    × (q.primary
        ≡ (if is_fit then some (to_characteristic_value pulsed.kind reading) else pulsed.primary))
    × (q.is_active ≡ (if is_fit then some true else pulsed.is_active))
    × (q.is_faulty ≡ (if is_fit then some false else pulsed.is_faulty))
    × (q.reset_due ≡ none)
update_sensor_facts_example = update_sensor_facts pulsed open_door
