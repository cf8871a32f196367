-- ===== src/Alarm/Tests.antt =====
-- Readings that live accounts produced, and one that no table knows.
use homebridge_myalarmcom.Common.{◌≡◌, refl, true, false}
use homebridge_myalarmcom.Js.{pos, whole, Value, number}
use Prim.Native.Nat.{ℕ}
use homebridge_myalarmcom.Alarm.{
  read_sensor_state, read_state, read_known, state_label, sensor_device_type, sensor_state,
  open_closed_status, is_triggered_sensor_state, is_resting_sensor_state, not_reset_label,
  unknown_label,
}
use homebridge_myalarmcom.Alarm.Readings.{read_sensor_state_facts}

abbrev num : ℕ → Value
num n = number (whole (pos n))

smoke_at_rest :
    read_sensor_state (num 5) (num 1) (num 2)
    ≡ record { label = not_reset_label; is_triggered = false; is_ambiguous = false }
unfolding read_sensor_state read_state read_known state_label sensor_device_type sensor_state
    open_closed_status is_triggered_sensor_state is_resting_sensor_state
smoke_at_rest = refl

unseen_state_open :
    read_sensor_state (num 5) (num 9) (num 3)
    ≡ record { label = unknown_label; is_triggered = true; is_ambiguous = true }
unfolding read_sensor_state read_state read_known state_label sensor_device_type sensor_state
    open_closed_status is_triggered_sensor_state is_resting_sensor_state
unseen_state_open = refl

-- A state never seen before on a detector that says open: triggered, and ambiguous.
read_sensor_state_facts_example :
    let reading = read_sensor_state (num 5) (num 9) (num 3) in
    (reading.is_triggered ≡ true) × (reading.is_ambiguous ≡ true)
read_sensor_state_facts_example = read_sensor_state_facts (num 5) (num 9) (num 3)
