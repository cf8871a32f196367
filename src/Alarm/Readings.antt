-- ===== src/Alarm/Readings.antt =====
-- When a sensor counts as tripped, and when its reading is conclusive.
use homebridge_myalarmcom.Common.{
  ◌≡◌, refl, Bool, true, false, not, ◌&&◌, ◌||◌, Option, none, some, arith,
}
use homebridge_myalarmcom.Js.{
  pos, negsuc, Number, whole, between, infinite, nan, Value, number, as_key, is_number,
}
use homebridge_myalarmcom.Alarm.{
  read_sensor_state, is_triggered_sensor_state, is_resting_sensor_state, sensor_state,
  open_closed_status, differs, is_open, read_known, read_state, state_label, Label, SensorState,
  SensorDeviceType, OpenClosedStatus, unknown_status, closed_status, open_status,
  sensor_device_type,
}

abbrev pub is_numeric : Value → Bool
is_numeric (number _) = true
is_numeric _ = false

-- Open, active or wet; closed, idle or dry.
abbrev pub is_tripped : Value → Bool
is_tripped v = is_number v 2 || is_number v 4 || is_number v 6

abbrev pub is_at_rest : Value → Bool
is_at_rest v = is_number v 1 || is_number v 3 || is_number v 5

tripped_lem :
    (x : Number)
    → is_triggered_sensor_state (sensor_state (as_key (number x))) ≡ is_tripped (number x)
unfolding is_triggered_sensor_state sensor_state
tripped_lem (whole (pos n)) = ground arith
tripped_lem (whole (negsuc n)) = refl
tripped_lem (between z h) = refl
tripped_lem (infinite s) = refl
tripped_lem nan = refl

rest_lem :
    (x : Number)
    → is_resting_sensor_state (sensor_state (as_key (number x))) ≡ is_at_rest (number x)
unfolding is_resting_sensor_state sensor_state
rest_lem (whole (pos n)) = ground arith
rest_lem (whole (negsuc n)) = refl
rest_lem (between z h) = refl
rest_lem (infinite s) = refl
rest_lem nan = refl

open_lem : (v : Value) → is_open (open_closed_status (as_key v)) ≡ is_number v 3
unfolding open_closed_status
open_lem (number (whole (pos n))) = ground arith
open_lem (number (whole (negsuc n))) = refl
open_lem (number (between z h)) = refl
open_lem (number (infinite s)) = refl
open_lem (number nan) = refl
open_lem _ = refl

-- The reading of a numeric state, in the terms of the tables.
known_triggered :
    (label : Label) (st : Option SensorState) (oc : Option OpenClosedStatus)
    → (read_known label st oc).is_triggered
      ≡ (is_triggered_sensor_state st || (not (is_resting_sensor_state st) && is_open oc))
unfolding read_known
known_triggered label st none = ground arith
known_triggered label st (some unknown_status) = ground arith
known_triggered label st (some closed_status) = ground arith
known_triggered label st (some open_status) = ground arith

state_triggered :
    (device : Option SensorDeviceType) (st : Option SensorState) (oc : Value)
    → (read_state device st oc).is_triggered
      ≡ (is_triggered_sensor_state st || (not (is_resting_sensor_state st) && is_number oc 3))
unfolding read_state
state_triggered device st (number x) = rw (
  known_triggered (state_label device st) st (open_closed_status (as_key (number x))),
  open_lem (number x),
)
state_triggered device st _ = known_triggered (state_label device st) st (some unknown_status)

-- A reading is triggered exactly when its state is a number that is open, active or wet, or is none
-- of the six known readings while `openClosedStatus` says open: a state never seen before cannot hide
-- a tripped sensor.
read_sensor_state-is_triggered :
    (device_type state open_closed : Value)
    → (read_sensor_state device_type state open_closed).is_triggered ≡ (
        is_numeric state
        && (is_tripped state || (not (is_at_rest state) && is_number open_closed 3)))
unfolding read_sensor_state
read_sensor_state-is_triggered d (number x) o = rw (
  state_triggered (sensor_device_type (as_key d)) (sensor_state (as_key (number x))) o,
  tripped_lem x,
  rest_lem x,
)
read_sensor_state-is_triggered d _ o = refl

-- `openClosedStatus` is a number other than 0.
abbrev pub is_given : Value → Bool
is_given v = is_numeric v && not (is_number v 0)

abbrev is_reported : Option OpenClosedStatus → Bool
is_reported (some unknown_status) = false
is_reported _ = true

reported_lem :
    (x : Number)
    → is_reported (open_closed_status (as_key (number x))) ≡ not (is_number (number x) 0)
unfolding open_closed_status
reported_lem (whole (pos n)) = ground arith
reported_lem (whole (negsuc n)) = refl
reported_lem (between z h) = refl
reported_lem (infinite s) = refl
reported_lem nan = refl

known_ambiguous :
    (label : Label) (st : Option SensorState) (oc : Option OpenClosedStatus)
    → (read_known label st oc).is_ambiguous ≡ (
        not (is_triggered_sensor_state st || is_resting_sensor_state st)
        || (is_reported oc && differs (is_triggered_sensor_state st) (is_open oc)))
unfolding read_known
known_ambiguous label st none = ground arith
known_ambiguous label st (some unknown_status) = ground arith
known_ambiguous label st (some closed_status) = ground arith
known_ambiguous label st (some open_status) = ground arith

state_ambiguous :
    (device : Option SensorDeviceType) (st : Option SensorState) (oc : Value)
    → (read_state device st oc).is_ambiguous ≡ (
        not (is_triggered_sensor_state st || is_resting_sensor_state st)
        || (is_given oc && differs (is_triggered_sensor_state st) (is_number oc 3)))
unfolding read_state
state_ambiguous device st (number x) = rw (
  known_ambiguous (state_label device st) st (open_closed_status (as_key (number x))),
  open_lem (number x),
  reported_lem x,
)
state_ambiguous device st _ = known_ambiguous (state_label device st) st (some unknown_status)

-- A reading is conclusive exactly when its state is one of the six known readings and
-- `openClosedStatus`, where it is given, is open for a tripped state and not open for one at rest.
read_sensor_state-is_ambiguous :
    (device_type state open_closed : Value)
    → (read_sensor_state device_type state open_closed).is_ambiguous ≡ (
        not (is_tripped state || is_at_rest state)
        || (is_given open_closed && differs (is_tripped state) (is_number open_closed 3)))
unfolding read_sensor_state
read_sensor_state-is_ambiguous d (number x) o = rw (
  state_ambiguous (sensor_device_type (as_key d)) (sensor_state (as_key (number x))) o,
  tripped_lem x,
  rest_lem x,
)
read_sensor_state-is_ambiguous d _ o = refl

-- A reading is triggered exactly when its state is a number that is open, active or wet, or is none
-- of the six known readings while `openClosedStatus` says open, so that a state never seen before
-- cannot hide a tripped sensor. It is conclusive exactly when its state is one of the six and
-- `openClosedStatus`, where it is given, is open for a tripped state and not open for one at rest.
pub read_sensor_state_facts :
    (device_type state open_closed : Value)
    → let reading = read_sensor_state device_type state open_closed in
      (reading.is_triggered ≡ (
        is_numeric state
        && (is_tripped state || (not (is_at_rest state) && is_number open_closed 3))))
      × (reading.is_ambiguous ≡ (
          not (is_tripped state || is_at_rest state)
          || (is_given open_closed && differs (is_tripped state) (is_number open_closed 3))))
read_sensor_state_facts device_type state open_closed = (
  read_sensor_state-is_triggered device_type state open_closed,
  read_sensor_state-is_ambiguous device_type state open_closed,
)
