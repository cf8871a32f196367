-- ===== src/Mappers/Safety.antt =====
-- What the translation may show for a security panel.
use homebridge_myalarmcom.Common.{
  ℕ, ◌≤◌, ◌≡◌, ◌≢◌, ◌↔◌, ◌⊎◌, inl, inr, refl, Bool, true, false, ◌||◌, Option, none, some, arith,
  if◌then◌else◌,
}
use homebridge_myalarmcom.Js.{
  pos, negsuc, whole, between, infinite, nan, Value, number, is_number, is_true,
}
use homebridge_myalarmcom.Alarm.{
  SensorServiceKind, PartitionAttributes, disarm, disarmed_mode, armed_away_mode, arm_away,
  SensorAttributes, SensorReading, read_sensor_state,
}
use homebridge_myalarmcom.Mappers.{
  disarmed_state, alarm_triggered, to_home_kit_security_state, to_displayed_security_state,
  to_partition_action, arming_mode_for, MappedSensorState, mapped_sensor_state,
  to_characteristic_value, to_home_kit_sensor_state, to_sensor_service_kind,
}

-- Whether a panel state is one of the four that have a display.
abbrev pub is_displayable : Value → Bool
is_displayable v = is_number v 1 || is_number v 2 || is_number v 3 || is_number v 4

-- What the table makes of a panel state.
pub home_kit_state_facts :
    (v : Value)
    → ((to_home_kit_security_state v ≡ some disarmed_state) ↔ (is_number v 1 ≡ true))
      × (to_home_kit_security_state v ≢ some alarm_triggered)
      × ((to_home_kit_security_state v ≡ none) ↔ (is_displayable v ≡ false))
unfolding to_home_kit_security_state
home_kit_state_facts (number (whole (pos n))) = (
  (λ e. ground arith, λ e. ground arith),
  λ e. ground arith,
  (λ e. ground arith, λ e. ground arith),
)
home_kit_state_facts (number (whole (negsuc n))) =
    ((λ e. cc, λ e. cc), λ e. cc, (λ e. refl, λ e. refl))
home_kit_state_facts (number (between z h)) = ((λ e. cc, λ e. cc), λ e. cc, (λ e. refl, λ e. refl))
home_kit_state_facts (number (infinite b)) = ((λ e. cc, λ e. cc), λ e. cc, (λ e. refl, λ e. refl))
home_kit_state_facts (number nan) = ((λ e. cc, λ e. cc), λ e. cc, (λ e. refl, λ e. refl))
home_kit_state_facts _ = ((λ e. cc, λ e. cc), λ e. cc, (λ e. refl, λ e. refl))

by_alarm :
    (b : Bool) (v : Value)
    → let shown = if b then some alarm_triggered else to_home_kit_security_state v in
      ((shown ≡ some disarmed_state) ↔ ((b ≡ false) × (is_number v 1 ≡ true)))
      × ((shown ≡ some alarm_triggered) ↔ (b ≡ true))
      × ((shown ≡ none) ↔ ((b ≡ false) × (is_displayable v ≡ false)))
by_alarm true v = ((λ e. cc, λ e. cc), (λ e. refl, λ e. refl), (λ e. cc, λ e. cc))
by_alarm false v =
    let (disarmed_iff, not_triggered, none_iff) = home_kit_state_facts v in
    (
      (λ e. (refl, disarmed_iff.0 e), λ e. disarmed_iff.1 e.1),
      (λ e. absurd (not_triggered e), λ e. cc),
      (λ e. (refl, none_iff.0 e), λ e. none_iff.1 e.1),
    )

-- The tile shows "disarmed" exactly when the panel's state is 1 and no alarm is active, it shows
-- "triggered" exactly when an alarm is active, and it is left alone exactly when no alarm is active
-- and the state is none of 1 to 4. Only a literal `true` is an active alarm.
pub displayed_state_facts :
    (attributes : PartitionAttributes)
    → ((to_displayed_security_state attributes ≡ some disarmed_state)
        ↔ ((is_true attributes.has_active_alarm ≡ false) × (is_number attributes.state 1 ≡ true)))
      × ((to_displayed_security_state attributes ≡ some alarm_triggered)
          ↔ (is_true attributes.has_active_alarm ≡ true))
      × ((to_displayed_security_state attributes ≡ none) ↔ (
          (is_true attributes.has_active_alarm ≡ false)
          × (is_displayable attributes.state ≡ false)))
unfolding to_displayed_security_state
displayed_state_facts attributes = by_alarm (is_true attributes.has_active_alarm) attributes.state

-- A displayed state is one of the five.
pub displayed_state-le :
    (attributes : PartitionAttributes) (shown : ℕ)
    → to_displayed_security_state attributes ≡ some shown
    → shown ≤ alarm_triggered
unfolding to_displayed_security_state to_home_kit_security_state
displayed_state-le attributes shown e = ground arith

mapped-value :
    (kind : Option SensorServiceKind) (reading : SensorReading) (mapped : MappedSensorState)
    → mapped_sensor_state kind reading ≡ some mapped
    → (mapped.value ≡ to_characteristic_value mapped.kind mapped.is_triggered)
      × (mapped.is_triggered ≡ reading.is_triggered)
unfolding mapped_sensor_state
mapped-value none reading mapped e = cc
mapped-value (some kind) reading mapped e = ground arith

-- The value to publish is that of the reading, for the kind of the device.
pub to_home_kit_sensor_state-value :
    (attributes : SensorAttributes) (mapped : MappedSensorState)
    → to_home_kit_sensor_state attributes ≡ some mapped
    → (mapped.value ≡ to_characteristic_value mapped.kind mapped.is_triggered)
      × (mapped.is_triggered
          ≡ (read_sensor_state attributes.device_type attributes.state
              attributes.open_closed_status).is_triggered)
unfolding to_home_kit_sensor_state
to_home_kit_sensor_state-value attributes mapped e =
    mapped-value (to_sensor_service_kind attributes.device_type) _ mapped e

mapped-cases :
    (kind : Option SensorServiceKind) (reading : SensorReading)
    → ((kind ≡ none) × (mapped_sensor_state kind reading ≡ none))
      ⊎ ((k : SensorServiceKind) × (mapped : MappedSensorState) × (kind ≡ some k)
          × (mapped_sensor_state kind reading ≡ some mapped)
          × (mapped.kind ≡ k))
unfolding mapped_sensor_state
mapped-cases none reading = inl (refl, refl)
mapped-cases (some k) reading = inr (k, _, refl, refl, refl)

pub to_home_kit_sensor_state-cases :
    (attributes : SensorAttributes)
    → ((to_sensor_service_kind attributes.device_type ≡ none)
        × (to_home_kit_sensor_state attributes ≡ none))
      ⊎ ((k : SensorServiceKind) × (mapped : MappedSensorState) × (to_sensor_service_kind
              attributes.device_type
            ≡ some k)
          × (to_home_kit_sensor_state attributes ≡ some mapped)
          × (mapped.kind ≡ k))
unfolding to_home_kit_sensor_state
to_home_kit_sensor_state-cases attributes =
    mapped-cases (to_sensor_service_kind attributes.device_type) _

-- A HomeKit target has a command exactly when it is below 4; the command is the disarm verb exactly
-- for the disarm target, and the away verb exactly where the away mode's options govern it.
pub to_partition_action_facts :
    (target : ℕ)
    → ((to_partition_action target ≡ none) ↔ (alarm_triggered ≤ target))
      × ((to_partition_action target ≡ some disarm) ↔ (arming_mode_for target ≡ disarmed_mode))
      × ((to_partition_action target ≡ some arm_away) ↔ (arming_mode_for target ≡ armed_away_mode))
unfolding to_partition_action arming_mode_for
to_partition_action_facts target = (
  (λ e. ground arith, λ e. ground arith),
  (λ e. ground arith, λ e. ground arith),
  (λ e. ground arith, λ e. ground arith),
)
