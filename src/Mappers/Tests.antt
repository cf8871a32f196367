-- ===== src/Mappers/Tests.antt =====
-- The translation at concrete attributes.
use homebridge_myalarmcom.Common.{◌≡◌, ◌↔◌, true, false, none, some}
use homebridge_myalarmcom.Js.{pos, whole, number, undefined, boolean, is_number}
use homebridge_myalarmcom.Alarm.{PartitionAttributes}
use homebridge_myalarmcom.Mappers.{disarmed_state, alarm_triggered, to_displayed_security_state}
use homebridge_myalarmcom.Mappers.Safety.{is_displayable, displayed_state_facts}

abbrev sounding : PartitionAttributes
sounding = record {
  description = undefined;
  state = number (whole (pos 3));
  has_permission_to_change_state = boolean true;
  extended_arming_options = λ m. undefined;
  has_active_alarm = boolean true;
  is_malfunctioning = undefined;
}

displayed_state_facts_example :
    ((to_displayed_security_state sounding ≡ some disarmed_state)
      ↔ ((true ≡ false) × (is_number sounding.state 1 ≡ true)))
    × ((to_displayed_security_state sounding ≡ some alarm_triggered) ↔ (true ≡ true))
    × ((to_displayed_security_state sounding ≡ none)
        ↔ ((true ≡ false) × (is_displayable sounding.state ≡ false)))
displayed_state_facts_example = displayed_state_facts sounding
