-- ===== src/EventStream/Messages.antt =====
-- src/api/event-stream.ts: what a frame of the push connection brings.
use homebridge_myalarmcom.Common.{
  ℕ, Bool, true, false, not, ◌&&◌, Option, none, some, if◌then◌else◌,
}
use homebridge_myalarmcom.Js.{Value, number, is_number}

-- The fields of `AlarmComEvent` that are read here.
pub record AlarmComEvent : Type 0 where
  pub unit_id : Value
  pub device_id : Value
  pub event_type : Value

abbrev pub is_number_value : Value → Bool
is_number_value (number x) = true
is_number_value _ = false

unfoldable pub is_usable_event : AlarmComEvent → Bool
is_usable_event event =
    is_number_value event.unit_id
    && (is_number_value event.device_id && is_number_value event.event_type)

abbrev pub event_type_user_logged_in : ℕ
event_type_user_logged_in = 55

-- The event that `onDeviceEvent` is called with, if it is; a frame that does not parse to an object is
-- `none`.
unfoldable pub handle_message : Option AlarmComEvent → Option AlarmComEvent
unfolding is_usable_event
handle_message none = none
handle_message (some event) =
    if not (is_usable_event event)
    then none
    else if is_number event.event_type event_type_user_logged_in
    then none
    else some event
