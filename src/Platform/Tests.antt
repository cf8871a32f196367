-- ===== src/Platform/Tests.antt =====
-- A platform whose first discovery fails and is tried again, that polls and is asked for refreshes, a
-- door that is opened and shut, and the witnesses.
use homebridge_myalarmcom.Common.{
  ℕ, ◌+◌, ◌≡◌, ◌⊎◌, refl, true, false, some, List, [], ◌∷◌, text_eq, if◌then◌else◌,
}
use homebridge_myalarmcom.Errors.{ours, network}
use homebridge_myalarmcom.Retry.{Fraction}
use homebridge_myalarmcom.Js.{pos, whole, Value, number}
use homebridge_myalarmcom.Alarm.{contact, motion}
use homebridge_myalarmcom.Sensor.{SensorAccessory, new_sensor}
use homebridge_myalarmcom.Diagnostics.{new_collector, external_changes, snapshot}
use homebridge_myalarmcom.Platform.{
  new_platform, has_id, refreshed, cycle_failed, start_polling, start_keep_alive,
}
use homebridge_myalarmcom.Platform.Events.{
  PlatformEvent, launched, discovery_failed, retry_due, discovered, poll_due, deadline_due, shut,
  refresh_requested, cycle_ends, handle, handle_all, IsScheduled,
}
use homebridge_myalarmcom.Platform.Schedule.{run-IsScheduled}
use homebridge_myalarmcom.Platform.Pushes.{
  PushTarget, find, Shows, handle_device_event, handle_device_event_facts,
}

abbrev front_door : List ℕ
front_door = 49 ∷ 45 ∷ 55 ∷ []

abbrev hall : List ℕ
hall = 49 ∷ 45 ∷ 57 ∷ []

abbrev half : Fraction
half = record { num = 1; den = 2 }

abbrev polling : List PlatformEvent
polling = launched 0 ∷ discovered ∷ poll_due 60000 ∷ []

abbrev day : List PlatformEvent
day =
    launched 0
    ∷ discovery_failed (ours network) half 1000
    ∷ retry_due 90000
    ∷ discovered
    ∷ poll_due 150000
    ∷ refresh_requested hall
    ∷ poll_due 210000
    ∷ cycle_ends (refreshed 2)
    ∷ []

-- The second tick of the poll finds a cycle in flight.
one_at_a_time :
    (handle_all polling (handle (poll_due 120000) (handle_all polling new_platform))).running ≡ 1
unfolding handle_all handle new_platform start_polling start_keep_alive
one_at_a_time = refl

-- A rediscovery begins an hour after the first.
rediscovered :
    (handle_all (launched 0 ∷ discovered ∷ poll_due 3600000 ∷ []) new_platform).last_discovery_at
    ≡ 3600000
unfolding handle_all handle new_platform start_polling start_keep_alive
rediscovered = refl

-- A cycle that outlasts its deadline is told to stop, and still runs.
overdue : (handle deadline_due (handle_all polling new_platform)).is_cycle_aborted ≡ true
unfolding handle_all handle new_platform start_polling start_keep_alive
overdue = refl

-- The same rejection is logged as an error once.
logged_once :
    (handle_all
      (launched 0
        ∷ discovered
        ∷ poll_due 60000
        ∷ cycle_ends (cycle_failed true hall)
        ∷ poll_due 120000
        ∷ cycle_ends (cycle_failed true hall)
        ∷ [])
      new_platform).errors_logged
    ≡ 1
unfolding handle_all handle new_platform start_polling start_keep_alive
logged_once = refl

-- A shutdown in the middle of a cycle.
abbrev night : List PlatformEvent
night =
    launched 0 ∷ discovered ∷ poll_due 60000 ∷ refresh_requested hall ∷ shut ∷ poll_due 120000 ∷ []

run-IsScheduled_example : IsScheduled (handle_all night new_platform)
run-IsScheduled_example = run-IsScheduled night

-- A door and a motion sensor; the door is opened and shut.
abbrev house : PushTarget
house = record {
  platform = new_platform;
  sensors = (hall, new_sensor motion) ∷ (front_door, new_sensor contact) ∷ [];
  diagnostics = new_collector;
}

handle_device_event_facts_example :
    let event_type : Value = number (whole (pos 100)) in
    let q = handle_device_event house front_door event_type 500 in
    (after : SensorAccessory) × Shows (new_sensor contact) event_type 500 after
    × (find q.sensors hall
        ≡ (if text_eq front_door hall then some after else find house.sensors hall))
    × (snapshot q.diagnostics external_changes ≡ snapshot house.diagnostics external_changes + 1)
    × (((house.platform.is_shutting_down ≡ true) × (q.platform ≡ house.platform))
        ⊎ ((house.platform.is_shutting_down ≡ false)
            × (q.platform.refresh_timer ≡ true)
            × (has_id q.platform.pending_refresh_ids front_door ≡ true)))
handle_device_event_facts_example =
    handle_device_event_facts house front_door hall (number (whole (pos 100))) 500
      (new_sensor contact) refl
