-- ===== src/Platform/Pushes.antt =====
-- `#handleDeviceEvent` of src/platform.ts, with the sensors that the platform holds and the counters of
-- its diagnostics. A `Map` is the list of its entries, each key once.
use homebridge_myalarmcom.Common.{
  ℕ, ◌+◌, ◌≡◌, ◌⊎◌, inl, inr, refl, true, false, ◌&&◌, ◌||◌, Option, none, some, List, [], ◌∷◌,
  text_eq, text_eq_sound, text_eq_refl, arith, if◌then◌else◌, Bool-cases,
}
use homebridge_myalarmcom.Js.{Value, is_number}
use homebridge_myalarmcom.Alarm.{SensorServiceKind, contact, motion, smoke}
use homebridge_myalarmcom.Mappers.{
  ImmediateStateHint, read_sensor_event_hint, level, to_characteristic_value,
}
use homebridge_myalarmcom.Sensor.{SensorAccessory, apply_immediate_state, same_kind}
use homebridge_myalarmcom.Diagnostics.{DiagnosticsCollector, external_changes, add_to, snapshot}
use homebridge_myalarmcom.Platform.{Platform, has_id, request_device_refresh}
use homebridge_myalarmcom.Platform.Requests.{add_id-added}

pub record PushTarget : Type 0 where
  pub platform : Platform
  pub sensors : List (List ℕ × SensorAccessory)
  pub diagnostics : DiagnosticsCollector

-- `#sensors.get`
abbrev pub find : List (List ℕ × SensorAccessory) → List ℕ → Option SensorAccessory
find [] id = none
find ((held, sensor) ∷ rest) id = if text_eq held id then some sensor else find rest id

abbrev pub update_at :
    List (List ℕ × SensorAccessory)
    → List ℕ
    → (SensorAccessory → SensorAccessory)
    → List (List ℕ × SensorAccessory)
update_at [] id f = []
update_at ((held, sensor) ∷ rest) id f =
    if text_eq held id then (held, f sensor) ∷ rest else (held, sensor) ∷ update_at rest id f

-- `sensor?.kind`
abbrev pub kind_of : Option SensorAccessory → Option SensorServiceKind
kind_of none = none
kind_of (some sensor) = some sensor.kind

abbrev pub apply_hint :
    Option ImmediateStateHint
    → List (List ℕ × SensorAccessory)
    → List ℕ
    → ℕ
    → List (List ℕ × SensorAccessory)
apply_hint none sensors id now = sensors
apply_hint (some hint) sensors id now =
    update_at sensors id (λ s. apply_immediate_state s now hint.is_triggered hint.is_transient)

unfoldable pub handle_device_event : PushTarget → List ℕ → Value → ℕ → PushTarget
handle_device_event t id event_type now =
    let hint = read_sensor_event_hint event_type (kind_of (find t.sensors id)) in
    record {
      platform = request_device_refresh t.platform id;
      sensors = apply_hint hint t.sensors id now;
      diagnostics = add_to t.diagnostics external_changes 1;
    }

find-update_at :
    (sensors : List (List ℕ × SensorAccessory)) (id other : List ℕ)
    (f : SensorAccessory → SensorAccessory) (sensor : SensorAccessory)
    → find sensors id ≡ some sensor
    → find (update_at sensors id f) other
      ≡ (if text_eq id other then some (f sensor) else find sensors other)
find-update_at [] id other f sensor e = ground arith
find-update_at ((held, s) ∷ rest) id other f sensor e = ground (
  arith,
  find-update_at rest id other f sensor,
  text_eq_sound held id,
  text_eq_sound id other,
  text_eq_sound held other,
  text_eq_refl id,
)

-- What a sensor shows after an event: as it was, closed, open, or open until its reset.
abbrev pub Shows : SensorAccessory → Value → ℕ → SensorAccessory → Type 0
Shows sensor event_type now after =
    ((after ≡ sensor)
      × ((same_kind sensor.kind contact
            && (is_number event_type 15 || is_number event_type 0 || is_number event_type 100))
          ≡ false))
    ⊎ ((after.is_triggered ≡ some false)
        × (after.primary ≡ some (level 0))
        × (after.reset_due ≡ none)
        × (sensor.kind ≡ contact)
        × (is_number event_type 0 ≡ true))
    ⊎ ((after.is_triggered ≡ some true)
        × (after.primary ≡ some (level 1))
        × (after.reset_due ≡ none)
        × (sensor.kind ≡ contact)
        × (is_number event_type 15 ≡ true))
    ⊎ ((after.is_triggered ≡ some true)
        × (after.primary ≡ some (level 1))
        × (after.reset_due ≡ some (now + 10000))
        × (sensor.kind ≡ contact)
        × (is_number event_type 100 ≡ true))

abbrev pushed : Option ImmediateStateHint → SensorAccessory → ℕ → SensorAccessory
pushed none sensor now = sensor
pushed (some hint) sensor now = apply_immediate_state sensor now hint.is_triggered hint.is_transient

find-apply_hint :
    (hint : Option ImmediateStateHint) (sensors : List (List ℕ × SensorAccessory))
    (id other : List ℕ) (now : ℕ) (sensor : SensorAccessory)
    → find sensors id ≡ some sensor
    → find (apply_hint hint sensors id now) other
      ≡ (if text_eq id other then some (pushed hint sensor now) else find sensors other)
find-apply_hint (some hint) sensors id other now sensor e =
    find-update_at sensors id other
      (λ s. apply_immediate_state s now hint.is_triggered hint.is_transient) sensor e
find-apply_hint none sensors id other now sensor e = elim (Bool-cases (text_eq id other)) [
  | inl same ↦ let eq : id ≡ other = text_eq_sound id other same in rw same (rw (← eq) e)
  | inr apart ↦ rw apart refl
]

hint-Shows :
    (kind : SensorServiceKind) (sensor : SensorAccessory) (event_type : Value) (now : ℕ)
    → sensor.kind ≡ kind
    → Shows sensor event_type now
        (pushed (read_sensor_event_hint event_type (some kind)) sensor now)
unfolding read_sensor_event_hint apply_immediate_state to_characteristic_value
hint-Shows contact sensor event_type now e = elim (Bool-cases (is_number event_type 15)) [
  | inl opened ↦ ground (arith, e, opened)
  | inr other ↦ elim (Bool-cases (is_number event_type 0)) [
    | inl closed ↦ ground (arith, e, other, closed)
    | inr third ↦ elim (Bool-cases (is_number event_type 100)) [
      | inl both ↦ ground (arith, e, other, third, both)
      | inr none_of ↦ ground (arith, e, other, third, none_of)
    ]
  ]
]
hint-Shows motion sensor event_type now e = inl (refl, rw e refl)
hint-Shows smoke sensor event_type now e = inl (refl, rw e refl)

request-cases :
    (p : Platform) (id : List ℕ)
    → let q = request_device_refresh p id in
      ((p.is_shutting_down ≡ true) × (q ≡ p))
      ⊎ ((p.is_shutting_down ≡ false)
          × (q.refresh_timer ≡ true)
          × (has_id q.pending_refresh_ids id ≡ true))
unfolding request_device_refresh
request-cases p id = elim (Bool-cases p.is_shutting_down) [
  | inl down ↦ inl (down, ground (arith, down))
  | inr up ↦ inr (up, ground (arith, up), ground (arith, up, add_id-added p.pending_refresh_ids id))
]

-- A pushed event for a sensor that the platform holds: every other sensor stays as it is, and this
-- one shows open for the code 15, closed for the code 0, and open with a reset due in ten seconds
-- for the code 100, provided that it was created as a contact sensor, and stays as it is otherwise;
-- one external change is counted; and, unless the platform is shutting down, the device waits to be
-- read again, under a timer that is set.
pub handle_device_event_facts :
    (t : PushTarget) (id other : List ℕ) (event_type : Value) (now : ℕ) (sensor : SensorAccessory)
    → find t.sensors id ≡ some sensor
    → let q = handle_device_event t id event_type now in
      (after : SensorAccessory) × Shows sensor event_type now after
      × (find q.sensors other ≡ (if text_eq id other then some after else find t.sensors other))
      × (snapshot q.diagnostics external_changes ≡ snapshot t.diagnostics external_changes + 1)
      × (((t.platform.is_shutting_down ≡ true) × (q.platform ≡ t.platform))
          ⊎ ((t.platform.is_shutting_down ≡ false)
              × (q.platform.refresh_timer ≡ true)
              × (has_id q.platform.pending_refresh_ids id ≡ true)))
unfolding handle_device_event add_to
handle_device_event_facts t id other event_type now sensor e =
    let hint = read_sensor_event_hint event_type (some sensor.kind) in
    (
      pushed hint sensor now,
      hint-Shows sensor.kind sensor event_type now refl,
      rw e (find-apply_hint hint t.sensors id other now sensor e),
      refl,
      request-cases t.platform id,
    )
