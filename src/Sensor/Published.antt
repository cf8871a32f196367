-- ===== src/Sensor/Published.antt =====
-- What HomeKit is shown of a sensor, over every history of readings, push events and timers.
use homebridge_myalarmcom.Common.{
  ℕ, ◌+◌, ◌≤◌, ◌≡◌, inl, inr, refl, sym, subst, Bool, true, false, Option, none, some, arith,
  Bool-cases, if◌then◌else◌,
}
use homebridge_myalarmcom.Settings.{transient_hint_reset_ms}
use homebridge_myalarmcom.Js.{is_true}
use homebridge_myalarmcom.Alarm.{SensorServiceKind, SensorAttributes, read_sensor_state}
use homebridge_myalarmcom.Mappers.{
  MappedSensorState, SensorCharacteristicValue, to_characteristic_value, to_home_kit_sensor_state,
  to_sensor_service_kind,
}
use homebridge_myalarmcom.Mappers.Safety.{
  to_home_kit_sensor_state-value, to_home_kit_sensor_state-cases,
}
use homebridge_myalarmcom.Sensor.{
  SensorAccessory, new_sensor, apply_immediate_state, reset_timer_fires, same_kind,
  report_unsupported_type, report_ambiguity, apply_mapped, update_sensor, dispose,
  clear_transient_reset, is_not_false,
}

-- `Runs kind s clock`: a new sensor accessory of the kind has come to `s` by `clock`. A timer fires
-- no earlier than it is due, and only if it is still pending.
pub data Runs (kind : SensorServiceKind) : SensorAccessory → ℕ → Type 0 where
  begin : (clock : ℕ) → Runs kind (new_sensor kind) clock
  read :
      {s : SensorAccessory} {clock : ℕ} (attributes : SensorAttributes) (now : ℕ)
      → Runs kind s clock
      → clock ≤ now
      → Runs kind (update_sensor s attributes) now
  push :
      {s : SensorAccessory} {clock : ℕ} (is_triggered is_transient : Bool) (now : ℕ)
      → Runs kind s clock
      → clock ≤ now
      → Runs kind (apply_immediate_state s now is_triggered is_transient) now
  fire :
      {s : SensorAccessory} {clock due : ℕ} (now : ℕ)
      → Runs kind s clock
      → s.reset_due ≡ some due
      → clock ≤ now
      → due ≤ now
      → Runs kind (reset_timer_fires s now) now
  stop : {s : SensorAccessory} {clock : ℕ} → Runs kind s clock → Runs kind (dispose s) clock

-- The value that belongs to a reading.
abbrev pub value_of : SensorServiceKind → Option Bool → Option SensorCharacteristicValue
value_of kind none = none
value_of kind (some is_triggered) = some (to_characteristic_value kind is_triggered)

-- A pending reset follows a pulse that still shows, and is due within its delay.
abbrev pub IsPulsing : Option ℕ → Option Bool → ℕ → Type 0
IsPulsing none shown clock = Unit
IsPulsing (some due) shown clock = (shown ≡ some true) × (due ≤ clock + transient_hint_reset_ms)

abbrev pub told : Bool → ℕ
told true = 1
told false = 0

pub record IsConsistent (kind : SensorServiceKind) (s : SensorAccessory) (clock : ℕ) : Type 0 where
  pub same : s.kind ≡ kind
  pub published : s.primary ≡ value_of kind s.is_triggered
  pub pulsing : IsPulsing s.reset_due s.is_triggered clock
  pub warned : s.type_warnings ≡ told s.has_reported_unsupported_type

IsPulsing-later :
    (due : Option ℕ) (shown : Option Bool) (clock now : ℕ)
    → clock ≤ now
    → IsPulsing due shown clock
    → IsPulsing due shown now
IsPulsing-later none shown clock now later h = tt
IsPulsing-later (some due) shown clock now later h = (h.0, omega arith)

apply_immediate-IsConsistent :
    (kind : SensorServiceKind) (s : SensorAccessory) (clock now : ℕ)
    (is_triggered is_transient : Bool)
    → IsConsistent kind s clock
    → IsConsistent kind (apply_immediate_state s now is_triggered is_transient) now
unfolding apply_immediate_state
apply_immediate-IsConsistent kind s clock now true true v = record {
  same = v.same;
  published = rw (v.same) refl;
  pulsing = (refl, omega arith);
  warned = v.warned;
}
apply_immediate-IsConsistent kind s clock now true false v = record {
  same = v.same;
  published = rw (v.same) refl;
  pulsing = tt;
  warned = v.warned;
}
apply_immediate-IsConsistent kind s clock now false true v = record {
  same = v.same;
  published = rw (v.same) refl;
  pulsing = tt;
  warned = v.warned;
}
apply_immediate-IsConsistent kind s clock now false false v = record {
  same = v.same;
  published = rw (v.same) refl;
  pulsing = tt;
  warned = v.warned;
}

report_type-IsConsistent :
    (kind : SensorServiceKind) (s : SensorAccessory) (now : ℕ)
    → IsConsistent kind s now
    → IsConsistent kind (report_unsupported_type s) now
unfolding report_unsupported_type
report_type-IsConsistent kind s now v = go s.has_reported_unsupported_type refl
  where
    go :
        (b : Bool)
        → s.has_reported_unsupported_type ≡ b
        → IsConsistent kind
            (if b then s else record s {
              has_reported_unsupported_type = true;
              type_warnings = s.type_warnings + 1;
            })
            now
    go true e = v
    go false e =
        let before = v.warned in
        let none_yet : s.type_warnings ≡ 0 = rw e at before in
        record { same = v.same; published = v.published; pulsing = v.pulsing; warned = omega arith }

report_ambiguity_kept :
    (s : SensorAccessory) (is_ambiguous : Bool)
    → let q = report_ambiguity s is_ambiguous in
      (q.kind ≡ s.kind)
      × (q.reset_due ≡ s.reset_due)
      × (q.type_warnings ≡ s.type_warnings)
      × (q.has_reported_unsupported_type ≡ s.has_reported_unsupported_type)
unfolding report_ambiguity
report_ambiguity_kept s is_ambiguous = (ground arith, ground arith, ground arith, ground arith)

same_kind-eq : (k l : SensorServiceKind) → same_kind k l ≡ true → k ≡ l
same_kind-eq k l e = ground arith

-- A cleared timer needs no pulse.
cleared-IsConsistent :
    (kind : SensorServiceKind) (s : SensorAccessory) (clock now : ℕ)
    → IsConsistent kind s clock
    → IsConsistent kind (clear_transient_reset s) now
unfolding clear_transient_reset
cleared-IsConsistent kind s clock now v = record {
  same = v.same;
  published = v.published;
  pulsing = tt;
  warned = v.warned;
}

apply_mapped-IsConsistent :
    (mapped : Option MappedSensorState) (kind : SensorServiceKind) (s : SensorAccessory)
    (attributes : SensorAttributes) (now : ℕ)
    → to_home_kit_sensor_state attributes ≡ mapped
    → s.reset_due ≡ none
    → IsConsistent kind s now
    → IsConsistent kind (apply_mapped mapped s attributes) now
unfolding apply_mapped
apply_mapped-IsConsistent none kind s attributes now e idle v =
    report_type-IsConsistent kind s now v
apply_mapped-IsConsistent (some mapped) kind s attributes now e idle v =
    elim (Bool-cases (same_kind mapped.kind s.kind)) [
      | inr other ↦ rw other (report_type-IsConsistent kind s now v)
      | inl equal ↦
          let (kind_kept, due_kept, warnings_kept, flag_kept) =
            report_ambiguity_kept s mapped.is_ambiguous in
          let own = same_kind-eq mapped.kind s.kind equal in
          let (value, triggered) = to_home_kit_sensor_state-value attributes mapped e in
          let due_none : (report_ambiguity s mapped.is_ambiguous).reset_due ≡ none =
            cc (due_kept, idle) in
          rw equal (record {
            same = cc (kind_kept, v.same);
            published = cc (own, value, v.same);
            pulsing = subst (λ d. IsPulsing d (some mapped.is_triggered) now) (sym due_none) tt;
            warned = cc (warnings_kept, flag_kept, v.warned);
          })
    ]

Runs-IsConsistent :
    {kind : SensorServiceKind} {s : SensorAccessory} {clock : ℕ}
    → Runs kind s clock
    → IsConsistent kind s clock
unfolding new_sensor update_sensor reset_timer_fires dispose
Runs-IsConsistent (begin clock) = record {
  same = refl;
  published = refl;
  pulsing = tt;
  warned = refl;
}
Runs-IsConsistent {kind} (read {s} {clock} attributes now run later) =
    apply_mapped-IsConsistent (to_home_kit_sensor_state attributes) kind _ attributes now refl
      (unfold clear_transient_reset in refl)
      (cleared-IsConsistent kind s clock now (Runs-IsConsistent run))
Runs-IsConsistent {kind} (push {s} {clock} is_triggered is_transient now run later) =
    apply_immediate-IsConsistent kind s clock now is_triggered is_transient (Runs-IsConsistent run)
Runs-IsConsistent {kind} (fire {s} {clock} now run pending later due) =
    let v = Runs-IsConsistent run in
    apply_immediate-IsConsistent kind (record s { reset_due = none }) clock now false false
      (record { same = v.same; published = v.published; pulsing = tt; warned = v.warned })
Runs-IsConsistent {kind} (stop {s} {clock} run) =
    cleared-IsConsistent kind s clock clock (Runs-IsConsistent run)

-- In every history of readings, push events and timers: the value that HomeKit has been given is the
-- one that belongs to the reading which decides whether the sensor blocks arming; while a reset is
-- pending the sensor shows as triggered, and the reset is due within ten seconds; and an unsupported
-- or changed device type has been warned of once, or not at all.
pub history-IsConsistent :
    (kind : SensorServiceKind) (s : SensorAccessory) (clock : ℕ)
    → Runs kind s clock
    → IsConsistent kind s clock
history-IsConsistent kind s clock run = Runs-IsConsistent run

-- Whether a reading is of the kind that a sensor was published as.
abbrev pub fits : Option SensorServiceKind → SensorServiceKind → Bool
fits none kind = false
fits (some k) kind = same_kind k kind

report_type_kept :
    (s : SensorAccessory)
    → let q = report_unsupported_type s in
      (q.is_triggered ≡ s.is_triggered)
      × (q.primary ≡ s.primary)
      × (q.is_active ≡ s.is_active)
      × (q.is_faulty ≡ s.is_faulty)
      × (q.reset_due ≡ s.reset_due)
unfolding report_unsupported_type
report_type_kept s = (ground arith, ground arith, ground arith, ground arith, ground arith)

-- A reading of the published kind is shown, with its supervision and fault flags, and one of another
-- kind or of an unsupported one leaves what is shown; either way a pending reset is cancelled. A
-- supervision flag counts unless it is a literal `false`, a fault only if it is a literal `true`.
pub update_sensor_facts :
    (s : SensorAccessory) (a : SensorAttributes)
    → let q = update_sensor s a in
      let is_fit = fits (to_sensor_service_kind a.device_type) s.kind in
      let reading = (read_sensor_state a.device_type a.state a.open_closed_status).is_triggered in
      (q.is_triggered ≡ (if is_fit then some reading else s.is_triggered))
      × (q.primary ≡ (if is_fit then some (to_characteristic_value s.kind reading) else s.primary))
      × (q.is_active
          ≡ (if is_fit then some (is_not_false a.is_monitoring_enabled) else s.is_active))
      × (q.is_faulty ≡ (if is_fit then some (is_true a.is_malfunctioning) else s.is_faulty))
      × (q.reset_due ≡ none)
unfolding update_sensor apply_mapped clear_transient_reset
update_sensor_facts s a = elim (to_home_kit_sensor_state-cases a) [
  | inl (no_kind, no_state) ↦
      rw (no_kind, no_state) (report_type_kept (record s { reset_due = none }))
  | inr (k, mapped, has_kind, has_state, own) ↦
      let (value, triggered) = to_home_kit_sensor_state-value a mapped has_state in
      let cleared = record s { reset_due = none } in
      elim (Bool-cases (same_kind k s.kind)) [
        | inr other ↦ rw (has_kind, has_state, own, other) (report_type_kept cleared)
        | inl equal ↦
            let same = same_kind-eq k s.kind equal in
            let due = (report_ambiguity_kept cleared mapped.is_ambiguous).1 in
            rw (has_kind, has_state, own, equal)
              (cc triggered, cc (value, triggered, own, same), refl, refl, due)
      ]
]
