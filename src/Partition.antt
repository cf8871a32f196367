-- ===== src/Partition.antt =====
-- src/devices/partition.ts: the security panel accessory, its readings here and its commands in
-- Partition/Commands. `Tile` holds the characteristic values and properties that HomeKit has been
-- given. Of the log, the lines whose appearance the code decides are kept, newest first.
pub mod Commands
pub mod Display
pub mod Guards
pub mod Readings
pub mod Unread
pub mod Ordering
pub mod Targets
pub mod Props
mod Tests
use homebridge_myalarmcom.Common.{
  ℕ, ◌+◌, Bool, true, false, ◌&&◌, ◌||◌, not, Option, none, some, List, [], ◌∷◌, ltb, leb, ◌==◌,
  if◌then◌else◌,
}
use homebridge_myalarmcom.Js.{Value, is_true}
use homebridge_myalarmcom.Settings.{partition_target_settle_ms}
use homebridge_myalarmcom.Alarm.{
  PartitionAttributes, PartitionAction, supports_night_arming, is_night_armed,
}
use homebridge_myalarmcom.Mappers.{
  stay_arm, away_arm, night_arm, disarmed_state, alarm_triggered, to_displayed_security_state,
}
use homebridge_myalarmcom.ChangeLog.{LogLevel, report}

-- The settings and the sensors of the platform that the accessory asks; `open_contacts` lists the
-- names of the contacts that stand open.
pub record Platform : Type 0 where
  pub is_home_kit_arming_allowed : Bool
  pub is_sensor_bypass_allowed : Bool
  pub open_contacts : List (List ℕ)

pub record CommandOptions : Type 0 where
  pub night_arming : Bool
  pub force_bypass : Bool

pub record QueuedRequest : Type 0 where
  pub action : PartitionAction
  pub target : ℕ
  pub options : CommandOptions

pub record CommandAttempt : Type 0 where
  pub target : ℕ
  pub started_at : ℕ
  pub token : ℕ

-- The permission, the advertised night mode and the night-armed state.
pub record PropsSignature : Type 0 where
  pub can_change : Bool
  pub supports_night : Bool
  pub night_armed : Bool

pub record Tile : Type 0 where
  pub current_state : Option ℕ
  pub target_state : Option ℕ
  pub is_faulty : Bool
  pub valid_values : List ℕ
  pub is_writable : Bool

pub data LogLine : Type 0 where
  arming_turned_off account_read_only alarm_active alarm_cleared unrecognised_state : LogLine
  did_not_reach : ℕ → LogLine
  state_line : LogLevel → ℕ → LogLine
  holding requesting superseded could_not_reach accepted_line : ℕ → LogLine

pub record Partition : Type 0 where
  pub attributes : Option PartitionAttributes
  pub pending_target : Option ℕ
  pub last_shown_target : Option ℕ
  pub target_set_at : ℕ
  pub command_sequence : ℕ
  pub in_flight : Option CommandAttempt
  pub queued : Option QueuedRequest
  pub last_label : Option ℕ
  pub has_reported_alarm : Bool
  pub props_signature : Option PropsSignature
  pub tile : Tile
  pub commands : List QueuedRequest
  pub refresh_requests : ℕ
  pub recorded_commands : ℕ
  pub logs : List LogLine

-- `commands` are the calls of `commandPartition`, newest first; the two counts are the calls of the
-- platform's `requestDeviceRefresh` and `recordCommand`.
unfoldable pub new_partition : Partition
new_partition = record {
  attributes = none;
  pending_target = none;
  last_shown_target = none;
  target_set_at = 0;
  command_sequence = 0;
  in_flight = none;
  queued = none;
  last_label = none;
  has_reported_alarm = false;
  props_signature = none;
  tile = record {
    current_state = none;
    target_state = none;
    is_faulty = false;
    valid_values = [];
    is_writable = true;
  };
  commands = [];
  refresh_requests = 0;
  recorded_commands = 0;
  logs = [];
}

abbrev pub log : Partition → LogLine → Partition
log p line = record p { logs = line ∷ p.logs }

pub displayed_of : Option PartitionAttributes → Option ℕ
displayed_of none = none
displayed_of (some attributes) = to_displayed_security_state attributes

pub displayed_state : Partition → Option ℕ
unfolding displayed_of
displayed_state p = displayed_of p.attributes

pub target_or : Option ℕ → ℕ → Option ℕ → Option ℕ
target_or (some target) shown last = some target
target_or none shown last = if shown == alarm_triggered then last else some shown

unfoldable pub target_to_show : Partition → ℕ → Option ℕ
unfolding target_or
target_to_show p shown = target_or p.pending_target shown p.last_shown_target

-- `none` is the refusal `SERVICE_COMMUNICATION_FAILURE`.
unfoldable pub read_current_state : Partition → Option ℕ
unfolding displayed_state
read_current_state p = displayed_state p

pub target_of_shown : Partition → Option ℕ → Option ℕ
target_of_shown p none = none
target_of_shown p (some shown) = target_to_show p shown

unfoldable pub read_target_state : Partition → Option ℕ
unfolding target_of_shown displayed_state
read_target_state p = target_of_shown p (displayed_state p)

unfoldable pub can_change_state : Platform → PartitionAttributes → Bool
can_change_state platform attributes =
    platform.is_home_kit_arming_allowed && is_true attributes.has_permission_to_change_state

valid_target_states : PropsSignature → List ℕ
valid_target_states sig =
    if sig.supports_night || sig.night_armed
    then stay_arm ∷ away_arm ∷ disarmed_state ∷ night_arm ∷ []
    else stay_arm ∷ away_arm ∷ disarmed_state ∷ []

signature : Platform → PartitionAttributes → PropsSignature
signature platform attributes = record {
  can_change = can_change_state platform attributes;
  supports_night = supports_night_arming attributes;
  night_armed = is_night_armed attributes;
}

abbrev same_bool : Bool → Bool → Bool
same_bool true b = b
same_bool false b = not b

is_same_signature : PropsSignature → Option PropsSignature → Bool
is_same_signature s none = false
is_same_signature s (some t) =
    same_bool s.can_change t.can_change
    && (same_bool s.supports_night t.supports_night && same_bool s.night_armed t.night_armed)

abbrev is_none : Option PropsSignature → Bool
is_none none = true
is_none (some _) = false

apply_valid_target_states : Partition → PropsSignature → Partition
unfolding valid_target_states
apply_valid_target_states p sig = record p {
  tile = record (p.tile) { valid_values = valid_target_states sig; is_writable = sig.can_change };
}

pub sync_target_state_props : Partition → Platform → PartitionAttributes → Partition
unfolding signature is_same_signature apply_valid_target_states
sync_target_state_props p platform attributes =
    let sig = signature platform attributes in
    let applied = apply_valid_target_states (record p { props_signature = some sig }) sig in
    if is_same_signature sig p.props_signature
    then p
    else if is_none p.props_signature && not sig.can_change
    then log applied
        (if platform.is_home_kit_arming_allowed then account_read_only else arming_turned_off)
    else applied

pub report_alarm_state : Partition → PartitionAttributes → Partition
report_alarm_state p attributes =
    let has_active_alarm = is_true attributes.has_active_alarm in
    let told =
      if has_active_alarm && not p.has_reported_alarm
      then log p alarm_active
      else if not has_active_alarm && p.has_reported_alarm
      then log p alarm_cleared
      else p in
    record told { has_reported_alarm = has_active_alarm }

-- `Date.now() - #targetSetAt < PARTITION_TARGET_SETTLE_MS` keeps the target.
expire_unconfirmed_target_in : Option ℕ → Partition → ℕ → Partition
expire_unconfirmed_target_in none p now = p
expire_unconfirmed_target_in (some target) p now =
    if ltb now (p.target_set_at + partition_target_settle_ms)
    then p
    else record (log p (did_not_reach target)) { pending_target = none }

pub expire_unconfirmed_target : Partition → ℕ → Partition
unfolding expire_unconfirmed_target_in
expire_unconfirmed_target p now = expire_unconfirmed_target_in p.pending_target p now

resolve_target_state_in : Option ℕ → Partition → ℕ → ℕ → Partition
resolve_target_state_in none p current now = p
resolve_target_state_in (some target) p current now =
    if target == current
    then record p { pending_target = none }
    else expire_unconfirmed_target p now

pub resolve_target_state : Partition → ℕ → ℕ → Partition
unfolding resolve_target_state_in
resolve_target_state p current now = resolve_target_state_in p.pending_target p current now

pub publish_target : Partition → Option ℕ → Partition
publish_target p none = p
publish_target p (some target) = record p {
  last_shown_target = some target;
  tile = record (p.tile) { target_state = some target };
}

-- Labels are one to one with the displayed states, so the change logger compares states.
pub report_change : Partition → Bool → ℕ → Partition
report_change p is_debug shown =
    let (last, level) = report ◌==◌ is_debug p.last_label shown in
    let kept = record p { last_label = last } in
    elim level [ none ↦ kept | some l ↦ log kept (state_line l shown) ]

pub update_shown : Option ℕ → Partition → PartitionAttributes → Bool → ℕ → Partition
update_shown none p attributes is_debug now =
    expire_unconfirmed_target
      (record (log p unrecognised_state) { tile = record (p.tile) { is_faulty = true } }) now
update_shown (some shown) p attributes is_debug now =
    let current = record p { tile = record (p.tile) { current_state = some shown } } in
    let resolved = resolve_target_state current shown now in
    let published = publish_target resolved (target_to_show resolved shown) in
    let flagged = record published {
      tile = record (published.tile) { is_faulty = is_true attributes.is_malfunctioning };
    } in
    report_change flagged is_debug shown

pub update : Partition → Platform → PartitionAttributes → Bool → ℕ → Partition
unfolding update_shown displayed_state
update p platform attributes is_debug now =
    let read =
      report_alarm_state
        (sync_target_state_props (record p { attributes = some attributes }) platform attributes)
        attributes in
    update_shown (to_displayed_security_state attributes) read attributes is_debug now
