-- ===== src/Platform.antt =====
-- src/platform.ts: what the platform schedules, and what it reports of a poll; its start is in
-- Platform/Start. A timer is whether it is set. The devices, what a discovery does with them and the
-- accessories of Homebridge are left out.
pub mod Start
pub mod Events
pub mod Pushes
pub mod Schedule
pub mod Requests
mod Tests
use homebridge_myalarmcom.Common.{
  ℕ, zero, suc, ◌+◌, ◌-◌, Bool, true, false, not, ◌&&◌, ◌||◌, Option, none, some, List, [], ◌∷◌,
  ◌++◌, text_eq, ltb, leb, if◌then◌else◌,
}
use homebridge_myalarmcom.Settings.{rediscovery_interval_ms, poll_failure_warn_threshold}
use homebridge_myalarmcom.Errors.{Thrown}
use homebridge_myalarmcom.Signals.{
  AlarmComSignals, SignalFailure, stopped, unreachable, signal_failure_from, observed_signal,
  note_reached, note_unreachable, note_sign_in_stopped, note_devices,
}

-- How far `#start` has come: before Homebridge has launched; in a discovery after so many failed
-- ones; in the wait after so many, until the time at which it ends; returned with no polling; or
-- with polling.
pub data StartPhase : Type 0 where
  launching given_up started : StartPhase
  discovering : ℕ → StartPhase
  retry_waiting : ℕ → ℕ → StartPhase

-- `cycle_timer` is the deadline timer of `#withCycleDeadline`, `is_cycle_aborted` whether the signal
-- of its last cycle is aborted. `running` counts the refresh cycles that have begun and not ended,
-- `refreshes` are the targeted refreshes begun, newest first.
pub record Platform : Type 0 where
  pub is_shutting_down : Bool
  pub refresh_all_in_flight : Bool
  pub poll_timer : Bool
  pub keep_alive_timer : Bool
  pub refresh_timer : Bool
  pub cycle_timer : Bool
  pub is_cycle_aborted : Bool
  pub start : StartPhase
  pub pending_refresh_ids : List (List ℕ)
  pub consecutive_failures : ℕ
  pub has_warned_about_outage : Bool
  pub last_reported_error : Option (List ℕ)
  pub last_discovery_at : ℕ
  pub running : ℕ
  pub refreshes : List (List (List ℕ))
  pub errors_logged : ℕ

unfoldable pub new_platform : Platform
new_platform = record {
  is_shutting_down = false;
  refresh_all_in_flight = false;
  poll_timer = false;
  keep_alive_timer = false;
  refresh_timer = false;
  cycle_timer = false;
  is_cycle_aborted = false;
  start = launching;
  pending_refresh_ids = [];
  consecutive_failures = 0;
  has_warned_about_outage = false;
  last_reported_error = none;
  last_discovery_at = 0;
  running = 0;
  refreshes = [];
  errors_logged = 0;
}

unfoldable pub start_polling : Platform → Platform
start_polling p = if p.is_shutting_down || p.poll_timer then p else record p { poll_timer = true }

unfoldable pub start_keep_alive : Platform → Platform
start_keep_alive p =
    if p.is_shutting_down || p.keep_alive_timer then p else record p { keep_alive_timer = true }

abbrev pub has_id : List (List ℕ) → List ℕ → Bool
has_id [] id = false
has_id (held ∷ ids) id = text_eq held id || has_id ids id

-- `Set.add`, which keeps the order of the first additions.
abbrev pub add_id : List (List ℕ) → List ℕ → List (List ℕ)
add_id ids id = if has_id ids id then ids else ids ++ id ∷ []

unfoldable pub request_device_refresh : Platform → List ℕ → Platform
request_device_refresh p id =
    if p.is_shutting_down
    then p
    else record p { pending_refresh_ids = add_id p.pending_refresh_ids id; refresh_timer = true }

-- The callback of the refresh timer, up to its read.
unfoldable pub refresh_timer_fires : Platform → Platform
refresh_timer_fires p = record p {
  refresh_timer = false;
  pending_refresh_ids = [];
  refreshes = p.pending_refresh_ids ∷ p.refreshes;
}

abbrev pub is_rediscovery_due : Platform → ℕ → Bool
is_rediscovery_due p now = leb (rediscovery_interval_ms + p.last_discovery_at) now

-- `#refreshAll` up to its await, with the deadline of the cycle set. A rediscovery that is due begins
-- with its stamp.
unfoldable pub begin_refresh_all : Platform → ℕ → Platform
begin_refresh_all p now = if p.is_shutting_down || p.refresh_all_in_flight then p else record p {
  refresh_all_in_flight = true;
  cycle_timer = true;
  is_cycle_aborted = false;
  last_discovery_at = if is_rediscovery_due p now then now else p.last_discovery_at;
  running = p.running + 1;
}

-- The deadline of a cycle fires: the cycle is told to stop, and ends in a step of its own.
unfoldable pub cycle_deadline_fires : Platform → Platform
cycle_deadline_fires p = record p { cycle_timer = false; is_cycle_aborted = true }

unfoldable pub report_success : Platform → Platform
report_success p = record p {
  consecutive_failures = 0;
  has_warned_about_outage = false;
  last_reported_error = none;
}

abbrev pub same_report : Option (List ℕ) → List ℕ → Bool
same_report none signature = false
same_report (some last) signature = text_eq last signature

-- `#reportFailure`, with whether the failure's level is error; the signals are told separately.
unfoldable pub report_failure : Platform → Bool → List ℕ → Platform
report_failure p is_error signature =
    let counted = record p { consecutive_failures = p.consecutive_failures + 1 } in
    if is_error
    then (if same_report p.last_reported_error signature
        then p
        else record p { last_reported_error = some signature; errors_logged = p.errors_logged + 1 })
    else if leb poll_failure_warn_threshold counted.consecutive_failures
        && not p.has_warned_about_outage
    then record counted { has_warned_about_outage = true }
    else counted

-- How a cycle ends: with the number of devices read, or with a failure.
pub data CycleEnd : Type 0 where
  refreshed : ℕ → CycleEnd
  cycle_failed : Bool → List ℕ → CycleEnd

unfoldable pub report_cycle : Platform → CycleEnd → Platform
unfolding report_success report_failure
report_cycle p (refreshed zero) = p
report_cycle p (refreshed (suc n)) = report_success p
report_cycle p (cycle_failed is_error signature) = report_failure p is_error signature

-- `#refreshAll` after its await; it ends a cycle that is running, with its deadline and its signal.
unfoldable pub end_refresh_all : Platform → CycleEnd → Platform
unfolding report_cycle
end_refresh_all p end = record (report_cycle p end) {
  refresh_all_in_flight = false;
  cycle_timer = false;
  is_cycle_aborted = true;
  running = p.running - 1;
}

-- The wait of the start ends at a shutdown; a discovery ends in a step of its own.
abbrev pub interrupted : StartPhase → StartPhase
interrupted (retry_waiting attempt due) = given_up
interrupted launching = launching
interrupted given_up = given_up
interrupted started = started
interrupted (discovering attempt) = discovering attempt

-- `#shutdown`, of the state kept here; the signals, the sensors and the push connection are stopped
-- with it by the operations of their own components. A cycle in flight is aborted, and its deadline
-- is cleared when it ends.
unfoldable pub shutdown : Platform → Platform
shutdown p = if p.is_shutting_down then p else record p {
  is_shutting_down = true;
  start = interrupted p.start;
  is_cycle_aborted = p.is_cycle_aborted || p.refresh_all_in_flight;
  poll_timer = false;
  keep_alive_timer = false;
  refresh_timer = false;
  pending_refresh_ids = [];
}

abbrev pub note_failure : Option SignalFailure → AlarmComSignals → ℕ → AlarmComSignals
note_failure none signals now = signals
note_failure (some unreachable) signals now = note_unreachable signals now
note_failure (some (stopped failure)) signals now = note_sign_in_stopped signals failure

-- `#noteSignalFailure`
unfoldable pub note_signal_failure : AlarmComSignals → Thrown → ℕ → AlarmComSignals
note_signal_failure signals error now = note_failure (signal_failure_from error) signals now

abbrev pub every_read : List (List ℕ) → List (List ℕ) → Bool
every_read [] read = true
every_read (id ∷ ids) read = has_id read id && every_read ids read

abbrev pub is_defined : Option Bool → Bool
is_defined none = false
is_defined (some b) = true

-- What a poll read, and whether a device that is held is in alarm or a smoke detector is tripped.
pub record DeviceRead : Type 0 where
  pub partition_ids : List (List ℕ)
  pub read_partitions : List (List ℕ)
  pub sensor_ids : List (List ℕ)
  pub read_sensors : List (List ℕ)
  pub reached : Bool
  pub saw_alarm : Bool
  pub saw_smoke : Bool

-- `#recordDeviceSignals`
unfoldable pub record_device_signals : AlarmComSignals → DeviceRead → AlarmComSignals
record_device_signals signals read =
    let alarm =
      observed_signal read.saw_alarm (every_read read.partition_ids read.read_partitions) in
    let smoke = observed_signal read.saw_smoke (every_read read.sensor_ids read.read_sensors) in
    let noted =
      if is_defined alarm || is_defined smoke then note_devices signals alarm smoke else signals in
    if read.reached then note_reached noted else noted
