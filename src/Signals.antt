-- ===== src/Signals.antt =====
-- src/alarmcom-signals.ts: when each of the four PagerDuty signals is active. The calls of the
-- writer are kept in `writes`, newest first; `Signals/Store` is the writer itself.
pub mod Spec
pub mod Store
mod Tests
use homebridge_myalarmcom.Common.{
  ℕ, ◌+◌, ◌*◌, Bool, true, false, not, ◌&&◌, ◌||◌, Option, none, some, List, [], ◌∷◌, if◌then◌else◌,
}
use homebridge_myalarmcom.Settings.{ms_per_minute}
use homebridge_myalarmcom.Errors.{
  AlarmComError, aborted, login_form, Thrown, ours, foreign, is_authentication,
}

pub data Signal : Type 0 where
  alarm_active smoke_active auth_failed cloud_offline : Signal

pub data SignalSeverity : Type 0 where
  info warning error critical : SignalSeverity

-- The summaries that the source names; their texts are left out.
pub data Summary : Type 0 where
  alarm_active_summary smoke_active_summary auth_rejected_summary auth_login_form_summary
        cloud_offline_summary :
      Summary

pub record SignalState : Type 0 where
  pub active : Bool
  pub severity : SignalSeverity
  pub summary : Summary

pub data SignInFailure : Type 0 where
  rejected login_form_failure : SignInFailure

pub data SignalFailure : Type 0 where
  stopped : SignInFailure → SignalFailure
  unreachable : SignalFailure

abbrev pub cloud_offline_grace_ms : ℕ
cloud_offline_grace_ms = 5 * ms_per_minute

failure_of_ours : AlarmComError → Option SignalFailure
failure_of_ours aborted = none
failure_of_ours login_form = some (stopped login_form_failure)
failure_of_ours other = some (if is_authentication other then stopped rejected else unreachable)

-- `none` is `undefined`: the failure says nothing about Alarm.com.
unfoldable pub signal_failure_from : Thrown → Option SignalFailure
unfolding failure_of_ours
signal_failure_from (ours thrown) = failure_of_ours thrown
signal_failure_from foreign = some unreachable

unfoldable pub observed_signal : Bool → Bool → Option Bool
observed_signal saw_active is_complete =
    if saw_active then some true else if is_complete then some false else none

-- `offline_due` is when the pending `#offlineTimer` was set to fire.
pub record AlarmComSignals : Type 0 where
  pub offline_due : Option ℕ
  pub is_cloud_offline_confirmed : Bool
  pub is_auth_rejected : Bool
  pub has_started : Bool
  pub is_closed : Bool
  pub writes : List (Signal × SignalState)

unfoldable pub new_signals : AlarmComSignals
new_signals = record {
  offline_due = none;
  is_cloud_offline_confirmed = false;
  is_auth_rejected = false;
  has_started = false;
  is_closed = false;
  writes = [];
}

abbrev write_signal : AlarmComSignals → Signal → SignalState → AlarmComSignals
write_signal s signal state = record s { writes = (signal, state) ∷ s.writes }

abbrev pub auth_state : Bool → SignInFailure → SignalState
auth_state active rejected = record {
  active = active;
  severity = error;
  summary = auth_rejected_summary;
}
auth_state active login_form_failure = record {
  active = active;
  severity = error;
  summary = auth_login_form_summary;
}

abbrev pub cloud_state : Bool → SignalState
cloud_state active = record { active = active; severity = error; summary = cloud_offline_summary }

write_auth : AlarmComSignals → Bool → SignInFailure → AlarmComSignals
write_auth s active failure = write_signal s auth_failed (auth_state active failure)

write_cloud : AlarmComSignals → AlarmComSignals
write_cloud s =
    write_signal s cloud_offline
      (cloud_state (s.is_cloud_offline_confirmed && not s.is_auth_rejected))

abbrev is_some : Option ℕ → Bool
is_some none = false
is_some (some due) = true

arm_offline_grace : AlarmComSignals → ℕ → AlarmComSignals
arm_offline_grace s now =
    if is_some s.offline_due || s.is_cloud_offline_confirmed
    then s
    else record s { offline_due = some (now + cloud_offline_grace_ms) }

unfoldable pub start : AlarmComSignals → ℕ → AlarmComSignals
unfolding arm_offline_grace
start s now =
    if s.is_closed || s.has_started
    then s
    else if not s.is_auth_rejected
    then arm_offline_grace (record s { has_started = true }) now
    else record s { has_started = true }

unfoldable pub note_reached : AlarmComSignals → AlarmComSignals
unfolding write_auth write_cloud
note_reached s =
    if s.is_closed
    then s
    else write_cloud (
        write_auth
          (record s {
            is_auth_rejected = false;
            is_cloud_offline_confirmed = false;
            offline_due = none;
          })
          false rejected)

unfoldable pub note_unreachable : AlarmComSignals → ℕ → AlarmComSignals
unfolding arm_offline_grace
note_unreachable s now = if s.is_closed || s.is_auth_rejected then s else arm_offline_grace s now

unfoldable pub note_sign_in_stopped : AlarmComSignals → SignInFailure → AlarmComSignals
unfolding write_auth write_cloud
note_sign_in_stopped s failure =
    if s.is_closed
    then s
    else write_cloud (
        write_auth
          (record s {
            is_auth_rejected = true;
            is_cloud_offline_confirmed = false;
            offline_due = none;
          })
          true failure)

write_if_defined : AlarmComSignals → Signal → Summary → Option Bool → AlarmComSignals
write_if_defined s signal summary none = s
write_if_defined s signal summary (some active) =
    write_signal s signal (record { active = active; severity = critical; summary = summary })

unfoldable pub note_devices : AlarmComSignals → Option Bool → Option Bool → AlarmComSignals
unfolding write_if_defined
note_devices s alarm smoke =
    if s.is_closed
    then s
    else write_if_defined (write_if_defined s alarm_active alarm_active_summary alarm) smoke_active
        smoke_active_summary smoke

-- `this.#writer.close()` is left to the writer.
unfoldable pub close : AlarmComSignals → AlarmComSignals
close s = if s.is_closed then s else record s { is_closed = true; offline_due = none }

grace_callback : AlarmComSignals → AlarmComSignals
unfolding write_cloud
grace_callback s =
    let fired = record s { offline_due = none } in
    if s.is_closed then fired else write_cloud (record fired { is_cloud_offline_confirmed = true })

-- The timer fires if it is pending.
unfoldable pub offline_timer_fires : AlarmComSignals → AlarmComSignals
unfolding grace_callback
offline_timer_fires s = if is_some s.offline_due then grace_callback s else s

-- What may happen to the signals.
pub data Event : Type 0 where
  started unreached : ℕ → Event
  sign_in_stopped : SignInFailure → Event
  devices_read : Option Bool → Option Bool → Event
  reached grace_ended closed : Event

unfoldable pub handle : AlarmComSignals → Event → AlarmComSignals
unfolding start note_reached note_unreachable note_sign_in_stopped note_devices offline_timer_fires
    close
handle s (started now) = start s now
handle s reached = note_reached s
handle s (unreached now) = note_unreachable s now
handle s (sign_in_stopped failure) = note_sign_in_stopped s failure
handle s (devices_read alarm smoke) = note_devices s alarm smoke
handle s grace_ended = offline_timer_fires s
handle s closed = close s

unfoldable pub handle_all : List Event → AlarmComSignals → AlarmComSignals
handle_all [] s = s
handle_all (e ∷ es) s = handle_all es (handle s e)
