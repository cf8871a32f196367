-- ===== src/Signals/Spec.antt =====
-- What the signals promise, as a machine with one mode, and the proof that the flags implement it.
use homebridge_myalarmcom.Common.{
  ℕ, ◌+◌, ◌≡◌, ◌∙◌, ap, refl, Bool, true, false, Option, none, some, List, [], ◌∷◌, ◌++◌, arith,
  if◌then◌else◌,
}
use homebridge_myalarmcom.Signals.{
  AlarmComSignals, new_signals, Signal, alarm_active, smoke_active, auth_failed, cloud_offline,
  SignalState, Summary, alarm_active_summary, smoke_active_summary, critical, rejected,
  cloud_offline_grace_ms, auth_state, cloud_state, Event, started, reached, unreached,
  sign_in_stopped, devices_read, grace_ended, closed, handle, handle_all, write_auth, write_cloud,
  write_if_defined,
}

-- Alarm.com has been reached or nothing is known, a grace runs until a time, the outage has been
-- confirmed, sign-in has stopped, or the plugin has shut down.
pub data Mode : Type 0 where
  fine offline signed_out shut : Mode
  waiting : ℕ → Mode

pub record View : Type 0 where
  pub mode : Mode
  pub has_started : Bool
  pub writes : List (Signal × SignalState)

abbrev page : View → Mode → List (Signal × SignalState) → View
page v mode new = record v { mode = mode; writes = new ++ v.writes }

-- A first failure starts the grace; later ones do not move it.
abbrev fail_at : ℕ → Mode → Mode
fail_at now fine = waiting (now + cloud_offline_grace_ms)
fail_at now mode = mode

abbrev reading : Signal → Summary → Option Bool → List (Signal × SignalState)
reading signal summary none = []
reading signal summary (some active) =
    (signal, record { active = active; severity = critical; summary = summary }) ∷ []

-- The specification, for a view that is not shut.
abbrev pub spec_step : View → Event → View
spec_step v (started now) =
    if v.has_started then v else record v { mode = fail_at now v.mode; has_started = true }
spec_step v reached =
    page v fine ((cloud_offline, cloud_state false) ∷ (auth_failed, auth_state false rejected) ∷ [])
spec_step v (unreached now) = record v { mode = fail_at now v.mode }
spec_step v (sign_in_stopped failure) =
    page v signed_out
      ((cloud_offline, cloud_state false) ∷ (auth_failed, auth_state true failure) ∷ [])
spec_step v (devices_read alarm smoke) = page v v.mode (
    reading smoke_active smoke_active_summary smoke
    ++ reading alarm_active alarm_active_summary alarm)
spec_step v grace_ended = elim v.mode [
  | waiting due ↦ page v offline ((cloud_offline, cloud_state true) ∷ [])
  | _ ↦ v
]
spec_step v closed = record v { mode = shut }

abbrev is_shut : Mode → Bool
is_shut shut = true
is_shut _ = false

abbrev pub spec_handle : View → Event → View
spec_handle v e = if is_shut v.mode then v else spec_step v e

abbrev pub spec_all : List Event → View → View
spec_all [] v = v
spec_all (e ∷ es) v = spec_all es (spec_handle v e)

abbrev pub initial_view : View
initial_view = record { mode = fine; has_started = false; writes = [] }

-- The mode that the flags of the source stand for.
abbrev pub mode_of : Option ℕ → Bool → Bool → Bool → Mode
mode_of due confirmed out true = shut
mode_of due confirmed true false = signed_out
mode_of due true false false = offline
mode_of none false false false = fine
mode_of (some due) false false false = waiting due

-- The combinations of flags that occur.
abbrev IsTidy : Option ℕ → Bool → Bool → Bool → Type 0
IsTidy none false out ended = Unit
IsTidy none true out ended = out ≡ false
IsTidy (some due) confirmed out ended = (confirmed ≡ false) × (out ≡ false) × (ended ≡ false)

abbrev pub view_of : AlarmComSignals → View
view_of s = record {
  mode = mode_of s.offline_due s.is_cloud_offline_confirmed s.is_auth_rejected s.is_closed;
  has_started = s.has_started;
  writes = s.writes;
}

abbrev Simulates : AlarmComSignals → Event → Type 0
Simulates s e =
    let t = handle s e in
    (view_of t ≡ spec_handle (view_of s) e)
    × IsTidy t.offline_due t.is_cloud_offline_confirmed t.is_auth_rejected t.is_closed

-- A state given by its flags.
abbrev flagged : Option ℕ → Bool → Bool → Bool → AlarmComSignals → AlarmComSignals
flagged due confirmed out ended s = record s {
  offline_due = due;
  is_cloud_offline_confirmed = confirmed;
  is_auth_rejected = out;
  is_closed = ended;
}

flagged-Simulates :
    (due : Option ℕ) (confirmed out ended : Bool) (s : AlarmComSignals) (e : Event)
    → IsTidy due confirmed out ended
    → Simulates (flagged due confirmed out ended s) e
unfolding handle write_auth write_cloud write_if_defined
flagged-Simulates none confirmed out true s (started now) h = (refl, h)
flagged-Simulates none confirmed out true s e h = (refl, h)
flagged-Simulates none true true false s e h = cc
flagged-Simulates none true false false s (started now) h = ground arith
flagged-Simulates none true false false s e h = ground arith
flagged-Simulates none false true false s (started now) h = ground arith
flagged-Simulates none false true false s e h = ground arith
flagged-Simulates none false false false s (started now) h = ground arith
flagged-Simulates none false false false s e h = ground arith
flagged-Simulates (some due) true out ended s e h = cc
flagged-Simulates (some due) false true ended s e h = cc
flagged-Simulates (some due) false false true s e h = cc
flagged-Simulates (some due) false false false s (started now) h = ground arith
flagged-Simulates (some due) false false false s e h = ground arith

handle-Simulates :
    (s : AlarmComSignals) (e : Event)
    → IsTidy s.offline_due s.is_cloud_offline_confirmed s.is_auth_rejected s.is_closed
    → Simulates s e
handle-Simulates s e h =
    flagged-Simulates s.offline_due s.is_cloud_offline_confirmed s.is_auth_rejected s.is_closed s e
      h

handle_all-view :
    (es : List Event) (s : AlarmComSignals)
    → IsTidy s.offline_due s.is_cloud_offline_confirmed s.is_auth_rejected s.is_closed
    → view_of (handle_all es s) ≡ spec_all es (view_of s)
unfolding handle_all
handle_all-view [] s h = refl
handle_all-view (e ∷ es) s h =
    let (same, tidy) = handle-Simulates s e h in
    handle_all-view es (handle s e) tidy ∙ ap (spec_all es) same

-- In every sequence of events from a new object, the flags and the timer stand for one mode, which
-- moves as the specification says, and exactly the specified writes are made: the grace runs from the
-- first failure, an outage is paged only when it ends, a stopped sign-in takes the place of an
-- outage, a success clears both, and nothing is written after closing.
pub handle_all-refines :
    (es : List Event) → view_of (handle_all es new_signals) ≡ spec_all es initial_view
unfolding new_signals
handle_all-refines es = handle_all-view es new_signals tt
