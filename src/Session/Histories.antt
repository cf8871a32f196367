-- ===== src/Session/Histories.antt =====
-- The histories of a session manager: callers, sign-ins, probes and discards in any order.
use homebridge_myalarmcom.Common.{ℕ, ◌+◌, ◌≤◌, ◌<◌, Bool, false, List, [], ◌∷◌, All, if◌then◌else◌}
use homebridge_myalarmcom.Errors.{Thrown, ours, foreign, is_authentication}
use homebridge_myalarmcom.Session.{
  SessionManager, new_session_manager, SessionReply, held_session, joins_pending, signs_in, go_on,
  sleep, refuse, get_session, wake, abort_wait, login_succeeded, login_failed, invalidate,
  touch_end, Probe, failed_login_floor_ms,
}

-- What the one login is doing: nothing, sleeping until a time at the earliest, or waiting for
-- `authenticate`.
pub data Phase : Type 0 where
  idle signing_in : Phase
  sleeping : ℕ → Phase

abbrev pub phase_after : SessionReply → ℕ → Phase → Phase
phase_after (held_session s) now phase = phase
phase_after joins_pending now phase = phase
phase_after (signs_in (refuse e)) now phase = phase
phase_after (signs_in go_on) now phase = signing_in
phase_after (signs_in (sleep ms)) now phase = sleeping (now + ms)

-- Whether a failed sign-in will not clear on its own.
abbrev pub is_rejection : Thrown → Bool
is_rejection (ours error) = is_authentication error
is_rejection foreign = false

-- `Runs lifetime m phase floor clock`: a new manager has come to `m` by the time `clock`, which
-- starts later than the session lifetime, as a count of milliseconds since 1970 does. The last
-- sign-in has ended so that the next is due at `floor` at the earliest: a lifetime after a success
-- or a rejection, three seconds after another failure.
pub data Runs (lifetime : ℕ) : SessionManager → Phase → ℕ → ℕ → Type 0 where
  start : (clock : ℕ) → lifetime < clock → Runs lifetime new_session_manager idle 0 clock
  ask :
      {m : SessionManager} {phase : Phase} {floor clock : ℕ} (now : ℕ)
      → Runs lifetime m phase floor clock
      → clock ≤ now
      → Runs lifetime
          (get_session lifetime m now).0
          (phase_after (get_session lifetime m now).1 now phase)
          floor
          now
  woken :
      {m : SessionManager} {until floor clock : ℕ} (now : ℕ)
      → Runs lifetime m (sleeping until) floor clock
      → clock ≤ now
      → until ≤ now
      → Runs lifetime (wake m now) signing_in floor now
  cancelled :
      {m : SessionManager} {until floor clock : ℕ}
      → Runs lifetime m (sleeping until) floor clock
      → Runs lifetime (abort_wait m) idle floor clock
  signed_in :
      {m : SessionManager} {floor clock : ℕ} (session now : ℕ)
      → Runs lifetime m signing_in floor clock
      → clock ≤ now
      → Runs lifetime (login_succeeded m session now) idle (now + lifetime) now
  rejected :
      {m : SessionManager} {floor clock : ℕ} (error : Thrown) (now : ℕ)
      → Runs lifetime m signing_in floor clock
      → clock ≤ now
      → Runs lifetime
          (login_failed lifetime m error now)
          idle
          (now + (if is_rejection error then lifetime else failed_login_floor_ms))
          now
  discard :
      {m : SessionManager} {phase : Phase} {floor clock : ℕ}
      → Runs lifetime m phase floor clock
      → Runs lifetime (invalidate m) phase floor clock
  probe :
      {m : SessionManager} {phase : Phase} {floor clock : ℕ} (result : Probe) (probed now : ℕ)
      → Runs lifetime m phase floor clock
      → clock ≤ now
      → Runs lifetime (touch_end result m probed now).0 phase floor now

abbrev pub Apart : ℕ → List ℕ → Type 0
Apart gap [] = Unit
Apart gap (x ∷ xs) = All (λ y. y + gap ≤ x) xs × Apart gap xs
