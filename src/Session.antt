-- ===== src/Session.antt =====
-- src/api/session-manager.ts. A session object is known by the number it was made with, so that the
-- identity tests of the source are tests on numbers. `authenticate`, `keepAlive` and the waits end in
-- steps of their own. The log and the callback `onSessionEstablished` are left out.
pub mod Histories
pub mod Waits
pub mod Pacing
pub mod Floor
mod Tests
use homebridge_myalarmcom.Common.{
  ℕ, ◌+◌, ◌-◌, ◌*◌, Bool, true, false, Option, none, some, List, [], ◌∷◌, ltb, leb, ◌==◌,
  if◌then◌else◌,
}
use homebridge_myalarmcom.Settings.{max_login_floor_wait_ms, ms_per_second}
use homebridge_myalarmcom.Errors.{
  AlarmComError, login_throttled_error, Thrown, ours, foreign, is_authentication,
}

abbrev pub keepalive_failure_limit : ℕ
keepalive_failure_limit = 3

abbrev pub failed_login_floor_ms : ℕ
failed_login_floor_ms = 3 * ms_per_second

-- `sign_ins` are the times at which `authenticate` was called, newest first; `is_login_pending` is
-- whether `#pendingLogin` holds a promise.
pub record SessionManager : Type 0 where
  pub session : Option ℕ
  pub session_verified_at : ℕ
  pub last_login_attempt : ℕ
  pub permanent_failure : Option AlarmComError
  pub is_login_pending : Bool
  pub keep_alive_failures : ℕ
  pub sign_ins : List ℕ

unfoldable pub new_session_manager : SessionManager
new_session_manager = record {
  session = none;
  session_verified_at = 0;
  last_login_attempt = 0;
  permanent_failure = none;
  is_login_pending = false;
  keep_alive_failures = 0;
  sign_ins = [];
}

-- `Date.now() - #sessionVerifiedAt < #sessionLifetimeMs`
unfoldable pub is_fresh : ℕ → SessionManager → ℕ → Bool
is_fresh lifetime_ms m now = ltb now (m.session_verified_at + lifetime_ms)

-- What `#awaitLoginFloor` does: it lets the caller on at once, sleeps, or throws.
pub data FloorWait : Type 0 where
  go_on : FloorWait
  sleep : ℕ → FloorWait
  refuse : AlarmComError → FloorWait

floor_of : Option AlarmComError → ℕ → FloorWait
floor_of (some failure) remaining_ms = refuse failure
floor_of none remaining_ms =
    if ltb max_login_floor_wait_ms remaining_ms
    then refuse (login_throttled_error remaining_ms)
    else sleep remaining_ms

unfoldable pub await_login_floor : ℕ → SessionManager → ℕ → FloorWait
unfolding floor_of
await_login_floor lifetime_ms m now =
    if m.last_login_attempt == 0
    then go_on
    else if leb (m.last_login_attempt + lifetime_ms) now
    then go_on
    else floor_of m.permanent_failure (m.last_login_attempt + lifetime_ms - now)

-- What `getSession` does up to its first wait.
pub data SessionReply : Type 0 where
  held_session : ℕ → SessionReply
  joins_pending : SessionReply
  signs_in : FloorWait → SessionReply

pub start_login : FloorWait → SessionManager → ℕ → SessionManager
start_login (refuse e) m now = m
start_login go_on m now = record m { is_login_pending = true; sign_ins = now ∷ m.sign_ins }
start_login (sleep ms) m now = record m { is_login_pending = true }

pub login_reply : Bool → ℕ → SessionManager → ℕ → SessionManager × SessionReply
unfolding start_login
login_reply true lifetime_ms m now = (m, joins_pending)
login_reply false lifetime_ms m now =
    let wait = await_login_floor lifetime_ms m now in (start_login wait m now, signs_in wait)

pub get_session_in : Option ℕ → ℕ → SessionManager → ℕ → SessionManager × SessionReply
unfolding login_reply
get_session_in none lifetime_ms m now = login_reply m.is_login_pending lifetime_ms m now
get_session_in (some session) lifetime_ms m now =
    if is_fresh lifetime_ms m now
    then (m, held_session session)
    else login_reply m.is_login_pending lifetime_ms m now

unfoldable pub get_session : ℕ → SessionManager → ℕ → SessionManager × SessionReply
unfolding get_session_in
get_session lifetime_ms m now = get_session_in m.session lifetime_ms m now

-- The sleep of the floor ends: `authenticate` is called. An abort ends the attempt instead.
unfoldable pub wake : SessionManager → ℕ → SessionManager
wake m now = record m { sign_ins = now ∷ m.sign_ins }

unfoldable pub abort_wait : SessionManager → SessionManager
abort_wait m = record m { is_login_pending = false }

unfoldable pub login_succeeded : SessionManager → ℕ → ℕ → SessionManager
login_succeeded m session now = record m {
  session = some session;
  session_verified_at = now;
  last_login_attempt = now;
  permanent_failure = none;
  is_login_pending = false;
  keep_alive_failures = 0;
}

unfoldable pub invalidate : SessionManager → SessionManager
invalidate m = record m { session = none; session_verified_at = 0; keep_alive_failures = 0 }

unfoldable pub record_permanent_failure : SessionManager → AlarmComError → ℕ → SessionManager
record_permanent_failure m error now = record m {
  last_login_attempt = now;
  permanent_failure = some error;
}

stamp_failure : Thrown → SessionManager → ℕ → SessionManager
unfolding record_permanent_failure
stamp_failure (ours error) m now =
    if is_authentication error then record_permanent_failure m error now else m
stamp_failure foreign m now = m

-- `now - (lifetime - floor)` does not stop at 0 when the time is later than the lifetime.
unfoldable pub login_failed : ℕ → SessionManager → Thrown → ℕ → SessionManager
unfolding stamp_failure invalidate
login_failed lifetime_ms m error now =
    stamp_failure error
      (record (invalidate m) {
        last_login_attempt = now - (lifetime_ms - failed_login_floor_ms);
        is_login_pending = false;
      })
      now

-- What `keepAlive` comes to: an answer, or a transport failure.
pub data Probe : Type 0 where
  answered : Bool → Probe
  failed : Probe

abbrev pub is_held : Option ℕ → ℕ → Bool
is_held none probed = false
is_held (some session) probed = session == probed

-- The end of `touch` for the session that was probed, and the value it returns. Without a session
-- `touch` returns `false` and no probe is sent.
unfoldable pub touch_end : Probe → SessionManager → ℕ → ℕ → SessionManager × Bool
unfolding invalidate
touch_end (answered false) m probed now =
    (if is_held m.session probed then invalidate m else m, false)
touch_end (answered true) m probed now = (
  if is_held m.session probed
      then record m { session_verified_at = now; keep_alive_failures = 0 }
      else m,
  true,
)
touch_end failed m probed now = (
  if is_held m.session probed
      then if leb keepalive_failure_limit (m.keep_alive_failures + 1)
        then invalidate m
        else record m { keep_alive_failures = m.keep_alive_failures + 1 }
      else m,
  false,
)

unfoldable pub has_session : SessionManager → Bool
has_session m = elim m.session [ none ↦ false | some session ↦ true ]
