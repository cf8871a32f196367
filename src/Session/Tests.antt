-- ===== src/Session/Tests.antt =====
-- A manager whose first sign-in fails in the network, and whose next caller waits out the floor.
use homebridge_myalarmcom.Common.{ℕ, ◌≤◌, ◌≡◌, refl, arith}
use homebridge_myalarmcom.Errors.{ours, network, is_authentication}
use homebridge_myalarmcom.Session.{
  SessionManager, new_session_manager, signs_in, sleep, get_session, get_session_in, login_reply,
  start_login, await_login_floor, floor_of, wake, login_failed, stamp_failure, invalidate,
  failed_login_floor_ms,
}
use homebridge_myalarmcom.Session.Histories.{
  idle, signing_in, sleeping, Runs, start, ask, woken, rejected, Apart,
}
use homebridge_myalarmcom.Session.Floor.{sign_ins-Apart, sign_in-due}

abbrev lifetime : ℕ
lifetime = 600000

abbrev asked : SessionManager
asked = (get_session lifetime new_session_manager 1000000).0

asked-Runs : Runs lifetime asked signing_in 0 1000000
unfolding get_session get_session_in login_reply start_login await_login_floor new_session_manager
asked-Runs = ask 1000000 (start 1000000 (omega arith)) (omega arith)

abbrev failed_once : SessionManager
failed_once = login_failed lifetime asked (ours network) 1000500

failed_once-Runs : Runs lifetime failed_once idle 1003500 1000500
unfolding is_authentication
failed_once-Runs = rejected (ours network) 1000500 asked-Runs (omega arith)

abbrev asked_again : SessionManager
asked_again = (get_session lifetime failed_once 1001000).0

waits_for_floor : (get_session lifetime failed_once 1001000).1 ≡ signs_in (sleep 2500)
unfolding get_session get_session_in login_reply start_login await_login_floor new_session_manager
    floor_of login_failed stamp_failure invalidate is_authentication
waits_for_floor = refl

asked_again-Runs : Runs lifetime asked_again (sleeping 1003500) 1003500 1001000
unfolding get_session get_session_in login_reply start_login await_login_floor new_session_manager
    floor_of login_failed stamp_failure invalidate is_authentication
asked_again-Runs = ask 1001000 failed_once-Runs (omega arith)

abbrev second_sign_in : SessionManager
second_sign_in = wake asked_again 1003600

sign_ins-Apart_example : Apart failed_login_floor_ms second_sign_in.sign_ins
sign_ins-Apart_example =
    sign_ins-Apart lifetime second_sign_in signing_in 1003500 1003600 (omega arith)
      (woken 1003600 asked_again-Runs (omega arith) (omega arith))

abbrev due_at : ℕ
due_at = 1003500

sign_in-due_example : (idle ≡ idle) × (due_at ≤ due_at)
sign_in-due_example =
    sign_in-due lifetime failed_once idle due_at 1000500 1001000 due_at (sleep 2500) (omega arith)
      failed_once-Runs waits_for_floor refl
