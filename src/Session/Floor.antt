-- ===== src/Session/Floor.antt =====
-- When the plugin signs in to Alarm.com, over every history.
use homebridge_myalarmcom.Common.{
  ℕ, ◌+◌, ◌≤◌, ◌<◌, ◌≡◌, inl, inr, refl, sym, subst, Option, none, some, arith,
}
use homebridge_myalarmcom.Session.{
  SessionManager, new_session_manager, SessionReply, held_session, joins_pending, signs_in,
  FloorWait, go_on, sleep, refuse, get_session, await_login_floor, wake, abort_wait,
  login_succeeded, invalidate, failed_login_floor_ms,
}
use homebridge_myalarmcom.Session.Histories.{
  Phase, idle, Apart, Runs, start, ask, woken, cancelled, signed_in, rejected, discard, probe,
}
use homebridge_myalarmcom.Session.Waits.{
  IsQuiet, get_session_cases, Allows, await_login_floor-Allows,
}
use homebridge_myalarmcom.Session.Pacing.{
  Pacing, pacing, Inv, All-le, begin-Inv, Inv-later, idle-passed, pending-idle, ask-Inv,
  rejected-pacing, ended-Inv, touch-pacing,
}

Runs-Inv :
    {lifetime : ℕ} {m : SessionManager} {phase : Phase} {floor clock : ℕ}
    → failed_login_floor_ms ≤ lifetime
    → Runs lifetime m phase floor clock
    → Inv lifetime (pacing m) phase floor clock
unfolding new_session_manager wake abort_wait login_succeeded invalidate
Runs-Inv small (start clock late) = record {
  apart = tt;
  late = late;
  unstamped = inl (refl, refl);
  in_phase = (refl, tt, omega arith);
}
Runs-Inv {lifetime} small (ask {m} {phase} {floor} {clock} now run later) =
    ask-Inv lifetime m phase floor clock now later (Runs-Inv small run)
Runs-Inv {lifetime} small (woken {m} {until} {floor} {clock} now run later due) =
    let v = Runs-Inv small run in
    let (waits, before, floor_due, stamp) = v.in_phase in
    begin-Inv lifetime m floor clock now _ waits v.apart v.late later
      (All-le failed_login_floor_ms until now m.sign_ins due before)
Runs-Inv {lifetime} small (cancelled {m} {until} {floor} {clock} run) =
    let v = Runs-Inv small run in
    let (waits, before, floor_due, stamp) = v.in_phase in
    record {
      apart = v.apart;
      late = v.late;
      unstamped = elim v.unstamped [
        | inl e ↦ inl e
        | inr (inl e) ↦ inr (inl e)
        | inr (inr e) ↦ absurd (cc e)
      ];
      in_phase =
          (refl, All-le failed_login_floor_ms until _ m.sign_ins (omega arith) before, omega arith);
    }
Runs-Inv {lifetime} small (signed_in {m} {floor} {clock} session now run later) =
    let v = Runs-Inv small run in
    ended-Inv lifetime m _ floor clock now lifetime v later small refl refl (omega (arith, v.late))
      refl
Runs-Inv {lifetime} small (rejected {m} {floor} {clock} error now run later) =
    let v = Runs-Inv small run in
    let late : lifetime < now = omega (arith, v.late) in
    let (unused, same, stamped, due) = rejected-pacing lifetime m error now small late in
    ended-Inv lifetime m _ floor clock now _ v later (ground arith) unused same stamped due
Runs-Inv {lifetime} small (discard run) =
    let v = Runs-Inv small run in
    record { apart = v.apart; late = v.late; unstamped = v.unstamped; in_phase = v.in_phase }
Runs-Inv {lifetime} small (probe {m} {phase} {floor} {clock} result probed now run later) =
    subst (λ s. Inv lifetime s phase floor now) (sym (touch-pacing result m probed now))
      (Inv-later lifetime phase floor clock now (pacing m) later (Runs-Inv small run))

-- Over every history in which the session lifetime is at least three seconds, any two sign-ins begin
-- at least three seconds apart, whatever callers, failures, keep-alives and discards come between.
pub sign_ins-Apart :
    (lifetime : ℕ) (m : SessionManager) (phase : Phase) (floor clock : ℕ)
    → failed_login_floor_ms ≤ lifetime
    → Runs lifetime m phase floor clock
    → Apart failed_login_floor_ms m.sign_ins
sign_ins-Apart lifetime m phase floor clock small run = let v = Runs-Inv small run in v.apart

-- When a sign-in that a caller is given begins, unless it is refused.
abbrev pub starts_at : ℕ → FloorWait → Option ℕ
starts_at now go_on = some now
starts_at now (sleep ms) = some (now + ms)
starts_at now (refuse e) = none

waiting-due :
    (wait : FloorWait) (lifetime : ℕ) (s : Pacing) (floor clock now t : ℕ)
    → Inv lifetime s idle floor clock
    → Allows lifetime s.last now wait
    → starts_at now wait ≡ some t
    → floor ≤ t
waiting-due (refuse e) lifetime s floor clock now t v allowed e' = cc
waiting-due go_on lifetime s floor clock now t v allowed e =
    let (before, due) = idle-passed lifetime s floor clock now v allowed in ground arith
waiting-due (sleep ms) lifetime s floor clock now t v (stamped, due) e =
    let (unused, before, floor_due) = v.in_phase in ground arith

-- Over every history in which the session lifetime is at least three seconds, a caller is given a
-- sign-in only while no other is under way, and that sign-in begins no earlier than a lifetime after
-- the last success or rejection, or three seconds after the last other failure, whichever ended last.
pub sign_in-due :
    (lifetime : ℕ) (m : SessionManager) (phase : Phase) (floor clock now t : ℕ) (wait : FloorWait)
    → failed_login_floor_ms ≤ lifetime
    → Runs lifetime m phase floor clock
    → (get_session lifetime m now).1 ≡ signs_in wait
    → starts_at now wait ≡ some t
    → (phase ≡ idle) × (floor ≤ t)
unfolding get_session
sign_in-due lifetime m phase floor clock now t wait small run reply starts =
    let v = Runs-Inv small run in
    elim (get_session_cases m.session lifetime m now) [
      | inl (r, quiet, e) ↦ absurd (loud r wait quiet (rw e at reply))
      | inr (unused, e) ↦
          let at_rest = pending-idle phase lifetime floor clock (pacing m) unused v.in_phase in
          let same : await_login_floor lifetime m now ≡ wait = cc (e, reply) in
          (
            at_rest,
            waiting-due wait lifetime (pacing m) floor clock now t (rw at_rest at v)
                (subst (Allows lifetime m.last_login_attempt now) same
                  (await_login_floor-Allows lifetime m now))
                starts,
          )
    ]
  where
    loud : (r : SessionReply) (w : FloorWait) → IsQuiet r → r ≡ signs_in w → ⊥
    loud (held_session s) w quiet e = cc
    loud joins_pending w quiet e = cc
    loud (signs_in x) w quiet e = quiet
