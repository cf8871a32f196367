-- ===== src/Session/Pacing.antt =====
-- What paces the sign-ins, through each step of a history.
use homebridge_myalarmcom.Common.{
  ℕ, ◌+◌, ◌≤◌, ◌<◌, ◌≡◌, ◌⊎◌, inl, inr, refl, Bool, true, false, List, [], ◌∷◌, All, arith,
  if◌then◌else◌, Bool-cases,
}
use homebridge_myalarmcom.Errors.{Thrown, ours, foreign, is_authentication}
use homebridge_myalarmcom.Session.{
  SessionManager, SessionReply, held_session, joins_pending, signs_in, FloorWait, go_on, sleep,
  refuse, get_session, start_login, login_failed, stamp_failure, touch_end, Probe, answered, failed,
  failed_login_floor_ms,
}
use homebridge_myalarmcom.Session.Histories.{
  Phase, idle, signing_in, sleeping, phase_after, is_rejection, Apart,
}
use homebridge_myalarmcom.Session.Waits.{
  IsQuiet, get_session_cases, Allows, await_login_floor-Allows,
}

-- The part of the manager that paces sign-ins.
pub record Pacing : Type 0 where
  pub last : ℕ
  pub pending : Bool
  pub starts : List ℕ

abbrev pub pacing : SessionManager → Pacing
pacing m = record { last = m.last_login_attempt; pending = m.is_login_pending; starts = m.sign_ins }

abbrev pub InPhase : ℕ → Phase → ℕ → ℕ → Pacing → Type 0
InPhase lifetime idle floor clock s =
    (s.pending ≡ false)
    × All (λ x. x + failed_login_floor_ms ≤ s.last + lifetime) s.starts
    × (floor ≤ s.last + lifetime)
InPhase lifetime (sleeping until) floor clock s =
    (s.pending ≡ true)
    × All (λ x. x + failed_login_floor_ms ≤ until) s.starts
    × (floor ≤ until)
    × (until ≡ s.last + lifetime)
InPhase lifetime signing_in floor clock s = (s.pending ≡ true) × All (λ x. x ≤ clock) s.starts

-- A manager that has no stamp has not signed in.
pub record Inv (lifetime : ℕ) (s : Pacing) (phase : Phase) (floor clock : ℕ) : Type 0 where
  pub apart : Apart failed_login_floor_ms s.starts
  pub late : lifetime < clock
  pub unstamped : ((s.starts ≡ []) × (floor ≡ 0)) ⊎ ((0 < s.last) ⊎ (phase ≡ signing_in))
  pub in_phase : InPhase lifetime phase floor clock s

pub All-le :
    (gap p q : ℕ) (xs : List ℕ) → p ≤ q → All (λ x. x + gap ≤ p) xs → All (λ x. x + gap ≤ q) xs
All-le gap p q [] l h = tt
All-le gap p q (x ∷ xs) l (h, hs) = (omega arith, All-le gap p q xs l hs)

All-zero : (gap p : ℕ) (xs : List ℕ) → All (λ x. x + gap ≤ p) xs → All (λ x. x ≤ p) xs
All-zero gap p [] h = tt
All-zero gap p (x ∷ xs) (h, hs) = (omega arith, All-zero gap p xs hs)

All-below : (p q : ℕ) (xs : List ℕ) → p ≤ q → All (λ x. x ≤ p) xs → All (λ x. x ≤ q) xs
All-below p q [] l h = tt
All-below p q (x ∷ xs) l (h, hs) = (omega arith, All-below p q xs l hs)

All-shift :
    (gap p q : ℕ) (xs : List ℕ) → p + gap ≤ q → All (λ x. x ≤ p) xs → All (λ x. x + gap ≤ q) xs
All-shift gap p q [] l h = tt
All-shift gap p q (x ∷ xs) l (h, hs) = (omega arith, All-shift gap p q xs l hs)

-- A sign-in that starts when the gap has passed.
pub begin-Inv :
    (lifetime : ℕ) (m : SessionManager) (floor clock now : ℕ) (pending : Bool)
    → pending ≡ true
    → Apart failed_login_floor_ms m.sign_ins
    → lifetime < clock
    → clock ≤ now
    → All (λ x. x + failed_login_floor_ms ≤ now) m.sign_ins
    → Inv lifetime
        (record { last = m.last_login_attempt; pending = pending; starts = now ∷ m.sign_ins })
        signing_in
        floor
        now
begin-Inv lifetime m floor clock now pending waits apart late later passed = record {
  apart = (passed, apart);
  late = omega arith;
  unstamped = inr (inr refl);
  in_phase = (waits, (omega arith, All-zero failed_login_floor_ms now m.sign_ins passed));
}

InPhase-later :
    (lifetime : ℕ) (phase : Phase) (floor clock now : ℕ) (s : Pacing)
    → clock ≤ now
    → InPhase lifetime phase floor clock s
    → InPhase lifetime phase floor now s
InPhase-later lifetime idle floor clock now s later h = h
InPhase-later lifetime (sleeping until) floor clock now s later h = h
InPhase-later lifetime signing_in floor clock now s later h =
    (h.0, All-below clock now s.starts later h.1)

pub Inv-later :
    (lifetime : ℕ) (phase : Phase) (floor clock now : ℕ) (s : Pacing)
    → clock ≤ now
    → Inv lifetime s phase floor clock
    → Inv lifetime s phase floor now
Inv-later lifetime phase floor clock now s later v = record {
  apart = v.apart;
  late = omega (arith, v.late);
  unstamped = v.unstamped;
  in_phase = InPhase-later lifetime phase floor clock now s later v.in_phase;
}

-- With a gap passed since every earlier start, a start may follow.
pub idle-passed :
    (lifetime : ℕ) (s : Pacing) (floor clock now : ℕ)
    → Inv lifetime s idle floor clock
    → (s.last ≡ 0) ⊎ (s.last + lifetime ≤ now)
    → All (λ x. x + failed_login_floor_ms ≤ now) s.starts × (floor ≤ now)
idle-passed lifetime s floor clock now v (inr passed) =
    let (waiting, before, due) = v.in_phase in
    (All-le failed_login_floor_ms _ now s.starts passed before, omega arith)
idle-passed lifetime s floor clock now v (inl unset) = elim v.unstamped [
  | inl (no_start, no_floor) ↦ (rw no_start tt, omega arith)
  | inr (inl stamped) ↦ absurd (omega arith)
  | inr (inr busy) ↦ cc
]

start_login-Inv :
    (wait : FloorWait) (lifetime : ℕ) (m : SessionManager) (floor clock now : ℕ)
    → Allows lifetime m.last_login_attempt now wait
    → clock ≤ now
    → Inv lifetime (pacing m) idle floor clock
    → Inv lifetime
        (pacing (start_login wait m now))
        (phase_after (signs_in wait) now idle)
        floor
        now
unfolding start_login
start_login-Inv (refuse e) lifetime m floor clock now allowed later v =
    Inv-later lifetime idle floor clock now (pacing m) later v
start_login-Inv go_on lifetime m floor clock now allowed later v =
    begin-Inv lifetime m floor clock now true refl v.apart v.late later
      (idle-passed lifetime (pacing m) floor clock now v allowed).0
start_login-Inv (sleep ms) lifetime m floor clock now (stamped, due) later v =
    let (waiting, before, floor_due) = v.in_phase in
    record {
      apart = v.apart;
      late = omega (arith, v.late);
      unstamped = inr (inl stamped);
      in_phase = (
        refl,
        All-le failed_login_floor_ms _ _ m.sign_ins (omega arith) before,
        omega arith,
        due,
      );
    }

phase_after-quiet :
    (r : SessionReply) (now : ℕ) (phase : Phase) → IsQuiet r → phase_after r now phase ≡ phase
phase_after-quiet (held_session s) now phase quiet = refl
phase_after-quiet joins_pending now phase quiet = refl
phase_after-quiet (signs_in wait) now phase quiet = absurd quiet

-- A login starts only when none is under way.
pub pending-idle :
    (phase : Phase) (lifetime floor clock : ℕ) (s : Pacing)
    → s.pending ≡ false
    → InPhase lifetime phase floor clock s
    → phase ≡ idle
pending-idle idle lifetime floor clock s e h = refl
pending-idle (sleeping until) lifetime floor clock s e h = let waits = h.0 in cc
pending-idle signing_in lifetime floor clock s e h = let waits = h.0 in cc

pub ask-Inv :
    (lifetime : ℕ) (m : SessionManager) (phase : Phase) (floor clock now : ℕ)
    → clock ≤ now
    → Inv lifetime (pacing m) phase floor clock
    → Inv lifetime
        (pacing (get_session lifetime m now).0)
        (phase_after (get_session lifetime m now).1 now phase)
        floor
        now
unfolding get_session
ask-Inv lifetime m phase floor clock now later v =
    elim (get_session_cases m.session lifetime m now) [
      | inl (r, quiet, e) ↦
          rw (e, phase_after-quiet r now phase quiet)
            (Inv-later lifetime phase floor clock now (pacing m) later v)
      | inr (unused, e) ↦
          let at_rest = pending-idle phase lifetime floor clock (pacing m) unused v.in_phase in
          rw (e, at_rest)
            (start_login-Inv _ lifetime m floor clock now (await_login_floor-Allows lifetime m now)
              later (rw at_rest at v))
    ]

-- A failed sign-in leaves a stamp from which the next is due.
pub rejected-pacing :
    (lifetime : ℕ) (m : SessionManager) (error : Thrown) (now : ℕ)
    → failed_login_floor_ms ≤ lifetime
    → lifetime < now
    → let after = login_failed lifetime m error now in
      (after.is_login_pending ≡ false)
      × (after.sign_ins ≡ m.sign_ins)
      × (0 < after.last_login_attempt)
      × (after.last_login_attempt + lifetime
          ≡ now + (if is_rejection error then lifetime else failed_login_floor_ms))
unfolding login_failed stamp_failure
rejected-pacing lifetime m foreign now small late = (refl, refl, omega arith, omega arith)
rejected-pacing lifetime m (ours error) now small late =
    elim (Bool-cases (is_authentication error)) [
      | inl e ↦ rw e (refl, refl, omega arith, refl)
      | inr e ↦ rw e (refl, refl, omega arith, omega arith)
    ]

-- The end of a sign-in, by the stamp it leaves.
pub ended-Inv :
    (lifetime : ℕ) (m : SessionManager) (s : Pacing) (floor clock now wait_ms : ℕ)
    → Inv lifetime (pacing m) signing_in floor clock
    → clock ≤ now
    → failed_login_floor_ms ≤ wait_ms
    → s.pending ≡ false
    → s.starts ≡ m.sign_ins
    → 0 < s.last
    → s.last + lifetime ≡ now + wait_ms
    → Inv lifetime s idle (now + wait_ms) now
ended-Inv lifetime m s floor clock now wait_ms v later long unused same stamped due = record {
  apart = rw same v.apart;
  late = omega (arith, v.late);
  unstamped = inr (inl stamped);
  in_phase = (
    unused,
    rw same (All-shift failed_login_floor_ms clock _ m.sign_ins (omega arith) v.in_phase.1),
    omega arith,
  );
}

pub touch-pacing :
    (result : Probe) (m : SessionManager) (probed now : ℕ)
    → pacing (touch_end result m probed now).0 ≡ pacing m
unfolding touch_end
touch-pacing (answered true) m probed now = ground arith
touch-pacing (answered false) m probed now = ground arith
touch-pacing failed m probed now = ground arith
