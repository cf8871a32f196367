-- ===== src/Session/Waits.antt =====
-- What a caller is told, by the state of the manager.
use homebridge_myalarmcom.Common.{
  ℕ, ◌+◌, ◌-◌, ◌≤◌, ◌<◌, ◌≡◌, ◌⊎◌, inl, inr, refl, Bool, true, false, Option, none, some, arith,
  ltb, leb, ◌==◌, Bool-cases,
}
use homebridge_myalarmcom.Settings.{max_login_floor_wait_ms}
use homebridge_myalarmcom.Errors.{AlarmComError}
use homebridge_myalarmcom.Session.{
  SessionManager, SessionReply, held_session, joins_pending, signs_in, FloorWait, go_on, sleep,
  refuse, get_session_in, login_reply, start_login, await_login_floor, floor_of, is_fresh,
}

-- A reply that starts nothing.
abbrev pub IsQuiet : SessionReply → Type 0
IsQuiet (signs_in wait) = ⊥
IsQuiet _ = Unit

login_reply_cases :
    (pending : Bool) (lifetime : ℕ) (m : SessionManager) (now : ℕ)
    → let wait = await_login_floor lifetime m now in
      ((r : SessionReply) × IsQuiet r × (login_reply pending lifetime m now ≡ (m, r)))
      ⊎ ((pending ≡ false)
          × (login_reply pending lifetime m now ≡ (start_login wait m now, signs_in wait)))
unfolding login_reply
login_reply_cases true lifetime m now = inl (joins_pending, tt, refl)
login_reply_cases false lifetime m now = inr (refl, refl)

pub get_session_cases :
    (session : Option ℕ) (lifetime : ℕ) (m : SessionManager) (now : ℕ)
    → let wait = await_login_floor lifetime m now in
      ((r : SessionReply) × IsQuiet r × (get_session_in session lifetime m now ≡ (m, r)))
      ⊎ ((m.is_login_pending ≡ false)
          × (get_session_in session lifetime m now ≡ (start_login wait m now, signs_in wait)))
unfolding get_session_in
get_session_cases none lifetime m now = login_reply_cases m.is_login_pending lifetime m now
get_session_cases (some session) lifetime m now = elim (Bool-cases (is_fresh lifetime m now)) [
  | inl fresh ↦ rw fresh (inl (held_session session, tt, refl))
  | inr stale ↦ rw stale (login_reply_cases m.is_login_pending lifetime m now)
]

-- What the floor allows, by its answer.
abbrev pub Allows : ℕ → ℕ → ℕ → FloorWait → Type 0
Allows lifetime last now go_on = (last ≡ 0) ⊎ (last + lifetime ≤ now)
Allows lifetime last now (sleep ms) = (0 < last) × (now + ms ≡ last + lifetime)
Allows lifetime last now (refuse e) = Unit

pub await_login_floor-Allows :
    (lifetime : ℕ) (m : SessionManager) (now : ℕ)
    → Allows lifetime m.last_login_attempt now (await_login_floor lifetime m now)
unfolding await_login_floor
await_login_floor-Allows lifetime m now = elim (Bool-cases (m.last_login_attempt == 0)) [
  | inl e ↦ rw e (inl (ground arith))
  | inr stamped ↦ elim (Bool-cases (leb (m.last_login_attempt + lifetime) now)) [
    | inl passed ↦ rw (stamped, passed) (inr (ground arith))
    | inr soon ↦ rw (stamped, soon) (remaining m.permanent_failure (ground arith) (ground arith))
  ]
]
  where
    remaining :
        (failure : Option AlarmComError)
        → 0 < m.last_login_attempt
        → now < m.last_login_attempt + lifetime
        → Allows lifetime m.last_login_attempt now
            (floor_of failure (m.last_login_attempt + lifetime - now))
    remaining (some failure) = unfold floor_of in λ a b. tt
    remaining none =
        unfold floor_of in
        λ a b.
          elim (Bool-cases (ltb max_login_floor_wait_ms (m.last_login_attempt + lifetime - now))) [
            | inl long ↦ rw long tt
            | inr short ↦ rw short (a, omega arith)
          ]
