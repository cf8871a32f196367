-- ===== src/EventStream/Run.antt =====
-- What may happen to a push connection, as one total step and its histories. A socket reports only
-- while it is held, since disposing of it takes its listeners away, but the timer of a handshake may
-- outlive its socket. A report of a socket that is not held, and the end of a fetch that is not in
-- flight, are no steps.
use homebridge_myalarmcom.Common.{ℕ, zero, suc, if◌then◌else◌, Option, none, some, List, [], ◌∷◌}
use homebridge_myalarmcom.Retry.{Fraction}
use homebridge_myalarmcom.EventStream.{
  opened, closing, closed, Socket, Redial, ConnectAttempt, EventStream, new_event_stream, is_timer,
}
use homebridge_myalarmcom.EventStream.Steps.{
  start, stop, token_arrives, token_fails, token_unusable, handshake_timeout, marked,
  handshake_open, handshake_close, refresh_timer_fires, reconnect_timer_fires, recovery_timer_fires,
}

-- The two sockets that a stream may hold.
pub data Role : Type 0 where
  live standby : Role

pub data StreamEvent : Type 0 where
  stopping restarting : StreamEvent
  fetched failed_fetch unusable_fetch : ℕ → StreamEvent
  opens closes begins_closing handshake_expires : Role → StreamEvent
  stale_handshake_expires : Socket → StreamEvent
  refresh_due reconnect_due recovery_due : StreamEvent

unfoldable pub held : EventStream → Role → Option Socket
held s live = s.socket
held s standby = s.candidate

abbrev pub behind :
    ConnectAttempt
    → Option (ConnectAttempt × List ConnectAttempt)
    → Option (ConnectAttempt × List ConnectAttempt)
behind a none = none
behind a (some (b, rest)) = some (b, a ∷ rest)

-- The attempt at a position, and the others.
unfoldable pub pick : ℕ → List ConnectAttempt → Option (ConnectAttempt × List ConnectAttempt)
pick n [] = none
pick zero (a ∷ as_) = some (a, as_)
pick (suc n) (a ∷ as_) = behind a (pick n as_)

-- How a fetch ends: with a token, with an error, or with a token whose endpoint no socket opens at.
pub data FetchEnd : Type 0 where
  arrived failed unusable : FetchEnd

unfoldable pub end_fetch :
    FetchEnd
    → Option (ConnectAttempt × List ConnectAttempt)
    → EventStream
    → ℕ
    → Fraction
    → EventStream
unfolding token_arrives token_fails token_unusable
end_fetch end none s now random = s
end_fetch arrived (some (a, rest)) s now random = token_arrives (record s { fetches = rest }) a now
end_fetch failed (some (a, rest)) s now random = token_fails (record s { fetches = rest }) a random
end_fetch unusable (some (a, rest)) s now random =
    token_unusable (record s { fetches = rest }) a now random

-- What a socket reports, once its state is marked.
pub data Report : Type 0 where
  report_open report_close report_closing report_timeout : Report

unfoldable pub socket_reports :
    Report → Option Socket → EventStream → ℕ → ℕ → Fraction → EventStream
unfolding marked handshake_open handshake_close handshake_timeout
socket_reports report none s now jitter random = s
socket_reports report_open (some k) s now jitter random =
    handshake_open (marked s opened k) k jitter
socket_reports report_close (some k) s now jitter random =
    handshake_close (marked s closed k) k now random
socket_reports report_closing (some k) s now jitter random = marked s closing k
socket_reports report_timeout (some k) s now jitter random = handshake_timeout s k now random

unfoldable pub timer_fires : Option (Redial × ℕ) → EventStream → ℕ → EventStream
unfolding reconnect_timer_fires
timer_fires none s now = s
timer_fires (some (kind, delay)) s now = reconnect_timer_fires s kind now

unfoldable pub handle : StreamEvent → EventStream → ℕ → ℕ → Fraction → EventStream
unfolding held stop start end_fetch pick socket_reports refresh_timer_fires timer_fires
    recovery_timer_fires handshake_timeout
handle stopping s now jitter random = stop s now
handle restarting s now jitter random = start s now
handle (fetched n) s now jitter random = end_fetch arrived (pick n s.fetches) s now random
handle (failed_fetch n) s now jitter random = end_fetch failed (pick n s.fetches) s now random
handle (unusable_fetch n) s now jitter random = end_fetch unusable (pick n s.fetches) s now random
handle (opens role) s now jitter random =
    socket_reports report_open (held s role) s now jitter random
handle (closes role) s now jitter random =
    socket_reports report_close (held s role) s now jitter random
handle (begins_closing role) s now jitter random =
    socket_reports report_closing (held s role) s now jitter random
handle (handshake_expires role) s now jitter random =
    socket_reports report_timeout (held s role) s now jitter random
handle (stale_handshake_expires k) s now jitter random = handshake_timeout s k now random
handle refresh_due s now jitter random =
    if is_timer s.refresh_timer then refresh_timer_fires s now else s
handle reconnect_due s now jitter random = timer_fires s.reconnect_timer s now
handle recovery_due s now jitter random = if s.recovery_timer then recovery_timer_fires s now else s

-- What a step draws: the time, the jitter of the refresh and the jitter of the delay.
pub data Run : EventStream → Type 0 where
  started : (now : ℕ) → Run (start new_event_stream now)
  stepped :
      (s : EventStream)
      → Run s
      → (e : StreamEvent) → (now jitter : ℕ) → (random : Fraction)
      → Run (handle e s now jitter random)
