-- ===== src/EventStream/Stopped.antt =====
-- What `stop` promises: whatever is still in flight, nothing opens a socket or sets a timer again
-- before the next `start`.
use homebridge_myalarmcom.Common.{
  ℕ, ◌+◌, ◌≡◌, refl, Bool, true, false, Option, none, some, List, arith,
}
use homebridge_myalarmcom.Retry.{Fraction}
use homebridge_myalarmcom.EventStream.{
  Socket, Redial, ConnectAttempt, EventStream, dispose_candidate, clear_timers,
}
use homebridge_myalarmcom.EventStream.Steps.{
  handshake_timeout, stop, token_arrives, token_fails, token_unusable,
}
use homebridge_myalarmcom.EventStream.Run.{
  StreamEvent, stopping, restarting, fetched, failed_fetch, unusable_fetch, stale_handshake_expires,
  FetchEnd, arrived, failed, unusable, opens, closes, begins_closing, handshake_expires, Role, live,
  standby, refresh_due, reconnect_due, recovery_due, held, pick, end_fetch, Report, report_open,
  report_close, report_closing, report_timeout, socket_reports, timer_fires, handle,
}
use homebridge_myalarmcom.EventStream.Alive.{dispose_socket_lem}

abbrev pub is_restart : StreamEvent → Bool
is_restart restarting = true
is_restart _ = false

-- The states that follow a stop, with no start among the steps.
pub data AfterStop (s : EventStream) : EventStream → Type 0 where
  stopped : (now : ℕ) → AfterStop s (stop s now)
  later :
      (q : EventStream)
      → AfterStop s q
      → (e : StreamEvent) → is_restart e ≡ false
      → (now jitter : ℕ) → (random : Fraction) → AfterStop s (handle e q now jitter random)

-- Stopped, with nothing left that could act, and this many sockets opened so far.
unfoldable pub IsQuiet : ℕ → EventStream → Type 0
IsQuiet n q =
    (q.is_stopped ≡ true)
    × (q.socket ≡ none)
    × (q.candidate ≡ none)
    × (q.reconnect_timer ≡ none)
    × (q.refresh_timer ≡ none)
    × (q.recovery_timer ≡ false)
    × (q.sockets ≡ n)

stop-IsQuiet : (s : EventStream) (now : ℕ) → IsQuiet s.sockets (stop s now)
unfolding IsQuiet stop dispose_candidate clear_timers
stop-IsQuiet s now =
    rw
      (dispose_socket_lem
        (dispose_candidate (
          clear_timers (record s {
            is_stopped = true;
            connect_generation = s.connect_generation + 1;
            is_connecting = false;
          })))
        now)
      (refl, refl, refl, refl, refl, refl, refl)

end_fetch-IsQuiet :
    (end : FetchEnd) (o : Option (ConnectAttempt × List ConnectAttempt)) (n : ℕ) (q : EventStream)
    (now : ℕ) (random : Fraction)
    → IsQuiet n q
    → IsQuiet n (end_fetch end o q now random)
unfolding end_fetch token_arrives token_fails token_unusable IsQuiet
end_fetch-IsQuiet end none n q now random h = h
end_fetch-IsQuiet arrived (some (a, rest)) n q now random h = ground arith
end_fetch-IsQuiet failed (some (a, rest)) n q now random h = ground arith
end_fetch-IsQuiet unusable (some (a, rest)) n q now random h = ground arith

-- No socket is held, so none reports.
socket_reports-IsQuiet :
    (report : Report) (o : Option Socket) (n : ℕ) (q : EventStream) (now jitter : ℕ)
    (random : Fraction)
    → o ≡ none
    → IsQuiet n q
    → IsQuiet n (socket_reports report o q now jitter random)
unfolding socket_reports
socket_reports-IsQuiet report none n q now jitter random e h = h
socket_reports-IsQuiet report (some k) n q now jitter random e h = ground arith

timer_fires-IsQuiet :
    (o : Option (Redial × ℕ)) (n : ℕ) (q : EventStream) (now : ℕ)
    → o ≡ none
    → IsQuiet n q
    → IsQuiet n (timer_fires o q now)
unfolding timer_fires
timer_fires-IsQuiet none n q now e h = h
timer_fires-IsQuiet (some t) n q now e h = ground arith

held-IsQuiet : (n : ℕ) (q : EventStream) (role : Role) → IsQuiet n q → held q role ≡ none
unfolding held IsQuiet
held-IsQuiet n q live h = ground arith
held-IsQuiet n q standby h = ground arith

handshake_timeout-IsQuiet :
    (n : ℕ) (q : EventStream) (k : Socket) (now : ℕ) (random : Fraction)
    → IsQuiet n q
    → IsQuiet n (handshake_timeout q k now random)
unfolding handshake_timeout IsQuiet
handshake_timeout-IsQuiet n q k now random h = ground arith

handle-IsQuiet :
    (e : StreamEvent) (n : ℕ) (q : EventStream) (now jitter : ℕ) (random : Fraction)
    → is_restart e ≡ false
    → IsQuiet n q
    → IsQuiet n (handle e q now jitter random)
unfolding handle IsQuiet
handle-IsQuiet stopping n q now jitter random e h = ground (arith, stop-IsQuiet q now)
handle-IsQuiet restarting n q now jitter random e h = ground arith
handle-IsQuiet (fetched k) n q now jitter random e h =
    end_fetch-IsQuiet arrived (pick k q.fetches) n q now random h
handle-IsQuiet (failed_fetch k) n q now jitter random e h =
    end_fetch-IsQuiet failed (pick k q.fetches) n q now random h
handle-IsQuiet (unusable_fetch k) n q now jitter random e h =
    end_fetch-IsQuiet unusable (pick k q.fetches) n q now random h
handle-IsQuiet (opens role) n q now jitter random e h =
    socket_reports-IsQuiet report_open (held q role) n q now jitter random (held-IsQuiet n q role h)
      h
handle-IsQuiet (closes role) n q now jitter random e h =
    socket_reports-IsQuiet report_close (held q role) n q now jitter random
      (held-IsQuiet n q role h) h
handle-IsQuiet (begins_closing role) n q now jitter random e h =
    socket_reports-IsQuiet report_closing (held q role) n q now jitter random
      (held-IsQuiet n q role h) h
handle-IsQuiet (handshake_expires role) n q now jitter random e h =
    socket_reports-IsQuiet report_timeout (held q role) n q now jitter random
      (held-IsQuiet n q role h) h
handle-IsQuiet (stale_handshake_expires k) n q now jitter random e h =
    handshake_timeout-IsQuiet n q k now random h
handle-IsQuiet refresh_due n q now jitter random e h = ground arith
handle-IsQuiet reconnect_due n q now jitter random e h =
    timer_fires-IsQuiet q.reconnect_timer n q now (ground arith) h
handle-IsQuiet recovery_due n q now jitter random e h = ground arith

-- In every state that follows a stop of the stream, whatever its state was, through any steps but a
-- start: the stream is stopped, holds no socket and no candidate, has no timer set, and has opened no
-- socket since; so what was in flight at the stop does not bring the connection back.
pub AfterStop-IsQuiet : (s q : EventStream) → AfterStop s q → IsQuiet s.sockets q
AfterStop-IsQuiet s q (stopped now) = stop-IsQuiet s now
AfterStop-IsQuiet s q (later before past e h now jitter random) =
    handle-IsQuiet e s.sockets before now jitter random h (AfterStop-IsQuiet s before past)
