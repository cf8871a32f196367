-- ===== src/EventStream/Liveness.antt =====
-- The push connection never dies silently: over every history, either it has been stopped, or a live
-- socket, a timer or a token fetch will bring the next step.
use homebridge_myalarmcom.Common.{
  ℕ, zero, suc, ◌≡◌, refl, true, false, ◌||◌, Option, none, some, List, [], ◌∷◌, arith,
}
use homebridge_myalarmcom.Retry.{Fraction}
use homebridge_myalarmcom.EventStream.{
  opened, closed, Socket, Redial, connect_again, refresh_again, initial, refresh, drop,
  ConnectAttempt, EventStream, new_event_stream, dispose_socket, dispose_candidate, clear_timers,
  handle_open, schedule_refresh,
}
use homebridge_myalarmcom.EventStream.Steps.{
  start, stop, reconnect, handshake_timeout, marked, handshake_open, handshake_close,
  refresh_timer_fires, reconnect_timer_fires, recovery_timer_fires, redial,
}
use homebridge_myalarmcom.EventStream.Run.{
  StreamEvent, stopping, restarting, fetched, failed_fetch, unusable_fetch, stale_handshake_expires,
  FetchEnd, arrived, failed, unusable, opens, closes, begins_closing, handshake_expires,
  refresh_due, reconnect_due, recovery_due, held, behind, pick, end_fetch, Report, report_open,
  report_close, report_closing, report_timeout, socket_reports, timer_fires, handle, Run, started,
  stepped,
}
use homebridge_myalarmcom.EventStream.Alive.{
  is_driving, has_driving, is_alive, schedule_reconnect-alive, handle_close-alive, connect-alive,
  schedule_refresh_retry-alive, token_arrives-alive, token_fails-alive, token_unusable-alive,
}

pick-driving :
    (g n : ℕ) (as_ : List ConnectAttempt) (a : ConnectAttempt) (rest : List ConnectAttempt)
    → pick n as_ ≡ some (a, rest)
    → has_driving g as_ ≡ is_driving g a || has_driving g rest
unfolding pick has_driving
pick-driving g n [] a rest h = ground arith
pick-driving g zero (b ∷ bs) a rest h = ground arith
pick-driving g (suc n) (b ∷ bs) a rest h = go (pick n bs) refl (pick-driving g n bs) h
  where
    go :
        (o : Option (ConnectAttempt × List ConnectAttempt))
        → pick n bs ≡ o
        → ((c : ConnectAttempt) (more : List ConnectAttempt)
            → pick n bs ≡ some (c, more)
            → has_driving g bs ≡ is_driving g c || has_driving g more)
        → behind b o ≡ some (a, rest)
        → has_driving g (b ∷ bs) ≡ is_driving g a || has_driving g rest
    go none e ih e2 = ground arith
    go (some (c, more)) e ih e2 = ground (arith, ih c more e)

end_fetch-alive :
    (end : FetchEnd) (n : ℕ) (s : EventStream) (now : ℕ) (random : Fraction)
    → is_alive s ≡ true
    → is_alive (end_fetch end (pick n s.fetches) s now random) ≡ true
unfolding end_fetch
end_fetch-alive end n s now random h = go end (pick n s.fetches) refl
  where
    go :
        (b : FetchEnd) (o : Option (ConnectAttempt × List ConnectAttempt))
        → pick n s.fetches ≡ o
        → is_alive (end_fetch b o s now random) ≡ true
    go b none e = h
    go arrived (some (a, rest)) e =
        token_arrives-alive (record s { fetches = rest }) a now
          (ground (arith, pick-driving s.connect_generation n s.fetches a rest e))
    go unusable (some (a, rest)) e =
        token_unusable-alive (record s { fetches = rest }) a now random
          (ground (arith, pick-driving s.connect_generation n s.fetches a rest e))
    go failed (some (a, rest)) e =
        token_fails-alive (record s { fetches = rest }) a random
          (ground (arith, pick-driving s.connect_generation n s.fetches a rest e))

handshake_timeout-alive :
    (s : EventStream) (k : Socket) (now : ℕ) (random : Fraction)
    → is_alive s ≡ true
    → is_alive (handshake_timeout s k now random) ≡ true
unfolding handshake_timeout dispose_candidate
handshake_timeout-alive s k now random h = ground (
  arith,
  schedule_refresh_retry-alive (dispose_candidate (record s { is_connecting = false })),
  schedule_reconnect-alive
      (dispose_socket (dispose_candidate (record s { is_connecting = false })) now) random,
)

handshake_open-alive :
    (s : EventStream) (k : Socket) (jitter : ℕ)
    → is_alive s ≡ true
    → is_alive (handshake_open (marked s opened k) k jitter) ≡ true
unfolding handshake_open marked handle_open schedule_refresh
handshake_open-alive s k jitter h = ground arith

-- A socket that closes schedules the next attempt, unless another socket is the live one.
handshake_close-alive :
    (s : EventStream) (k : Socket) (now : ℕ) (random : Fraction)
    → is_alive s ≡ true
    → is_alive (handshake_close (marked s closed k) k now random) ≡ true
unfolding handshake_close marked dispose_candidate
handshake_close-alive s k now random h = ground (
  arith,
  handle_close-alive (record (marked s closed k) { candidate = none; is_connecting = false }) now
      random,
  handle_close-alive (record (marked s closed k) { candidate = none }) now random,
  schedule_refresh_retry-alive
      (record (marked s closed k) { candidate = none; is_connecting = false }),
)

socket_reports-alive :
    (report : Report) (o : Option Socket) (s : EventStream) (now jitter : ℕ) (random : Fraction)
    → is_alive s ≡ true
    → is_alive (socket_reports report o s now jitter random) ≡ true
unfolding socket_reports marked
socket_reports-alive report none s now jitter random h = h
socket_reports-alive report_open (some k) s now jitter random h = handshake_open-alive s k jitter h
socket_reports-alive report_close (some k) s now jitter random h =
    handshake_close-alive s k now random h
socket_reports-alive report_closing (some k) s now jitter random h = ground arith
socket_reports-alive report_timeout (some k) s now jitter random h =
    handshake_timeout-alive s k now random h

timer_fires-alive :
    (o : Option (Redial × ℕ)) (s : EventStream) (now : ℕ)
    → is_alive s ≡ true
    → is_alive (timer_fires o s now) ≡ true
unfolding timer_fires reconnect_timer_fires redial reconnect
timer_fires-alive none s now h = h
timer_fires-alive (some (connect_again, delay)) s now h =
    connect-alive (record s { reconnect_timer = none }) now
timer_fires-alive (some (refresh_again, delay)) s now h =
    connect-alive (record s { reconnect_timer = none; connect_reason = refresh }) now

start-alive : (s : EventStream) (now : ℕ) → is_alive (start s now) ≡ true
unfolding start
start-alive s now =
    connect-alive
      (clear_timers (record s {
        is_stopped = false;
        has_given_up = false;
        give_up_count = 0;
        consecutive_failures = 0;
        had_connected = false;
        disconnected_at = none;
        connect_reason = initial;
      }))
      now

handle-alive :
    (e : StreamEvent) (s : EventStream) (now jitter : ℕ) (random : Fraction)
    → is_alive s ≡ true
    → is_alive (handle e s now jitter random) ≡ true
unfolding handle stop refresh_timer_fires reconnect recovery_timer_fires
handle-alive stopping s now jitter random h = ground arith
handle-alive restarting s now jitter random h = start-alive s now
handle-alive (fetched n) s now jitter random h = end_fetch-alive arrived n s now random h
handle-alive (failed_fetch n) s now jitter random h = end_fetch-alive failed n s now random h
handle-alive (unusable_fetch n) s now jitter random h = end_fetch-alive unusable n s now random h
handle-alive (opens role) s now jitter random h =
    socket_reports-alive report_open (held s role) s now jitter random h
handle-alive (closes role) s now jitter random h =
    socket_reports-alive report_close (held s role) s now jitter random h
handle-alive (begins_closing role) s now jitter random h =
    socket_reports-alive report_closing (held s role) s now jitter random h
handle-alive (handshake_expires role) s now jitter random h =
    socket_reports-alive report_timeout (held s role) s now jitter random h
handle-alive (stale_handshake_expires k) s now jitter random h =
    handshake_timeout-alive s k now random h
handle-alive refresh_due s now jitter random h = ground (
  arith,
  connect-alive
      (record s { refresh_timer = none; reconnect_timer = none; connect_reason = refresh }) now,
)
handle-alive reconnect_due s now jitter random h = timer_fires-alive s.reconnect_timer s now h
handle-alive recovery_due s now jitter random h = ground (
  arith,
  connect-alive
      (record s { recovery_timer = false; consecutive_failures = 0; connect_reason = drop }) now,
)

-- Over every history of the push connection it never dies silently: either it has been stopped, or it
-- holds a live socket that its peer has not closed, or a reconnect or recovery timer is set, or a
-- token fetch is in flight whose attempt still owns the connection.
pub run_is_alive : (s : EventStream) → Run s → is_alive s ≡ true
run_is_alive s (started now) = start-alive new_event_stream now
run_is_alive s (stepped before run e now jitter random) =
    handle-alive e before now jitter random (run_is_alive before run)
