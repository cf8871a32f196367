-- ===== src/EventStream/Steps.antt =====
-- The steps of the push connection: `start`, `stop`, the end of a token fetch, what a socket or a
-- handshake timer reports, and the timers. Each is the whole handler in the source.
use homebridge_myalarmcom.Common.{
  ℕ, ◌+◌, Bool, true, false, not, ◌&&◌, ◌||◌, Option, none, some, ◌∷◌, ◌==◌, if◌then◌else◌,
}
use homebridge_myalarmcom.Retry.{Fraction}
use homebridge_myalarmcom.EventStream.{
  ReadyState, connecting, Socket, Redial, connect_again, refresh_again, ConnectReason, initial,
  refresh, drop, ConnectAttempt, EventStream, is_connected, is_timer, is_refresh, dispose_socket,
  dispose_candidate, clear_timers, schedule_reconnect, schedule_refresh_retry, handle_open,
  handle_close,
}

-- `#beginAttempt`
unfoldable pub begin_attempt : EventStream → ℕ → EventStream × ConnectAttempt
unfolding dispose_candidate dispose_socket
begin_attempt s now =
    let should_defer_dispose = is_refresh s.connect_reason && is_connected s in
    let owned =
      if should_defer_dispose
      then s
      else dispose_socket
          (dispose_candidate (record s { connect_generation = s.connect_generation + 1 })) now in
    (
      record owned { is_connecting = true },
      record { should_defer_dispose = should_defer_dispose; generation = owned.connect_generation },
    )

-- `#connect`, up to its wait for the token.
unfoldable pub connect : EventStream → ℕ → EventStream
unfolding begin_attempt
connect s now =
    let (begun, attempt) = begin_attempt s now in
    if s.is_stopped then s else record begun { fetches = attempt ∷ begun.fetches }

unfoldable pub start : EventStream → ℕ → EventStream
unfolding connect clear_timers
start s now =
    connect
      (clear_timers (record s {
        is_stopped = false;
        has_given_up = false;
        give_up_count = 0;
        consecutive_failures = 0;
        had_connected = false;
        disconnected_at = none;
        connect_reason = initial;
      }))
      now

unfoldable pub stop : EventStream → ℕ → EventStream
unfolding dispose_socket dispose_candidate clear_timers
stop s now =
    dispose_socket
      (dispose_candidate (
        clear_timers (record s {
          is_stopped = true;
          connect_generation = s.connect_generation + 1;
          is_connecting = false;
        })))
      now

abbrev pub is_superseded : ConnectAttempt → EventStream → Bool
is_superseded attempt s = not (attempt.generation == s.connect_generation)

unfoldable pub reconnect : EventStream → ConnectReason → ℕ → EventStream
unfolding connect
reconnect s reason now = connect (record s { reconnect_timer = none; connect_reason = reason }) now

-- `#openSocket`, up to its wait for the handshake.
unfoldable pub open_socket : EventStream → ConnectAttempt → ℕ → EventStream
unfolding dispose_socket dispose_candidate
open_socket s attempt now =
    let opening = λ (generation : ℕ) (is_candidate : Bool).
      let socket : Socket = record {
        id = s.sockets;
        generation = generation;
        is_refresh_candidate = is_candidate;
        ready_state = connecting;
      } in
      socket in
    if attempt.should_defer_dispose && is_connected s
    then record (dispose_candidate (record s { connect_generation = s.connect_generation + 1 })) {
      candidate = some (opening (s.connect_generation + 1) true);
      sockets = s.sockets + 1;
    }
    else record (dispose_socket (dispose_candidate s) now) {
      socket = some (opening s.connect_generation false);
      sockets = s.sockets + 1;
    }

-- A drop during the token fetch owns recovery.
abbrev pub is_abandoned : ConnectAttempt → EventStream → Bool
is_abandoned attempt s =
    attempt.should_defer_dispose && (is_timer s.reconnect_timer || not (is_connected s))

-- The token arrives: `#stillOwnsConnection` and `#openSocket`.
unfoldable pub token_arrives : EventStream → ConnectAttempt → ℕ → EventStream
unfolding open_socket
token_arrives s attempt now =
    let unowned = record s { is_connecting = false } in
    if s.is_stopped
    then (if is_superseded attempt s then s else unowned)
    else if is_superseded attempt s
    then s
    else if is_abandoned attempt s
    then unowned
    else open_socket s attempt now

-- The token fetch fails: `#handleConnectFailure`.
unfoldable pub token_fails : EventStream → ConnectAttempt → Fraction → EventStream
unfolding schedule_refresh_retry schedule_reconnect
token_fails s attempt random =
    let idle = record s { is_connecting = false } in
    if s.is_stopped || is_superseded attempt s
    then s
    else if is_abandoned attempt s
    then idle
    else if attempt.should_defer_dispose && is_connected s
    then schedule_refresh_retry idle
    else schedule_reconnect idle random

abbrev pub is_socket : Option Socket → Socket → Bool
is_socket none socket = false
is_socket (some held) socket = held.id == socket.id

-- The constructor of the socket throws in `#openSocket`, and `#handleConnectFailure` follows.
unfoldable pub open_throws : EventStream → ConnectAttempt → ℕ → Fraction → EventStream
unfolding dispose_socket dispose_candidate token_fails
open_throws s attempt now random =
    if attempt.should_defer_dispose && is_connected s
    then token_fails
        (dispose_candidate (record s { connect_generation = s.connect_generation + 1 })) attempt
        random
    else token_fails (dispose_socket (dispose_candidate s) now) attempt random

-- The token arrives, and no socket can be opened at its endpoint.
unfoldable pub token_unusable : EventStream → ConnectAttempt → ℕ → Fraction → EventStream
unfolding open_throws
token_unusable s attempt now random =
    let unowned = record s { is_connecting = false } in
    if s.is_stopped
    then (if is_superseded attempt s then s else unowned)
    else if is_superseded attempt s
    then s
    else if is_abandoned attempt s
    then unowned
    else open_throws s attempt now random

-- `#onHandshakeTimeout`
unfoldable pub handshake_timeout : EventStream → Socket → ℕ → Fraction → EventStream
unfolding dispose_candidate dispose_socket schedule_refresh_retry schedule_reconnect
handshake_timeout s socket now random =
    let idle = record s { is_connecting = false } in
    let disposed = dispose_socket (dispose_candidate idle) now in
    if not (socket.generation == s.connect_generation)
    then s
    else if socket.is_refresh_candidate && is_socket s.candidate socket && is_connected s
    then (if s.is_stopped
        then dispose_candidate idle
        else schedule_refresh_retry (dispose_candidate idle))
    else if not (is_socket s.socket socket) && not (is_socket s.candidate socket)
    then idle
    else if s.is_stopped
    then disposed
    else schedule_reconnect disposed random

-- A socket reports a state: it is the live one or the candidate.
abbrev pub mark : ReadyState → Option Socket → Socket → Option Socket
mark state none socket = none
mark state (some held) socket =
    if held.id == socket.id then some (record held { ready_state = state }) else some held

unfoldable pub marked : EventStream → ReadyState → Socket → EventStream
marked s state socket = record s {
  socket = mark state s.socket socket;
  candidate = mark state s.candidate socket;
}

-- `#onHandshakeOpen`, for a socket that has come to `OPEN`.
unfoldable pub handshake_open : EventStream → Socket → ℕ → EventStream
unfolding handle_open
handshake_open s socket jitter_ms =
    if not (socket.generation == s.connect_generation)
    then s
    else if socket.is_refresh_candidate
    then (if is_socket s.candidate socket
        then handle_open (record s { socket = s.candidate; candidate = none }) jitter_ms
        else s)
    else if is_socket s.socket socket
    then handle_open s jitter_ms
    else s

-- `#onHandshakeClose`, for a socket that has come to `CLOSED`.
unfoldable pub handshake_close : EventStream → Socket → ℕ → Fraction → EventStream
unfolding dispose_candidate schedule_refresh_retry handle_close
handshake_close s socket now random =
    let without = record s { candidate = none; is_connecting = false } in
    if socket.is_refresh_candidate && is_socket s.candidate socket
    then (if is_connected s && not s.is_stopped
        then schedule_refresh_retry without
        else if not s.is_stopped && not (is_connected s)
        then handle_close without now random
        else without)
    else if is_socket s.socket socket
    then (if s.is_stopped
        then dispose_candidate s
        else handle_close (dispose_candidate s) now random)
    else s

unfoldable pub refresh_timer_fires : EventStream → ℕ → EventStream
unfolding reconnect
refresh_timer_fires s now = reconnect (record s { refresh_timer = none }) refresh now

unfoldable pub redial : Redial → EventStream → ℕ → EventStream
unfolding connect reconnect
redial connect_again s now = connect s now
redial refresh_again s now = reconnect s refresh now

unfoldable pub reconnect_timer_fires : EventStream → Redial → ℕ → EventStream
unfolding redial
reconnect_timer_fires s kind now = redial kind (record s { reconnect_timer = none }) now

unfoldable pub recovery_timer_fires : EventStream → ℕ → EventStream
unfolding connect
recovery_timer_fires s now =
    let fired = record s { recovery_timer = false } in
    if s.is_stopped
    then fired
    else connect (record fired { consecutive_failures = 0; connect_reason = drop }) now
