-- ===== src/EventStream.antt =====
-- src/api/event-stream.ts: the push connection, its state here and its steps in EventStream/Steps.
-- A socket is its number, the generation and the role of the handshake that it was opened for, and
-- its `readyState`. A token fetch in flight is the attempt that waits for it. `#handshakeSettle` only
-- completes the promise of `start`, and is left out, as are the lines of the log.
pub mod Steps
pub mod Endpoint
pub mod Messages
pub mod Run
pub mod Alive
pub mod Liveness
pub mod Stopped
mod Tests
use homebridge_myalarmcom.Common.{
  ℕ, ◌+◌, ◌-◌, ◌≡◌, max, Bool, true, false, not, ◌&&◌, ◌||◌, Option, none, some, List, [], ◌∷◌, ltb,
  leb, ◌==◌, if◌then◌else◌,
}
use homebridge_myalarmcom.Settings.{
  websocket_reconnect_base_ms, websocket_reconnect_max_ms, websocket_max_failures,
  websocket_recovery_interval_ms, websocket_refresh_interval_ms,
}
use homebridge_myalarmcom.Retry.{Fraction, compute_backoff_ms}

pub data ReadyState : Type 0 where
  connecting opened closing closed : ReadyState

pub record Socket : Type 0 where
  pub id : ℕ
  pub generation : ℕ
  pub is_refresh_candidate : Bool
  pub ready_state : ReadyState

-- What the callback of `#reconnectTimer` does: `#connect`, or `#reconnect('refresh')`.
pub data Redial : Type 0 where
  connect_again refresh_again : Redial

pub data ConnectReason : Type 0 where
  initial refresh drop : ConnectReason

-- A `ConnectAttempt`, with the generation that it must find unchanged.
pub record ConnectAttempt : Type 0 where
  pub should_defer_dispose : Bool
  pub generation : ℕ

pub data Notice : Type 0 where
  unavailable reconnected recovered : Notice

-- The timers hold their delays; `sockets` is the number of sockets opened so far, `notices` the
-- callbacks made, newest first.
pub record EventStream : Type 0 where
  pub socket : Option Socket
  pub candidate : Option Socket
  pub reconnect_timer : Option (Redial × ℕ)
  pub refresh_timer : Option ℕ
  pub recovery_timer : Bool
  pub consecutive_failures : ℕ
  pub is_stopped : Bool
  pub is_connecting : Bool
  pub had_connected : Bool
  pub has_given_up : Bool
  pub give_up_count : ℕ
  pub disconnected_at : Option ℕ
  pub connect_generation : ℕ
  pub connect_reason : ConnectReason
  pub fetches : List ConnectAttempt
  pub sockets : ℕ
  pub notices : List Notice

unfoldable pub new_event_stream : EventStream
new_event_stream = record {
  socket = none;
  candidate = none;
  reconnect_timer = none;
  refresh_timer = none;
  recovery_timer = false;
  consecutive_failures = 0;
  is_stopped = false;
  is_connecting = false;
  had_connected = false;
  has_given_up = false;
  give_up_count = 0;
  disconnected_at = none;
  connect_generation = 0;
  connect_reason = initial;
  fetches = [];
  sockets = 0;
  notices = [];
}

abbrev pub is_open_state : ReadyState → Bool
is_open_state opened = true
is_open_state _ = false

abbrev pub is_open_socket : Option Socket → Bool
is_open_socket none = false
is_open_socket (some s) = is_open_state s.ready_state

-- `isConnected`
abbrev pub is_connected : EventStream → Bool
is_connected s = is_open_socket s.socket

abbrev pub is_timer {ℓ} : {A : Type ℓ} → Option A → Bool
is_timer none = false
is_timer (some _) = true

abbrev pub is_refresh : ConnectReason → Bool
is_refresh refresh = true
is_refresh _ = false

abbrev since : Option ℕ → ℕ → Option ℕ
since none now = some now
since (some at) now = some at

unfoldable pub note_disconnect : EventStream → ℕ → EventStream
note_disconnect s now = record s { disconnected_at = since s.disconnected_at now }

unfoldable dispose_socket_in : Option Socket → EventStream → ℕ → EventStream
unfolding note_disconnect
dispose_socket_in none s now = s
dispose_socket_in (some socket) s now =
    let gone = record s { socket = none } in
    if is_open_state socket.ready_state || s.had_connected then note_disconnect gone now else gone

unfoldable pub dispose_socket : EventStream → ℕ → EventStream
unfolding dispose_socket_in
dispose_socket s now = dispose_socket_in s.socket s now

unfoldable pub dispose_candidate : EventStream → EventStream
dispose_candidate s = record s { candidate = none }

unfoldable pub clear_timers : EventStream → EventStream
clear_timers s = record s { reconnect_timer = none; refresh_timer = none; recovery_timer = false }

unfoldable pub schedule_recovery : EventStream → EventStream
schedule_recovery s =
    if s.is_stopped || s.recovery_timer then s else record s { recovery_timer = true }

-- One more failure than is tolerated: the stream gives up until the recovery timer fires.
unfoldable give_up : EventStream → EventStream
unfolding schedule_recovery
give_up s =
    let count = s.give_up_count + 1 in
    schedule_recovery (record s {
      has_given_up = true;
      give_up_count = count;
      notices = if count == 1 then unavailable ∷ s.notices else s.notices;
    })

unfoldable pub schedule_reconnect : EventStream → Fraction → EventStream
unfolding give_up
schedule_reconnect s random =
    let failed = record s { consecutive_failures = s.consecutive_failures + 1 } in
    if s.is_stopped || is_timer s.reconnect_timer || s.recovery_timer
    then s
    else if ltb websocket_max_failures failed.consecutive_failures
    then give_up failed
    else record failed {
      connect_reason = drop;
      reconnect_timer = some (
        connect_again,
        compute_backoff_ms failed.consecutive_failures websocket_reconnect_base_ms
            websocket_reconnect_max_ms random,
      );
    }

unfoldable pub schedule_refresh_retry : EventStream → EventStream
schedule_refresh_retry s = if s.is_stopped || is_timer s.reconnect_timer then s else record s {
  connect_reason = refresh;
  reconnect_timer = some (refresh_again, websocket_reconnect_base_ms);
}

-- `jitter_ms` is the jitter rounded up, since a timer's delay is rounded down.
unfoldable pub schedule_refresh : EventStream → ℕ → EventStream
schedule_refresh s jitter_ms = record s {
  refresh_timer =
      some (max websocket_reconnect_base_ms (websocket_refresh_interval_ms - jitter_ms));
}

abbrev notify_if : Bool → Notice → List Notice → List Notice
notify_if b notice notices = if b then notice ∷ notices else notices

unfoldable pub handle_open : EventStream → ℕ → EventStream
unfolding schedule_refresh
handle_open s jitter_ms =
    schedule_refresh
      (record s {
        is_connecting = false;
        consecutive_failures = 0;
        give_up_count = 0;
        disconnected_at = none;
        connect_reason = drop;
        has_given_up = false;
        had_connected = true;
        notices = notify_if s.has_given_up recovered (
            notify_if (s.had_connected && not (is_refresh s.connect_reason)) reconnected s.notices);
      })
      jitter_ms

unfoldable pub handle_close : EventStream → ℕ → Fraction → EventStream
unfolding schedule_reconnect note_disconnect
handle_close s now random =
    if s.is_stopped
    then s
    else schedule_reconnect
        (record (note_disconnect (record s { is_connecting = false }) now) {
          refresh_timer = none;
          reconnect_timer = none;
          connect_reason = drop;
        })
        random
