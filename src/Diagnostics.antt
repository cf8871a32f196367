-- ===== src/Diagnostics.antt =====
-- src/diagnostics/collector.ts: the counters, the windows of recent samples and the health of the
-- plugin. The counters are a function of their names. Durations are differences of two readings of
-- the clock, in whole milliseconds, and negative where it was stepped back.
pub mod Heartbeats
pub mod Windows
mod Tests
use homebridge_myalarmcom.Common.{
  ℕ, zero, suc, ◌+◌, ◌-◌, ◌*◌, ◌/◌, min, Bool, true, false, not, ◌&&◌, ◌||◌, Option, none, some,
  List, [], ◌∷◌, ◌++◌, length, skip, get_elem?, ltb, leb, if◌then◌else◌,
}
use homebridge_myalarmcom.Js.{ℤ, pos, negsuc}
use homebridge_myalarmcom.Circuit.{CircuitState, closed, opened, half_open}

abbrev pub latency_window : ℕ
latency_window = 200

abbrev pub outcome_window : ℕ
outcome_window = 50

abbrev pub api_error_min_samples : ℕ
api_error_min_samples = 10

abbrev pub ws_down_threshold_sec : ℕ
ws_down_threshold_sec = 60

pub data Counter : Type 0 where
  api_requests api_errors poll_ok poll_failed ws_reconnects breaker_trips : Counter
  throttles session_logins commands_sent external_changes retries : Counter

abbrev pub number_of : Counter → ℕ
number_of api_requests = 0
number_of api_errors = 1
number_of poll_ok = 2
number_of poll_failed = 3
number_of ws_reconnects = 4
number_of breaker_trips = 5
number_of throttles = 6
number_of session_logins = 7
number_of commands_sent = 8
number_of external_changes = 9
number_of retries = 10

abbrev pub same_counter : Counter → Counter → Bool
same_counter k l = leb (number_of k) (number_of l) && leb (number_of l) (number_of k)

-- `marker` holds the counters at the last heartbeat. The windows are oldest first.
pub record DiagnosticsCollector : Type 0 where
  pub counters : Counter → ℕ
  pub marker : Counter → ℕ
  pub last_trip_at : Option ℕ
  pub last_poll_duration_ms : Option ℕ
  pub latencies : List ℕ
  pub recent_outcomes : List Bool

unfoldable pub new_collector : DiagnosticsCollector
new_collector = record {
  counters = λ k. 0;
  marker = λ k. 0;
  last_trip_at = none;
  last_poll_duration_ms = none;
  latencies = [];
  recent_outcomes = [];
}

unfoldable pub add_to : DiagnosticsCollector → Counter → ℕ → DiagnosticsCollector
add_to c k n = record c {
  counters = λ l. if same_counter k l then c.counters l + n else c.counters l;
}

-- `push`, and `shift` where the window is then too long.
unfoldable pub push_window {ℓ} : {A : Type ℓ} → ℕ → List A → A → List A
push_window limit xs x =
    let pushed = xs ++ x ∷ [] in if ltb limit (length pushed) then skip 1 pushed else pushed

unfoldable pub push_latency : DiagnosticsCollector → ℤ → Bool → DiagnosticsCollector
unfolding push_window
push_latency c (negsuc n) was_networked = c
push_latency c (pos n) was_networked =
    if was_networked then record c { latencies = push_window latency_window c.latencies n } else c

unfoldable pub api_request : DiagnosticsCollector → ℤ → Bool → Bool → DiagnosticsCollector
unfolding add_to push_latency push_window
api_request c latency_ms is_ok was_networked =
    let asked = add_to c api_requests 1 in
    let counted = if is_ok then asked else add_to asked api_errors 1 in
    let timed = push_latency counted latency_ms was_networked in
    record timed { recent_outcomes = push_window outcome_window timed.recent_outcomes is_ok }

abbrev pub or_kept : ℤ → Option ℕ → Option ℕ
or_kept (pos n) last = some n
or_kept (negsuc n) last = last

unfoldable pub poll_cycle : DiagnosticsCollector → ℕ → ℕ → ℤ → DiagnosticsCollector
unfolding add_to
poll_cycle c ok_count failed_count duration_ms =
    let counted = add_to (add_to c poll_ok ok_count) poll_failed failed_count in
    record counted { last_poll_duration_ms = or_kept duration_ms c.last_poll_duration_ms }

unfoldable pub breaker_trip : DiagnosticsCollector → ℕ → DiagnosticsCollector
unfolding add_to
breaker_trip c now = record (add_to c breaker_trips 1) { last_trip_at = some now }

-- The counters of a heartbeat are what was counted since the one before.
unfoldable pub build_heartbeat : DiagnosticsCollector → DiagnosticsCollector × (Counter → ℕ)
build_heartbeat c = (record c { marker = c.counters }, λ k. c.counters k - c.marker k)

-- The counters of a snapshot are those of the whole session.
abbrev pub snapshot : DiagnosticsCollector → Counter → ℕ
snapshot c = c.counters

-- What the collector is told, and the heartbeats that are taken. `counted` is one of the calls that
-- add one to their counter: `wsReconnect`, `throttle`, `sessionLogin`, `command`, `externalChange`
-- and `retry`.
pub data Call : Type 0 where
  request_made : ℤ → Bool → Bool → Call
  polled : ℕ → ℕ → ℤ → Call
  tripped : ℕ → Call
  counted : Counter → Call
  heartbeat : Call

unfoldable pub apply : DiagnosticsCollector → Call → DiagnosticsCollector
unfolding api_request poll_cycle breaker_trip add_to build_heartbeat
apply c (request_made latency_ms is_ok was_networked) = api_request c latency_ms is_ok was_networked
apply c (polled ok_count failed_count duration_ms) = poll_cycle c ok_count failed_count duration_ms
apply c (tripped now) = breaker_trip c now
apply c (counted k) = add_to c k 1
apply c heartbeat = let (marked, delta) = build_heartbeat c in marked

unfoldable pub apply_all : DiagnosticsCollector → List Call → DiagnosticsCollector
apply_all c [] = c
apply_all c (call ∷ calls) = apply_all (apply c call) calls

pub data Reason : Type 0 where
  circuit_breaker_open web_socket_down api_error_rate_high : Reason

-- `isConnected` and `disconnectAgeSec` of the push connection.
pub record WsStatus : Type 0 where
  pub is_connected : Bool
  pub disconnect_age_sec : Option ℕ

abbrev pub is_past_threshold : Option ℕ → Bool
is_past_threshold none = false
is_past_threshold (some age) = ltb ws_down_threshold_sec age

abbrev pub is_down : Option WsStatus → Bool
is_down none = false
is_down (some ws) = not ws.is_connected && is_past_threshold ws.disconnect_age_sec

abbrev pub failures : List Bool → ℕ
failures [] = 0
failures (ok ∷ outcomes) = if ok then failures outcomes else failures outcomes + 1

-- `errors / total > 0.5`, with the total that the division needs.
unfoldable pub is_error_rate_high : List Bool → Bool
is_error_rate_high outcomes =
    leb api_error_min_samples (length outcomes) && ltb (length outcomes) (2 * failures outcomes)

abbrev pub is_breaker_open : CircuitState → Bool
is_breaker_open opened = true
is_breaker_open _ = false

abbrev pub reason_if : Bool → Reason → List Reason → List Reason
reason_if b reason rest = if b then reason ∷ rest else rest

-- The reasons of `rollup`; the plugin is healthy where there is none.
unfoldable pub rollup : DiagnosticsCollector → CircuitState → Option WsStatus → Bool → List Reason
unfolding is_error_rate_high
rollup c breaker ws is_event_stream_expected =
    reason_if (is_breaker_open breaker) circuit_breaker_open (
      reason_if (is_event_stream_expected && is_down ws) web_socket_down
        (reason_if (is_error_rate_high c.recent_outcomes) api_error_rate_high []))
