-- ===== src/EventStream/Tests.antt =====
-- Concrete runs of the push connection, and the witnesses.
use homebridge_myalarmcom.Common.{ℕ, ◌≡◌, ◌⊎◌, refl, true, Option, none, some, [], ◌∷◌}
use homebridge_myalarmcom.Retry.{Fraction}
use homebridge_myalarmcom.EventStream.{EventStream, connect_again, new_event_stream}
use homebridge_myalarmcom.EventStream.Steps.{start, stop}
use homebridge_myalarmcom.EventStream.Run.{
  live, fetched, opens, closes, handle, Run, started, stepped,
}
use homebridge_myalarmcom.Js.{Value, string, number, whole, pos}
use homebridge_myalarmcom.EventStream.Endpoint.{
  Url, IsTrusted, alarm_com_apex_host, wss_protocol, default_websocket_endpoint, resolve_endpoint,
  resolve_endpoint-IsTrusted,
}
use homebridge_myalarmcom.EventStream.Messages.{AlarmComEvent, handle_message}
use homebridge_myalarmcom.EventStream.Alive.{is_alive}
use homebridge_myalarmcom.EventStream.Liveness.{run_is_alive}
use homebridge_myalarmcom.EventStream.Stopped.{stopped, later, IsQuiet, AfterStop-IsQuiet}

abbrev half : Fraction
half = record { num = 1; den = 2 }

abbrev dialing : EventStream
dialing = start new_event_stream 0

abbrev token_in : EventStream
token_in = handle (fetched 0) dialing 100 0 half

abbrev online : EventStream
online = handle (opens live) token_in 200 500 half

abbrev lost : EventStream
lost = handle (closes live) online 9000 0 half

abbrev lost_run : Run lost
lost_run =
    stepped online
      (stepped token_in (stepped dialing (started 0) (fetched 0) 100 0 half) (opens live) 200 500
        half)
      (closes live) 9000 0 half

-- The socket has closed and what is left is the reconnect timer, at its base delay.
lost_delay : lost.reconnect_timer ≡ some (connect_again, 5000)
unfolding start handle new_event_stream homebridge_myalarmcom.Retry.compute_backoff_ms
lost_delay = refl

run_is_alive_example : is_alive lost ≡ true
run_is_alive_example = run_is_alive lost lost_run

-- The token of a fetch that was in flight at the stop arrives after it.
AfterStop-IsQuiet_example :
    IsQuiet dialing.sockets (handle (fetched 0) (stop dialing 50) 100 0 half)
AfterStop-IsQuiet_example =
    AfterStop-IsQuiet dialing (handle (fetched 0) (stop dialing 50) 100 0 half)
      (later (stop dialing 50) (stopped 50) (fetched 0) refl 100 0 half)

-- A response that names a host of its own: the token goes to the default endpoint.
abbrev elsewhere : Value
elsewhere = string (101 ∷ 118 ∷ 105 ∷ 108 ∷ [])

abbrev parse_as_host : Value → Option Url
parse_as_host (string host) = some (record { protocol = wss_protocol; hostname = host })
parse_as_host _ = none

refused_host : resolve_endpoint parse_as_host (some elsewhere) ≡ default_websocket_endpoint
unfolding resolve_endpoint
refused_host = refl

abbrev apex : Value
apex = string alarm_com_apex_host

resolve_endpoint-IsTrusted_example :
    (resolve_endpoint parse_as_host (some apex) ≡ default_websocket_endpoint)
    ⊎ ((reported : Value) × (some apex ≡ some reported)
        × (resolve_endpoint parse_as_host (some apex) ≡ reported)
        × ((url : Url) × (parse_as_host reported ≡ some url) × IsTrusted url))
resolve_endpoint-IsTrusted_example = resolve_endpoint-IsTrusted parse_as_host (some apex)

-- A frame of a user's login is dropped, and one with a text for a device is not usable.
abbrev frame : ℕ → Value → AlarmComEvent
frame type device = record {
  unit_id = number (whole (pos 1234));
  device_id = device;
  event_type = number (whole (pos type));
}

login_dropped : handle_message (some (frame 55 (number (whole (pos 17))))) ≡ none
unfolding handle_message
login_dropped = refl

text_dropped : handle_message (some (frame 15 elsewhere)) ≡ none
unfolding handle_message
text_dropped = refl
