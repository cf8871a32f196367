-- ===== src/Diagnostics/Tests.antt =====
-- A short session, and the witnesses.
use homebridge_myalarmcom.Common.{◌+◌, ◌≡◌, refl, true, false, some, List, [], ◌∷◌, last}
use homebridge_myalarmcom.Js.{pos, negsuc}
use homebridge_myalarmcom.Circuit.{opened}
use homebridge_myalarmcom.Diagnostics.{
  Call, request_made, polled, tripped, counted, heartbeat, api_requests, retries, apply_all,
  new_collector, build_heartbeat, snapshot, circuit_breaker_open, web_socket_down, rollup,
}
use homebridge_myalarmcom.Diagnostics.Heartbeats.{heartbeats_sum, heartbeats_add_up}
use homebridge_myalarmcom.Diagnostics.Windows.{outcomes_after, durations_after, windows-AreLast}

-- Two requests, the second under a clock that was stepped back, a heartbeat, and a refused one.
abbrev session : List Call
session =
    request_made (pos 120) true true
    ∷ request_made (negsuc 4) true true
    ∷ counted retries
    ∷ heartbeat
    ∷ request_made (pos 3) false false
    ∷ []

one_duration : (apply_all new_collector session).latencies ≡ 120 ∷ []
unfolding apply_all new_collector homebridge_myalarmcom.Diagnostics.apply
one_duration = refl

two_reasons :
    rollup new_collector opened
      (some (record { is_connected = false; disconnect_age_sec = some 61 }))
      true
    ≡ circuit_breaker_open ∷ web_socket_down ∷ []
unfolding rollup new_collector
two_reasons = refl

windows-AreLast_example :
    ((apply_all new_collector session).recent_outcomes ≡ last 50 (outcomes_after [] session))
    × ((apply_all new_collector session).latencies ≡ last 200 (durations_after [] session))
windows-AreLast_example = windows-AreLast session

heartbeats_add_up_example :
    let (marked, delta) = build_heartbeat (apply_all new_collector session) in
    heartbeats_sum new_collector session api_requests + delta api_requests
    ≡ snapshot (apply_all new_collector session) api_requests
heartbeats_add_up_example = heartbeats_add_up session api_requests
