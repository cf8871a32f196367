-- ===== src/Platform/Start.antt =====
-- The start of src/platform.ts: `#start`, and the loop of `#awaitInitialDiscovery`. Its awaits end in
-- steps of their own. The push connection, which `#start` opens at its end, and the start of the
-- diagnostics are left out.
use homebridge_myalarmcom.Common.{ℕ, ◌+◌, Option, none, some, leb, if◌then◌else◌}
use homebridge_myalarmcom.Errors.{Thrown}
use homebridge_myalarmcom.Retry.{Fraction}
use homebridge_myalarmcom.Startup.{initial_discovery_retry_delay_ms}
use homebridge_myalarmcom.Platform.{
  Platform, StartPhase, launching, given_up, started, discovering, retry_waiting, start_polling,
  start_keep_alive,
}

-- The head of the loop: a discovery begins, and stamps its time.
unfoldable pub begin_discovery : Platform → ℕ → ℕ → Platform
begin_discovery p attempt now =
    if p.is_shutting_down
    then record p { start = given_up }
    else record p { start = discovering attempt; last_discovery_at = now }

-- `didFinishLaunching`
unfoldable pub launch_in : StartPhase → Platform → ℕ → Platform
unfolding begin_discovery
launch_in launching p now = begin_discovery p 0 now
launch_in _ p now = p

unfoldable pub launch : Platform → ℕ → Platform
unfolding launch_in
launch p now = launch_in p.start p now

-- What is made of the delay before the next attempt; `none` is a failure that is not retried.
abbrev pub wait_or_give_up : Option ℕ → Platform → ℕ → ℕ → Platform
wait_or_give_up none p attempt now = record p {
  start = given_up;
  errors_logged = p.errors_logged + 1;
}
wait_or_give_up (some delay_ms) p attempt now = record p {
  start = retry_waiting attempt (now + delay_ms);
}

unfoldable pub discovery_fails_in : StartPhase → Platform → Thrown → Fraction → ℕ → Platform
discovery_fails_in (discovering attempt) p error random now =
    if p.is_shutting_down
    then record p { start = given_up }
    else wait_or_give_up (initial_discovery_retry_delay_ms error (attempt + 1) random now) p
        (attempt + 1) now
discovery_fails_in _ p error random now = p

-- The discovery in flight ends with an error.
unfoldable pub discovery_fails : Platform → Thrown → Fraction → ℕ → Platform
unfolding discovery_fails_in
discovery_fails p error random now = discovery_fails_in p.start p error random now

unfoldable pub discovery_succeeds_in : StartPhase → Platform → Platform
discovery_succeeds_in (discovering attempt) p =
    if p.is_shutting_down
    then record p { start = given_up }
    else start_keep_alive (start_polling (record p { start = started }))
discovery_succeeds_in _ p = p

-- The discovery in flight ends well, and the rest of `#start` follows.
unfoldable pub discovery_succeeds : Platform → Platform
unfolding discovery_succeeds_in
discovery_succeeds p = discovery_succeeds_in p.start p

-- The wait of `#sleepUnlessShuttingDown` ends, no earlier than it is due.
unfoldable pub retry_fires_in : StartPhase → Platform → ℕ → Platform
unfolding begin_discovery
retry_fires_in (retry_waiting attempt due) p now =
    if leb due now then begin_discovery p attempt now else p
retry_fires_in _ p now = p

unfoldable pub retry_fires : Platform → ℕ → Platform
unfolding retry_fires_in
retry_fires p now = retry_fires_in p.start p now
