-- ===== src/Lib.antt =====
-- homebridge-myalarmcom is a Homebridge plugin that shows an Alarm.com security panel and its sensors
-- in HomeKit and sends HomeKit's arming commands back. These modules model its pacing and recovery
-- (the circuit breaker, the rate limiter, the retry loop, the sign-ins), the client that composes them,
-- the push connection, the signals to a pager, the translation between the two sides, the security
-- panel and sensor accessories, and the numeric settings.
--
-- The parts and their files:
-- - Settings: src/settings.ts, the constants that the modelled parts read.
-- - Errors: src/errors/index.ts. The classes are the constructors of `AlarmComError`; `code`,
--   `is_retryable`, `create_api_error` and `parse_retry_after_ms` carry the source's names.
-- - Circuit: src/api/circuit-breaker.ts. The class is the record `CircuitBreaker`; `execute` is
--   `begin_execute` up to its await and `settle_execute` after it.
-- - RateLimiter: src/api/rate-limiter.ts. `acquire` takes the times at which its turn comes and at
--   which its wait ends.
-- - Retry: src/utils/retry.ts. The loop of `withRetry` is `attempt_from`, on fuel that is one more
--   than the configured attempts, since the source's loop stops at that attempt.
-- - Session: src/api/session-manager.ts. `getSession` is `get_session`; the end of the floor's sleep,
--   of `authenticate` and of `keepAlive` are steps of their own.
-- - Http: src/api/http.ts. `httpRequest` is `http_request`, over what the fetch does. Http.Jar:
--   src/api/cookie-jar.ts.
-- - Client: src/api/client.ts. `#guardedAttempt` is `guarded_attempt`, `#withSessionRecovery` is
--   `with_session_recovery`; Client.Calls has `#request`, `commandPartition` and `#getBatched`,
--   Client.Outages the listener of the breaker, Client.Documents what is read out of responses. The
--   loop of `chunkIds` is on fuel, the number of ids, since each step takes at least one.
-- - EventStream: src/api/event-stream.ts. EventStream holds the state, EventStream.Steps the handlers
--   by the source's names, EventStream.Run the total step and its histories, EventStream.Endpoint
--   `#resolveEndpoint` and EventStream.Messages the filter of `#handleMessage`.
-- - Signals: src/alarmcom-signals.ts; Signals.Spec is what it promises. Signals.Store:
--   src/pagerduty-signals.ts, over a database given by the record `Database`.
-- - Startup: src/utils/discovery-retry.ts and src/utils/failure-log-level.ts.
-- - Js: the values of the language as an unvalidated response holds them.
-- - Alarm: src/types/alarm.ts. Mappers: src/utils/mappers.ts and the hints of src/types/events.ts.
-- - ChangeLog: src/devices/change-log.ts.
-- - Partition: src/devices/partition.ts. `update` is a poll's reading; `handle_target_state` is a
--   request from HomeKit up to the moment its command is out; `settle` is that command's end, and
--   `settle_rejected` its end where recording a late outcome throws. The histories of
--   `Partition.Ordering.Runs` leave the latter out.
-- - Sensor: src/devices/sensor.ts and src/devices/status-fault.ts. `update` is `update_sensor`; the
--   reset timer fires in a step of its own.
-- - Platform: src/platform.ts, what it schedules and reports. `#refreshAll` is `begin_refresh_all` up to
--   its await and `end_refresh_all` after it, `#withCycleDeadline` is the timer and the abort that they
--   and `cycle_deadline_fires` keep. Platform.Start: `#start` and the loop of `#awaitInitialDiscovery`.
--   Platform.Events holds the events, Platform.Pushes `#handleDeviceEvent`.
-- - Diagnostics: src/diagnostics/collector.ts, its counters, windows and health. A counter is a name,
--   and the counters are a function of it.
-- - Validators: src/utils/validators.ts, its clamped intervals and cookie characters.
-- - Common: shared notation, list functions and lemmas on numbers.
--
-- How the parts interact: an error of Errors decides whether Retry tries again, whether Session keeps
-- it as a permanent failure and whether Startup waits; Partition reads Alarm's attributes through
-- Mappers and reports through ChangeLog. An attempt of Client claims a slot of RateLimiter, asks
-- Circuit, sends through Http, and is run by Retry; Client.Outages reads the transitions that Circuit
-- reports. EventStream backs off by Retry. Platform tells Signals what a poll read or how it failed,
-- waits at its start as Startup says, and hands a pushed event to Mappers, Sensor and Diagnostics.
--
-- Time is a natural number of milliseconds that the caller gives. A difference of two times is
-- compared with the subtrahend on the other side. Random draws are fractions and their arithmetic is
-- exact. Awaited operations end in steps of their own, so their interleavings are the orders of the
-- steps in the history relations `Circuit.Invariant.Reach`, `RateLimiter.History.Runs`,
-- `Session.Histories.Runs`, `Partition.Ordering.Runs`, `Partition.Unread.Between`,
-- `Sensor.Published.Runs` and `EventStream.Run.Run`, and the lists of events of Platform.Events. The
-- end of a sign-in, and the clock where the code reads it, are arguments of an attempt of Client.
--
-- Parameters: the URL parser and `toLowerCase` of the runtime, the fetch, the socket library and the
-- database. What is used of them stands in the parameters' types and, for the database, its law.
--
-- Not modelled: the sign-in exchange (src/api/auth.ts), what a discovery does with the devices of
-- src/platform.ts, the percentiles and the schedule of diagnostics, the rest of configuration
-- validation, sanitizers, and the texts of messages, headers and log lines. Homebridge and HAP are not
-- part of the repository; what the panel accessory has given to HAP is kept in `Tile`.
pub mod Common
pub mod Settings
pub mod Diagnostics
pub mod Errors
pub mod Circuit
pub mod RateLimiter
pub mod Js
pub mod Alarm
pub mod Mappers
pub mod ChangeLog
pub mod Partition
pub mod Retry
pub mod Startup
pub mod Session
pub mod Sensor
pub mod Validators
pub mod Signals
pub mod EventStream
pub mod Client
pub mod Http
pub mod Platform
