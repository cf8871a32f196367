-- ===== src/Settings.antt =====
-- src/settings.ts: the numeric settings that the modelled components read, in milliseconds unless
-- the name says otherwise.
use homebridge_myalarmcom.Common.{ℕ, ◌+◌, ◌*◌}

abbrev pub ms_per_second : ℕ
ms_per_second = 1000

abbrev pub ms_per_minute : ℕ
ms_per_minute = 60000

abbrev pub partition_command_timeout_ms : ℕ
partition_command_timeout_ms = 60 * ms_per_second

abbrev pub max_login_floor_wait_ms : ℕ
max_login_floor_wait_ms = 5 * ms_per_second

abbrev pub initial_discovery_retry_base_ms : ℕ
initial_discovery_retry_base_ms = 5 * ms_per_second

abbrev pub initial_discovery_retry_max_ms : ℕ
initial_discovery_retry_max_ms = 5 * ms_per_minute

abbrev pub partition_target_settle_ms : ℕ
partition_target_settle_ms = partition_command_timeout_ms + 30 * ms_per_second

abbrev pub transient_hint_reset_ms : ℕ
transient_hint_reset_ms = 10 * ms_per_second

abbrev pub min_poll_interval_sec : ℕ
min_poll_interval_sec = 60

abbrev pub default_poll_interval_sec : ℕ
default_poll_interval_sec = 60

abbrev pub max_poll_interval_sec : ℕ
max_poll_interval_sec = 86400

abbrev pub min_auth_interval_min : ℕ
min_auth_interval_min = 10

abbrev pub default_auth_interval_min : ℕ
default_auth_interval_min = 10

abbrev pub max_auth_interval_min : ℕ
max_auth_interval_min = 1440

abbrev pub min_diagnostics_interval_sec : ℕ
min_diagnostics_interval_sec = 30

abbrev pub max_diagnostics_interval_sec : ℕ
max_diagnostics_interval_sec = 86400

abbrev pub websocket_reconnect_base_ms : ℕ
websocket_reconnect_base_ms = 5 * ms_per_second

abbrev pub websocket_reconnect_max_ms : ℕ
websocket_reconnect_max_ms = 5 * ms_per_minute

abbrev pub websocket_max_failures : ℕ
websocket_max_failures = 5

abbrev pub websocket_recovery_interval_ms : ℕ
websocket_recovery_interval_ms = 15 * ms_per_minute

-- 3.5 minutes.
abbrev pub websocket_refresh_interval_ms : ℕ
websocket_refresh_interval_ms = 210 * ms_per_second

abbrev pub max_ids_per_request : ℕ
max_ids_per_request = 50

abbrev pub max_api_retry_attempts : ℕ
max_api_retry_attempts = 3

abbrev pub max_retry_backoff_ms : ℕ
max_retry_backoff_ms = 60 * ms_per_second

abbrev pub poll_failure_warn_threshold : ℕ
poll_failure_warn_threshold = 3

abbrev pub rediscovery_interval_ms : ℕ
rediscovery_interval_ms = 60 * ms_per_minute
