-- ===== src/Startup/Tests.antt =====
-- A failure that startup waits out.
use homebridge_myalarmcom.Common.{ℕ, ◌≤◌, ◌≡◌, refl, max, some, arith}
use homebridge_myalarmcom.Errors.{circuit_breaker, ours, is_authentication}
use homebridge_myalarmcom.Retry.{Fraction}
use homebridge_myalarmcom.Startup.{
  initial_discovery_retry_delay_ms, is_permanent, is_login_form, is_configuration,
}
use homebridge_myalarmcom.Startup.Delays.{breaker_wait_ms, initial_discovery_retry-bounds}

abbrev third : Fraction
third = record { num = 1; den = 3 }

abbrev open_until : ℕ
open_until = 90000

initial_discovery_retry-bounds_example :
    (delay : ℕ) × (initial_discovery_retry_delay_ms
        (ours (circuit_breaker open_until))
        2
        third
        30000
      ≡ some delay)
    × (3750 ≤ delay)
    × (breaker_wait_ms (circuit_breaker open_until) 30000 ≤ delay)
    × (delay ≤ max 300000 (breaker_wait_ms (circuit_breaker open_until) 30000))
unfolding is_permanent is_authentication is_login_form is_configuration
initial_discovery_retry-bounds_example =
    initial_discovery_retry-bounds (circuit_breaker open_until) 2 third 30000 (omega arith) refl
