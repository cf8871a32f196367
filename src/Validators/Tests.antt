-- ===== src/Validators/Tests.antt =====
-- Settings as a user may have written them.
use homebridge_myalarmcom.Common.{ℕ, ◌≡◌, ◌⊎◌, Bool, true}
use homebridge_myalarmcom.Js.{pos, whole, between, Value, number, undefined}
use homebridge_myalarmcom.Validators.{
  clamp_to_range, parse_diagnostics_interval, poll_interval_seconds, auth_interval_minutes,
}
use homebridge_myalarmcom.Validators.Intervals.{Within, intervals-Within}

abbrev eager : Value
eager = number (between (pos 4) true)

intervals-Within_example :
    Within 60 86400 (poll_interval_seconds eager).0
    × Within 10 1440 (auth_interval_minutes undefined).0
    × (((parse_diagnostics_interval eager).0 ≡ 0)
        ⊎ Within 30 86400 (parse_diagnostics_interval eager).0)
intervals-Within_example = intervals-Within eager undefined eager

abbrev clamped_week : ℕ × Bool
clamped_week = clamp_to_range (number (whole (pos 604800))) 60 60 86400
