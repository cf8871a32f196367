-- ===== src/ChangeLog.antt =====
-- src/devices/change-log.ts: report a reading at info only when it differs from the last one.
-- A logger is its last label; what `report` logs is returned.
use homebridge_myalarmcom.Common.{Bool, false, not, Option, none, some, if◌then◌else◌}

pub data LogLevel : Type 0 where
  info debug : LogLevel

module _ {ℓ} {A : Type ℓ} where
  -- `lastLabel !== null && lastLabel !== label`
  is_change : (A → A → Bool) → Option A → A → Bool
  is_change same none label = false
  is_change same (some last) label = not (same last label)

  -- The new last label, and the level of the line that is logged, if one is.
  unfoldable pub report : (A → A → Bool) → Bool → Option A → A → Option A × Option LogLevel
  unfolding is_change
  report same is_debug_enabled last label = (
    some label,
    if is_change same last label then some info else if is_debug_enabled then some debug else none,
  )

  unfoldable pub mark_reported : Option A → A → Option A
  mark_reported last label = some label
