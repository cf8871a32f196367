-- ===== src/Validators.antt =====
-- src/utils/validators.ts: the numeric settings of the configuration, and the characters of the
-- two-factor cookie. A function that may push a warning returns whether it did beside its result.
pub mod Intervals
mod Tests
use homebridge_myalarmcom.Common.{
  ℕ, zero, suc, ◌+◌, Bool, true, false, not, ◌&&◌, ◌||◌, Option, none, some, List, [], ◌∷◌, ltb,
  leb, ◌==◌, if◌then◌else◌,
}
use homebridge_myalarmcom.Settings.{
  min_poll_interval_sec, default_poll_interval_sec, max_poll_interval_sec, min_auth_interval_min,
  default_auth_interval_min, max_auth_interval_min, min_diagnostics_interval_sec,
  max_diagnostics_interval_sec,
}
use homebridge_myalarmcom.Js.{
  ℤ, pos, negsuc, Number, whole, between, infinite, nan, Value, undefined, null, boolean, number,
  is_number,
}

unfoldable pub is_cookie_octet : ℕ → Bool
is_cookie_octet code =
    (code == 33)
    || (leb 35 code && leb code 43)
    || (leb 45 code && leb code 58)
    || (leb 60 code && leb code 91)
    || (leb 93 code && leb code 126)

unfoldable pub is_cookie_value : List ℕ → Bool
unfolding is_cookie_octet
is_cookie_value [] = true
is_cookie_value (code ∷ codes) = is_cookie_octet code && is_cookie_value codes

abbrev pub suc_ℤ : ℤ → ℤ
suc_ℤ (pos n) = pos (n + 1)
suc_ℤ (negsuc zero) = pos 0
suc_ℤ (negsuc (suc n)) = negsuc n

-- `Math.round` of a finite number; halves go up.
unfoldable pub math_round : Number → Option ℤ
math_round (whole z) = some z
math_round (between z is_upper_half) = if is_upper_half then some (suc_ℤ z) else some z
math_round _ = none

unfoldable pub clamp_rounded : ℤ → ℕ → ℕ → ℕ × Bool
clamp_rounded (negsuc n) floor ceiling = (floor, true)
clamp_rounded (pos n) floor ceiling =
    if ltb n floor then (floor, true) else if ltb ceiling n then (ceiling, true) else (n, false)

unfoldable pub clamp_finite : Option ℤ → ℕ → ℕ → ℕ → ℕ × Bool
unfolding clamp_rounded
clamp_finite none fallback floor ceiling = (fallback, true)
clamp_finite (some rounded) fallback floor ceiling = clamp_rounded rounded floor ceiling

unfoldable pub clamp_to_range : Value → ℕ → ℕ → ℕ → ℕ × Bool
unfolding clamp_finite math_round
clamp_to_range undefined fallback floor ceiling = (fallback, false)
clamp_to_range null fallback floor ceiling = (fallback, false)
clamp_to_range (number x) fallback floor ceiling =
    clamp_finite (math_round x) fallback floor ceiling
clamp_to_range _ fallback floor ceiling = (fallback, true)

unfoldable pub parse_boolean : Value → Bool → Bool
parse_boolean (boolean b) fallback = b
parse_boolean _ fallback = fallback

-- `value < 0`, for a finite number.
abbrev is_negative : Number → Bool
is_negative (whole (negsuc n)) = true
is_negative (between (negsuc n) h) = true
is_negative _ = false

abbrev is_finite : Number → Bool
is_finite (whole z) = true
is_finite (between z h) = true
is_finite _ = false

parse_diagnostics_number : Number → ℕ × Bool
unfolding clamp_to_range
parse_diagnostics_number x =
    if is_number (number x) 0
    then (0, false)
    else if not (is_finite x)
    then (0, true)
    else if is_negative x
    then (0, true)
    else clamp_to_range (number x) 0 min_diagnostics_interval_sec max_diagnostics_interval_sec

unfoldable pub parse_diagnostics_interval : Value → ℕ × Bool
unfolding parse_diagnostics_number
parse_diagnostics_interval undefined = (0, false)
parse_diagnostics_interval null = (0, false)
parse_diagnostics_interval (number x) = parse_diagnostics_number x
parse_diagnostics_interval _ = (0, true)

-- The two fields of `validateConfig` that are clamped.
unfoldable pub poll_interval_seconds : Value → ℕ × Bool
unfolding clamp_to_range
poll_interval_seconds value =
    clamp_to_range value default_poll_interval_sec min_poll_interval_sec max_poll_interval_sec

unfoldable pub auth_interval_minutes : Value → ℕ × Bool
unfolding clamp_to_range
auth_interval_minutes value =
    clamp_to_range value default_auth_interval_min min_auth_interval_min max_auth_interval_min
