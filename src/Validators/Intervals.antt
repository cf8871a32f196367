-- ===== src/Validators/Intervals.antt =====
-- What is left of a configured interval or cookie character, whatever was written.
use homebridge_myalarmcom.Common.{
  ℕ, ◌+◌, ◌≤◌, ◌≡◌, ◌≢◌, ◌⊎◌, ◌↔◌, inl, inr, refl, min, max, true, false, Option, none, some, List,
  [], ◌∷◌, All, arith, ◌==◌, Bool-cases,
}
use homebridge_myalarmcom.Js.{
  ℤ, pos, negsuc, Number, whole, between, infinite, nan, Value, undefined, null, number,
}
use homebridge_myalarmcom.Validators.{
  is_cookie_octet, is_cookie_value, math_round, clamp_rounded, clamp_finite, clamp_to_range,
  parse_diagnostics_interval, poll_interval_seconds, auth_interval_minutes,
  parse_diagnostics_number,
}

abbrev pub Within : ℕ → ℕ → ℕ → Type 0
Within floor ceiling n = (floor ≤ n) × (n ≤ ceiling)

rounded-Within :
    (z : ℤ) (floor ceiling : ℕ)
    → floor ≤ ceiling
    → Within floor ceiling (clamp_rounded z floor ceiling).0
unfolding clamp_rounded
rounded-Within (negsuc n) floor ceiling h = (omega arith, h)
rounded-Within (pos n) floor ceiling h = (ground arith, ground arith)

finite-Within :
    (r : Option ℤ) (fallback floor ceiling : ℕ)
    → Within floor ceiling fallback
    → Within floor ceiling (clamp_finite r fallback floor ceiling).0
unfolding clamp_finite
finite-Within none fallback floor ceiling h = h
finite-Within (some z) fallback floor ceiling (low, high) =
    rounded-Within z floor ceiling (omega arith)

clamp_to_range-Within :
    (v : Value) (fallback floor ceiling : ℕ)
    → Within floor ceiling fallback
    → Within floor ceiling (clamp_to_range v fallback floor ceiling).0
unfolding clamp_to_range
clamp_to_range-Within (number x) fallback floor ceiling h =
    finite-Within (math_round x) fallback floor ceiling h
clamp_to_range-Within undefined fallback floor ceiling h = h
clamp_to_range-Within null fallback floor ceiling h = h
clamp_to_range-Within _ fallback floor ceiling h = h

diagnostics-Within :
    (x : Number)
    → ((parse_diagnostics_number x).0 ≡ 0) ⊎ Within 30 86400 (parse_diagnostics_number x).0
unfolding parse_diagnostics_number clamp_to_range clamp_finite math_round
diagnostics-Within (whole (pos n)) = elim (Bool-cases (n == 0)) [
  | inl e ↦ rw e (inl refl)
  | inr e ↦ rw e (inr (rounded-Within (pos n) 30 86400 (omega arith)))
]
diagnostics-Within (whole (negsuc n)) = inl refl
diagnostics-Within (between (pos n) true) =
    inr (rounded-Within (pos (n + 1)) 30 86400 (omega arith))
diagnostics-Within (between (pos n) false) = inr (rounded-Within (pos n) 30 86400 (omega arith))
diagnostics-Within (between (negsuc n) h) = inl refl
diagnostics-Within (infinite b) = inl refl
diagnostics-Within nan = inl refl

parse_diagnostics-Within :
    (v : Value)
    → ((parse_diagnostics_interval v).0 ≡ 0) ⊎ Within 30 86400 (parse_diagnostics_interval v).0
unfolding parse_diagnostics_interval
parse_diagnostics-Within (number x) = diagnostics-Within x
parse_diagnostics-Within undefined = inl refl
parse_diagnostics-Within null = inl refl
parse_diagnostics-Within _ = inl refl

-- Whatever the configuration holds, the poll interval is from 60 to 86,400 seconds, the sign-in
-- interval from 10 to 1,440 minutes, and the diagnostics interval off or from 30 to 86,400 seconds.
pub intervals-Within :
    (poll auth diagnostics : Value)
    → Within 60 86400 (poll_interval_seconds poll).0
      × Within 10 1440 (auth_interval_minutes auth).0
      × (((parse_diagnostics_interval diagnostics).0 ≡ 0)
          ⊎ Within 30 86400 (parse_diagnostics_interval diagnostics).0)
unfolding poll_interval_seconds auth_interval_minutes
intervals-Within poll auth diagnostics = (
  clamp_to_range-Within poll 60 60 86400 (omega arith, omega arith),
  clamp_to_range-Within auth 10 10 1440 (omega arith, omega arith),
  parse_diagnostics-Within diagnostics,
)

-- A whole number that is not negative is clamped to the nearest value of a range that is not empty,
-- and the user is warned exactly when that changes it.
pub clamp_to_range-whole :
    (n fallback floor ceiling : ℕ)
    → floor ≤ ceiling
    → let clamped = clamp_to_range (number (whole (pos n))) fallback floor ceiling in
      (clamped.0 ≡ max floor (min n ceiling)) × ((clamped.1 ≡ false) ↔ (clamped.0 ≡ n))
unfolding clamp_to_range clamp_finite math_round clamp_rounded
clamp_to_range-whole n fallback floor ceiling h =
    (ground arith, (λ e. ground arith, λ e. ground arith))

-- A cookie octet of RFC 6265: visible ASCII but for the double quote, the comma, the semicolon and
-- the backslash.
abbrev pub IsCookieOctet : ℕ → Type 0
IsCookieOctet c = (33 ≤ c) × (c ≤ 126) × (c ≢ 34) × (c ≢ 44) × (c ≢ 59) × (c ≢ 92)

octet_iff : (c : ℕ) → (is_cookie_octet c ≡ true) ↔ IsCookieOctet c
unfolding is_cookie_octet
octet_iff c = (
  (λ e. (
    ground arith,
    ground arith,
    (λ q. ground arith),
    (λ q. ground arith),
    (λ q. ground arith),
    (λ q. ground arith),
  )),
  (λ (low, high, a, b, d, e). ground arith),
)

-- A cookie value is accepted exactly when every one of its code units is visible ASCII other than the
-- double quote, the comma, the semicolon and the backslash.
pub is_cookie_value_iff :
    (codes : List ℕ) → (is_cookie_value codes ≡ true) ↔ All IsCookieOctet codes
unfolding is_cookie_value
is_cookie_value_iff [] = (λ e. tt, λ h. refl)
is_cookie_value_iff (c ∷ cs) =
    let (rest_to, rest_of) = is_cookie_value_iff cs in
    let (to, of_) = octet_iff c in
    ((λ e. (to (ground arith), rest_to (ground arith))), (λ h. rw (of_ h.0, rest_of h.1) refl))
