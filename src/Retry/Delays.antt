-- ===== src/Retry/Delays.antt =====
-- The bounds on a delay.
use native.Mathlib.Nat.{div-lt_iff_lt-mul, mul-le-mul_right}
use homebridge_myalarmcom.Common.{
  ℕ, ◌+◌, ◌-◌, ◌*◌, ◌/◌, ◌^◌, ◌≤◌, ◌<◌, inl, inr, min, arith, le-cases,
}
use homebridge_myalarmcom.Retry.{Fraction, exponential_ms, compute_backoff_ms}

-- A lower bound of a quotient.
le_div : (x y d : ℕ) → 0 < d → y * d ≤ x → y ≤ x / d
le_div x y d positive h = elim (le-cases y (x / d)) [
  | inl le ↦ le
  | inr gt ↦
      let above : x < y * d = (div-lt_iff_lt-mul {k = d} {x = x} {y = y} positive).0 gt in
      grind arith
]

-- Three quarters of the exponential are below the quotient.
quarters :
    (e num den : ℕ)
    → 0 < den
    → (3 * e + 2) / 4 ≤ (2 * (e * (3 * den + 2 * num)) + 4 * den) / (8 * den)
quarters e num den positive =
    let k = (3 * e + 2) / 4 in
    let scaled : 8 * k * den ≤ (6 * e + 4) * den = mul-le-mul_right den (omega arith) in
    le_div _ k (8 * den) (omega arith) (grind arith)

-- With any random draw, the delay before the next attempt is at most the ceiling, and at least three
-- quarters, rounded to the nearest millisecond, of the capped exponential.
pub compute_backoff-bounds :
    (attempt base_delay_ms max_delay_ms : ℕ) (random : Fraction)
    → 0 < random.den
    → let e = min (base_delay_ms * 2 ^ (attempt - 1)) max_delay_ms in
      (compute_backoff_ms attempt base_delay_ms max_delay_ms random ≤ max_delay_ms)
      × ((3 * e + 2) / 4 ≤ compute_backoff_ms attempt base_delay_ms max_delay_ms random)
unfolding compute_backoff_ms exponential_ms
compute_backoff-bounds attempt base_delay_ms max_delay_ms random positive =
    let e = min (base_delay_ms * 2 ^ (attempt - 1)) max_delay_ms in
    let below = quarters e random.num random.den positive in (omega arith, omega arith)
