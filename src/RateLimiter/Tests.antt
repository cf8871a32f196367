-- ===== src/RateLimiter/Tests.antt =====
-- The limiter's theorems at a small history.
use homebridge_myalarmcom.Common.{ℕ, ◌+◌, ◌≤◌, refl, false, [], ◌∷◌, arith, Spaced}
use homebridge_myalarmcom.RateLimiter.{
  RateLimiterConfig, RateLimiter, new_rate_limiter, acquire, compute_wait_ms,
}
use homebridge_myalarmcom.RateLimiter.History.{Runs, idle, grant}
use homebridge_myalarmcom.RateLimiter.Window.{IsSane, grants-Spaced, grants_lagged}

abbrev slow : RateLimiterConfig
slow = record { min_interval_ms = 10; max_requests = 1; window_ms = 50; max_wait_ms = 100 }

slow-IsSane : IsSane slow
slow-IsSane = omega arith

abbrev twice : RateLimiter
twice = record { config = slow; timestamps = 5 ∷ 60 ∷ [] }

-- The first request passes at once, the second waits out the window.
twice-Runs : Runs slow twice (5 ∷ 60 ∷ []) 60
unfolding acquire compute_wait_ms new_rate_limiter
twice-Runs =
    grant 20 60 false (grant 5 5 false (idle 0) (omega arith) (omega arith) refl) (omega arith)
      (omega arith) refl

grants-Spaced_example : Spaced 10 (5 ∷ 60 ∷ [])
grants-Spaced_example = grants-Spaced slow twice (5 ∷ 60 ∷ []) 60 slow-IsSane twice-Runs

abbrev first_grant : ℕ
first_grant = 5

grants_lagged_example : first_grant + 50 ≤ 60
grants_lagged_example =
    grants_lagged slow twice (5 ∷ 60 ∷ []) 60 0 first_grant 60 slow-IsSane twice-Runs refl refl
