-- ===== src/RateLimiter.antt =====
-- src/api/rate-limiter.ts: the pacing of outbound requests. Claims run one after the other (the
-- `#tail` chain), so `acquire` is one function over two clock readings: `now`, when the claim's turn
-- comes, and `clock`, when it pushes its timestamp, after the wait. Whether the wait was cancelled by
-- the signal is an argument too; it is read only where there is a wait.
pub mod History
pub mod Window
mod Tests
use homebridge_myalarmcom.Common.{
  ℕ, ◌+◌, ◌-◌, ◌*◌, max, Bool, ◌&&◌, Option, none, some, List, [], ◌∷◌, ◌++◌, ltb, if◌then◌else◌,
  length, head?, get_last?, keep,
}
use homebridge_myalarmcom.Settings.{ms_per_second, ms_per_minute}

pub record RateLimiterConfig : Type 0 where
  pub min_interval_ms : ℕ
  pub max_requests : ℕ
  pub window_ms : ℕ
  pub max_wait_ms : ℕ

abbrev pub default_rate_limiter_config : RateLimiterConfig
default_rate_limiter_config = record {
  min_interval_ms = ms_per_second;
  max_requests = 60;
  window_ms = ms_per_minute;
  max_wait_ms = 30 * ms_per_second;
}

pub record RateLimiter : Type 0 where
  pub config : RateLimiterConfig
  pub open config use *
  pub timestamps : List ℕ

unfoldable pub new_rate_limiter : RateLimiterConfig → RateLimiter
new_rate_limiter config = record { config = config; timestamps = [] }

-- The entries younger than the window, oldest first.
abbrev pub young : ℕ → ℕ → List ℕ → List ℕ
young window_ms now = keep (λ ts. ltb now (ts + window_ms))

unfoldable pub prune : RateLimiter → ℕ → RateLimiter
prune r now = record r { timestamps = young r.window_ms now r.timestamps }

-- `-` stops at 0 as `Math.max(0, …)` does.
spacing_wait : Option ℕ → ℕ → ℕ → ℕ
spacing_wait none min_interval_ms now = 0
spacing_wait (some last) min_interval_ms now = (min_interval_ms + last) - now

full_wait : Option ℕ → ℕ → ℕ → ℕ → ℕ
full_wait none window_ms now spacing = spacing
full_wait (some oldest) window_ms now spacing = max spacing ((window_ms + oldest) - now)

unfoldable pub compute_wait_ms : RateLimiter → ℕ → ℕ
unfolding spacing_wait full_wait
compute_wait_ms r now =
    let spacing = spacing_wait (get_last? r.timestamps) r.min_interval_ms now in
    if ltb (length r.timestamps) r.max_requests
    then spacing
    else full_wait (head? r.timestamps) r.window_ms now spacing

pub data Claim : Type 0 where
  claimed : Claim
  pacing_refused : ℕ → ℕ → Claim
  wait_aborted : Claim

unfoldable pub acquire : RateLimiter → ℕ → ℕ → Bool → RateLimiter × Claim
unfolding prune
acquire r now clock is_aborted =
    let pruned = prune r now in
    let wait_ms = compute_wait_ms pruned now in
    if ltb r.max_wait_ms wait_ms
    then (pruned, pacing_refused wait_ms r.max_wait_ms)
    else if ltb 0 wait_ms && is_aborted
    then (pruned, wait_aborted)
    else (record pruned { timestamps = pruned.timestamps ++ (clock ∷ []) }, claimed)

-- `getStatus`: the pruned limiter and the slots left.
unfoldable pub get_status : RateLimiter → ℕ → RateLimiter × ℕ
unfolding prune
get_status r now = let pruned = prune r now in (pruned, r.max_requests - length pruned.timestamps)
