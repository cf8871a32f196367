-- ===== src/RateLimiter/Window.antt =====
-- What the limiter guarantees to Alarm.com, over every history: how close and how many the grants are.
use homebridge_myalarmcom.Common.{
  ℕ, ◌+◌, ◌≤◌, ◌<◌, max, ◌≡◌, ◌∙◌, refl, ap, sym, subst, some, List, [], ◌∷◌, ◌++◌, arith, inl, inr,
  length, get_elem?, All, Spaced, All-append, All-get_elem?, get_elem?-snoc, get_elem?-append,
  get_elem?-lt, Spaced-before, Spaced-append, get_elem?-snoc_lt, head?_of_get_elem?, length-append,
}
use homebridge_myalarmcom.RateLimiter.{
  RateLimiterConfig, RateLimiter, new_rate_limiter, prune, compute_wait_ms, get_status,
}
use homebridge_myalarmcom.RateLimiter.History.{
  Runs, idle, grant, refuse, status, Inv, prune-Inv, push-Inv, acquire-claimed, acquire-not_claimed,
  wait_spaces, wait_frees,
}

-- Each grant comes at least `w` after the one `k` places before it.
abbrev pub Lagged : ℕ → ℕ → List ℕ → Type 0
Lagged k w g = (i x y : ℕ) → get_elem? g i ≡ some x → get_elem? g (i + k) ≡ some y → x + w ≤ y

-- All that is known of a history: the memory, and the two promises.
pub record Kept (r : RateLimiter) (grants : List ℕ) (t : ℕ) : Type 0 where
  pub inv : Inv r grants t
  pub spaced : Spaced r.min_interval_ms grants
  pub lagged : Lagged r.max_requests r.window_ms grants

pub record IsSane (c : RateLimiterConfig) : Type 0 where
  pub positive : 0 < c.max_requests
  pub nested : c.min_interval_ms ≤ c.window_ms

-- The earlier grants leave the gap before a new one: those in memory by the wait, the others because
-- the window has passed since.
grants_before :
    (q : RateLimiter) (grants : List ℕ) (now clock : ℕ)
    → Inv q grants now
    → q.min_interval_ms ≤ q.window_ms
    → now + compute_wait_ms q now ≤ clock
    → All (λ x. x + q.min_interval_ms ≤ clock) grants
grants_before q grants now clock v nested waited = rw v.split (
    All-append _ v.forgotten q.timestamps (aged v.forgotten v.expired) (
      Spaced-before q.min_interval_ms q.timestamps clock v.spaced
        (λ p. wait_spaces q now clock p waited)))
  where
    aged :
        (xs : List ℕ)
        → All (λ x. x + q.window_ms ≤ now) xs
        → All (λ x. x + q.min_interval_ms ≤ clock) xs
    aged [] h = tt
    aged (x ∷ xs) (h, hs) = (omega arith, aged xs hs)

-- The grant `limit` places before a new one has left the window: it is forgotten already, or it is
-- the oldest of a full memory.
oldest_out :
    (q : RateLimiter) (grants : List ℕ) (now clock i x : ℕ)
    → Inv q grants now
    → length q.timestamps ≤ q.max_requests
    → now + compute_wait_ms q now ≤ clock
    → i + q.max_requests ≡ length grants
    → get_elem? grants i ≡ some x
    → x + q.window_ms ≤ clock
oldest_out q grants now clock i x v bounded waited at ex =
    elim (get_elem?-append v.forgotten q.timestamps i x (rw v.split at ex)) [
      | inl gone ↦
          omega (arith, All-get_elem? (λ x. x + q.window_ms ≤ now) v.forgotten i x v.expired gone)
      | inr (j, where_, held) ↦
          let total = ap length v.split ∙ length-append v.forgotten q.timestamps in
          let first : j ≡ 0 = omega arith in
          wait_frees q now clock x waited (omega arith)
            (head?_of_get_elem? q.timestamps x (rw first at held))
    ]

Lagged-snoc :
    (q : RateLimiter) (grants : List ℕ) (now clock : ℕ)
    → Inv q grants now
    → 0 < q.max_requests
    → length q.timestamps ≤ q.max_requests
    → now + compute_wait_ms q now ≤ clock
    → Lagged q.max_requests q.window_ms grants
    → Lagged q.max_requests q.window_ms (grants ++ clock ∷ [])
Lagged-snoc q grants now clock v positive bounded waited lag i x y ex ey =
    elim (get_elem?-snoc grants clock (i + q.max_requests) y ey) [
      | inl old ↦
          let l = get_elem?-lt grants (i + q.max_requests) y old in
          lag i x y (get_elem?-snoc_lt grants clock i x (omega arith) ex) old
      | inr (at, new) ↦ rw new (
          oldest_out q grants now clock i x v bounded waited at
            (get_elem?-snoc_lt grants clock i x (omega arith) ex))
    ]

Kept-prune :
    (r : RateLimiter) (grants : List ℕ) (s t now : ℕ)
    → Kept r grants s
    → s ≤ t
    → now ≤ t
    → Kept (prune r now) grants t
unfolding prune
Kept-prune r grants s t now k hs hn = record {
  inv = prune-Inv r grants s t now k.inv hs hn;
  spaced = k.spaced;
  lagged = k.lagged;
}

Kept-grant :
    (r : RateLimiter) (grants : List ℕ) (t now clock : ℕ)
    → IsSane r.config
    → Kept r grants t
    → t ≤ now
    → now + compute_wait_ms (prune r now) now ≤ clock
    → Kept
        (record (prune r now) { timestamps = (prune r now).timestamps ++ clock ∷ [] })
        (grants ++ clock ∷ [])
        clock
unfolding prune
Kept-grant r grants t now clock sane k h waited =
    let inv = prune-Inv r grants t now now k.inv h (omega arith) in
    let q = prune r now in
    record {
      inv = push-Inv q grants now clock inv sane.positive (k.inv.few now h) waited;
      spaced =
          Spaced-append r.min_interval_ms grants clock k.spaced
            (grants_before q grants now clock inv sane.nested waited);
      lagged = Lagged-snoc q grants now clock inv sane.positive (k.inv.few now h) waited k.lagged;
    }

-- The configuration is never written.
Runs-config :
    {c : RateLimiterConfig} {r : RateLimiter} {grants : List ℕ} {t : ℕ}
    → Runs c r grants t
    → r.config ≡ c
unfolding new_rate_limiter prune get_status
Runs-config (idle t) = refl
Runs-config (grant now clock ab run h w e) = rw (acquire-claimed _ now clock ab e) (Runs-config run)
Runs-config (refuse now clock ab run h l e) =
    rw (acquire-not_claimed _ now clock ab e) (Runs-config run)
Runs-config (status now run) = Runs-config run

Runs-Kept :
    {c : RateLimiterConfig} {r : RateLimiter} {grants : List ℕ} {t : ℕ}
    → IsSane c
    → Runs c r grants t
    → Kept r grants t
unfolding new_rate_limiter get_status
Runs-Kept sane (idle t) = record {
  inv = record {
    forgotten = [];
    split = refl;
    expired = tt;
    spaced = tt;
    few = λ n h. omega arith;
  };
  spaced = tt;
  lagged = λ i x y ex ey. ground arith;
}
Runs-Kept sane (grant {r} {grants} {t} now clock ab run h w e) =
    rw (acquire-claimed r now clock ab e) (
      Kept-grant r grants t now clock (subst IsSane (sym (Runs-config run)) sane)
        (Runs-Kept sane run) h w)
Runs-Kept sane (refuse {r} {grants} {t} now clock ab run h l e) =
    rw (acquire-not_claimed r now clock ab e)
      (Kept-prune r grants t clock now (Runs-Kept sane run) (omega arith) l)
Runs-Kept sane (status {r} {grants} {t} now run) =
    Kept-prune r grants t (max t now) now (Runs-Kept sane run) (omega arith) (omega arith)

-- In every history of a limiter whose request limit is positive and whose minimum gap is no longer
-- than its window, any two requests let through are at least the minimum gap apart.
pub grants-Spaced :
    (c : RateLimiterConfig) (r : RateLimiter) (grants : List ℕ) (t : ℕ)
    → IsSane c
    → Runs c r grants t
    → Spaced c.min_interval_ms grants
grants-Spaced c r grants t sane run =
    subst (λ (k : RateLimiterConfig). Spaced k.min_interval_ms grants) (Runs-config run)
      (Runs-Kept sane run).spaced

-- In every such history a request is let through no earlier than a whole window after the one that
-- was let through `max_requests` requests before it: no window holds more than the limit.
pub grants_lagged :
    (c : RateLimiterConfig) (r : RateLimiter) (grants : List ℕ) (t i earlier later : ℕ)
    → IsSane c
    → Runs c r grants t
    → get_elem? grants i ≡ some earlier
    → get_elem? grants (i + c.max_requests) ≡ some later
    → earlier + c.window_ms ≤ later
grants_lagged c r grants t i earlier later sane run =
    subst (λ (k : RateLimiterConfig). Lagged k.max_requests k.window_ms grants) (Runs-config run)
      (Runs-Kept sane run).lagged i earlier later
