-- ===== src/RateLimiter/History.antt =====
-- Histories of the limiter, with every time at which a request was let through.
use homebridge_myalarmcom.Common.{
  ℕ, ◌+◌, ◌≤◌, ◌<◌, max, ◌≡◌, ◌≢◌, ◌∙◌, refl, ap, sym, Bool, some, List, [], ◌∷◌, ◌++◌, arith, ltb,
  inl, inr, length, le-cases, le→not-ltb, head?, get_last?, All, Spaced, All-append, young_split,
  length-keep-keep, length-keep-le, Spaced-keep, length-append, append_assoc, Spaced-snoc,
}
use homebridge_myalarmcom.RateLimiter.{
  RateLimiterConfig, RateLimiter, new_rate_limiter, young, prune, compute_wait_ms, claimed, acquire,
  get_status,
}

-- `Runs c r grants t`: from a new limiter, the claims so far let requests through at the times
-- `grants`, oldest first; the limiter is now `r`, and no clock reading was above `t`. The clock
-- does not go back, and a sleep lasts at least as long as was asked; a claim that is refused or
-- cancelled may end at any later time.
pub data Runs (c : RateLimiterConfig) : RateLimiter → List ℕ → ℕ → Type 0 where
  idle : (t : ℕ) → Runs c (new_rate_limiter c) [] t
  grant :
      {r : RateLimiter} {grants : List ℕ} {t : ℕ} (now clock : ℕ) (is_aborted : Bool)
      → Runs c r grants t
      → t ≤ now
      → now + compute_wait_ms (prune r now) now ≤ clock
      → (acquire r now clock is_aborted).1 ≡ claimed
      → Runs c (acquire r now clock is_aborted).0 (grants ++ clock ∷ []) clock
  refuse :
      {r : RateLimiter} {grants : List ℕ} {t : ℕ} (now clock : ℕ) (is_aborted : Bool)
      → Runs c r grants t
      → t ≤ now
      → now ≤ clock
      → (acquire r now clock is_aborted).1 ≢ claimed
      → Runs c (acquire r now clock is_aborted).0 grants clock
  status :
      {r : RateLimiter} {grants : List ℕ} {t : ℕ} (now : ℕ)
      → Runs c r grants t
      → Runs c (get_status r now).0 grants (max t now)

-- What the limiter remembers of the grants: all but those that have left the window.
pub record Inv (r : RateLimiter) (grants : List ℕ) (t : ℕ) : Type 0 where
  pub forgotten : List ℕ
  pub split : grants ≡ forgotten ++ r.timestamps
  pub expired : All (λ x. x + r.window_ms ≤ t) forgotten
  pub spaced : Spaced r.min_interval_ms r.timestamps
  pub few : (now : ℕ) → t ≤ now → length (young r.window_ms now r.timestamps) ≤ r.max_requests

All-le_mono : (w s t : ℕ) (xs : List ℕ) → s ≤ t → All (λ x. x + w ≤ s) xs → All (λ x. x + w ≤ t) xs
All-le_mono w s t [] l h = tt
All-le_mono w s t (x ∷ xs) l h = (omega (arith, h.0), All-le_mono w s t xs l h.1)

-- Pruning at any time forgets only what has left the window by then.
pub prune-Inv :
    (r : RateLimiter) (grants : List ℕ) (s t now : ℕ)
    → Inv r grants s
    → s ≤ t
    → now ≤ t
    → Inv (prune r now) grants t
unfolding prune
prune-Inv r grants s t now v hs hn =
    let (pre, same, old) = young_split r.min_interval_ms now r.window_ms r.timestamps v.spaced in
    record {
      forgotten = v.forgotten ++ pre;
      split = v.split ∙ ap (◌++◌ v.forgotten) same ∙ sym (append_assoc v.forgotten pre _);
      expired =
          All-append _ v.forgotten pre (All-le_mono r.window_ms s t v.forgotten hs v.expired)
            (All-le_mono r.window_ms now t pre hn old);
      spaced = Spaced-keep r.min_interval_ms _ r.timestamps v.spaced;
      few = λ n hl. omega (
        arith,
        v.few n (omega arith),
        length-keep-keep (λ ts. ltb n (ts + r.window_ms)) (λ ts. ltb now (ts + r.window_ms))
            r.timestamps,
      );
    }

pub acquire-claimed :
    (r : RateLimiter) (now clock : ℕ) (is_aborted : Bool)
    → (acquire r now clock is_aborted).1 ≡ claimed
    → (acquire r now clock is_aborted).0
      ≡ record (prune r now) { timestamps = (prune r now).timestamps ++ clock ∷ [] }
unfolding acquire
acquire-claimed r now clock is_aborted e = ground arith

pub acquire-not_claimed :
    (r : RateLimiter) (now clock : ℕ) (is_aborted : Bool)
    → (acquire r now clock is_aborted).1 ≢ claimed
    → (acquire r now clock is_aborted).0 ≡ prune r now
unfolding acquire
acquire-not_claimed r now clock is_aborted e = ground arith

-- The wait keeps a new grant away from the last one.
pub wait_spaces :
    (r : RateLimiter) (now clock p : ℕ)
    → now + compute_wait_ms r now ≤ clock
    → get_last? r.timestamps ≡ some p
    → p + r.min_interval_ms ≤ clock
unfolding compute_wait_ms
wait_spaces r now clock p h e = ground arith

-- Where the window is full, the wait lasts until the oldest grant has left it.
pub wait_frees :
    (r : RateLimiter) (now clock x : ℕ)
    → now + compute_wait_ms r now ≤ clock
    → r.max_requests ≤ length r.timestamps
    → head? r.timestamps ≡ some x
    → x + r.window_ms ≤ clock
unfolding compute_wait_ms
wait_frees r now clock x h l e = ground arith

-- A list with one more grant has no more young entries than the limit, once the oldest entry of a
-- full list has aged out.
young-snoc :
    (w n clock limit : ℕ) (ts : List ℕ)
    → 0 < limit
    → length ts ≤ limit
    → ((x : ℕ) → limit ≤ length ts → head? ts ≡ some x → x + w ≤ n)
    → length (young w n (ts ++ clock ∷ [])) ≤ limit
young-snoc w n clock limit [] hm hl free =
    omega (arith, length-keep-le (λ ts. ltb n (ts + w)) (clock ∷ []))
young-snoc w n clock limit (x ∷ xs) hm hl free = elim (le-cases limit (length (x ∷ xs))) [
  | inl full ↦ rw (le→not-ltb n (x + w) (free x full refl)) (
      omega (
        arith,
        length-keep-le (λ ts. ltb n (ts + w)) (xs ++ clock ∷ []),
        length-append xs (clock ∷ []),
      ))
  | inr room ↦ omega (
    arith,
    length-keep-le (λ ts. ltb n (ts + w)) (x ∷ xs ++ clock ∷ []),
    length-append (x ∷ xs) (clock ∷ []),
  )
]

-- A grant after the wait keeps what the limiter remembers.
pub push-Inv :
    (q : RateLimiter) (grants : List ℕ) (now clock : ℕ)
    → Inv q grants now
    → 0 < q.max_requests
    → length q.timestamps ≤ q.max_requests
    → now + compute_wait_ms q now ≤ clock
    → Inv (record q { timestamps = q.timestamps ++ clock ∷ [] }) (grants ++ clock ∷ []) clock
push-Inv q grants now clock v positive bounded waited = record {
  forgotten = v.forgotten;
  split = ap (λ g. g ++ clock ∷ []) v.split ∙ append_assoc v.forgotten q.timestamps (clock ∷ []);
  expired = All-le_mono q.window_ms now clock v.forgotten (omega arith) v.expired;
  spaced =
      Spaced-snoc q.min_interval_ms q.timestamps clock v.spaced
        (λ p. wait_spaces q now clock p waited);
  few = λ n hn.
      young-snoc q.window_ms n clock q.max_requests q.timestamps positive bounded
        (λ x full e. omega (arith, wait_frees q now clock x waited full e));
}
