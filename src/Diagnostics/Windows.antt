-- ===== src/Diagnostics/Windows.antt =====
-- The windows of recent samples over a whole session.
use homebridge_myalarmcom.Common.{
  ℕ, ◌-◌, ◌≤◌, ◌<◌, ◌≡◌, refl, sym, ap, ◌∙◌, Bool, true, false, List, [], ◌∷◌, ◌++◌, length, skip,
  length-skip, last, last-short, last-snoc, length-append, ltb, if◌then◌else◌, arith, Bool-cases,
  inl, inr, ltb→lt, not-ltb→le,
}
use homebridge_myalarmcom.Js.{ℤ, pos, negsuc}
use homebridge_myalarmcom.Diagnostics.{
  api_requests, api_errors, DiagnosticsCollector, new_collector, add_to, push_window, push_latency,
  api_request, poll_cycle, breaker_trip, build_heartbeat, Call, request_made, polled, tripped,
  counted, heartbeat, apply, apply_all,
}

-- All the outcomes, and the durations that count, of the requests among the calls, oldest first.
abbrev pub with_outcome : List Bool → Call → List Bool
with_outcome outcomes (request_made latency_ms is_ok was_networked) = outcomes ++ is_ok ∷ []
with_outcome outcomes _ = outcomes

abbrev pub with_duration : List ℕ → Call → List ℕ
with_duration durations (request_made (pos n) is_ok true) = durations ++ n ∷ []
with_duration durations _ = durations

abbrev pub outcomes_after : List Bool → List Call → List Bool
outcomes_after outcomes [] = outcomes
outcomes_after outcomes (call ∷ calls) = outcomes_after (with_outcome outcomes call) calls

abbrev pub durations_after : List ℕ → List Call → List ℕ
durations_after durations [] = durations
durations_after durations (call ∷ calls) = durations_after (with_duration durations call) calls

module _ {ℓ} {A : Type ℓ} where
  push_short : (n : ℕ) (ys : List A) (x : A) → length ys < n → push_window n ys x ≡ ys ++ x ∷ []
  unfolding push_window
  push_short n ys x h = ground (arith, length-append ys (x ∷ []))

  push_full :
      (n : ℕ) (ys : List A) (x : A) → n ≤ length ys → push_window n ys x ≡ skip 1 (ys ++ x ∷ [])
  unfolding push_window
  push_full n ys x h = ground (arith, length-append ys (x ∷ []))

  -- A push to a window of the last samples gives the window of the longer list.
  push_window-last :
      (n : ℕ) (xs : List A) (x : A) → push_window n (last n xs) x ≡ last n (xs ++ x ∷ [])
  push_window-last n xs x = elim (Bool-cases (ltb (length xs) n)) [
    | inl short ↦
        ap (λ ys. push_window n ys x) (last-short n xs (ground arith))
        ∙ (push_short n xs x (ground arith)
            ∙ sym (
                last-short n (xs ++ x ∷ [])
                  (omega (arith, length-append xs (x ∷ []), ltb→lt (length xs) n short))))
    | inr long ↦
        push_full n (last n xs) x
          (omega (arith, length-skip (length xs - n) xs, not-ltb→le (length xs) n long))
        ∙ last-snoc n xs x (not-ltb→le (length xs) n long)
  ]

-- The windows, after the calls that follow a session with these samples.
record AreWindows (c : DiagnosticsCollector) (outcomes : List Bool) (durations : List ℕ)
    : Type 0 where
  shown : c.recent_outcomes ≡ last 50 outcomes
  timed : c.latencies ≡ last 200 durations

push_latency_lem :
    (c : DiagnosticsCollector) (latency_ms : ℤ) (is_ok was_networked : Bool) (durations : List ℕ)
    → c.latencies ≡ last 200 durations
    → (push_latency c latency_ms was_networked).latencies
      ≡ last 200 (with_duration durations (request_made latency_ms is_ok was_networked))
unfolding push_latency
push_latency_lem c (negsuc n) is_ok was_networked durations h = h
push_latency_lem c (pos n) is_ok false durations h = h
push_latency_lem c (pos n) is_ok true durations h =
    ap (λ window. push_window 200 window n) h ∙ push_window-last 200 durations n

push_latency-recent_outcomes :
    (c : DiagnosticsCollector) (latency_ms : ℤ) (was_networked : Bool)
    → (push_latency c latency_ms was_networked).recent_outcomes ≡ c.recent_outcomes
unfolding push_latency
push_latency-recent_outcomes c (negsuc n) was_networked = refl
push_latency-recent_outcomes c (pos n) false = refl
push_latency-recent_outcomes c (pos n) true = refl

apply-AreWindows :
    (c : DiagnosticsCollector) (call : Call) (outcomes : List Bool) (durations : List ℕ)
    → AreWindows c outcomes durations
    → AreWindows (apply c call) (with_outcome outcomes call) (with_duration durations call)
unfolding apply api_request add_to poll_cycle breaker_trip build_heartbeat
apply-AreWindows c (request_made latency_ms is_ok was_networked) outcomes durations v =
    let asked = add_to c api_requests 1 in
    let counted = if is_ok then asked else add_to asked api_errors 1 in
    record {
      shown =
          ap (λ window. push_window 50 window is_ok)
            (push_latency-recent_outcomes counted latency_ms was_networked ∙ (kept is_ok ∙ v.shown))
          ∙ push_window-last 50 outcomes is_ok;
      timed =
          push_latency_lem counted latency_ms is_ok was_networked durations (held is_ok ∙ v.timed);
    }
  where
    kept :
        (b : Bool)
        → (if b
            then add_to c api_requests 1
            else add_to (add_to c api_requests 1) api_errors 1).recent_outcomes
          ≡ c.recent_outcomes
    kept true = refl
    kept false = refl

    held :
        (b : Bool)
        → (if b
            then add_to c api_requests 1
            else add_to (add_to c api_requests 1) api_errors 1).latencies
          ≡ c.latencies
    held true = refl
    held false = refl
apply-AreWindows c (polled ok_count failed_count duration_ms) outcomes durations v = record {
  shown = v.shown;
  timed = v.timed;
}
apply-AreWindows c (tripped now) outcomes durations v = record { shown = v.shown; timed = v.timed }
apply-AreWindows c (counted k) outcomes durations v = record { shown = v.shown; timed = v.timed }
apply-AreWindows c heartbeat outcomes durations v = record { shown = v.shown; timed = v.timed }

apply_all-AreWindows :
    (calls : List Call) (c : DiagnosticsCollector) (outcomes : List Bool) (durations : List ℕ)
    → AreWindows c outcomes durations
    → AreWindows
        (apply_all c calls)
        (outcomes_after outcomes calls)
        (durations_after durations calls)
unfolding apply_all
apply_all-AreWindows [] c outcomes durations v = v
apply_all-AreWindows (call ∷ calls) c outcomes durations v =
    apply_all-AreWindows calls (apply c call) (with_outcome outcomes call)
      (with_duration durations call) (apply-AreWindows c call outcomes durations v)

-- After any calls on a new collector, the outcomes that it keeps are the last fifty of all requests,
-- and the durations the last two hundred of the requests that reached the network and whose clock was
-- not stepped back, oldest first.
pub windows-AreLast :
    (calls : List Call)
    → let c = apply_all new_collector calls in
      (c.recent_outcomes ≡ last 50 (outcomes_after [] calls))
      × (c.latencies ≡ last 200 (durations_after [] calls))
unfolding new_collector
windows-AreLast calls =
    let v =
      apply_all-AreWindows calls new_collector [] [] (record { shown = refl; timed = refl }) in
    (v.shown, v.timed)
