-- ===== src/Diagnostics/Heartbeats.antt =====
-- What the heartbeats count.
use homebridge_myalarmcom.Common.{
  ℕ, ◌+◌, ◌≤◌, ◌≡◌, refl, ◌∙◌, Bool, true, false, List, [], ◌∷◌, if◌then◌else◌, arith,
}
use homebridge_myalarmcom.Js.{ℤ, pos, negsuc}
use homebridge_myalarmcom.Diagnostics.{
  Counter, api_requests, api_errors, poll_ok, poll_failed, breaker_trips, DiagnosticsCollector,
  new_collector, add_to, push_latency, api_request, poll_cycle, breaker_trip, build_heartbeat,
  snapshot, Call, request_made, polled, tripped, counted, heartbeat, apply, apply_all,
}

-- The sum of what the heartbeats among the calls report of a counter.
unfoldable pub heartbeats_sum : DiagnosticsCollector → List Call → Counter → ℕ
unfolding apply build_heartbeat
heartbeats_sum c [] k = 0
heartbeats_sum c (heartbeat ∷ calls) k =
    let (marked, delta) = build_heartbeat c in delta k + heartbeats_sum marked calls k
heartbeats_sum c (call ∷ calls) k = heartbeats_sum (apply c call) calls k

-- A call other than a heartbeat moves no marker and lowers no counter.
record IsForward (c q : DiagnosticsCollector) (k : Counter) : Type 0 where
  marked : q.marker k ≡ c.marker k
  grown : c.counters k ≤ q.counters k

add_to-IsForward :
    (c : DiagnosticsCollector) (l : Counter) (n : ℕ) (k : Counter) → IsForward c (add_to c l n) k
unfolding add_to
add_to-IsForward c l n k = record { marked = refl; grown = ground arith }

push_latency-IsForward :
    (c : DiagnosticsCollector) (latency_ms : ℤ) (was_networked : Bool) (k : Counter)
    → IsForward c (push_latency c latency_ms was_networked) k
unfolding push_latency
push_latency-IsForward c (negsuc n) was_networked k = record { marked = refl; grown = omega arith }
push_latency-IsForward c (pos n) false k = record { marked = refl; grown = omega arith }
push_latency-IsForward c (pos n) true k = record { marked = refl; grown = omega arith }

IsForward-trans :
    (c q r : DiagnosticsCollector) (k : Counter)
    → IsForward c q k
    → IsForward q r k
    → IsForward c r k
IsForward-trans c q r k first then_ = record {
  marked = then_.marked ∙ first.marked;
  grown = omega (arith, first.grown, then_.grown);
}

api_request-IsForward :
    (c : DiagnosticsCollector) (latency_ms : ℤ) (is_ok was_networked : Bool) (k : Counter)
    → IsForward c (api_request c latency_ms is_ok was_networked) k
unfolding api_request
api_request-IsForward c latency_ms is_ok was_networked k =
    let through =
      IsForward-trans c q (push_latency q latency_ms was_networked) k (counted_is_ok is_ok)
        (push_latency-IsForward q latency_ms was_networked k) in
    record { marked = through.marked; grown = through.grown }
  where
    asked : DiagnosticsCollector
    asked = add_to c api_requests 1

    q : DiagnosticsCollector
    q = if is_ok then asked else add_to asked api_errors 1

    counted_is_ok : (b : Bool) → IsForward c (if b then asked else add_to asked api_errors 1) k
    counted_is_ok true = add_to-IsForward c api_requests 1 k
    counted_is_ok false =
        IsForward-trans c asked (add_to asked api_errors 1) k (add_to-IsForward c api_requests 1 k)
          (add_to-IsForward asked api_errors 1 k)

poll_cycle-IsForward :
    (c : DiagnosticsCollector) (ok_count failed_count : ℕ) (duration_ms : ℤ) (k : Counter)
    → IsForward c (poll_cycle c ok_count failed_count duration_ms) k
unfolding poll_cycle
poll_cycle-IsForward c ok_count failed_count duration_ms k =
    let through =
      IsForward-trans c (add_to c poll_ok ok_count)
        (add_to (add_to c poll_ok ok_count) poll_failed failed_count) k
        (add_to-IsForward c poll_ok ok_count k)
        (add_to-IsForward (add_to c poll_ok ok_count) poll_failed failed_count k) in
    record { marked = through.marked; grown = through.grown }

breaker_trip-IsForward :
    (c : DiagnosticsCollector) (now : ℕ) (k : Counter) → IsForward c (breaker_trip c now) k
unfolding breaker_trip
breaker_trip-IsForward c now k =
    let through = add_to-IsForward c breaker_trips 1 k in
    record { marked = through.marked; grown = through.grown }

forward :
    (c : DiagnosticsCollector) (calls : List Call) (q : DiagnosticsCollector) (k : Counter)
    → c.marker k ≤ c.counters k
    → IsForward c q k
    → (q.marker k ≤ q.counters k
        → (((apply_all q calls).marker k ≤ (apply_all q calls).counters k)
            × (q.marker k + heartbeats_sum q calls k ≡ (apply_all q calls).marker k)))
    → ((apply_all q calls).marker k ≤ (apply_all q calls).counters k)
      × (c.marker k + heartbeats_sum q calls k ≡ (apply_all q calls).marker k)
forward c calls q k h f rest =
    let (below, sum) = rest (omega (arith, f.marked, f.grown, h)) in
    (below, omega (arith, f.marked, sum))

-- What has been reported, from here on, and what the next heartbeat would report.
heartbeats_sum_lem :
    (calls : List Call) (c : DiagnosticsCollector) (k : Counter)
    → c.marker k ≤ c.counters k
    → let q = apply_all c calls in
      (q.marker k ≤ q.counters k) × (c.marker k + heartbeats_sum c calls k ≡ q.marker k)
unfolding apply_all apply heartbeats_sum build_heartbeat
heartbeats_sum_lem [] c k h = (h, omega arith)
heartbeats_sum_lem (request_made latency_ms is_ok was_networked ∷ calls) c k h =
    forward c calls (api_request c latency_ms is_ok was_networked) k h
      (api_request-IsForward c latency_ms is_ok was_networked k)
      (heartbeats_sum_lem calls (api_request c latency_ms is_ok was_networked) k)
heartbeats_sum_lem (polled ok_count failed_count duration_ms ∷ calls) c k h =
    forward c calls (poll_cycle c ok_count failed_count duration_ms) k h
      (poll_cycle-IsForward c ok_count failed_count duration_ms k)
      (heartbeats_sum_lem calls (poll_cycle c ok_count failed_count duration_ms) k)
heartbeats_sum_lem (tripped now ∷ calls) c k h =
    forward c calls (breaker_trip c now) k h (breaker_trip-IsForward c now k)
      (heartbeats_sum_lem calls (breaker_trip c now) k)
heartbeats_sum_lem (counted l ∷ calls) c k h =
    forward c calls (add_to c l 1) k h (add_to-IsForward c l 1 k)
      (heartbeats_sum_lem calls (add_to c l 1) k)
heartbeats_sum_lem (heartbeat ∷ calls) c k h =
    let (below, sum) =
      heartbeats_sum_lem calls (record c { marker = c.counters }) k (omega arith) in
    (below, omega (arith, h, sum))

-- After any calls on a new collector, the heartbeats among them and the next one report together, of
-- each counter, exactly what a snapshot of the session reports: nothing is lost or counted twice.
pub heartbeats_add_up :
    (calls : List Call) (k : Counter)
    → let c = apply_all new_collector calls in
      let (marked, delta) = build_heartbeat c in
      heartbeats_sum new_collector calls k + delta k ≡ snapshot c k
unfolding new_collector build_heartbeat
heartbeats_add_up calls k =
    let (below, sum) = heartbeats_sum_lem calls new_collector k (omega arith) in
    omega (arith, below, sum)
