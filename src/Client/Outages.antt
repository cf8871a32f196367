-- ===== src/Client/Outages.antt =====
-- src/api/client.ts: what the client reports of the circuit breaker's transitions.
use homebridge_myalarmcom.Common.{
  ℕ, ◌+◌, ◌≡◌, refl, subst, Bool, true, false, not, ◌&&◌, List, [], ◌∷◌, arith, if◌then◌else◌,
}
use homebridge_myalarmcom.Circuit.{CircuitState, closed, opened, half_open, CircuitBreakerConfig}
use homebridge_myalarmcom.Circuit.Invariant.{System, Reach, fresh}
use homebridge_myalarmcom.Circuit.Transitions.{is_chain, is_edge, Reach-is_chain}

pub data Level : Type 0 where
  warn info debug : Level

-- `circuit_opens` counts the calls of `onCircuitOpen`; the levels of the lines are newest first.
pub record Announcer : Type 0 where
  pub has_reported_circuit_open : Bool
  pub circuit_opens : ℕ
  pub lines : List Level

abbrev pub is_opened : CircuitState → Bool
is_opened opened = true
is_opened _ = false

abbrev pub is_closed : CircuitState → Bool
is_closed closed = true
is_closed _ = false

unfoldable pub log_circuit_transition : Announcer → CircuitState → Announcer
log_circuit_transition a to =
    if is_opened to && not a.has_reported_circuit_open
    then record a { has_reported_circuit_open = true; lines = warn ∷ a.lines }
    else if is_closed to && a.has_reported_circuit_open
    then record a { has_reported_circuit_open = false; lines = info ∷ a.lines }
    else record a { lines = debug ∷ a.lines }

-- The listener that the constructor attaches.
unfoldable pub on_state_change : Announcer → CircuitState × CircuitState → Announcer
unfolding log_circuit_transition
on_state_change a (from, to) =
    let is_new_outage = is_opened to && not a.has_reported_circuit_open in
    let logged = log_circuit_transition a to in
    if is_new_outage then record logged { circuit_opens = logged.circuit_opens + 1 } else logged

-- The client's report after these transitions, newest first.
unfoldable pub reported : List (CircuitState × CircuitState) → Announcer
unfolding on_state_change
reported [] = record { has_reported_circuit_open = false; circuit_opens = 0; lines = [] }
reported (transition ∷ past) = on_state_change (reported past) transition

-- How often the breaker left the closed state, and how often it came back to it.
pub outages : List (CircuitState × CircuitState) → ℕ
outages [] = 0
outages ((from, to) ∷ past) = let rest = outages past in if is_closed from then rest + 1 else rest

pub recoveries : List (CircuitState × CircuitState) → ℕ
recoveries [] = 0
recoveries ((from, to) ∷ past) =
    let rest = recoveries past in if is_closed to then rest + 1 else rest

abbrev pub is_warn : Level → Bool
is_warn warn = true
is_warn _ = false

abbrev pub is_info : Level → Bool
is_info info = true
is_info _ = false

pub count : (Level → Bool) → List Level → ℕ
count p [] = 0
count p (line ∷ past) = let rest = count p past in if p line then rest + 1 else rest

-- What was reported when this is the state, after so many outages and recoveries.
pub record IsReported (a : Announcer) (now : CircuitState) (opens closes : ℕ) : Type 0 where
  pub pending : a.has_reported_circuit_open ≡ not (is_closed now)
  pub calls : a.circuit_opens ≡ opens
  pub warns : count is_warn a.lines ≡ opens
  pub infos : count is_info a.lines ≡ closes

edge-IsReported :
    (a : Announcer) (from to : CircuitState) (opens closes : ℕ)
    → is_edge from to ≡ true
    → IsReported a from opens closes
    → IsReported
        (on_state_change a (from, to))
        to
        (if is_closed from then opens + 1 else opens)
        (if is_closed to then closes + 1 else closes)
unfolding on_state_change log_circuit_transition count
edge-IsReported a closed opened opens closes e v =
    ground (arith, v.pending, v.calls, v.warns, v.infos)
edge-IsReported a opened half_open opens closes e v = record {
  pending = v.pending;
  calls = v.calls;
  warns = v.warns;
  infos = v.infos;
}
edge-IsReported a half_open opened opens closes e v =
    ground (arith, v.pending, v.calls, v.warns, v.infos)
edge-IsReported a half_open closed opens closes e v =
    ground (arith, v.pending, v.calls, v.warns, v.infos)
edge-IsReported a closed closed opens closes e v = ground arith
edge-IsReported a closed half_open opens closes e v = ground arith
edge-IsReported a opened closed opens closes e v = ground arith
edge-IsReported a opened opened opens closes e v = ground arith
edge-IsReported a half_open half_open opens closes e v = ground arith

chain-IsReported :
    (now : CircuitState) (past : List (CircuitState × CircuitState))
    → is_chain now past ≡ true
    → IsReported (reported past) now (outages past) (recoveries past)
unfolding is_chain reported outages recoveries count
chain-IsReported now [] h = record {
  pending = ground arith;
  calls = refl;
  warns = refl;
  infos = refl;
}
chain-IsReported now ((from, to) ∷ past) h =
    let e : to ≡ now = ground arith in
    let v = chain-IsReported from past (ground arith) in
    subst
      (λ at.
        IsReported (reported ((from, to) ∷ past)) at (outages ((from, to) ∷ past))
          (recoveries ((from, to) ∷ past)))
      e (edge-IsReported (reported past) from to (outages past) (recoveries past) (ground arith) v)

-- In every history of the breaker, the client has announced an outage exactly when the breaker is not
-- closed; it has called `onCircuitOpen`, and logged a warning, once for each time the breaker left the
-- closed state, however often it re-opened after a failed probe, and an information line once for each
-- time it closed.
pub Reach-IsReported :
    (c : CircuitBreakerConfig) (s : System)
    → Reach (fresh c) s
    → let past = s.breaker.transitions in
      IsReported (reported past) s.breaker.state (outages past) (recoveries past)
Reach-IsReported c s r =
    chain-IsReported s.breaker.state s.breaker.transitions (Reach-is_chain c s r)
