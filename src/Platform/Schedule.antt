-- ===== src/Platform/Schedule.antt =====
-- What the platform keeps true of its timers and of its refreshes, over every history.
use homebridge_myalarmcom.Common.{
  ℕ, zero, suc, ◌+◌, ◌≡◌, ◌≢◌, ◌⊎◌, inl, inr, refl, Bool, true, false, Option, none, some, List, [],
  ◌∷◌, arith, leb, if◌then◌else◌, Bool-cases,
}
use homebridge_myalarmcom.Errors.{Thrown}
use homebridge_myalarmcom.Retry.{Fraction}
use homebridge_myalarmcom.Startup.{initial_discovery_retry_delay_ms}
use homebridge_myalarmcom.Platform.{
  Platform, StartPhase, launching, given_up, started, discovering, retry_waiting, interrupted,
  new_platform, start_polling, start_keep_alive, request_device_refresh, refresh_timer_fires,
  begin_refresh_all, cycle_deadline_fires, CycleEnd, refreshed, cycle_failed, report_cycle,
  report_success, report_failure, end_refresh_all, shutdown,
}
use homebridge_myalarmcom.Platform.Start.{
  launch, launch_in, begin_discovery, discovery_fails, discovery_fails_in, discovery_succeeds,
  discovery_succeeds_in, retry_fires, retry_fires_in, wait_or_give_up,
}
use homebridge_myalarmcom.Platform.Events.{
  PlatformEvent, discovered, refresh_due, deadline_due, shut, launched, retry_due, poll_due,
  discovery_failed, refresh_requested, cycle_ends, handle, handle_all, is_retry_waiting,
  IsScheduled,
}

abbrev restarted : Platform → StartPhase → ℕ → ℕ → Platform
restarted p start stamp errors = record p {
  start = start;
  last_discovery_at = stamp;
  errors_logged = errors;
}

-- A start that has not led to polling moves on, and waits only where no shutdown has come.
restarted-IsScheduled :
    (p : Platform) (start : StartPhase) (stamp errors : ℕ)
    → IsScheduled p
    → p.start ≢ started
    → (p.is_shutting_down ≡ false) ⊎ (is_retry_waiting start ≡ false)
    → IsScheduled (restarted p start stamp errors)
restarted-IsScheduled p start stamp errors v before free = record {
  one_cycle = v.one_cycle;
  bounded = v.bounded;
  deadline = v.deadline;
  waits = v.waits;
  polls = elim v.polls [ inl off ↦ inl off | inr on ↦ absurd (before on) ];
  quiet = elim v.quiet [
    | inl up ↦ inl up
    | inr (poll, keep, refresh, none_pending, none_waits, told) ↦ elim free [
      | inl up ↦ inl up
      | inr not_waiting ↦ inr (poll, keep, refresh, none_pending, not_waiting, told)
    ]
  ];
}

if-IsScheduled :
    (b : Bool) (x y : Platform)
    → (b ≡ true → IsScheduled x)
    → (b ≡ false → IsScheduled y)
    → IsScheduled (if b then x else y)
if-IsScheduled true x y hx hy = hx refl
if-IsScheduled false x y hx hy = hy refl

begin_discovery-IsScheduled :
    (p : Platform) (attempt now : ℕ)
    → IsScheduled p
    → p.start ≢ started
    → IsScheduled (begin_discovery p attempt now)
unfolding begin_discovery
begin_discovery-IsScheduled p attempt now v before =
    if-IsScheduled p.is_shutting_down _ _
      (λ down.
        restarted-IsScheduled p given_up p.last_discovery_at p.errors_logged v before (inr refl))
      (λ up. restarted-IsScheduled p (discovering attempt) now p.errors_logged v before (inr refl))

launch-IsScheduled :
    (start : StartPhase) (p : Platform) (now : ℕ)
    → p.start ≡ start
    → IsScheduled p
    → IsScheduled (launch_in start p now)
unfolding launch_in
launch-IsScheduled launching p now e v = begin_discovery-IsScheduled p 0 now v (λ on. cc (e, on))
launch-IsScheduled _ p now e v = v

retry_fires-IsScheduled :
    (start : StartPhase) (p : Platform) (now : ℕ)
    → p.start ≡ start
    → IsScheduled p
    → IsScheduled (retry_fires_in start p now)
unfolding retry_fires_in
retry_fires-IsScheduled (retry_waiting attempt due) p now e v = elim (Bool-cases (leb due now)) [
  | inl over ↦ rw over (begin_discovery-IsScheduled p attempt now v (λ on. cc (e, on)))
  | inr early ↦ rw early v
]
retry_fires-IsScheduled _ p now e v = v

wait_or_give_up-IsScheduled :
    (delay : Option ℕ) (p : Platform) (attempt now : ℕ)
    → IsScheduled p
    → p.start ≢ started
    → p.is_shutting_down ≡ false
    → IsScheduled (wait_or_give_up delay p attempt now)
wait_or_give_up-IsScheduled none p attempt now v before up =
    restarted-IsScheduled p given_up p.last_discovery_at (p.errors_logged + 1) v before (inl up)
wait_or_give_up-IsScheduled (some delay_ms) p attempt now v before up =
    restarted-IsScheduled p (retry_waiting attempt (now + delay_ms)) p.last_discovery_at
      p.errors_logged v before (inl up)

discovery_fails-IsScheduled :
    (start : StartPhase) (p : Platform) (error : Thrown) (random : Fraction) (now : ℕ)
    → p.start ≡ start
    → IsScheduled p
    → IsScheduled (discovery_fails_in start p error random now)
unfolding discovery_fails_in
discovery_fails-IsScheduled (discovering attempt) p error random now e v =
    let before : p.start ≢ started = λ on. cc (e, on) in
    if-IsScheduled p.is_shutting_down _ _
      (λ down.
        restarted-IsScheduled p given_up p.last_discovery_at p.errors_logged v before (inr refl))
      (λ up.
        wait_or_give_up-IsScheduled
          (initial_discovery_retry_delay_ms error (attempt + 1) random now) p (attempt + 1) now v
          before up)
discovery_fails-IsScheduled _ p error random now e v = v

discovery_succeeds-IsScheduled :
    (start : StartPhase) (p : Platform)
    → p.start ≡ start
    → IsScheduled p
    → IsScheduled (discovery_succeeds_in start p)
unfolding discovery_succeeds_in start_polling start_keep_alive
discovery_succeeds-IsScheduled (discovering attempt) p e v =
    if-IsScheduled p.is_shutting_down _ _
      (λ down.
        restarted-IsScheduled p given_up p.last_discovery_at p.errors_logged v (λ on. cc (e, on))
          (inr refl))
      (λ up. ground (arith, v.one_cycle, v.bounded, v.deadline, v.waits, up))
discovery_succeeds-IsScheduled _ p e v = v

report_cycle-IsScheduled :
    (p : Platform) (end : CycleEnd) → IsScheduled p → IsScheduled (report_cycle p end)
unfolding report_cycle report_success report_failure
report_cycle-IsScheduled p (refreshed zero) v = v
report_cycle-IsScheduled p (refreshed (suc n)) v = record {
  one_cycle = v.one_cycle;
  bounded = v.bounded;
  deadline = v.deadline;
  waits = v.waits;
  polls = v.polls;
  quiet = v.quiet;
}
report_cycle-IsScheduled p (cycle_failed is_error signature) v = record {
  one_cycle = ground (arith, v.one_cycle);
  bounded = ground (arith, v.bounded);
  deadline = ground (arith, v.deadline);
  waits = ground (arith, v.waits);
  polls = ground (arith, v.polls);
  quiet = ground (arith, v.quiet);
}

end_refresh_all-IsScheduled :
    (p : Platform) (end : CycleEnd)
    → IsScheduled p
    → leb 1 p.running ≡ true
    → IsScheduled (end_refresh_all p end)
unfolding end_refresh_all
end_refresh_all-IsScheduled p end v runs =
    let reported = report_cycle-IsScheduled p end v in
    record {
      one_cycle = ground (arith, v.one_cycle);
      bounded = refl;
      deadline = refl;
      waits = reported.waits;
      polls = reported.polls;
      quiet = elim reported.quiet [
        | inl up ↦ inl up
        | inr (poll, keep, refresh, none_pending, none_waits, told) ↦
            inr (poll, keep, refresh, none_pending, none_waits, refl)
      ];
    }

not_waiting : (start : StartPhase) → is_retry_waiting (interrupted start) ≡ false
not_waiting launching = refl
not_waiting given_up = refl
not_waiting started = refl
not_waiting (discovering attempt) = refl
not_waiting (retry_waiting attempt due) = refl

shutdown-IsScheduled : (p : Platform) → IsScheduled p → IsScheduled (shutdown p)
unfolding shutdown
shutdown-IsScheduled p v =
    if-IsScheduled p.is_shutting_down _ _ (λ down. v)
      (λ up. record {
        one_cycle = v.one_cycle;
        bounded = ground arith;
        deadline = v.deadline;
        waits = inl refl;
        polls = inl (refl, refl);
        quiet = inr (refl, refl, refl, refl, not_waiting p.start, ground arith);
      })

handle-IsScheduled : (e : PlatformEvent) (p : Platform) → IsScheduled p → IsScheduled (handle e p)
unfolding handle launch discovery_fails discovery_succeeds retry_fires request_device_refresh
    refresh_timer_fires begin_refresh_all cycle_deadline_fires
handle-IsScheduled (launched now) p v = launch-IsScheduled p.start p now refl v
handle-IsScheduled (discovery_failed error random now) p v =
    discovery_fails-IsScheduled p.start p error random now refl v
handle-IsScheduled discovered p v = discovery_succeeds-IsScheduled p.start p refl v
handle-IsScheduled (retry_due now) p v = retry_fires-IsScheduled p.start p now refl v
handle-IsScheduled (refresh_requested id) p v =
    ground (arith, v.one_cycle, v.bounded, v.deadline, v.waits, v.polls, v.quiet)
handle-IsScheduled refresh_due p v =
    ground (arith, v.one_cycle, v.bounded, v.deadline, v.waits, v.polls, v.quiet)
handle-IsScheduled (poll_due now) p v =
    ground (arith, v.one_cycle, v.bounded, v.deadline, v.waits, v.polls, v.quiet)
handle-IsScheduled deadline_due p v =
    ground (arith, v.one_cycle, v.bounded, v.deadline, v.waits, v.polls, v.quiet)
handle-IsScheduled shut p v = shutdown-IsScheduled p v
handle-IsScheduled (cycle_ends end) p v = elim (Bool-cases (leb 1 p.running)) [
  | inl runs ↦ rw runs (end_refresh_all-IsScheduled p end v runs)
  | inr none_runs ↦ rw none_runs v
]

handle_all-IsScheduled :
    (es : List PlatformEvent) (p : Platform) → IsScheduled p → IsScheduled (handle_all es p)
unfolding handle_all
handle_all-IsScheduled [] p v = v
handle_all-IsScheduled (e ∷ es) p v =
    handle_all-IsScheduled es (handle e p) (handle-IsScheduled e p v)

-- Over every history of the platform: one refresh cycle at most runs, and while it does, its
-- deadline is set or it has been told to stop, and no deadline is set without it; a device whose
-- refresh is asked for waits under a timer that is set; polling and keep-alive are set only where a
-- first discovery has succeeded; and after a shutdown the polling, keep-alive and refresh timers
-- are not set, neither a device nor a retry of the start waits, and a cycle that still runs has
-- been told to stop.
pub run-IsScheduled : (es : List PlatformEvent) → IsScheduled (handle_all es new_platform)
unfolding new_platform
run-IsScheduled es = handle_all-IsScheduled es new_platform (record {
  one_cycle = refl;
  bounded = refl;
  deadline = refl;
  waits = inl refl;
  polls = inl (refl, refl);
  quiet = inl refl;
})
