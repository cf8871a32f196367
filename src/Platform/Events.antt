-- ===== src/Platform/Events.antt =====
-- The events of src/platform.ts and what each does, and what is kept true of the timers.
use homebridge_myalarmcom.Common.{
  ℕ, ◌≡◌, ◌⊎◌, Bool, true, false, ◌||◌, List, [], ◌∷◌, leb, if◌then◌else◌,
}
use homebridge_myalarmcom.Errors.{Thrown}
use homebridge_myalarmcom.Retry.{Fraction}
use homebridge_myalarmcom.Platform.{
  Platform, StartPhase, started, retry_waiting, request_device_refresh, refresh_timer_fires,
  begin_refresh_all, cycle_deadline_fires, CycleEnd, end_refresh_all, shutdown,
}
use homebridge_myalarmcom.Platform.Start.{launch, discovery_fails, discovery_succeeds, retry_fires}

pub data PlatformEvent : Type 0 where
  discovered refresh_due deadline_due shut : PlatformEvent
  launched retry_due poll_due : ℕ → PlatformEvent
  discovery_failed : Thrown → Fraction → ℕ → PlatformEvent
  refresh_requested : List ℕ → PlatformEvent
  cycle_ends : CycleEnd → PlatformEvent

-- A timer fires only where it is set, and a cycle or a discovery ends only where one runs.
unfoldable pub handle : PlatformEvent → Platform → Platform
unfolding launch discovery_fails discovery_succeeds retry_fires request_device_refresh
    refresh_timer_fires begin_refresh_all cycle_deadline_fires end_refresh_all shutdown
handle (launched now) p = launch p now
handle (discovery_failed error random now) p = discovery_fails p error random now
handle discovered p = discovery_succeeds p
handle (retry_due now) p = retry_fires p now
handle (refresh_requested id) p = request_device_refresh p id
handle refresh_due p = if p.refresh_timer then refresh_timer_fires p else p
handle (poll_due now) p = if p.poll_timer then begin_refresh_all p now else p
handle deadline_due p = if p.cycle_timer then cycle_deadline_fires p else p
handle (cycle_ends end) p = if leb 1 p.running then end_refresh_all p end else p
handle shut p = shutdown p

unfoldable pub handle_all : List PlatformEvent → Platform → Platform
handle_all [] p = p
handle_all (e ∷ es) p = handle_all es (handle e p)

abbrev pub is_retry_waiting : StartPhase → Bool
is_retry_waiting (retry_waiting attempt due) = true
is_retry_waiting _ = false

-- One cycle at most runs, and it runs under its deadline unless it has been told to stop. A device
-- whose refresh is asked for waits under a timer that is set. Polling waits for a first discovery.
-- After a shutdown the polling, keep-alive and refresh timers are not set, no device and no retry of
-- the start waits, and a cycle that still runs has been told to stop.
pub record IsScheduled (p : Platform) : Type 0 where
  pub one_cycle : p.running ≡ (if p.refresh_all_in_flight then 1 else 0)
  pub bounded :
      (if p.refresh_all_in_flight then p.cycle_timer || p.is_cycle_aborted else true) ≡ true
  pub deadline : (if p.refresh_all_in_flight then false else p.cycle_timer) ≡ false
  pub waits : (p.pending_refresh_ids ≡ []) ⊎ (p.refresh_timer ≡ true)
  pub polls : ((p.poll_timer ≡ false) × (p.keep_alive_timer ≡ false)) ⊎ (p.start ≡ started)
  pub quiet :
      (p.is_shutting_down ≡ false)
      ⊎ ((p.poll_timer ≡ false)
          × (p.keep_alive_timer ≡ false)
          × (p.refresh_timer ≡ false)
          × (p.pending_refresh_ids ≡ [])
          × (is_retry_waiting p.start ≡ false)
          × ((if p.refresh_all_in_flight then p.is_cycle_aborted else true) ≡ true))
