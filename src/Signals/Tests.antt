-- ===== src/Signals/Tests.antt =====
-- An outage that is confirmed, a stopped sign-in, and a store with one row.
use homebridge_myalarmcom.Common.{
  ◌≡◌, refl, true, false, Option, none, some, List, [], ◌∷◌, if◌then◌else◌,
}
use homebridge_myalarmcom.Signals.{
  Signal, auth_failed, cloud_offline, error, new_signals, Event, started, unreached, reached,
  sign_in_stopped, grace_ended, closed, rejected, handle_all,
}
use homebridge_myalarmcom.Signals.Spec.{view_of, spec_all, initial_view, handle_all-refines}
use homebridge_myalarmcom.Signals.Store.{
  Database, SignalRow, same_signal, clean_summary, PagerDutySignals, write, works,
}
use homebridge_myalarmcom.Signals.Store.Rows.{begin, row_of-write}

abbrev outage : List Event
outage = started 0 ∷ unreached 1000 ∷ grace_ended ∷ sign_in_stopped rejected ∷ closed ∷ reached ∷ []

handle_all-refines_example : view_of (handle_all outage new_signals) ≡ spec_all outage initial_view
handle_all-refines_example = handle_all-refines outage

-- A store that is a function.
abbrev table : Database
table = record {
  Db = Signal → Option SignalRow;
  row_of = λ db signal. db signal;
  upsert = λ db signal row other. if same_signal signal other then some row else db other;
  row_of-upsert = λ db signal other row. refl;
}

abbrev empty_table : Signal → Option SignalRow
empty_table signal = none

abbrev new_writer : PagerDutySignals table
new_writer = record {
  db = empty_table;
  is_open = false;
  last_written = λ signal. none;
  is_disabled = false;
  has_warned = false;
  warnings = 0;
}

abbrev offline_row : SignalRow
offline_row = record { active = true; severity = error; summary = 72 ∷ 9 ∷ 10 ∷ 105 ∷ [] }

row_of-write_example :
    table.row_of (write table new_writer works cloud_offline offline_row).db auth_failed ≡ (
      if same_signal cloud_offline auth_failed
      then some (record offline_row { summary = clean_summary offline_row.summary })
      else table.row_of new_writer.db auth_failed)
row_of-write_example =
    row_of-write table new_writer cloud_offline auth_failed offline_row (begin empty_table) refl

cleaned : clean_summary offline_row.summary ≡ 72 ∷ 32 ∷ 105 ∷ []
unfolding clean_summary
cleaned = refl
