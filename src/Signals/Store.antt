-- ===== src/Signals/Store.antt =====
-- src/pagerduty-signals.ts: the writer of the signal store. The database is not part of the
-- repository: it is the parameter `Database`, whose laws state what SQLite documents of an upsert.
pub mod Rows
use homebridge_myalarmcom.Common.{
  ℕ, zero, suc, Bool, true, false, not, ◌&&◌, ◌||◌, Option, none, some, List, [], ◌∷◌, ◌++◌, take,
  text_eq, ltb, leb, ◌==◌, ◌≡◌, if◌then◌else◌,
}
use homebridge_myalarmcom.Signals.{
  Signal, alarm_active, smoke_active, auth_failed, cloud_offline, SignalSeverity, info, warning,
  error, critical,
}

-- A state with its summary as text.
pub record SignalRow : Type 0 where
  pub active : Bool
  pub severity : SignalSeverity
  pub summary : List ℕ

abbrev pub same_signal : Signal → Signal → Bool
same_signal alarm_active alarm_active = true
same_signal smoke_active smoke_active = true
same_signal auth_failed auth_failed = true
same_signal cloud_offline cloud_offline = true
same_signal _ _ = false

-- The rows of this plugin. A row holds for a signal what the last upsert of it gave.
pub record Database : Type 1 where
  pub Db : Type 0
  pub row_of : Db → Signal → Option SignalRow
  pub upsert : Db → Signal → SignalRow → Db
  pub row_of-upsert :
      (db : Db) (signal other : Signal) (row : SignalRow)
      → row_of (upsert db signal row) other
        ≡ (if same_signal signal other then some row else row_of db other)

abbrev pub max_summary_length : ℕ
max_summary_length = 1024

-- U+0000 to U+001F, and U+007F.
abbrev is_control : ℕ → Bool
is_control c = leb c 31 || (c == 127)

-- `replace(CONTROL_CHARACTERS, ' ')`: each run becomes one space.
replace_controls : Bool → List ℕ → List ℕ
replace_controls in_run [] = []
replace_controls in_run (c ∷ cs) =
    let rest = replace_controls (is_control c) cs in
    if is_control c then (if in_run then rest else 32 ∷ rest) else c ∷ rest

unfoldable pub clean_summary : List ℕ → List ℕ
unfolding replace_controls
clean_summary summary = take max_summary_length (replace_controls false summary)

-- The texts of the severities.
severity_text : SignalSeverity → List ℕ
severity_text info = 105 ∷ 110 ∷ 102 ∷ 111 ∷ []
severity_text warning = 119 ∷ 97 ∷ 114 ∷ 110 ∷ 105 ∷ 110 ∷ 103 ∷ []
severity_text error = 101 ∷ 114 ∷ 114 ∷ 111 ∷ 114 ∷ []
severity_text critical = 99 ∷ 114 ∷ 105 ∷ 116 ∷ 105 ∷ 99 ∷ 97 ∷ 108 ∷ []

-- `${active ? 1 : 0}|${severity}|${summary}`
pub fingerprint : SignalRow → List ℕ
unfolding severity_text
fingerprint row =
    (if row.active then 49 else 48) ∷ 124 ∷ (severity_text row.severity ++ (124 ∷ row.summary))

abbrev same_option : Option (List ℕ) → List ℕ → Bool
same_option none f = false
same_option (some t) f = text_eq t f

-- How an attempt to reach the store goes: `node:sqlite` is missing, opening or running throws, or it
-- works. An open connection is not opened again.
pub data Attempt : Type 0 where
  no_sqlite cannot_open cannot_run works : Attempt

module _ (database : Database) where
  open database use {Db, upsert}

  -- `db` is the contents of the store, whether the connection is open or not.
  pub record PagerDutySignals : Type 0 where
    pub db : Db
    pub is_open : Bool
    pub last_written : Signal → Option (List ℕ)
    pub is_disabled : Bool
    pub has_warned : Bool
    pub warnings : ℕ

  unfoldable pub warn_once : PagerDutySignals → PagerDutySignals
  warn_once p =
      if p.has_warned then p else record p { has_warned = true; warnings = suc p.warnings }

  -- `disable` warns, and its error is caught by `write`, whose own warning is then a second call.
  unfoldable pub disable : PagerDutySignals → PagerDutySignals
  unfolding warn_once
  disable p = warn_once (record p { is_disabled = true; has_warned = false })

  upsert_row : PagerDutySignals → Signal → SignalRow → PagerDutySignals
  upsert_row p signal row = record p {
    db = upsert p.db signal row;
    is_open = true;
    last_written =
        λ other. if same_signal signal other then some (fingerprint row) else p.last_written other;
    has_warned = false;
  }

  attempt_write : Attempt → PagerDutySignals → Signal → SignalRow → PagerDutySignals
  unfolding warn_once disable upsert_row
  attempt_write works p signal row = upsert_row p signal row
  attempt_write cannot_run p signal row = warn_once (record p { is_open = true })
  attempt_write cannot_open p signal row =
      if p.is_open then upsert_row p signal row else warn_once p
  attempt_write no_sqlite p signal row =
      if p.is_open then upsert_row p signal row else warn_once (disable p)

  unfoldable pub write : PagerDutySignals → Attempt → Signal → SignalRow → PagerDutySignals
  unfolding clean_summary attempt_write
  write p attempt signal state =
      let row = record state { summary = clean_summary state.summary } in
      if p.is_disabled || same_option (p.last_written signal) (fingerprint row)
      then p
      else attempt_write attempt p signal row

  unfoldable pub close_store : PagerDutySignals → PagerDutySignals
  close_store p = record p { is_open = false }
