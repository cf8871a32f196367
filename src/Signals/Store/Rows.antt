-- ===== src/Signals/Store/Rows.antt =====
-- What the store holds after any history of writes.
use homebridge_myalarmcom.Common.{
  text_eq_sound, ℕ, ◌≡◌, ◌≢◌, inl, inr, refl, ap, ◌∙◌, Bool, true, false, ◌||◌, Option, none, some,
  List, arith, if◌then◌else◌, Bool-cases,
}
use homebridge_myalarmcom.Signals.{Signal, SignalSeverity}
use homebridge_myalarmcom.Signals.Store.{
  Database, SignalRow, same_signal, clean_summary, fingerprint, same_option, Attempt, no_sqlite,
  cannot_open, cannot_run, works, PagerDutySignals, warn_once, disable, upsert_row, attempt_write,
  write, close_store,
}

same_option→eq : (o : Option (List ℕ)) (t : List ℕ) → same_option o t ≡ true → o ≡ some t
same_option→eq none t e = cc
same_option→eq (some s) t e = ap some (text_eq_sound s t e)

same_signal_refl : (s : Signal) → same_signal s s ≡ true
same_signal_refl s = ground arith

parts-injective :
    (a b : Bool) (s t : SignalSeverity) (x y : List ℕ)
    → fingerprint (record { active = a; severity = s; summary = x })
      ≡ fingerprint (record { active = b; severity = t; summary = y })
    → (a ≡ b) × (s ≡ t) × (x ≡ y)
unfolding fingerprint
parts-injective a b s t x y e = ground arith

-- The fingerprint decides the row.
fingerprint-injective : (r q : SignalRow) → fingerprint r ≡ fingerprint q → r ≡ q
fingerprint-injective r q e =
    let (a, s, x) = parts-injective r.active q.active r.severity q.severity r.summary q.summary e in
    cc

module _ (database : Database) where
  open database use {Db, row_of, row_of-upsert}

  -- A new writer over a store, after any writes, closings and openings.
  pub data Runs : PagerDutySignals database → Type 0 where
    begin :
        (db : Db)
        → Runs (record {
          db = db;
          is_open = false;
          last_written = λ signal. none;
          is_disabled = false;
          has_warned = false;
          warnings = 0;
        })
    next_write :
        {p : PagerDutySignals database} (attempt : Attempt) (signal : Signal) (state : SignalRow)
        → Runs p
        → Runs (write database p attempt signal state)
    closing : {p : PagerDutySignals database} → Runs p → Runs (close_store database p)

  -- A remembered fingerprint is that of the row in the store.
  abbrev IsRemembered : Option SignalRow → Option (List ℕ) → Type 0
  IsRemembered row none = Unit
  IsRemembered none (some f) = ⊥
  IsRemembered (some row) (some f) = fingerprint row ≡ f

  abbrev AllRemembered : PagerDutySignals database → Type 0
  AllRemembered p = (signal : Signal) → IsRemembered (row_of p.db signal) (p.last_written signal)

  choose :
      (b : Bool) (p q : PagerDutySignals database)
      → AllRemembered p
      → AllRemembered q
      → AllRemembered (if b then p else q)
  choose true p q hp hq = hp
  choose false p q hp hq = hq

  warn_once-AllRemembered :
      (p : PagerDutySignals database) → AllRemembered p → AllRemembered (warn_once database p)
  unfolding warn_once
  warn_once-AllRemembered p h = choose p.has_warned _ _ h h

  disable-AllRemembered :
      (p : PagerDutySignals database) → AllRemembered p → AllRemembered (disable database p)
  unfolding disable
  disable-AllRemembered p h =
      warn_once-AllRemembered (record p { is_disabled = true; has_warned = false }) h

  upsert_row-AllRemembered :
      (p : PagerDutySignals database) (signal : Signal) (row : SignalRow)
      → AllRemembered p
      → AllRemembered (upsert_row database p signal row)
  unfolding upsert_row
  upsert_row-AllRemembered p signal row h other =
      rw (row_of-upsert p.db signal other row) (elim (Bool-cases (same_signal signal other)) [
        | inl e ↦ rw e refl
        | inr e ↦ rw e (h other)
      ])

  attempt-AllRemembered :
      (attempt : Attempt) (p : PagerDutySignals database) (signal : Signal) (row : SignalRow)
      → AllRemembered p
      → AllRemembered (attempt_write database attempt p signal row)
  unfolding attempt_write
  attempt-AllRemembered works p signal row h = upsert_row-AllRemembered p signal row h
  attempt-AllRemembered cannot_run p signal row h =
      warn_once-AllRemembered (record p { is_open = true }) h
  attempt-AllRemembered cannot_open p signal row h =
      choose p.is_open _ _ (upsert_row-AllRemembered p signal row h) (warn_once-AllRemembered p h)
  attempt-AllRemembered no_sqlite p signal row h =
      choose p.is_open _ _ (upsert_row-AllRemembered p signal row h)
        (warn_once-AllRemembered (disable database p) (disable-AllRemembered p h))

  Runs-AllRemembered : {p : PagerDutySignals database} → Runs p → AllRemembered p
  unfolding write close_store
  Runs-AllRemembered (begin db) = λ signal. tt
  Runs-AllRemembered (next_write {p} attempt signal state run) =
      let row = record state { summary = clean_summary state.summary } in
      choose (p.is_disabled || same_option (p.last_written signal) (fingerprint row)) _ _
        (Runs-AllRemembered run)
        (attempt-AllRemembered attempt p signal row (Runs-AllRemembered run))
  Runs-AllRemembered (closing run) = Runs-AllRemembered run

  remembered_row :
      (o : Option SignalRow) (f : Option (List ℕ)) (row : SignalRow)
      → IsRemembered o f
      → same_option f (fingerprint row) ≡ true
      → o ≡ some row
  remembered_row o none row h e = cc
  remembered_row none (some f) row h e = absurd h
  remembered_row (some r) (some f) row h e =
      ap some (fingerprint-injective r row (h ∙ text_eq_sound f (fingerprint row) e))

  same_signal→eq : (s t : Signal) → same_signal s t ≡ true → s ≡ t
  same_signal→eq s t e = ground arith

  -- In every history of a writer, over any store that upserts by signal: a write that reaches the
  -- store, or is skipped because nothing changed, leaves the store with the row that was asked for,
  -- its summary cleaned, and with every other row as it was; unless the writer has disabled itself.
  pub row_of-write :
      (p : PagerDutySignals database) (signal other : Signal) (state : SignalRow)
      → Runs p
      → p.is_disabled ≡ false
      → row_of (write database p works signal state).db other ≡ (
          if same_signal signal other
          then some (record state { summary = clean_summary state.summary })
          else row_of p.db other)
  unfolding write attempt_write upsert_row
  row_of-write p signal other state run enabled =
      let row = record state { summary = clean_summary state.summary } in
      elim (Bool-cases (same_option (p.last_written signal) (fingerprint row))) [
        | inr new ↦ simp (enabled, new) (row_of-upsert p.db signal other row)
        | inl old ↦
            let kept : row_of p.db signal ≡ some row =
              remembered_row (row_of p.db signal) (p.last_written signal) row
                (Runs-AllRemembered run signal) old in
            simp (enabled, old)
              (elim (Bool-cases (same_signal signal other)) [
                | inl same ↦ rw same (rw (← same_signal→eq signal other same) kept)
                | inr differ ↦ rw differ refl
              ])
      ]

  -- A write that fails over a closed connection leaves every row, and the memory of the last write, as
  -- they were.
  pub row_of-write_failed :
      (p : PagerDutySignals database) (attempt : Attempt) (signal other : Signal)
      (state : SignalRow)
      → p.is_open ≡ false
      → attempt ≢ works
      → (row_of (write database p attempt signal state).db other ≡ row_of p.db other)
        × ((write database p attempt signal state).last_written signal ≡ p.last_written signal)
  unfolding write attempt_write warn_once disable
  row_of-write_failed p works signal other state closed_ failed = absurd (failed refl)
  row_of-write_failed p cannot_run signal other state closed_ failed = ground arith
  row_of-write_failed p cannot_open signal other state closed_ failed = ground arith
  row_of-write_failed p no_sqlite signal other state closed_ failed = ground arith
