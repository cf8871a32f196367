-- ===== src/Partition/Display.antt =====
-- What the tile shows after a poll.
use homebridge_myalarmcom.Common.{
  ℕ, ◌+◌, ◌≡◌, ◌∙◌, sym, ap, Bool, true, Option, none, some, arith, ◌==◌, ltb, if◌then◌else◌,
}
use homebridge_myalarmcom.Settings.{partition_target_settle_ms}
use homebridge_myalarmcom.Alarm.{PartitionAttributes}
use homebridge_myalarmcom.Js.{is_true}
use homebridge_myalarmcom.Mappers.{to_displayed_security_state}
use homebridge_myalarmcom.Partition.{
  Platform, Partition, sync_target_state_props, report_alarm_state, expire_unconfirmed_target,
  resolve_target_state, publish_target, report_change, update_shown, update, target_to_show, log,
  unrecognised_state, read_current_state, read_target_state,
}

-- The part of the accessory that a poll shows.
pub record Pending : Type 0 where
  pub attributes : Option PartitionAttributes
  pub is_faulty : Bool
  pub pending_target : Option ℕ
  pub target_set_at : ℕ
  pub last_shown_target : Option ℕ
  pub current : Option ℕ
  pub shown_target : Option ℕ

abbrev pub pending : Partition → Pending
pending p = record {
  attributes = p.attributes;
  is_faulty = p.tile.is_faulty;
  pending_target = p.pending_target;
  target_set_at = p.target_set_at;
  last_shown_target = p.last_shown_target;
  current = p.tile.current_state;
  shown_target = p.tile.target_state;
}

pending-sync :
    (p : Partition) (platform : Platform) (a : PartitionAttributes)
    → pending (sync_target_state_props p platform a) ≡ pending p
unfolding sync_target_state_props
pending-sync p platform a = ground arith

pending-report_alarm :
    (p : Partition) (a : PartitionAttributes) → pending (report_alarm_state p a) ≡ pending p
unfolding report_alarm_state
pending-report_alarm p a = ground arith

pending-report_change :
    (p : Partition) (is_debug : Bool) (shown : ℕ)
    → pending (report_change p is_debug shown) ≡ pending p
unfolding report_change
pending-report_change p is_debug shown = ground arith

-- What becomes of the pending target when nothing confirms it.
abbrev pub unless_expired : Option ℕ → ℕ → ℕ → Option ℕ
unless_expired target set_at now =
    if ltb now (set_at + partition_target_settle_ms) then target else none

pending-expire :
    (p : Partition) (now : ℕ)
    → pending (expire_unconfirmed_target p now)
      ≡ record (pending p) { pending_target = unless_expired p.pending_target p.target_set_at now }
unfolding expire_unconfirmed_target
pending-expire p now = ground arith

-- And what becomes of it when the panel reports a state.
abbrev pub unless_reached : Option ℕ → ℕ → ℕ → ℕ → Option ℕ
unless_reached none current set_at now = none
unless_reached (some target) current set_at now =
    if target == current then none else unless_expired (some target) set_at now

pending-resolve :
    (p : Partition) (current now : ℕ)
    → pending (resolve_target_state p current now) ≡ record (pending p) {
      pending_target = unless_reached p.pending_target current p.target_set_at now;
    }
unfolding resolve_target_state
pending-resolve p current now = ground (arith, pending-expire p now)

-- The accessory as `update` hands it on, once the properties and the alarm edge are dealt with.
read_in : Partition → Platform → PartitionAttributes → Partition
read_in p platform a =
    report_alarm_state (sync_target_state_props (record p { attributes = some a }) platform a) a

pending-read_in :
    (p : Partition) (platform : Platform) (a : PartitionAttributes)
    → pending (read_in p platform a) ≡ record (pending p) { attributes = some a }
unfolding read_in
pending-read_in p platform a =
    pending-report_alarm _ a ∙ pending-sync (record p { attributes = some a }) platform a

update-read_in :
    (p : Partition) (platform : Platform) (a : PartitionAttributes) (is_debug : Bool) (now : ℕ)
    (shown : Option ℕ)
    → to_displayed_security_state a ≡ shown
    → update p platform a is_debug now ≡ update_shown shown (read_in p platform a) a is_debug now
unfolding update read_in
update-read_in p platform a is_debug now shown e =
    ap (λ s. update_shown s (read_in p platform a) a is_debug now) e

abbrev pub unrecognised_after : Pending → ℕ → Pending
unrecognised_after s now = record s {
  is_faulty = true;
  pending_target = unless_expired s.pending_target s.target_set_at now;
}

pending-unrecognised :
    (p : Partition) (a : PartitionAttributes) (is_debug : Bool) (now : ℕ)
    → pending (update_shown none p a is_debug now) ≡ unrecognised_after (pending p) now
unfolding update_shown
pending-unrecognised p a is_debug now =
    pending-expire
      (record (log p unrecognised_state) { tile = record (p.tile) { is_faulty = true } }) now

read_states_of :
    (p : Partition) (a : PartitionAttributes)
    → p.attributes ≡ some a
    → to_displayed_security_state a ≡ none
    → (read_current_state p ≡ none) × (read_target_state p ≡ none)
unfolding read_current_state read_target_state
read_states_of p a e d = (ground arith, ground arith)

pub updated_unrecognised :
    (p : Partition) (platform : Platform) (a : PartitionAttributes) (is_debug : Bool) (now : ℕ)
    → to_displayed_security_state a ≡ none
    → pending (update p platform a is_debug now)
      ≡ unrecognised_after (record (pending p) { attributes = some a }) now
updated_unrecognised p platform a is_debug now d =
    ap pending (update-read_in p platform a is_debug now none d)
    ∙ pending-unrecognised (read_in p platform a) a is_debug now
    ∙ ap (λ s. unrecognised_after s now) (pending-read_in p platform a)

-- What a poll that brings a state with no display leaves.
pub unrecognised_kept :
    (p : Partition) (platform : Platform) (a : PartitionAttributes) (is_debug : Bool) (now : ℕ)
    → to_displayed_security_state a ≡ none
    → let q = update p platform a is_debug now in
      (q.tile.current_state ≡ p.tile.current_state)
      × (q.tile.target_state ≡ p.tile.target_state)
      × (q.tile.is_faulty ≡ true)
      × (read_current_state q ≡ none)
      × (read_target_state q ≡ none)
unrecognised_kept p platform a is_debug now d =
    let e = updated_unrecognised p platform a is_debug now d in
    let reads = read_states_of (update p platform a is_debug now) a (ap (λ s. s.attributes) e) d in
    (ap (λ s. s.current) e, ap (λ s. s.shown_target) e, ap (λ s. s.is_faulty) e, reads.0, reads.1)

-- The target to show, by cases of the pending target, and the value written for it.
abbrev pub shown_or_last : Option ℕ → ℕ → Option ℕ → Option ℕ
shown_or_last (some target) shown last = some target
shown_or_last none shown last = if shown == 4 then last else some shown

abbrev pub write_if_some : Option ℕ → Option ℕ → Option ℕ
write_if_some none old = old
write_if_some (some t) old = some t

pending-recognised :
    (p : Partition) (a : PartitionAttributes) (is_debug : Bool) (shown now : ℕ)
    → let target = unless_reached p.pending_target shown p.target_set_at now in
      let to_show = shown_or_last target shown p.last_shown_target in
      pending (update_shown (some shown) p a is_debug now) ≡ record (pending p) {
        is_faulty = is_true a.is_malfunctioning;
        pending_target = target;
        current = some shown;
        last_shown_target = write_if_some to_show p.last_shown_target;
        shown_target = write_if_some to_show p.tile.target_state;
      }
unfolding update_shown target_to_show publish_target
pending-recognised p a is_debug shown now =
    let current = record p { tile = record (p.tile) { current_state = some shown } } in
    let after = pending-resolve current shown now in
    pending-report_change _ is_debug shown ∙ ground (arith, after)

-- The whole effect of such a poll on the shown part.
abbrev pub shown_after : Pending → PartitionAttributes → ℕ → ℕ → Pending
shown_after s a shown now =
    let target = unless_reached s.pending_target shown s.target_set_at now in
    let to_show = shown_or_last target shown s.last_shown_target in
    record s {
      is_faulty = is_true a.is_malfunctioning;
      pending_target = target;
      current = some shown;
      last_shown_target = write_if_some to_show s.last_shown_target;
      shown_target = write_if_some to_show s.shown_target;
    }

pub updated :
    (p : Partition) (platform : Platform) (a : PartitionAttributes) (is_debug : Bool)
    (now shown : ℕ)
    → to_displayed_security_state a ≡ some shown
    → pending (update p platform a is_debug now)
      ≡ shown_after (record (pending p) { attributes = some a }) a shown now
updated p platform a is_debug now shown d =
    ap pending (update-read_in p platform a is_debug now (some shown) d)
    ∙ pending-recognised (read_in p platform a) a is_debug shown now
    ∙ ap (λ s. shown_after s a shown now) (pending-read_in p platform a)

-- A poll that brings a state with a display shows it; a pending target ends when the panel has reached
-- it or the settling time since the request is over, and otherwise stays; the shown target is the
-- pending one, or else the displayed state, but for an alarm, where it stays what was last shown.
pub recognised_shown :
    (p : Partition) (platform : Platform) (a : PartitionAttributes) (is_debug : Bool)
    (shown now : ℕ)
    → to_displayed_security_state a ≡ some shown
    → let q = update p platform a is_debug now in
      let to_show = shown_or_last q.pending_target shown p.last_shown_target in
      (q.tile.current_state ≡ some shown)
      × (q.pending_target ≡ unless_reached p.pending_target shown p.target_set_at now)
      × (q.tile.target_state ≡ write_if_some to_show p.tile.target_state)
      × (q.tile.is_faulty ≡ is_true a.is_malfunctioning)
recognised_shown p platform a is_debug shown now d =
    let e = updated p platform a is_debug now shown d in
    (
      ap (λ s. s.current) e,
      ap (λ s. s.pending_target) e,
      ap (λ s. s.shown_target) e
          ∙ ap (λ t. write_if_some (shown_or_last t shown p.last_shown_target) p.tile.target_state)
              (sym (ap (λ s. s.pending_target) e)),
      ap (λ s. s.is_faulty) e,
    )
