-- ===== src/Partition/Readings.antt =====
-- What a poll leaves alone, and what each part of it changes.
use homebridge_myalarmcom.Common.{ℕ, ◌≡◌, ◌∙◌, refl, Bool, true, Option, none, some, List, arith}
use homebridge_myalarmcom.Alarm.{PartitionAttributes}
use homebridge_myalarmcom.Mappers.{to_displayed_security_state}
use homebridge_myalarmcom.Partition.{
  Platform, QueuedRequest, CommandAttempt, Partition, sync_target_state_props, report_alarm_state,
  expire_unconfirmed_target, resolve_target_state, publish_target, report_change, update_shown,
  update, target_to_show, log, unrecognised_state,
}

-- The part of the accessory that commands read and write.
pub record CommandLine : Type 0 where
  pub in_flight : Option CommandAttempt
  pub queued : Option QueuedRequest
  pub commands : List QueuedRequest
  pub command_sequence : ℕ

abbrev pub line : Partition → CommandLine
line p = record {
  in_flight = p.in_flight;
  queued = p.queued;
  commands = p.commands;
  command_sequence = p.command_sequence;
}

line-sync :
    (p : Partition) (platform : Platform) (a : PartitionAttributes)
    → line (sync_target_state_props p platform a) ≡ line p
unfolding sync_target_state_props
line-sync p platform a = ground arith

line-report_alarm :
    (p : Partition) (a : PartitionAttributes) → line (report_alarm_state p a) ≡ line p
unfolding report_alarm_state
line-report_alarm p a = ground arith

line-expire : (p : Partition) (now : ℕ) → line (expire_unconfirmed_target p now) ≡ line p
unfolding expire_unconfirmed_target
line-expire p now = ground arith

line-resolve :
    (p : Partition) (current now : ℕ) → line (resolve_target_state p current now) ≡ line p
unfolding resolve_target_state
line-resolve p current now = ground (arith, line-expire p now)

line-publish : (p : Partition) (t : Option ℕ) → line (publish_target p t) ≡ line p
unfolding publish_target
line-publish p none = refl
line-publish p (some t) = refl

line-report_change :
    (p : Partition) (is_debug : Bool) (shown : ℕ) → line (report_change p is_debug shown) ≡ line p
unfolding report_change
line-report_change p is_debug shown = ground arith

line-update_shown :
    (shown : Option ℕ) (p : Partition) (a : PartitionAttributes) (is_debug : Bool) (now : ℕ)
    → line (update_shown shown p a is_debug now) ≡ line p
unfolding update_shown
line-update_shown none p a is_debug now =
    line-expire (record (log p unrecognised_state) { tile = record (p.tile) { is_faulty = true } })
      now
line-update_shown (some shown) p a is_debug now =
    let current = record p { tile = record (p.tile) { current_state = some shown } } in
    let resolved = resolve_target_state current shown now in
    line-report_change _ is_debug shown
    ∙ line-publish resolved (target_to_show resolved shown)
    ∙ line-resolve current shown now

-- A poll neither sends, holds nor forgets a command.
pub line-update :
    (p : Partition) (platform : Platform) (a : PartitionAttributes) (is_debug : Bool) (now : ℕ)
    → line (update p platform a is_debug now) ≡ line p
unfolding update
line-update p platform a is_debug now =
    let stored = record p { attributes = some a } in
    line-update_shown (to_displayed_security_state a) _ a is_debug now
    ∙ line-report_alarm _ a
    ∙ line-sync stored platform a
