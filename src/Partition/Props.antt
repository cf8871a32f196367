-- ===== src/Partition/Props.antt =====
-- The properties of the target characteristic: which modes are offered, and whether it is writable.
use homebridge_myalarmcom.Common.{
  ℕ, ◌≡◌, ◌∙◌, inl, inr, refl, sym, ap, subst, Bool, true, ◌||◌, Option, none, some, List, [], ◌∷◌,
  arith, Bool-cases, if◌then◌else◌,
}
use homebridge_myalarmcom.Alarm.{PartitionAttributes, supports_night_arming, is_night_armed}
use homebridge_myalarmcom.Mappers.{
  to_displayed_security_state, stay_arm, away_arm, disarmed_state, night_arm,
}
use homebridge_myalarmcom.Partition.{
  Platform, Partition, PropsSignature, new_partition, update, log, can_change_state,
  sync_target_state_props, valid_target_states, signature, is_same_signature, QueuedRequest,
  CommandAttempt, expire_unconfirmed_target, resolve_target_state, publish_target, report_change,
  report_alarm_state, update_shown, target_to_show, unrecognised_state,
}
use homebridge_myalarmcom.Partition.Commands.{
  send_command, send_command_in, handle_target_state, settle, release_and_drain, record_outcome,
  drain,
}
use homebridge_myalarmcom.Partition.Guards.{handle_target_state_cases}
use homebridge_myalarmcom.Partition.Ordering.{Runs, begin, request, decline, finish, poll}

-- The applied signature, and what the tile has.
record Applied : Type 0 where
  sig : Option PropsSignature
  values : List ℕ
  writable : Bool

abbrev applied : Partition → Applied
applied p = record {
  sig = p.props_signature;
  values = p.tile.valid_values;
  writable = p.tile.is_writable;
}

-- What the tile has is what the applied signature asks for.
abbrev IsCoherent : Applied → Type 0
IsCoherent s =
    (sig : PropsSignature)
    → s.sig ≡ some sig
    → (s.values ≡ valid_target_states sig) × (s.writable ≡ sig.can_change)

eq-some_of_same :
    (s : PropsSignature) (o : Option PropsSignature) → is_same_signature s o ≡ true → o ≡ some s
unfolding is_same_signature
eq-some_of_same s none e = cc
eq-some_of_same s (some t) e = ground arith

signature_writable :
    (platform : Platform) (a : PartitionAttributes)
    → (signature platform a).can_change ≡ can_change_state platform a
unfolding signature
signature_writable platform a = refl

sync-applied :
    (p : Partition) (platform : Platform) (a : PartitionAttributes)
    → IsCoherent (applied p)
    → applied (sync_target_state_props p platform a) ≡ record {
      sig = some (signature platform a);
      values = valid_target_states (signature platform a);
      writable = can_change_state platform a;
    }
unfolding sync_target_state_props
sync-applied p platform a v =
    let sig = signature platform a in
    elim (Bool-cases (is_same_signature sig p.props_signature)) [
      | inl e ↦
          let same = eq-some_of_same sig p.props_signature e in
          let (values, writable) = v sig same in
          rw e (ground (arith, same, values, writable, signature_writable platform a))
      | inr e ↦ rw e (ground (arith, signature_writable platform a))
    ]

applied-report_alarm :
    (p : Partition) (a : PartitionAttributes) → applied (report_alarm_state p a) ≡ applied p
unfolding report_alarm_state
applied-report_alarm p a = ground arith

applied-expire : (p : Partition) (now : ℕ) → applied (expire_unconfirmed_target p now) ≡ applied p
unfolding expire_unconfirmed_target
applied-expire p now = ground arith

applied-resolve :
    (p : Partition) (current now : ℕ) → applied (resolve_target_state p current now) ≡ applied p
unfolding resolve_target_state
applied-resolve p current now = ground (arith, applied-expire p now)

applied-publish : (p : Partition) (t : Option ℕ) → applied (publish_target p t) ≡ applied p
unfolding publish_target
applied-publish p none = refl
applied-publish p (some t) = refl

applied-report_change :
    (p : Partition) (is_debug : Bool) (shown : ℕ)
    → applied (report_change p is_debug shown) ≡ applied p
unfolding report_change
applied-report_change p is_debug shown = ground arith

applied-update_shown :
    (shown : Option ℕ) (p : Partition) (a : PartitionAttributes) (is_debug : Bool) (now : ℕ)
    → applied (update_shown shown p a is_debug now) ≡ applied p
unfolding update_shown
applied-update_shown none p a is_debug now =
    applied-expire
      (record (log p unrecognised_state) { tile = record (p.tile) { is_faulty = true } }) now
applied-update_shown (some shown) p a is_debug now =
    let current = record p { tile = record (p.tile) { current_state = some shown } } in
    let resolved = resolve_target_state current shown now in
    applied-report_change _ is_debug shown
    ∙ applied-publish resolved (target_to_show resolved shown)
    ∙ applied-resolve current shown now

applied-update :
    (p : Partition) (platform : Platform) (a : PartitionAttributes) (is_debug : Bool) (now : ℕ)
    → IsCoherent (applied p)
    → applied (update p platform a is_debug now) ≡ record {
      sig = some (signature platform a);
      values = valid_target_states (signature platform a);
      writable = can_change_state platform a;
    }
unfolding update
applied-update p platform a is_debug now v =
    applied-update_shown (to_displayed_security_state a) _ a is_debug now
    ∙ applied-report_alarm _ a
    ∙ sync-applied (record p { attributes = some a }) platform a v

-- What a poll has applied is coherent.
applied_now-IsCoherent :
    (platform : Platform) (a : PartitionAttributes)
    → IsCoherent (record {
      sig = some (signature platform a);
      values = valid_target_states (signature platform a);
      writable = can_change_state platform a;
    })
applied_now-IsCoherent platform a = λ sig e.
    let same : signature platform a ≡ sig = cc in
    (ap valid_target_states same, sym (signature_writable platform a) ∙ ap (λ s. s.can_change) same)

update-IsCoherent :
    (p : Partition) (platform : Platform) (a : PartitionAttributes) (is_debug : Bool) (now : ℕ)
    → IsCoherent (applied p)
    → IsCoherent (applied (update p platform a is_debug now))
update-IsCoherent p platform a is_debug now v =
    subst IsCoherent (sym (applied-update p platform a is_debug now v))
      (applied_now-IsCoherent platform a)

applied-send_command :
    (p : Partition) (now : ℕ) (r : QueuedRequest)
    → applied (send_command p now r true).0 ≡ applied p
unfolding send_command
applied-send_command p now r = go p.in_flight
  where
    go : (fl : Option CommandAttempt) → applied (send_command_in fl p now r true).0 ≡ applied p
    go none = unfold send_command_in in refl
    go (some a) = unfold send_command_in in refl

applied-handle :
    (p : Partition) (platform : Platform) (now target : ℕ)
    → applied (handle_target_state p platform now target true).0 ≡ applied p
applied-handle p platform now target = elim (handle_target_state_cases p platform now target true) [
  | inl (status, cause, e) ↦ ap (λ r. applied r.0) e
  | inr (r, cleared, e) ↦
      ap (λ r. applied r.0) e
      ∙ applied-send_command (record p { pending_target = some target; target_set_at = now }) now r
]

applied-record_outcome :
    (p : Partition) (attempt : CommandAttempt) (is_ok : Bool)
    → applied (record_outcome p attempt is_ok) ≡ applied p
unfolding record_outcome
applied-record_outcome p attempt is_ok = ground arith

applied-settle :
    (p : Partition) (attempt : CommandAttempt) (is_ok : Bool) (now : ℕ)
    → applied (settle p attempt is_ok now true) ≡ applied p
unfolding settle release_and_drain
applied-settle p attempt is_ok now =
    go (record_outcome p attempt is_ok).queued ∙ applied-record_outcome p attempt is_ok
  where
    go :
        (q : Option QueuedRequest)
        → applied (drain q (record (record_outcome p attempt is_ok) { in_flight = none }) now true)
          ≡ applied (record_outcome p attempt is_ok)
    go none = unfold drain in refl
    go (some q) =
        unfold drain in
        applied-send_command
          (record (record_outcome p attempt is_ok) { in_flight = none; queued = none }) now q

Runs-IsCoherent : {p : Partition} {wanted : Option ℕ} → Runs p wanted → IsCoherent (applied p)
unfolding new_partition
Runs-IsCoherent begin = λ sig e. cc
Runs-IsCoherent (request {p} platform now target run accepted) =
    subst IsCoherent (sym (applied-handle p platform now target)) (Runs-IsCoherent run)
Runs-IsCoherent (decline {p} platform now target status run e) =
    subst IsCoherent (sym (applied-handle p platform now target)) (Runs-IsCoherent run)
Runs-IsCoherent (finish {p} attempt is_ok now run e) =
    subst IsCoherent (sym (applied-settle p attempt is_ok now)) (Runs-IsCoherent run)
Runs-IsCoherent (poll {p} platform attributes is_debug now run) =
    update-IsCoherent p platform attributes is_debug now (Runs-IsCoherent run)

offered :
    (platform : Platform) (a : PartitionAttributes)
    → valid_target_states (signature platform a) ≡ (
        if supports_night_arming a || is_night_armed a
        then stay_arm ∷ away_arm ∷ disarmed_state ∷ night_arm ∷ []
        else stay_arm ∷ away_arm ∷ disarmed_state ∷ [])
unfolding valid_target_states signature
offered platform a = refl

-- In every history with a usable client and no throw in recording an outcome, after each poll the
-- target is writable exactly when arming is opted into and the reading holds a literal permission,
-- and night arming is offered exactly when the panel advertises it or is in it, whatever was
-- applied before.
pub poll_props :
    (p : Partition) (wanted : Option ℕ) (platform : Platform) (a : PartitionAttributes)
    (is_debug : Bool) (now : ℕ)
    → Runs p wanted
    → let q = update p platform a is_debug now in
      (q.tile.is_writable ≡ can_change_state platform a)
      × (q.tile.valid_values ≡ (
          if supports_night_arming a || is_night_armed a
          then stay_arm ∷ away_arm ∷ disarmed_state ∷ night_arm ∷ []
          else stay_arm ∷ away_arm ∷ disarmed_state ∷ []))
poll_props p wanted platform a is_debug now run =
    let e = applied-update p platform a is_debug now (Runs-IsCoherent run) in
    (ap (λ s. s.writable) e, ap (λ s. s.values) e ∙ offered platform a)
