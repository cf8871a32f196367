-- ===== src/Partition/Unread.antt =====
-- A panel whose last poll brought a state with no display, whatever HomeKit asks of it until the next.
use homebridge_myalarmcom.Common.{
  ℕ, ◌+◌, ◌≡◌, inl, inr, refl, ap, ◌∙◌, Bool, true, false, Option, none, some, arith,
}
use homebridge_myalarmcom.Alarm.{PartitionAttributes}
use homebridge_myalarmcom.Mappers.{to_displayed_security_state}
use homebridge_myalarmcom.Partition.{
  Platform, QueuedRequest, CommandAttempt, Partition, Tile, update, read_current_state,
  read_target_state,
}
use homebridge_myalarmcom.Partition.Commands.{
  send_command, send_command_in, handle_target_state, settle, release_and_drain, record_outcome,
  drain, settle_rejected,
}
use homebridge_myalarmcom.Partition.Guards.{handle_target_state_cases}
use homebridge_myalarmcom.Partition.Display.{unrecognised_kept}

-- What only a poll changes.
pub record Reading : Type 0 where
  pub attributes : Option PartitionAttributes
  pub tile : Tile

abbrev pub reading : Partition → Reading
reading p = record { attributes = p.attributes; tile = p.tile }

-- `Between p q`: requests from HomeKit and ends of commands have led from `p` to `q`, and no poll.
pub data Between (p : Partition) : Partition → Type 0 where
  at_once : Between p p
  requested :
      {q : Partition} (platform : Platform) (now target : ℕ) (is_client_usable : Bool)
      → Between p q
      → Between p (handle_target_state q platform now target is_client_usable).0
  settled :
      {q : Partition} (attempt : CommandAttempt) (is_ok : Bool) (now : ℕ) (is_client_usable : Bool)
      → Between p q
      → Between p (settle q attempt is_ok now is_client_usable)
  -- `r` is the accessory as a throw in the recording leaves it, which writes neither the attributes
  -- nor the tile.
  rejected :
      {q : Partition} (r : Partition) (now : ℕ) (is_client_usable : Bool)
      → Between p q
      → reading r ≡ reading q
      → Between p (settle_rejected r now is_client_usable)

reading-record_outcome :
    (p : Partition) (attempt : CommandAttempt) (is_ok : Bool)
    → reading (record_outcome p attempt is_ok) ≡ reading p
unfolding record_outcome
reading-record_outcome p attempt is_ok = ground arith

reading-send_command_in :
    (fl : Option CommandAttempt) (p : Partition) (now : ℕ) (r : QueuedRequest)
    (is_client_usable : Bool)
    → reading (send_command_in fl p now r is_client_usable).0 ≡ reading p
unfolding send_command_in
reading-send_command_in none p now r true = refl
reading-send_command_in none p now r false =
    reading-record_outcome _
      (record { target = r.target; started_at = now; token = p.command_sequence + 1 }) false
reading-send_command_in (some running) p now r is_client_usable = refl

reading-send_command :
    (p : Partition) (now : ℕ) (r : QueuedRequest) (is_client_usable : Bool)
    → reading (send_command p now r is_client_usable).0 ≡ reading p
unfolding send_command
reading-send_command p now r is_client_usable =
    reading-send_command_in p.in_flight p now r is_client_usable

reading-drain :
    (held : Option QueuedRequest) (p : Partition) (now : ℕ) (is_client_usable : Bool)
    → reading (drain held p now is_client_usable) ≡ reading p
unfolding drain
reading-drain none p now is_client_usable = refl
reading-drain (some r) p now is_client_usable =
    reading-send_command (record p { queued = none }) now r is_client_usable

reading-settle :
    (p : Partition) (attempt : CommandAttempt) (is_ok : Bool) (now : ℕ) (is_client_usable : Bool)
    → reading (settle p attempt is_ok now is_client_usable) ≡ reading p
unfolding settle release_and_drain
reading-settle p attempt is_ok now is_client_usable =
    let noted = record_outcome p attempt is_ok in
    reading-drain noted.queued (record noted { in_flight = none }) now is_client_usable
    ∙ reading-record_outcome p attempt is_ok

reading-settle_rejected :
    (p : Partition) (now : ℕ) (is_client_usable : Bool)
    → reading (settle_rejected p now is_client_usable) ≡ reading p
unfolding settle_rejected release_and_drain
reading-settle_rejected p now is_client_usable =
    let released = drain p.queued (record p { in_flight = none }) now is_client_usable in
    reading-drain released.queued (record released { in_flight = none }) now is_client_usable
    ∙ reading-drain p.queued (record p { in_flight = none }) now is_client_usable

reading-handle :
    (p : Partition) (platform : Platform) (now target : ℕ) (is_client_usable : Bool)
    → reading (handle_target_state p platform now target is_client_usable).0 ≡ reading p
reading-handle p platform now target is_client_usable =
    elim (handle_target_state_cases p platform now target is_client_usable) [
      | inl (status, cause, e) ↦ rw e refl
      | inr (r, cleared, e) ↦ rw e (
          reading-send_command (record p { pending_target = some target; target_set_at = now }) now
            r is_client_usable)
    ]

reading-Between : {p q : Partition} → Between p q → reading q ≡ reading p
reading-Between at_once = refl
reading-Between (requested {q} platform now target is_client_usable steps) =
    reading-handle q platform now target is_client_usable ∙ reading-Between steps
reading-Between (settled {q} attempt is_ok now is_client_usable steps) =
    reading-settle q attempt is_ok now is_client_usable ∙ reading-Between steps
reading-Between (rejected r now is_client_usable steps same) =
    reading-settle_rejected r now is_client_usable ∙ same ∙ reading-Between steps

reads_of :
    (p q : Partition)
    → reading q ≡ reading p
    → (read_current_state p ≡ none) × (read_target_state p ≡ none)
    → (read_current_state q ≡ none) × (read_target_state q ≡ none)
unfolding read_current_state read_target_state
reads_of p q e h =
    (ground (arith, ap (λ x. x.attributes) e), ground (arith, ap (λ x. x.attributes) e))

-- After a poll that brings a state with no display, and after any requests from HomeKit and ends of
-- commands that follow it before the next poll, with the client usable or not: the current and the
-- target state that HomeKit has been given are those from before the poll, the tile is flagged as
-- faulty, and a read of either state is refused.
pub unread_until_polled :
    (p : Partition) (platform : Platform) (a : PartitionAttributes) (is_debug : Bool) (now : ℕ)
    (q : Partition)
    → to_displayed_security_state a ≡ none
    → Between (update p platform a is_debug now) q
    → (q.tile.current_state ≡ p.tile.current_state)
      × (q.tile.target_state ≡ p.tile.target_state)
      × (q.tile.is_faulty ≡ true)
      × (read_current_state q ≡ none)
      × (read_target_state q ≡ none)
unread_until_polled p platform a is_debug now q d steps =
    let polled = update p platform a is_debug now in
    let e : reading q ≡ reading polled = reading-Between steps in
    let (current, target, faulty, read, read_target) =
      unrecognised_kept p platform a is_debug now d in
    let reads = reads_of polled q e (read, read_target) in
    (
      ap (λ x. x.tile.current_state) e ∙ current,
      ap (λ x. x.tile.target_state) e ∙ target,
      ap (λ x. x.tile.is_faulty) e ∙ faulty,
      reads.0,
      reads.1,
    )
