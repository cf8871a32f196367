-- ===== src/Partition/Guards.antt =====
-- What must hold for a HomeKit request to become a command.
use homebridge_myalarmcom.Common.{
  ℕ, ◌≡◌, ◌≢◌, ◌⊎◌, inl, inr, refl, Bool, true, false, Option, none, some, [], arith, Bool-cases,
  ◌==◌, not, ◌&&◌,
}
use homebridge_myalarmcom.Js.{is_true}
use homebridge_myalarmcom.Alarm.{
  PartitionAttributes, PartitionAction, disarm, bypass_sensors, accepts_arming_modifier, arm_stay,
  arm_away,
}
use homebridge_myalarmcom.Mappers.{to_partition_action, arming_mode_for, night_arm}
use homebridge_myalarmcom.Partition.{Platform, QueuedRequest, Partition, can_change_state}
use homebridge_myalarmcom.Partition.Commands.{
  Reply, refused, HapStatus, insufficient_privileges, invalid_value, not_allowed_in_current_state,
  communication_failure, is_disarm, send_command, handle_target_state, request_action, handle_for,
  will_bypass_open_sensors, build_command_options, refuses_arm_over_open_sensors,
}

-- What a request that is sent or held has passed: the permissions, a target with a command, and an
-- answer to the open sensors.
pub record IsCleared (p : Partition) (platform : Platform) (target : ℕ) (request : QueuedRequest)
    : Type 0 where
  pub attributes : PartitionAttributes
  pub known : p.attributes ≡ some attributes
  pub opted_in : platform.is_home_kit_arming_allowed ≡ true
  pub permitted : is_true attributes.has_permission_to_change_state ≡ true
  pub same_target : request.target ≡ target
  pub has_command : to_partition_action target ≡ some request.action
  pub night : request.options.night_arming ≡ (target == night_arm)
  pub no_open_sensor :
      (request.action ≡ disarm)
      ⊎ ((platform.open_contacts ≡ []) ⊎ (request.options.force_bypass ≡ true))
  pub bypass : request.options.force_bypass ≡ (
      platform.is_sensor_bypass_allowed
      && accepts_arming_modifier attributes (arming_mode_for target) bypass_sensors)

-- The request that a partition makes of a target.
abbrev made : PartitionAttributes → Platform → ℕ → PartitionAction → QueuedRequest
made attributes platform target action = record {
  action = action;
  target = target;
  options = build_command_options attributes target platform.is_sensor_bypass_allowed;
}

made-IsCleared :
    (p : Partition) (platform : Platform) (attributes : PartitionAttributes) (target : ℕ)
    (action : PartitionAction)
    → p.attributes ≡ some attributes
    → can_change_state platform attributes ≡ true
    → to_partition_action target ≡ some action
    → (action ≡ disarm) ⊎ (refuses_arm_over_open_sensors platform attributes target ≡ false)
    → IsCleared p platform target (made attributes platform target action)
unfolding can_change_state build_command_options refuses_arm_over_open_sensors
    will_bypass_open_sensors
made-IsCleared p platform attributes target action known may command unblocked = record {
  attributes = attributes;
  known = known;
  opted_in = ground arith;
  permitted = ground arith;
  same_target = refl;
  has_command = command;
  night = refl;
  no_open_sensor = ground arith;
  bypass = refl;
}

-- The cause of each refusal.
abbrev pub HasCause : Partition → Platform → ℕ → HapStatus → Type 0
HasCause p platform target insufficient_privileges =
    (p.attributes ≡ none)
    ⊎ ((attributes : PartitionAttributes) × (p.attributes ≡ some attributes)
        × (can_change_state platform attributes ≡ false))
HasCause p platform target invalid_value = to_partition_action target ≡ none
HasCause p platform target not_allowed_in_current_state =
    (attributes : PartitionAttributes) × (p.attributes ≡ some attributes)
    × (to_partition_action target ≢ some disarm)
    × (refuses_arm_over_open_sensors platform attributes target ≡ true)
HasCause p platform target communication_failure = ⊥

-- The sum that the theorem states, for a result of the handler.
abbrev pub IsHandled : Partition → Platform → ℕ → ℕ → Bool → Partition × Reply → Type 0
IsHandled p platform now target usable result =
    ((status : HapStatus) × HasCause p platform target status × (result ≡ (p, refused status)))
    ⊎ ((request : QueuedRequest) × IsCleared p platform target request
        × (result
            ≡ send_command (record p { pending_target = some target; target_set_at = now }) now
                request usable))

blocked_cases :
    (action : PartitionAction) (blocks : Bool)
    → let blocked = not (is_disarm action) && blocks in
      ((blocked ≡ true) × (action ≢ disarm) × (blocks ≡ true))
      ⊎ ((blocked ≡ false) × ((action ≡ disarm) ⊎ (blocks ≡ false)))
blocked_cases disarm blocks = inr (refl, inl refl)
blocked_cases arm_stay true = inl (refl, (λ e. cc), refl)
blocked_cases arm_stay false = inr (refl, inr refl)
blocked_cases arm_away true = inl (refl, (λ e. cc), refl)
blocked_cases arm_away false = inr (refl, inr refl)

request_action-IsHandled :
    (p : Partition) (platform : Platform) (attributes : PartitionAttributes) (now target : ℕ)
    (usable : Bool) (action : PartitionAction)
    → p.attributes ≡ some attributes
    → can_change_state platform attributes ≡ true
    → to_partition_action target ≡ some action
    → IsHandled p platform now target usable
        (request_action (some action) p platform attributes now target usable)
unfolding request_action
request_action-IsHandled p platform attributes now target usable action known may command =
    elim (blocked_cases action (refuses_arm_over_open_sensors platform attributes target)) [
      | inl (blocked, arms, blocks) ↦ inl (
        not_allowed_in_current_state,
        (attributes, known, (λ e. arms (cc (command, e))), blocks),
        rw blocked,
      )
      | inr (free, why) ↦ inr (
        made attributes platform target action,
        made-IsCleared p platform attributes target action known may command why,
        rw free,
      )
    ]

command_cases :
    (p : Partition) (platform : Platform) (attributes : PartitionAttributes) (now target : ℕ)
    (usable : Bool) (command : Option PartitionAction)
    → p.attributes ≡ some attributes
    → can_change_state platform attributes ≡ true
    → to_partition_action target ≡ command
    → IsHandled p platform now target usable
        (request_action command p platform attributes now target usable)
unfolding request_action
command_cases p platform attributes now target usable none known may e =
    inl (invalid_value, e, refl)
command_cases p platform attributes now target usable (some action) known may e =
    request_action-IsHandled p platform attributes now target usable action known may e

attributes_cases :
    (p : Partition) (platform : Platform) (now target : ℕ) (usable : Bool)
    (attributes : Option PartitionAttributes)
    → p.attributes ≡ attributes
    → IsHandled p platform now target usable (handle_for attributes p platform now target usable)
unfolding handle_for
attributes_cases p platform now target usable none known =
    inl (insufficient_privileges, inl known, refl)
attributes_cases p platform now target usable (some attributes) known =
    elim (Bool-cases (can_change_state platform attributes)) [
      | inl may ↦ rw may (
          command_cases p platform attributes now target usable (to_partition_action target) known
            may refl)
      | inr may_not ↦ inl (insufficient_privileges, inr (attributes, known, may_not), rw may_not)
    ]

-- A request from HomeKit is refused before anything changes, for want of a permission, of a command
-- or of an answer to an open contact as its status says, or it has passed every guard and is
-- handed on with its target pending: arming is opted into and the account holds a literal permission,
-- the target has a command, and an arm goes out only with no contact open or with a bypass that is
-- both allowed by the user and offered by the panel for that mode.
pub handle_target_state_cases :
    (p : Partition) (platform : Platform) (now target : ℕ) (is_client_usable : Bool)
    → IsHandled p platform now target is_client_usable
        (handle_target_state p platform now target is_client_usable)
unfolding handle_target_state
handle_target_state_cases p platform now target usable =
    attributes_cases p platform now target usable p.attributes refl
