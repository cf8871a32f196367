-- ===== src/Client/Documents.antt =====
-- src/api/client.ts: what the client reads out of the documents, which no runtime check has seen.
use homebridge_myalarmcom.Common.{
  ℕ, ◌≡◌, refl, Bool, true, false, not, Option, none, some, List, [], ◌∷◌, if◌then◌else◌,
}
use homebridge_myalarmcom.Js.{
  Value, undefined, null, boolean, number, string, array, object, is_truthy,
}
use homebridge_myalarmcom.Errors.{ours, foreign, unavailable, api_parse}
use homebridge_myalarmcom.Retry.{Outcome, returns, throws}

-- An element of a linkage list: `null`, which has no properties, or a value and its `id`.
pub data Entry : Type 0 where
  null_entry : Entry
  entry : Value → Entry

-- The `data` of a relationship: missing or falsy, one value, or a list.
pub data Linkage : Type 0 where
  absent : Linkage
  single : Value → Linkage
  several : List Entry → Linkage

-- `isUsableId`, with the text that it finds.
unfoldable pub usable_id : Value → Option (List ℕ)
usable_id (string (x ∷ xs)) = some (x ∷ xs)
usable_id _ = none

abbrev pub push_usable : Option (List ℕ) → Outcome (List (List ℕ)) → Outcome (List (List ℕ))
push_usable (some id) (returns ids) = returns (id ∷ ids)
push_usable _ rest = rest

-- `map((entry) => entry.id).filter(isUsableId)`; reading `id` of `null` throws.
unfoldable pub read_entries : List Entry → Outcome (List (List ℕ))
unfolding usable_id
read_entries [] = returns []
read_entries (null_entry ∷ entries) = throws foreign
read_entries (entry id ∷ entries) = push_usable (usable_id id) (read_entries entries)

unfoldable pub read_relationship_ids : Linkage → Outcome (List (List ℕ))
unfolding read_entries
read_relationship_ids absent = returns []
read_relationship_ids (single id) = read_entries (entry id ∷ [])
read_relationship_ids (several entries) = read_entries entries

abbrev or_unavailable : Option (List ℕ) → Outcome (List ℕ)
or_unavailable none = throws (ours unavailable)
or_unavailable (some id) = returns id

-- `getSystemId`, after its request, with the linkage of the selected system.
unfoldable pub get_system_id : Linkage → Outcome (List ℕ)
unfolding usable_id
get_system_id absent = throws (ours unavailable)
get_system_id (several entries) = throws (ours unavailable)
get_system_id (single id) = or_unavailable (usable_id id)

pub record SystemDevices : Type 0 where
  pub partition_ids : List (List ℕ)
  pub sensor_ids : List (List ℕ)

abbrev both : Outcome (List (List ℕ)) → Outcome (List (List ℕ)) → Outcome SystemDevices
both (throws error) sensors = throws error
both (returns partitions) (throws error) = throws error
both (returns partitions) (returns sensors) =
    returns (record { partition_ids = partitions; sensor_ids = sensors })

-- `getSystemDevices`, after its request, with the two linkages.
unfoldable pub get_system_devices : Linkage → Linkage → Outcome SystemDevices
unfolding read_relationship_ids
get_system_devices partitions sensors =
    both (read_relationship_ids partitions) (read_relationship_ids sensors)

pub record EventStreamToken : Type 0 where
  pub token : Value
  pub endpoint : Option Value

-- `getEventStreamToken`, after its request, with `value` and `metaData.endpoint`.
unfoldable pub get_event_stream_token : Value → Value → Outcome EventStreamToken
get_event_stream_token value endpoint =
    if not (is_truthy value)
    then throws (ours api_parse)
    else returns
        (record { token = value; endpoint = if is_truthy endpoint then some endpoint else none })

-- The list that `read_entries` returns holds usable ids only.
abbrev pub all_usable : Outcome (List (List ℕ)) → Bool
all_usable (throws error) = true
all_usable (returns []) = true
all_usable (returns ([] ∷ ids)) = false
all_usable (returns ((x ∷ xs) ∷ ids)) = all_usable (returns ids)

push_usable-all_usable :
    (id : Value) (rest : Outcome (List (List ℕ)))
    → all_usable rest ≡ true
    → all_usable (push_usable (usable_id id) rest) ≡ true
unfolding usable_id
push_usable-all_usable (string (x ∷ xs)) (returns ids) h = h
push_usable-all_usable (string (x ∷ xs)) (throws error) h = refl
push_usable-all_usable (string []) rest h = h
push_usable-all_usable undefined rest h = h
push_usable-all_usable null rest h = h
push_usable-all_usable (boolean b) rest h = h
push_usable-all_usable (number x) rest h = h
push_usable-all_usable (array values) rest h = h
push_usable-all_usable object rest h = h

pub read_entries-all_usable : (entries : List Entry) → all_usable (read_entries entries) ≡ true
unfolding read_entries
read_entries-all_usable [] = refl
read_entries-all_usable (null_entry ∷ entries) = refl
read_entries-all_usable (entry id ∷ entries) =
    push_usable-all_usable id (read_entries entries) (read_entries-all_usable entries)

pub read_relationship_ids-all_usable :
    (linkage : Linkage) → all_usable (read_relationship_ids linkage) ≡ true
unfolding read_relationship_ids
read_relationship_ids-all_usable absent = refl
read_relationship_ids-all_usable (single id) = read_entries-all_usable (entry id ∷ [])
read_relationship_ids-all_usable (several entries) = read_entries-all_usable entries
