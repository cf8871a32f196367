-- ===== src/Platform/Requests.antt =====
-- A device whose refresh is asked for is read when the refresh timer next fires.
use homebridge_myalarmcom.Common.{
  ℕ, ◌≡◌, Bool, true, false, ◌&&◌, List, [], ◌∷◌, ◌++◌, arith, text_eq_refl,
}
use homebridge_myalarmcom.Platform.{Platform, has_id, add_id}
use homebridge_myalarmcom.Platform.Events.{PlatformEvent, refresh_due, shut}

has_id-snoc : (ids : List (List ℕ)) (id : List ℕ) → has_id (ids ++ id ∷ []) id ≡ true
has_id-snoc [] id = ground (arith, text_eq_refl id)
has_id-snoc (held ∷ ids) id = ground (arith, has_id-snoc ids id)

pub add_id-added : (ids : List (List ℕ)) (id : List ℕ) → has_id (add_id ids id) id ≡ true
add_id-added ids id = ground (arith, has_id-snoc ids id)

-- An event other than a shutdown and the firing of the refresh timer.
abbrev pub is_between : PlatformEvent → Bool
is_between shut = false
is_between refresh_due = false
is_between _ = true

abbrev pub are_between : List PlatformEvent → Bool
are_between [] = true
are_between (e ∷ es) = is_between e && are_between es

record IsWaiting (id : List ℕ) (p : Platform) : Type 0 where
  running : p.is_shutting_down ≡ false
  armed : p.refresh_timer ≡ true
  held : has_id p.pending_refresh_ids id ≡ true
