-- ===== src/Http/Changes.antt =====
-- What a jar holds after the headers that it has absorbed.
use homebridge_myalarmcom.Common.{
  ℕ, ◌≡◌, refl, Option, none, some, List, [], ◌∷◌, text_eq, text_eq_sound, text_eq_refl, arith,
  if◌then◌else◌,
}
use homebridge_myalarmcom.Http.Jar.{
  CookieJar, change_of, lookup, set, delete, apply_change, absorb, get,
}

lookup-set :
    (cookies : List (List ℕ × List ℕ)) (name value other : List ℕ)
    → lookup (set cookies name value) other
      ≡ (if text_eq name other then some value else lookup cookies other)
unfolding lookup set
lookup-set [] name value other = ground arith
lookup-set ((held, old) ∷ rest) name value other = ground (
  arith,
  lookup-set rest name value other,
  text_eq_sound held name,
  text_eq_sound name other,
  text_eq_sound held other,
  text_eq_refl name,
)

lookup-delete :
    (cookies : List (List ℕ × List ℕ)) (name other : List ℕ)
    → lookup (delete cookies name) other
      ≡ (if text_eq name other then none else lookup cookies other)
unfolding lookup delete
lookup-delete [] name other = ground arith
lookup-delete ((held, old) ∷ rest) name other = ground (
  arith,
  lookup-delete rest name other,
  text_eq_sound held name,
  text_eq_sound name other,
  text_eq_sound held other,
  text_eq_refl name,
)

-- What a change leaves for a name.
abbrev pub changed : Option (List ℕ × Option (List ℕ)) → List ℕ → Option (List ℕ) → Option (List ℕ)
changed none other old = old
changed (some (name, value)) other old = if text_eq name other then value else old

get-apply_change :
    (jar : CookieJar) (change : Option (List ℕ × Option (List ℕ))) (other : List ℕ)
    → get (apply_change jar change) other ≡ changed change other (get jar other)
unfolding get apply_change
get-apply_change jar none other = refl
get-apply_change jar (some (name, none)) other = lookup-delete jar.cookies name other
get-apply_change jar (some (name, some value)) other = lookup-set jar.cookies name value other

-- The last change of a name among these raw cookies, if one of them names it: the value that it sets,
-- or `none` where it deletes.
abbrev pub names_it : Option (List ℕ × Option (List ℕ)) → List ℕ → Option (Option (List ℕ))
names_it none other = none
names_it (some (name, value)) other = if text_eq name other then some value else none

abbrev pub or_first : Option (Option (List ℕ)) → Option (Option (List ℕ)) → Option (Option (List ℕ))
or_first none first = first
or_first (some later) first = some later

pub last_change : List (List ℕ) → List ℕ → Option (Option (List ℕ))
last_change [] other = none
last_change (raw ∷ raws) other = or_first (last_change raws other) (names_it (change_of raw) other)

abbrev pub or_old : Option (Option (List ℕ)) → Option (List ℕ) → Option (List ℕ)
or_old none old = old
or_old (some value) old = value

-- What a jar holds for a name after any raw cookies is what the last of them that names it sets, where
-- an empty value or `deleted` deletes; and what it held before, where none of them names it.
pub get-absorb :
    (raws : List (List ℕ)) (jar : CookieJar) (other : List ℕ)
    → get (absorb jar raws) other ≡ or_old (last_change raws other) (get jar other)
unfolding absorb last_change
get-absorb [] jar other = refl
get-absorb (raw ∷ raws) jar other = ground (
  arith,
  get-absorb raws (apply_change jar (change_of raw)) other,
  get-apply_change jar (change_of raw) other,
)
