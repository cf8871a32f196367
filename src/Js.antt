-- ===== src/Js.antt =====
-- Values of the language as they arrive in an unvalidated response or configuration. A number is a
-- whole one, one between two whole ones, or none of these. A number that is not whole is kept as its
-- floor and whether its fraction is at least one half: no code modelled here reads more of it.
use homebridge_myalarmcom.Common.{ℕ, zero, [], true, Bool, false, Option, none, some, List, ◌==◌}

-- `negsuc n` is -(n + 1).
pub data ℤ : Type 0 where
  pos : ℕ → ℤ
  negsuc : ℕ → ℤ

pub data Number : Type 0 where
  whole : ℤ → Number
  between : ℤ → Bool → Number
  infinite : Bool → Number
  nan : Number

-- Text is the list of its UTF-16 code units.
mutual
  pub data Value : Type 0 where
    undefined null : Value
    boolean : Bool → Value
    number : Number → Value
    string : List ℕ → Value
    array : Values → Value
    object : Value

  pub data Values : Type 0 where
    none_left : Values
    item : Value → Values → Values

-- `value === n` for a whole n that is not negative.
abbrev pub is_whole : Number → ℕ → Bool
is_whole (whole (pos m)) n = m == n
is_whole _ n = false

abbrev pub is_number : Value → ℕ → Bool
is_number (number x) n = is_whole x n
is_number _ n = false

-- `value === true`
abbrev pub is_true : Value → Bool
is_true (boolean b) = b
is_true _ = false

-- The natural number that a value is, if it is one: `Map.get` and `Set.has` with keys that are whole
-- and not negative find a value exactly when it is one of the keys.
abbrev pub as_key : Value → Option ℕ
as_key (number (whole (pos n))) = some n
as_key _ = none

-- `Boolean(value)`
abbrev pub is_truthy : Value → Bool
is_truthy undefined = false
is_truthy null = false
is_truthy (boolean b) = b
is_truthy (number (whole (pos zero))) = false
is_truthy (number nan) = false
is_truthy (string []) = false
is_truthy _ = true
