-- ===== src/Common/Lists.antt =====
-- Lists measured and indexed by natural numbers, under the library's names, with the few
-- predicates on lists that the components share.
use Prim.Native.Nat.{ℕ, zero, suc, ◌+◌, ◌≤◌, ◌<◌}
use mathlib.Core.Path.{◌≡◌, refl, ap}
use mathlib.Core.Logic.{◌⊎◌, inl, inr}
use mathlib.Core.Bool.{Bool, true}
use mathlib.Core.List.{List, [], ◌∷◌, ◌++◌}
use mathlib.Core.Option.{Option, none, some}
use native.Mathlib.Omega.{arith}
use homebridge_myalarmcom.Common.Tests.{if◌then◌else◌, Bool-cases}

module _ {ℓ} {A : Type ℓ} where
  abbrev pub length : List A → ℕ
  length [] = 0
  length (x ∷ xs) = suc (length xs)

  abbrev pub get_elem? : List A → ℕ → Option A
  get_elem? [] i = none
  get_elem? (x ∷ xs) zero = some x
  get_elem? (x ∷ xs) (suc i) = get_elem? xs i

  abbrev pub head? : List A → Option A
  head? [] = none
  head? (x ∷ xs) = some x

  -- The last element, `xs[xs.length - 1]`.
  abbrev pub get_last? : List A → Option A
  get_last? [] = none
  get_last? (x ∷ []) = some x
  get_last? (x ∷ y ∷ xs) = get_last? (y ∷ xs)

  -- `filter` by a Boolean test.
  abbrev pub keep : (A → Bool) → List A → List A
  keep p [] = []
  keep p (x ∷ xs) = let rest = keep p xs in if p x then x ∷ rest else rest

  pub length-append : (xs ys : List A) → length (xs ++ ys) ≡ length xs + length ys
  length-append [] ys = omega arith
  length-append (x ∷ xs) ys = omega (arith, length-append xs ys)

  pub length-keep-le : (p : A → Bool) (xs : List A) → length (keep p xs) ≤ length xs
  length-keep-le p [] = omega arith
  length-keep-le p (x ∷ xs) = ground (arith, length-keep-le p xs)

  -- An index of a list with one more element is an index of the list, or the new last one.
  pub get_elem?-snoc :
      (xs : List A) (z : A) (i : ℕ) (y : A)
      → get_elem? (xs ++ z ∷ []) i ≡ some y
      → (get_elem? xs i ≡ some y) ⊎ ((i ≡ length xs) × (y ≡ z))
  get_elem?-snoc [] z zero y e = inr (refl, ground arith)
  get_elem?-snoc [] z (suc i) y e = ground arith
  get_elem?-snoc (x ∷ xs) z zero y e = inl e
  get_elem?-snoc (x ∷ xs) z (suc i) y e = elim (get_elem?-snoc xs z i y e) [
    | inl old ↦ inl old
    | inr (at, new) ↦ inr (ap suc at, new)
  ]

  pub get_elem?-lt : (xs : List A) (i : ℕ) (y : A) → get_elem? xs i ≡ some y → i < length xs
  get_elem?-lt [] i y e = ground arith
  get_elem?-lt (x ∷ xs) zero y e = omega arith
  get_elem?-lt (x ∷ xs) (suc i) y e = omega (arith, get_elem?-lt xs i y e)

module _ {ℓ κ} {A : Type ℓ} (P : A → Type κ) where
  abbrev pub All : List A → Type κ
  All [] = Unit
  All (x ∷ xs) = P x × All xs

  pub All-append : (xs ys : List A) → All xs → All ys → All (xs ++ ys)
  All-append [] ys hx hy = hy
  All-append (x ∷ xs) ys (p, hx) hy = (p, All-append xs ys hx hy)

  pub All-get_elem? : (xs : List A) (i : ℕ) (y : A) → All xs → get_elem? xs i ≡ some y → P y
  All-get_elem? [] i y h e = ground arith
  All-get_elem? (x ∷ xs) zero y (p, h) e = ground arith
  All-get_elem? (x ∷ xs) (suc i) y (p, h) e = All-get_elem? xs i y h e

  pub All-keep : (p : A → Bool) (xs : List A) → All xs → All (keep p xs)
  All-keep p [] h = tt
  All-keep p (x ∷ xs) (q, h) = elim (Bool-cases (p x)) [
    | inl e ↦ ground (arith, All-keep p xs h)
    | inr e ↦ ground (arith, All-keep p xs h)
  ]

module _ {ℓ} {A : Type ℓ} where
  -- An index of an append lies in one part or the other.
  pub get_elem?-append :
      (xs ys : List A) (i : ℕ) (x : A)
      → get_elem? (xs ++ ys) i ≡ some x
      → (get_elem? xs i ≡ some x) ⊎ ((j : ℕ) × (i ≡ length xs + j) × (get_elem? ys j ≡ some x))
  get_elem?-append [] ys i x e = inr (i, omega arith, e)
  get_elem?-append (y ∷ xs) ys zero x e = inl e
  get_elem?-append (y ∷ xs) ys (suc i) x e = elim (get_elem?-append xs ys i x e) [
    | inl left ↦ inl left
    | inr (j, at, right) ↦ inr (j, omega arith, right)
  ]

  -- A test that every element passes drops nothing.
  pub keep-All : (p : A → Bool) (xs : List A) → All (λ x. p x ≡ true) xs → keep p xs ≡ xs
  keep-All p [] h = refl
  keep-All p (x ∷ xs) (e, h) = rw (e, keep-All p xs h)

  -- An earlier pass of another test leaves no more to keep.
  pub length-keep-keep :
      (p q : A → Bool) (xs : List A) → length (keep p (keep q xs)) ≤ length (keep p xs)
  length-keep-keep p q [] = omega arith
  length-keep-keep p q (x ∷ xs) = ground (arith, length-keep-keep p q xs)

  pub keep-append : (p : A → Bool) (xs ys : List A) → keep p (xs ++ ys) ≡ keep p xs ++ keep p ys
  keep-append p [] ys = refl
  keep-append p (x ∷ xs) ys = ground (arith, keep-append p xs ys)

  pub get_elem?-snoc_lt :
      (xs : List A) (z : A) (i : ℕ) (y : A)
      → i < length xs
      → get_elem? (xs ++ z ∷ []) i ≡ some y
      → get_elem? xs i ≡ some y
  get_elem?-snoc_lt xs z i y l e = elim (get_elem?-snoc xs z i y e) [
    | inl old ↦ old
    | inr (at, new) ↦ absurd (omega arith)
  ]

  pub head?_of_get_elem? : (xs : List A) (x : A) → get_elem? xs 0 ≡ some x → head? xs ≡ some x
  head?_of_get_elem? [] x e = ground arith
  head?_of_get_elem? (y ∷ xs) x e = e

module _ {ℓ κ μ} {A : Type ℓ} (P : A → Type κ) (Q : A → Type μ) (f : (x : A) → P x → Q x) where
  pub All-map : (xs : List A) → All P xs → All Q xs
  All-map [] h = tt
  All-map (x ∷ xs) (p, h) = (f x p, All-map xs h)
