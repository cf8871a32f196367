-- ===== src/Common/Gaps.antt =====
-- Increasing times with a least gap between any two of them.
use homebridge_myalarmcom.Common.Lists.{All, All-append, All-keep, get_last?, keep, keep-All}
use Prim.Native.Nat.{ℕ, ◌+◌, ◌≤◌, ◌<◌}
use mathlib.Core.Path.{◌≡◌, refl, sym, ap}
use mathlib.Core.Bool.{Bool, true}
use mathlib.Core.Logic.{inl, inr}
use mathlib.Core.Option.{some}
use mathlib.Core.List.{List, [], ◌∷◌, ◌++◌}
use native.Mathlib.Omega.{arith}
use homebridge_myalarmcom.Common.Tests.{Bool-cases, ltb, ltb→lt, lt→ltb, not-ltb→le}

abbrev pub Spaced : ℕ → List ℕ → Type 0
Spaced gap [] = Unit
Spaced gap (x ∷ xs) = All (λ y. x + gap ≤ y) xs × Spaced gap xs

pub Spaced-keep : (gap : ℕ) (p : ℕ → Bool) (xs : List ℕ) → Spaced gap xs → Spaced gap (keep p xs)
Spaced-keep gap p [] h = tt
Spaced-keep gap p (x ∷ xs) (a, h) = elim (Bool-cases (p x)) [
  | inl e ↦ rw e (All-keep (λ y. x + gap ≤ y) p xs a, Spaced-keep gap p xs h)
  | inr e ↦ rw e (Spaced-keep gap p xs h)
]

-- The last time is the greatest.
pub Spaced-last :
    (gap : ℕ) (xs : List ℕ) (p : ℕ) → Spaced gap xs → get_last? xs ≡ some p → All (λ x. x ≤ p) xs
Spaced-last gap [] p h e = tt
Spaced-last gap (x ∷ []) p h e = ground arith
Spaced-last gap (x ∷ y ∷ xs) p h e =
    let rest = Spaced-last gap (y ∷ xs) p h.1 e in (omega (arith, h.0.0, rest.0), rest)

All-le-weaken :
    (p q : ℕ) (gap : ℕ) (xs : List ℕ)
    → p + gap ≤ q
    → All (λ x. x ≤ p) xs
    → All (λ x. x + gap ≤ q) xs
All-le-weaken p q gap [] l h = tt
All-le-weaken p q gap (x ∷ xs) l h = (omega (arith, h.0), All-le-weaken p q gap xs l h.1)

pub Spaced-append :
    (gap : ℕ) (xs : List ℕ) (z : ℕ)
    → Spaced gap xs
    → All (λ x. x + gap ≤ z) xs
    → Spaced gap (xs ++ z ∷ [])
Spaced-append gap [] z h a = (tt, tt)
Spaced-append gap (x ∷ xs) z h a =
    (All-append (λ y. x + gap ≤ y) xs (z ∷ []) h.0 (a.0, tt), Spaced-append gap xs z h.1 a.1)

get_last?-cons : (y : ℕ) (ys : List ℕ) → (p : ℕ) × (get_last? (y ∷ ys) ≡ some p)
get_last?-cons y [] = (y, refl)
get_last?-cons y (w ∷ ys) = get_last?-cons w ys

-- A time that leaves the gap behind the last one leaves it behind all.
pub Spaced-before :
    (gap : ℕ) (xs : List ℕ) (z : ℕ)
    → Spaced gap xs
    → ((p : ℕ) → get_last? xs ≡ some p → p + gap ≤ z)
    → All (λ x. x + gap ≤ z) xs
Spaced-before gap [] z h last = tt
Spaced-before gap (x ∷ xs) z h last =
    let (p, e) = get_last?-cons x xs in
    All-le-weaken p z gap (x ∷ xs) (last p e) (Spaced-last gap (x ∷ xs) p h e)

-- Such a time may be appended.
pub Spaced-snoc :
    (gap : ℕ) (xs : List ℕ) (z : ℕ)
    → Spaced gap xs
    → ((p : ℕ) → get_last? xs ≡ some p → p + gap ≤ z)
    → Spaced gap (xs ++ z ∷ [])
Spaced-snoc gap xs z h last = Spaced-append gap xs z h (Spaced-before gap xs z h last)

pub Spaced-append_right : (gap : ℕ) (xs ys : List ℕ) → Spaced gap (xs ++ ys) → Spaced gap ys
Spaced-append_right gap [] ys h = h
Spaced-append_right gap (x ∷ xs) ys h = Spaced-append_right gap xs ys h.1

All-later :
    (gap now w x : ℕ) (xs : List ℕ)
    → now < x + w
    → All (λ y. x + gap ≤ y) xs
    → All (λ ts. ltb now (ts + w) ≡ true) xs
All-later gap now w x [] l h = tt
All-later gap now w x (y ∷ xs) l h =
    (lt→ltb now (y + w) (omega (arith, h.0)), All-later gap now w x xs l h.1)

-- In increasing times, those that are too old are a prefix.
pub young_split :
    (gap now w : ℕ) (xs : List ℕ)
    → Spaced gap xs
    → (pre : List ℕ) × (xs ≡ pre ++ keep (λ ts. ltb now (ts + w)) xs) × All (λ x. x + w ≤ now) pre
young_split gap now w [] h = ([], refl, tt)
young_split gap now w (x ∷ xs) h = elim (Bool-cases (ltb now (x + w))) [
  | inl e ↦
      ([], sym (keep-All _ (x ∷ xs) (e, All-later gap now w x xs (ltb→lt now (x + w) e) h.0)), tt)
  | inr e ↦
      let (pre, same, old) = young_split gap now w xs h.1 in
      (x ∷ pre, rw e (ap (◌∷◌ x) same), (not-ltb→le now (x + w) e, old))
]
