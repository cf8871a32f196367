-- ===== src/Common/Slices.antt =====
-- Slices of lists by natural numbers, and the equality test on text, the list of its code units.
use Prim.Native.Nat.{ℕ, zero, suc, ◌+◌, ◌-◌, ◌≤◌}
use mathlib.Core.Path.{◌≡◌, refl, sym, ap, ◌∙◌}
use mathlib.Core.Bool.{Bool, true, false, ◌&&◌}
use mathlib.Core.List.{List, [], ◌∷◌, ◌++◌}
use native.Mathlib.Omega.{arith}
use homebridge_myalarmcom.Common.Tests.{◌==◌, ==_refl}
use homebridge_myalarmcom.Common.Lists.{length, length-append}

module _ {ℓ} {A : Type ℓ} where
  abbrev pub take : ℕ → List A → List A
  take zero xs = []
  take (suc n) [] = []
  take (suc n) (x ∷ xs) = x ∷ take n xs

  abbrev pub skip : ℕ → List A → List A
  skip zero xs = xs
  skip (suc n) [] = []
  skip (suc n) (x ∷ xs) = skip n xs

  pub take-skip : (n : ℕ) (xs : List A) → take n xs ++ skip n xs ≡ xs
  take-skip zero xs = refl
  take-skip (suc n) [] = refl
  take-skip (suc n) (x ∷ xs) = ap (λ rest. x ∷ rest) (take-skip n xs)

  pub length-take-le : (n : ℕ) (xs : List A) → length (take n xs) ≤ n
  length-take-le zero xs = omega arith
  length-take-le (suc n) [] = omega arith
  length-take-le (suc n) (x ∷ xs) = omega (arith, length-take-le n xs)

  pub length-skip-le : (n : ℕ) (xs : List A) → length (skip n xs) ≤ length xs
  length-skip-le zero xs = omega arith
  length-skip-le (suc n) [] = omega arith
  length-skip-le (suc n) (x ∷ xs) = omega (arith, length-skip-le n xs)

module _ {ℓ} {A : Type ℓ} where
  pub length-skip : (n : ℕ) (xs : List A) → length (skip n xs) ≡ length xs - n
  length-skip zero xs = omega arith
  length-skip (suc n) [] = omega arith
  length-skip (suc n) (x ∷ xs) = omega (arith, length-skip n xs)

  skip-append : (n : ℕ) (xs ys : List A) → n ≤ length xs → skip n (xs ++ ys) ≡ skip n xs ++ ys
  skip-append zero xs ys h = refl
  skip-append (suc n) [] ys h = absurd (omega arith)
  skip-append (suc n) (x ∷ xs) ys h = skip-append n xs ys (omega arith)

  skip_one-skip : (n : ℕ) (xs : List A) → skip 1 (skip n xs) ≡ skip (suc n) xs
  skip_one-skip zero xs = refl
  skip_one-skip (suc n) [] = refl
  skip_one-skip (suc n) (x ∷ xs) = skip_one-skip n xs

  -- The last elements, in their order.
  abbrev pub last : ℕ → List A → List A
  last n xs = skip (length xs - n) xs

  pub last-short : (n : ℕ) (xs : List A) → length xs ≤ n → last n xs ≡ xs
  last-short n xs h = ap (λ k. skip k xs) (zeroed (length xs) h)
    where
      zeroed : (l : ℕ) → l ≤ n → l - n ≡ 0
      zeroed l h = omega arith

  -- One more at the end of a list that is long enough: the last ones lose their first.
  pub last-snoc :
      (n : ℕ) (xs : List A) (x : A)
      → n ≤ length xs
      → skip 1 (last n xs ++ x ∷ []) ≡ last n (xs ++ x ∷ [])
  last-snoc n xs x h =
      ap (skip 1) (sym (skip-append (length xs - n) xs (x ∷ []) (omega arith)))
      ∙ (skip_one-skip (length xs - n) (xs ++ x ∷ [])
          ∙ ap (λ k. skip k (xs ++ x ∷ []))
              (counted (length (xs ++ x ∷ [])) (length-append xs (x ∷ []))))
    where
      counted : (l : ℕ) → l ≡ length xs + 1 → suc (length xs - n) ≡ l - n
      counted l e = omega arith

abbrev pub text_eq : List ℕ → List ℕ → Bool
text_eq [] [] = true
text_eq (x ∷ xs) (y ∷ ys) = (x == y) && text_eq xs ys
text_eq _ _ = false

pub text_eq_sound : (xs ys : List ℕ) → text_eq xs ys ≡ true → xs ≡ ys
text_eq_sound [] [] h = refl
text_eq_sound [] (y ∷ ys) h = ground arith
text_eq_sound (x ∷ xs) [] h = ground arith
text_eq_sound (x ∷ xs) (y ∷ ys) h = ground (arith, text_eq_sound xs ys)

pub text_eq_refl : (xs : List ℕ) → text_eq xs xs ≡ true
text_eq_refl [] = refl
text_eq_refl (x ∷ xs) = ground (arith, ==_refl x, text_eq_refl xs)
