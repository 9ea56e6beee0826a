-- ===== src/Common/Lists.antt =====
-- Lists measured by native numbers, under the library's names.
use Prim.Native.Nat.{ℕ, zero, suc, ◌+◌, ◌-◌}
use mathlib.Core.Path.{◌≡◌, refl}
use mathlib.Core.Logic.{◌⊎◌, inl, inr}
use mathlib.Core.List.{List, [], ◌∷◌, ◌++◌}
use mathlib.Core.Option.{Option, none, some}
use native.Mathlib.Omega.{arith}

module _ {ℓ} {A : Type ℓ} where
  abbrev pub length : List A → ℕ
  length [] = 0
  length (x ∷ xs) = suc (length xs)

  abbrev pub drop : ℕ → List A → List A
  drop zero xs = xs
  drop (suc n) [] = []
  drop (suc n) (x ∷ xs) = drop n xs

  abbrev pub get_elem? : List A → ℕ → Option A
  get_elem? [] n = none
  get_elem? (x ∷ xs) zero = some x
  get_elem? (x ∷ xs) (suc n) = get_elem? xs n

  pub length-append : (xs ys : List A) → length (xs ++ ys) ≡ length xs + length ys
  length-append [] ys = omega arith
  length-append (x ∷ xs) ys = omega (arith, length-append xs ys)

  pub length-drop : (n : ℕ) (xs : List A) → length (drop n xs) ≡ length xs - n
  length-drop zero xs = omega arith
  length-drop (suc n) [] = omega arith
  length-drop (suc n) (x ∷ xs) = omega (arith, length-drop n xs)

  pub left-empty : (xs ys : List A) → xs ++ ys ≡ [] → xs ≡ []
  left-empty [] ys h = refl
  left-empty (x ∷ xs) ys h = absurd (cc h)

  pub right-empty : (xs ys : List A) → xs ++ ys ≡ [] → ys ≡ []
  right-empty [] ys h = h
  right-empty (x ∷ xs) ys h = absurd (cc h)

module _ {A : Type 0} where
  -- membership, by the places of the list
  abbrev pub IsIn : A → List A → Type 0
  IsIn a [] = ⊥
  IsIn a (x ∷ xs) = (x ≡ a) ⊎ IsIn a xs

  pub IsIn-left : (a : A) (xs ys : List A) → IsIn a xs → IsIn a (xs ++ ys)
  IsIn-left a [] ys h = absurd h
  IsIn-left a (x ∷ xs) ys (inl same) = inl same
  IsIn-left a (x ∷ xs) ys (inr h) = inr (IsIn-left a xs ys h)

  pub IsIn-right : (a : A) (xs ys : List A) → IsIn a ys → IsIn a (xs ++ ys)
  IsIn-right a [] ys h = h
  IsIn-right a (x ∷ xs) ys h = inr (IsIn-right a xs ys h)
