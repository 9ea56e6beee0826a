-- ===== src/Common/Tests.antt =====
-- Boolean tests on the native numbers, the conditional, and case splits that keep the equation.
use Prim.Native.Nat.{ℕ, compare, Ordering}
use mathlib.Core.Path.{◌≡◌, refl}
use mathlib.Core.Logic.{◌⊎◌, inl, inr}
use mathlib.Core.Bool.{Bool, true, false, not, ◌&&◌, ◌||◌}
use mathlib.Core.Option.{Option, none, some}

abbrev pub ltb : ℕ → ℕ → Bool
ltb a b = elim (compare a b) [ Ordering.lt ↦ true | _ ↦ false ]

abbrev pub leb : ℕ → ℕ → Bool
leb a b = elim (compare a b) [ Ordering.gt ↦ false | _ ↦ true ]

infix 50 ◌==◌
abbrev pub ◌==◌ : ℕ → ℕ → Bool
a == b = elim (compare a b) [ Ordering.eq ↦ true | _ ↦ false ]

infix 1 if◌then◌else◌
abbrev pub if◌then◌else◌ {ℓ} : {A : Type ℓ} → Bool → A → A → A
if true then x else y = x
if false then x else y = y

pub Bool-cases : (b : Bool) → (b ≡ true) ⊎ (b ≡ false)
Bool-cases true = inl refl
Bool-cases false = inr refl

pub Option-cases {ℓ} : {A : Type ℓ} (o : Option A) → (o ≡ none) ⊎ ((a : A) × (o ≡ some a))
Option-cases none = inl refl
Option-cases (some a) = inr (a, refl)

pub then_taken {ℓ} :
    {A : Type ℓ} (b : Bool) {x r : A} (y : A) → b ≡ true → (if b then x else y) ≡ r → x ≡ r
then_taken true y h q = q
then_taken false y h q = cc h

pub else_taken {ℓ} :
    {A : Type ℓ} (b : Bool) {y r : A} (x : A) → b ≡ false → (if b then x else y) ≡ r → y ≡ r
else_taken true x h q = cc h
else_taken false x h q = q

pub both_true : (a b : Bool) → (a && b) ≡ true → (a ≡ true) × (b ≡ true)
both_true true b h = (refl, h)
both_true false b h = cc h

pub either_true : (a b : Bool) → (a || b) ≡ true → (a ≡ true) ⊎ (b ≡ true)
either_true true b h = inl refl
either_true false b h = inr h

pub neither : (a b : Bool) → (not a || b) ≡ false → (a ≡ true) × (b ≡ false)
neither true b h = (refl, h)
neither false b h = cc h

pub not-false : (a : Bool) → not a ≡ false → a ≡ true
not-false true h = refl
not-false false h = cc h
