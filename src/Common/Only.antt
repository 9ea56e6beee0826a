-- ===== src/Common/Only.antt =====
-- The elements of a list that pass a test, and what it is to be the only one.
use mathlib.Core.Path.{◌≡◌, refl, ap}
use mathlib.Core.Logic.{◌↔◌, inl, inr}
use mathlib.Core.Bool.{Bool, true, false}
use mathlib.Core.List.{List, [], ◌∷◌, ◌++◌}
use qmt_execution_core.Common.Tests.{if◌then◌else◌, Bool-cases}

module _ {A : Type 0} where
  -- `[a for a in all if p(a)]`
  abbrev pub matches : (A → Bool) → List A → List A
  matches p [] = []
  matches p (a ∷ all) = let rest = matches p all in if p a then a ∷ rest else rest

  abbrev pub NoneOf : (A → Type 0) → List A → Type 0
  NoneOf P [] = Unit {0}
  NoneOf P (a ∷ all) = (P a → ⊥) × NoneOf P all

  -- `a` stands at one place of the list and is so; no element at another place is.
  abbrev pub IsOnlyOne : (A → Type 0) → List A → A → Type 0
  IsOnlyOne P all a =
      (before : List A) × (after : List A) × (all ≡ before ++ (a ∷ after))
      × P a
      × NoneOf P before
      × NoneOf P after

module _ {A : Type 0} (p : A → Bool) (P : A → Type 0) (decides : (a : A) → (p a ≡ true) ↔ P a) where
  fails : (a : A) → p a ≡ false → P a → ⊥
  fails a miss h = let hit = (decides a).1 h in cc (miss, hit)

  matches_nil : (all : List A) → matches p all ≡ [] → NoneOf P all
  matches_nil [] h = tt
  matches_nil (a ∷ all) h = elim (Bool-cases (p a)) [
    | inl hit ↦ absurd (cc (rw hit at h))
    | inr miss ↦ (fails a miss, matches_nil all (rw miss at h))
  ]

  matches_none : (all : List A) → NoneOf P all → matches p all ≡ []
  matches_none [] h = refl
  matches_none (a ∷ all) h = elim (Bool-cases (p a)) [
    | inl hit ↦ absurd (h.0 ((decides a).0 hit))
    | inr miss ↦ rw miss (matches_none all h.1)
  ]

  matches_one : (all : List A) (a : A) → matches p all ≡ a ∷ [] → IsOnlyOne P all a
  matches_one [] a h = absurd (cc h)
  matches_one (b ∷ all) a h = elim (Bool-cases (p b)) [
    | inl hit ↦
        let found : b ∷ matches p all ≡ a ∷ [] = rw hit at h in
        let same : b ≡ a = cc found in
        let rest : matches p all ≡ [] = cc found in
        ([], all, ap (λ x. x ∷ all) same, (decides a).0 (rw same at hit), tt, matches_nil all rest)
    | inr miss ↦
        let (before, after, e, here, clear, later) = matches_one all a (rw miss at h) in
        (b ∷ before, after, ap (λ l. b ∷ l) e, here, (fails b miss, clear), later)
  ]

  one_matches :
      (before after : List A) (a : A)
      → P a
      → NoneOf P before
      → NoneOf P after
      → matches p (before ++ (a ∷ after)) ≡ a ∷ []
  one_matches [] after a here clear later =
      rw ((decides a).1 here) (ap (λ l. a ∷ l) (matches_none after later))
  one_matches (b ∷ before) after a here clear later = elim (Bool-cases (p b)) [
    | inl hit ↦ absurd (clear.0 ((decides b).0 hit))
    | inr miss ↦ rw miss (one_matches before after a here clear.1 later)
  ]

  -- A list with one match has one element that is so.
  pub matches-IsOnlyOne : (all : List A) (a : A) → (matches p all ≡ a ∷ []) ↔ IsOnlyOne P all a
  matches-IsOnlyOne all a = (
    matches_one all a,
    λ m.
        let (before, after, e, here, clear, later) = m in
        rw e (one_matches before after a here clear later),
  )
