-- ===== src/Common/Distinct.antt =====
-- Distinct numbers below a bound are no more than the bound.
use Prim.Native.Nat.{ℕ, zero, suc, ◌≤◌, ◌<◌}
use mathlib.Core.Path.{◌≡◌, refl}
use mathlib.Core.Bool.{Bool, false, ◌||◌}
use mathlib.Core.List.{List, [], ◌∷◌}
use native.Mathlib.Omega.{arith}
use qmt_execution_core.Common.Tests.{◌==◌, if◌then◌else◌}
use qmt_execution_core.Common.Lists.{length}

abbrev pub has : ℕ → List ℕ → Bool
has n [] = false
has n (x ∷ xs) = (x == n) || has n xs

abbrev pub AreDistinct : List ℕ → Type 0
AreDistinct [] = Unit {0}
AreDistinct (x ∷ xs) = (has x xs ≡ false) × AreDistinct xs

abbrev pub AreBelow : ℕ → List ℕ → Type 0
AreBelow n [] = Unit {0}
AreBelow n (x ∷ xs) = (x < n) × AreBelow n xs

without : ℕ → List ℕ → List ℕ
without n [] = []
without n (x ∷ xs) = let rest = without n xs in if x == n then rest else x ∷ rest

has-without : (n m : ℕ) (xs : List ℕ) → has m xs ≡ false → has m (without n xs) ≡ false
unfolding without
has-without n m [] h = refl
has-without n m (x ∷ xs) h = ground (arith, has-without n m xs)

without-AreDistinct : (n : ℕ) (xs : List ℕ) → AreDistinct xs → AreDistinct (without n xs)
unfolding without
without-AreDistinct n [] h = tt
without-AreDistinct n (x ∷ xs) h =
    ground (arith, without-AreDistinct n xs h.1, has-without n x xs h.0)

without-AreBelow : (n : ℕ) (xs : List ℕ) → AreBelow (suc n) xs → AreBelow n (without n xs)
unfolding without
without-AreBelow n [] h = tt
without-AreBelow n (x ∷ xs) h = ground (arith, without-AreBelow n xs h.1)

without-absent : (n : ℕ) (xs : List ℕ) → has n xs ≡ false → without n xs ≡ xs
unfolding without
without-absent n [] h = refl
without-absent n (x ∷ xs) h = ground (arith, without-absent n xs)

length-without : (n : ℕ) (xs : List ℕ) → AreDistinct xs → length xs ≤ suc (length (without n xs))
unfolding without
length-without n [] h = omega arith
length-without n (x ∷ xs) h = ground (arith, length-without n xs h.1, without-absent n xs)

pub distinct_below : (n : ℕ) (xs : List ℕ) → AreDistinct xs → AreBelow n xs → length xs ≤ n
distinct_below n [] d b = omega arith
distinct_below zero (x ∷ xs) d b = absurd (omega arith)
distinct_below (suc n) (x ∷ xs) d b = omega (
  arith,
  length-without n (x ∷ xs) d,
  distinct_below n (without n (x ∷ xs)) (without-AreDistinct n (x ∷ xs) d)
      (without-AreBelow n (x ∷ xs) b),
)
