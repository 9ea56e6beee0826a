-- ===== src/Common/Rows.antt =====
-- The statements of SQL that the coordinator uses, on the rows of one table: SELECT of the one row
-- that a key picks, UPDATE and DELETE of the rows that pass a test, SUM over such rows.
use mathlib.Core.Option
use mathlib.Core.Path.{◌≡◌, refl}
use mathlib.Core.Bool.{Bool, true, false}
use mathlib.Core.Option.{Option, none, some}
use mathlib.Core.List.{List, [], ◌∷◌}
use Prim.Native.Nat.{ℕ, ◌+◌, ◌≤◌}
use native.Mathlib.Omega.{arith}
use qmt_execution_core.Common.Tests.{if◌then◌else◌}

module _ {ℓ} {A : Type ℓ} where
  abbrev pub find_row : (A → Bool) → List A → Option A
  find_row p [] = none
  find_row p (a ∷ rest) = if p a then some a else find_row p rest

  abbrev pub update_rows : (A → Bool) → (A → A) → List A → List A
  update_rows p f [] = []
  update_rows p f (a ∷ rest) = (if p a then f a else a) ∷ update_rows p f rest

  abbrev pub delete_rows : (A → Bool) → List A → List A
  delete_rows p [] = []
  delete_rows p (a ∷ rest) = let kept = delete_rows p rest in if p a then kept else a ∷ kept

  abbrev pub sum_rows : (A → Bool) → (A → ℕ) → List A → ℕ
  sum_rows p f [] = 0
  sum_rows p f (a ∷ rest) = (if p a then f a else 0) + sum_rows p f rest

  -- the row found passes the test
  pub find_row_hit : (p : A → Bool) (rows : List A) (a : A) → find_row p rows ≡ some a → p a ≡ true
  find_row_hit p [] a h = ground arith
  find_row_hit p (b ∷ rows) a h = ground (arith, find_row_hit p rows a)

  -- an UPDATE that keeps the key of each row
  pub find-update_rows :
      (p q : A → Bool) (f : A → A) (rows : List A)
      → ((a : A) → q (f a) ≡ q a)
      → find_row q (update_rows p f rows)
        ≡ Option.map (λ a. if p a then f a else a) (find_row q rows)
  find-update_rows p q f [] keep = ground arith
  find-update_rows p q f (a ∷ rows) keep = ground (arith, keep a, find-update_rows p q f rows keep)

  pub find_row_congr :
      (p q : A → Bool) (rows : List A) → ((a : A) → p a ≡ q a) → find_row p rows ≡ find_row q rows
  find_row_congr p q [] same = refl
  find_row_congr p q (a ∷ rows) same = ground (arith, same a, find_row_congr p q rows same)

  -- a DELETE of other rows
  pub find-delete_rows_ne :
      (p q : A → Bool) (rows : List A)
      → ((a : A) → q a ≡ true → p a ≡ false)
      → find_row q (delete_rows p rows) ≡ find_row q rows
  find-delete_rows_ne p q [] apart = refl
  find-delete_rows_ne p q (a ∷ rows) apart =
      ground (arith, apart a, find-delete_rows_ne p q rows apart)

  -- what a DELETE leaves was there before
  pub find-delete_rows-none :
      (p q : A → Bool) (rows : List A)
      → find_row q rows ≡ none
      → find_row q (delete_rows p rows) ≡ none
  find-delete_rows-none p q [] h = refl
  find-delete_rows-none p q (a ∷ rows) h = ground (arith, find-delete_rows-none p q rows)

  -- an UPDATE that raises no row's share lowers the sum
  pub sum-update_rows_le :
      (p q : A → Bool) (f : A → A) (v : A → ℕ) (rows : List A)
      → ((a : A) → (if p (f a) then v (f a) else 0) ≤ (if p a then v a else 0))
      → sum_rows p v (update_rows q f rows) ≤ sum_rows p v rows
  sum-update_rows_le p q f v [] lower = omega arith
  sum-update_rows_le p q f v (a ∷ rows) lower =
      ground (arith, lower a, sum-update_rows_le p q f v rows lower)

  -- an UPDATE that changes no row's share keeps the sum
  pub sum-update_rows_eq :
      (p q : A → Bool) (f : A → A) (v : A → ℕ) (rows : List A)
      → ((a : A) → q a ≡ true → (if p (f a) then v (f a) else 0) ≡ (if p a then v a else 0))
      → sum_rows p v (update_rows q f rows) ≡ sum_rows p v rows
  sum-update_rows_eq p q f v [] same = omega arith
  sum-update_rows_eq p q f v (a ∷ rows) same =
      ground (arith, same a, sum-update_rows_eq p q f v rows same)

-- A key of the table: no row shares its key with a row below it.
module _ {ℓ} {A : Type ℓ} (same : A → A → Bool) where
  abbrev pub IsKey : List A → Type ℓ
  IsKey [] = Unit {ℓ}
  IsKey (a ∷ rest) = (find_row (same a) rest ≡ none) × IsKey rest

  pub delete_rows-IsKey : (p : A → Bool) (rows : List A) → IsKey rows → IsKey (delete_rows p rows)
  delete_rows-IsKey p [] h = tt
  delete_rows-IsKey p (a ∷ rows) h =
      ground (arith, delete_rows-IsKey p rows h.1, find-delete_rows-none p (same a) rows h.0)

  pub update_rows-IsKey :
      (p : A → Bool) (f : A → A) (rows : List A)
      → ((a b : A) → same a (f b) ≡ same a b)
      → ((a b : A) → same (f a) b ≡ same a b)
      → IsKey rows
      → IsKey (update_rows p f rows)
  update_rows-IsKey p f [] r l h = tt
  update_rows-IsKey p f (a ∷ rows) r l h = ground (
    arith,
    update_rows-IsKey p f rows r l h.1,
    find-update_rows p (same a) f rows (r a),
    find_row_congr (same (f a)) (same a) (update_rows p f rows) (l a),
  )
