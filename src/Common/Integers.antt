-- ===== src/Common/Integers.antt =====
-- Python's integers, over the native natural numbers under the library's names.
use Prim.Native.Nat.{ℕ}
use mathlib.Core.Path.{◌≡◌}
use native.Mathlib.Omega.{arith}
use mathlib.Core.Bool.{Bool, true, false}
use qmt_execution_core.Common.Tests.{ltb, leb, ◌==◌}

pub data ℤ : Type 0 where
  pos negsuc : ℕ → ℤ

abbrev pub lt_int : ℤ → ℤ → Bool
lt_int (pos a) (pos b) = ltb a b
lt_int (pos a) (negsuc b) = false
lt_int (negsuc a) (pos b) = true
lt_int (negsuc a) (negsuc b) = ltb b a

abbrev pub le_int : ℤ → ℤ → Bool
le_int (pos a) (pos b) = leb a b
le_int (pos a) (negsuc b) = false
le_int (negsuc a) (pos b) = true
le_int (negsuc a) (negsuc b) = leb b a

abbrev pub int_eq : ℤ → ℤ → Bool
int_eq (pos a) (pos b) = a == b
int_eq (negsuc a) (negsuc b) = a == b
int_eq _ _ = false

pub int_eq_sound : (m n : ℤ) → int_eq m n ≡ true → m ≡ n
int_eq_sound m n h = ground arith

pub int_eq_refl : (n : ℤ) → int_eq n n ≡ true
int_eq_refl n = ground arith
