-- ===== src/Common/Texts.antt =====
-- A text as the list of its code points.
use Prim.Native.Nat.{ℕ}
use Prim.Native.Char.{code}
use Prim.Native.String.{String}
use mathlib.Core.Bool.{Bool, true, false, ◌&&◌}
use mathlib.Core.List.{List, [], ◌∷◌}
use qmt_execution_core.Common.Tests.{ltb}

abbrev pub code_points : String → List ℕ
code_points String.[] = []
code_points (String.◌∷◌ c s) = code c ∷ code_points s

abbrev pub are_ascii : List ℕ → Bool
are_ascii [] = true
are_ascii (c ∷ cs) = ltb c 128 && are_ascii cs

abbrev pub is_empty : String → Bool
is_empty String.[] = true
is_empty (String.◌∷◌ c s) = false
