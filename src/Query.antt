-- ===== src/Query.antt =====
-- The bounded repetition of a query: `_strict_query` of src/qmt_execution_core/miniqmt/adapter.py
-- and `strict_non_none_query` of src/qmt_execution_core/miniqmt/binding.py.
pub mod Attempts
pub mod Examples
use qmt_execution_core.Common.{ℕ, zero, suc, Option, none, some}
use qmt_execution_core.Errors.{Error, Result, ok, err}

-- What a call of the SDK does: it raises, returns `None`, or returns something else.
pub data Reply (A : Type 0) : Type 0 where
  raised nothing : Reply A
  value : A → Reply A

module _ {W A : Type 0} (fn : W → Reply A × W) where
  -- one pass of the loop: a value is returned, all else is tried again
  abbrev pub retry : (Reply A) × W → (W → Option A × W) → Option A × W
  retry (value a, after) again = (some a, after)
  retry (raised, after) again = again after
  retry (nothing, after) again = again after

  -- `for attempt in range(attempts)`; the pause between two calls changes nothing here
  unfoldable pub query_loop : (attempts : ℕ) → W → Option A × W
  query_loop zero world = (none, world)
  query_loop (suc attempts) world = retry (fn world) (query_loop attempts)

  abbrev pub or_ambiguous : Error → Option A → Result A
  or_ambiguous error none = err error
  or_ambiguous error (some a) = ok a

  unfoldable pub strict_query : (ambiguous : Error) (attempts : ℕ) → W → Result A × W
  strict_query ambiguous attempts world =
      let (found, after) = query_loop attempts world in (or_ambiguous ambiguous found, after)
