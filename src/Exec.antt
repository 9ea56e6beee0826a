-- ===== src/Exec.antt =====
-- Methods over the state of an object, each of which may raise an exception. Python keeps what was
-- changed before the exception, and so does a method here: it always gives a state back.
pub mod Keeps
pub mod Triple
pub mod Returns
use qmt_execution_core.Common.{Bool, true, false, if◌then◌else◌}
use qmt_execution_core.Errors.{Error, Result, ok, err}

abbrev pub Exec : (S A : Type 0) → Type 0
Exec S A = (s : S) → Result A × S

-- the new state, and what the method answers
abbrev pub modify : {S : Type 0} (f : S → S) → Exec S (Unit {0})
modify f s = (ok tt, f s)

abbrev pub raise_if : {S : Type 0} (test : Bool) (error : Error) → Exec S (Unit {0})
raise_if false error s = (ok tt, s)
raise_if true error s = (err error, s)

module _ {S A : Type 0} where
  -- a function of its own that may raise
  abbrev pub lift : (answer : Result A) → Exec S A
  lift answer s = (answer, s)

  abbrev pub raise : (error : Error) → Exec S A
  raise error s = (err error, s)

  abbrev pub pure : (a : A) → Exec S A
  pure a s = (ok a, s)

  abbrev pub gets : (f : S → A) → Exec S A
  gets f s = (ok (f s), s)

  -- `try: m` with `except` clauses for the exceptions of `catches`; others go on. What was caught
  -- comes back as a value, for the handler to look at.
  abbrev pub settle : (catches : Error → Bool) (answer : Result A) → Exec S (Result A)
  settle catches (err e) s = (if catches e then ok (err e) else err e, s)
  settle catches (ok a) s = (ok (ok a), s)

  unfoldable pub attempt : (catches : Error → Bool) (m : Exec S A) → Exec S (Result A)
  attempt catches m s = let (answer, after) = m s in settle catches answer after

module _ {S A B : Type 0} where
  -- an exception skips the rest of the block
  abbrev pub continue : (answer : Result A) (rest : A → Exec S B) → Exec S B
  continue (err error) rest s = (err error, s)
  continue (ok a) rest s = rest a s

  infixl 5 ◌>>=◌
  unfoldable pub ◌>>=◌ : (m : Exec S A) (rest : A → Exec S B) → Exec S B
  ◌>>=◌ m rest s = let (answer, after) = m s in continue answer rest after

  infixl 5 ◌>>◌
  abbrev pub ◌>>◌ : (m : Exec S A) (rest : Exec S B) → Exec S B
  m >> rest = m >>= λ a. rest
