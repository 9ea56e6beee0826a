-- ===== src/Exec/Keeps.antt =====
-- A property of an object's state that a method leaves in place, and the rules that show it.
use qmt_execution_core.Common.{Bool, true, false, if◌then◌else◌}
use qmt_execution_core.Errors.{Error, Result, ok, err}
use qmt_execution_core.Exec.{
  Exec, raise_if, lift, raise, pure, gets, settle, attempt, continue, ◌>>=◌,
}

-- From a state with `P` the method ends in one, with a value or with an exception.
pub record Keeps {S A : Type 0} (P : S → Type 0) (m : Exec S A) : Type 0 where
  pub at : (before : S) → P before → P (m before).1

-- Neither `except` nor the end of a block changes the state.
settle_stays :
    {S A : Type 0} (P : S → Type 0) (catches : Error → Bool) (answer : Result A) (s : S)
    → P s
    → P (settle catches answer s).1
settle_stays P catches (err error) s h = h
settle_stays P catches (ok a) s h = h

continue_stays :
    {S A B : Type 0} (P : S → Type 0) (answer : Result A) (rest : A → Exec S B) (s : S)
    → ((a : A) → Keeps P (rest a))
    → P s
    → P (continue answer rest s).1
continue_stays P (err error) rest s k h = h
continue_stays P (ok a) rest s k h = (k a).at s h

module _ {S : Type 0} {P : S → Type 0} where
  pub Keeps-raise_if : (test : Bool) (error : Error) → Keeps P (raise_if test error)
  Keeps-raise_if false error = record { at = λ before h. h }
  Keeps-raise_if true error = record { at = λ before h. h }

module _ {S A B : Type 0} {P : S → Type 0} where
  pub Keeps-bind :
      (m : Exec S A) (rest : A → Exec S B)
      → Keeps P m
      → ((a : A) → Keeps P (rest a))
      → Keeps P (m >>= rest)
  unfolding ◌>>=◌
  Keeps-bind m rest first k = record {
    at = λ before h.
        let (answer, after) = m before in continue_stays P answer rest after k (first.at before h);
  }

module _ {S A : Type 0} {P : S → Type 0} where
  pub Keeps-attempt :
      (catches : Error → Bool) (m : Exec S A) → Keeps P m → Keeps P (attempt catches m)
  unfolding attempt
  Keeps-attempt catches m k = record {
    at = λ before h.
        let (answer, after) = m before in settle_stays P catches answer after (k.at before h);
  }

  pub Keeps-if :
      (test : Bool) (taken skipped : Exec S A)
      → Keeps P taken
      → Keeps P skipped
      → Keeps P (if test then taken else skipped)
  Keeps-if false taken skipped kt ks = ks
  Keeps-if true taken skipped kt ks = kt

  pub Keeps-gets : (field : S → A) → Keeps P (gets field)
  Keeps-gets field = record { at = λ before h. h }

  pub Keeps-lift : (answer : Result A) → Keeps P (lift answer)
  Keeps-lift answer = record { at = λ before h. h }

  pub Keeps-pure : (a : A) → Keeps P (pure a)
  Keeps-pure a = record { at = λ before h. h }

  pub Keeps-raise : (error : Error) → Keeps P (raise {A = A} error)
  Keeps-raise error = record { at = λ before h. h }

pub ruleset keeps_rules = (
  Keeps-bind, Keeps-if, Keeps-attempt, Keeps-raise_if, Keeps-lift, Keeps-gets, Keeps-raise,
  Keeps-pure,
)
