-- ===== src/Exec/Returns.antt =====
-- What a block that returned is made of.
use qmt_execution_core.Common.{◌≡◌, refl, Bool, true, false}
use qmt_execution_core.Errors.{Error, Result, ok, err}
use qmt_execution_core.Exec.{Exec, continue, lift, raise_if, ◌>>=◌}

module _ {S A B : Type 0} where
  continue_returned :
      (r : Result A) (s : S) (rest : A → Exec S B) {b : B} {t : S}
      → continue r rest s ≡ (ok b, t)
      → (a : A) × (r ≡ ok a) × (rest a s ≡ (ok b, t))
  continue_returned (ok a) s rest h = (a, refl, h)
  continue_returned (err e) s rest h = absurd (cc h)

  -- The first step returned, and the rest returned from where it left the state.
  pub returned :
      (m : Exec S A) (rest : A → Exec S B) (s : S) {b : B} {t : S}
      → (m >>= rest) s ≡ (ok b, t)
      → (a : A) × (m s ≡ (ok a, (m s).1)) × (rest a (m s).1 ≡ (ok b, t))
  unfolding ◌>>=◌
  returned m rest s h = let (a, q, k) = continue_returned (m s).0 (m s).1 rest h in (a, cc q, k)

  -- the same for a step that leaves the state as it is
  pub lift_returned :
      (r : Result A) (rest : A → Exec S B) (s : S) {b : B} {t : S}
      → (lift r >>= rest) s ≡ (ok b, t)
      → (a : A) × (r ≡ ok a) × (rest a s ≡ (ok b, t))
  unfolding ◌>>=◌
  lift_returned r rest s h = continue_returned r s rest h

module _ {S B : Type 0} where
  pub raise_if_returned :
      (test : Bool) (e : Error) (rest : Unit → Exec S B) (s : S) {b : B} {t : S}
      → (raise_if test e >>= rest) s ≡ (ok b, t)
      → (test ≡ false) × (rest tt s ≡ (ok b, t))
  unfolding ◌>>=◌
  raise_if_returned true e rest s h = absurd (cc h)
  raise_if_returned false e rest s h = (refl, h)
