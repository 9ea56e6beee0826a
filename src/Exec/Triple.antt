-- ===== src/Exec/Triple.antt =====
-- Hoare triples for methods: what holds after a return, and after a raise.
use qmt_execution_core.Common.{Bool, Bool-cases, inl, inr}
use qmt_execution_core.Errors.{Error, Result, ok, err}
use qmt_execution_core.Exec.Keeps.{Keeps}
use qmt_execution_core.Exec.{Exec, attempt, settle, continue, ◌>>=◌}

abbrev pub Outcome :
    {S A : Type 0} → (A → S → Type 0) → (Error → S → Type 0) → Result A × S → Type 0
Outcome Q E (ok a, s) = Q a s
Outcome Q E (err e, s) = E e s

-- From a state with `P`, `m` returns with `Q` or raises with `E`.
pub record Triple {S A : Type 0} (P : S → Type 0) (m : Exec S A) (Q : A → S → Type 0)
    (E : Error → S → Type 0) : Type 0 where
  pub at : (s : S) → P s → Outcome Q E (m s)

module _ {S A B : Type 0} {Q : A → S → Type 0} {R : B → S → Type 0} {E : Error → S → Type 0} where
  continue_lem :
      (r : Result A) (s : S) (f : A → Exec S B)
      → ((a : A) → Triple (Q a) (f a) R E)
      → Outcome Q E (r, s)
      → Outcome R E (continue r f s)
  continue_lem (ok a) s f tf h = (tf a).at s h
  continue_lem (err e) s f tf h = h

  pub bind :
      {P : S → Type 0} (m : Exec S A) (f : A → Exec S B)
      → Triple P m Q E
      → ((a : A) → Triple (Q a) (f a) R E)
      → Triple P (m >>= f) R E
  unfolding ◌>>=◌
  bind m f tm tf = record { at = λ s p. let (r, s') = m s in continue_lem r s' f tf (tm.at s p) }

abbrev pub Caught : {S A : Type 0} → (A → S → Type 0) → (Error → S → Type 0) → Result A → S → Type 0
Caught Q E (ok a) s = Q a s
Caught Q E (err e) s = E e s

module _ {S A : Type 0} (Q : A → S → Type 0) (E : Error → S → Type 0) where
  settle_lem :
      (catches : Error → Bool) (r : Result A) (s : S)
      → Outcome Q E (r, s)
      → Outcome (Caught Q E) E (settle catches r s)
  settle_lem catches (ok a) s h = h
  settle_lem catches (err e) s h = elim (Bool-cases (catches e)) [
    | inl hit ↦ rw hit h
    | inr miss ↦ rw miss h
  ]

  pub attempt_lem :
      {P : S → Type 0} (catches : Error → Bool) (m : Exec S A)
      → Triple P m Q E
      → Triple P (attempt catches m) (Caught Q E) E
  unfolding attempt
  attempt_lem catches m tm = record {
    at = λ s p. let (r, s') = m s in settle_lem catches r s' (tm.at s p);
  }

weaken :
    {S A : Type 0} (E : Error → S → Type 0) {Q R : A → S → Type 0} (x : Result A × S)
    → ((a : A) (s : S) → Q a s → R a s)
    → Outcome Q E x
    → Outcome R E x
weaken E (ok a, s) f h = f a s h
weaken E (err e, s) f h = h

module _ {S A : Type 0} {P : S → Type 0} {E : Error → S → Type 0} where
  pub after :
      {Q R : A → S → Type 0} (m : Exec S A)
      → Triple P m Q E
      → ((a : A) (s : S) → Q a s → R a s)
      → Triple P m R E
  after m t f = record { at = λ s p. weaken E (m s) f (t.at s p) }

stays :
    {S A : Type 0} (P : S → Type 0) (x : Result A × S)
    → P x.1
    → Outcome {A = A} (λ a s. P s) (λ e s. P s) x
stays P (ok a, s) h = h
stays P (err e, s) h = h

falls :
    {S A : Type 0} (P : S → Type 0) (x : Result A × S)
    → Outcome {A = A} (λ a s. P s) (λ e s. P s) x
    → P x.1
falls P (ok a, s) h = h
falls P (err e, s) h = h

module _ {S A : Type 0} (P : S → Type 0) where
  pub of_Keeps : (m : Exec S A) → Keeps P m → Triple P m (λ a s. P s) (λ e s. P s)
  of_Keeps m k = record { at = λ s h. stays P (m s) (k.at s h) }

  pub to_Keeps : (m : Exec S A) → Triple P m (λ a s. P s) (λ e s. P s) → Keeps P m
  to_Keeps m t = record { at = λ s h. falls P (m s) (t.at s h) }
