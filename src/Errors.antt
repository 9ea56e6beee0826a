-- ===== src/Errors.antt =====
-- src/qmt_execution_core/exceptions.py and the exception classes that other modules declare. An
-- exception is its class: message texts are diagnostics and are left out. `other_error` stands for
-- an exception of any class that is not listed.
use qmt_execution_core.Common.{◌≡◌, refl, ◌⊎◌, inl, inr, Bool, true, false}

pub data Error : Type 0 where
  execution_core_error session_closed broker_error broker_execution_disabled : Error
  broker_submission_rejected broker_submission_ambiguous broker_query_ambiguous : Error
  recovery_ambiguous runtime_configuration_error account_binding_error : Error
  event_queue_unhealthy runtime_confirmation_error coordination_error symbol_claim_conflict : Error
  cash_reservation_rejected session_id_unavailable runtime_authority_error : Error
  coordination_identity_error : Error
  invalid_transition invariant_violation journal_error journal_integrity_error : Error
  concurrent_execution_error : Error
  runtime_error value_error type_error key_error os_error sqlite_error other_error : Error

-- `except BrokerError` catches the subclasses too
unfoldable pub is_broker_error : Error → Bool
is_broker_error broker_error = true
is_broker_error broker_execution_disabled = true
is_broker_error broker_submission_rejected = true
is_broker_error broker_submission_ambiguous = true
is_broker_error broker_query_ambiguous = true
is_broker_error _ = false

-- `except CoordinationError`
unfoldable pub is_coordination_error : Error → Bool
is_coordination_error coordination_error = true
is_coordination_error symbol_claim_conflict = true
is_coordination_error cash_reservation_rejected = true
is_coordination_error coordination_identity_error = true
is_coordination_error _ = false

pub data Result {ℓ} (A : Type ℓ) : Type ℓ where
  err : Error → Result A
  ok : A → Result A

-- `if test: raise error`
abbrev pub raise_if : (test : Bool) (error : Error) → Result (Unit {0})
raise_if false error = ok tt
raise_if true error = err error

infixl 5 ◌>>=◌
abbrev pub ◌>>=◌ {ℓ κ} : {A : Type ℓ} {B : Type κ} (m : Result A) (rest : A → Result B) → Result B
err error >>= rest = err error
ok a >>= rest = rest a

infixl 5 ◌>>◌
abbrev pub ◌>>◌ {ℓ} : {B : Type ℓ} (m : Result (Unit {0})) (rest : Result B) → Result B
m >> rest = m >>= λ u. rest

pub Result-cases {ℓ} :
    {A : Type ℓ} (r : Result A) → ((a : A) × (r ≡ ok a)) ⊎ ((e : Error) × (r ≡ err e))
Result-cases (ok a) = inl (a, refl)
Result-cases (err e) = inr (e, refl)

-- A block that returned had a first step that returned, and so had the rest of it.
pub bind_ok {ℓ κ} :
    {A : Type ℓ} {B : Type κ} (first : Result A) (rest : A → Result B) {answer : B}
    → (first >>= rest) ≡ ok answer
    → (got : A) × (first ≡ ok got) × (rest got ≡ ok answer)
bind_ok (err error) rest h = cc
bind_ok (ok got) rest h = (got, refl, h)

pub raise_if_ok : (b : Bool) (e : Error) {u : Unit {0}} → raise_if b e ≡ ok u → b ≡ false
raise_if_ok true e h = cc
raise_if_ok false e h = refl

pub ok_inj {ℓ} : {A : Type ℓ} {a b : A} → ok a ≡ ok b → a ≡ b
ok_inj h = cc h
