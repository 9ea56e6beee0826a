-- ===== src/Machine/Safety.antt =====
-- What `assert_invariants` of state_machine.py demands of a snapshot, as a predicate.
use qmt_execution_core.Common.{◌≡◌, ◌↔◌, true, false, arith}
use qmt_execution_core.Errors.{Error, ok, err, invariant_violation}
use qmt_execution_core.Domain.{TradeState}
use qmt_execution_core.Machine.{
  MachineSnapshot, assert_invariants, on_execution_path, on_new_order_path, on_cancel_path,
  is_success,
}

-- The safety contract of a snapshot.
pub record IsSafe (s : MachineSnapshot) : Type 0 where
  pub sent_is_durable :
      s.facts.submitted_once ≡ true
      → (s.facts.intent_persisted ≡ true) × (s.facts.reservation_persisted ≡ true)
  pub execution_is_verified :
      on_execution_path s.state ≡ true
      → (s.facts.environment_verified ≡ true) × (s.facts.account_verified ≡ true)
  pub submitted_is_checked :
      s.state ≡ TradeState.submitted
      → (s.facts.broker_snapshot_verified ≡ true)
        × (s.facts.position_verified ≡ true)
        × (s.facts.cash_verified ≡ true)
        × (s.facts.quote_verified ≡ true)
        × (s.facts.intent_persisted ≡ true)
        × (s.facts.reservation_persisted ≡ true)
  pub new_order_is_clear : on_new_order_path s.state ≡ true → s.facts.unresolved_order ≡ false
  pub cancel_is_durable : on_cancel_path s.state ≡ true → s.facts.cancel_intent_persisted ≡ true
  pub success_is_confirmed :
      is_success s.state ≡ true
      → (s.facts.unresolved_order ≡ false) × (s.facts.terminal_order_confirmed ≡ true)
  pub unknown_is_unresolved : s.state ≡ TradeState.unknown → s.facts.unresolved_order ≡ true

-- `assert_invariants` returns on a snapshot exactly when the safety contract holds of it;
-- otherwise it raises `InvariantViolation`, and nothing else.
assert_invariants_iff :
    (s : MachineSnapshot)
    → ((assert_invariants s ≡ ok tt) ↔ IsSafe s)
      × ((x : Error) → assert_invariants s ≡ err x → (x ≡ invariant_violation) × ¬ IsSafe s)
unfolding assert_invariants
assert_invariants_iff s =
    ((λ h. ground arith, λ h. ground arith), λ x h. (ground arith, λ safe. ground arith))
