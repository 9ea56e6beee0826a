-- ===== src/Machine.antt =====
-- src/qmt_execution_core/state_machine.py: the safety facts that each event
-- leaves, and the assertions made after each step.
pub mod Safety
pub mod Reach
pub mod Runs
pub mod Equality
pub mod Examples
use qmt_execution_core.Common.{
  Bool, true, false, not, ◌&&◌, ◌||◌, Option, none, some, if◌then◌else◌,
}
use qmt_execution_core.Errors.{
  Result, ok, err, ◌>>=◌, ◌>>◌, raise_if, invalid_transition, invariant_violation,
}
use qmt_execution_core.Table.{transitions}
use qmt_execution_core.Domain.{
  TradeState, TradeEvent, SafetyFacts, no_facts, SessionEvidence, PrecheckEvidence,
  validate_session, validate_precheck,
}

pub record MachineSnapshot : Type 0 where
  pub state : TradeState
  pub facts : SafetyFacts

abbrev pub initial_snapshot : MachineSnapshot
initial_snapshot = record { state = TradeState.idle; facts = no_facts }

-- The two guards of `advance` that no table entry expresses.
unfoldable pub guarded : TradeEvent → SafetyFacts → Bool
guarded TradeEvent.recovery_cancelling f = not f.cancel_intent_persisted
guarded TradeEvent.intent_persisted f =
    not
      (f.broker_snapshot_verified && (f.position_verified && (f.cash_verified && f.quote_verified)))
guarded _ f = false

session_ready_facts : Option SessionEvidence → SafetyFacts → Result SafetyFacts
session_ready_facts none f = err invariant_violation
session_ready_facts (some e) f = do
  validate_session e
  raise_if (not e.ready) invariant_violation
  ok (record f {
    environment_verified = e.environment_verified;
    account_verified = e.account_verified;
  })

precheck_facts : Option PrecheckEvidence → SafetyFacts → Result SafetyFacts
precheck_facts none f = err invariant_violation
precheck_facts (some e) f = do
  validate_precheck e
  raise_if (not e.allowed) invariant_violation
  ok (record f {
    environment_verified = e.environment_verified;
    account_verified = e.account_verified;
    broker_snapshot_verified = e.broker_snapshot_verified;
    position_verified = e.position_verified;
    cash_verified = e.cash_verified;
    quote_verified = e.quote_verified;
  })

abbrev order_open : SafetyFacts → SafetyFacts
order_open f = record f { submitted_once = true; unresolved_order = true }

abbrev order_closed : SafetyFacts → SafetyFacts
order_closed f = record f {
  submitted_once = true;
  unresolved_order = false;
  terminal_order_confirmed = true;
}

abbrev cancel_wanted : SafetyFacts → SafetyFacts
cancel_wanted f = record f { cancel_intent_persisted = true; unresolved_order = true }

abbrev never_sent : SafetyFacts → SafetyFacts
never_sent f = record f {
  submitted_once = false;
  unresolved_order = false;
  terminal_order_confirmed = true;
}

abbrev doubtful : SafetyFacts → SafetyFacts
doubtful f = record f {
  broker_snapshot_verified = false;
  cash_verified = false;
  quote_verified = false;
  unresolved_order = f.unresolved_order || (f.submitted_once || f.intent_persisted);
  terminal_order_confirmed = false;
}

-- The `if`/`elif` chain of `advance`. `triggered`, `begin_precheck`, `precheck_rejected` and
-- `fatal` take no branch that changes a fact.
unfoldable pub next_facts :
    TradeEvent → Option SessionEvidence → Option PrecheckEvidence → SafetyFacts → Result SafetyFacts
unfolding session_ready_facts precheck_facts
next_facts TradeEvent.session_ready se pe f = session_ready_facts se f
next_facts TradeEvent.precheck_verified se pe f = precheck_facts pe f
next_facts TradeEvent.intent_persisted se pe f =
    ok (record f { intent_persisted = true; reservation_persisted = true })
next_facts TradeEvent.pre_broker_rejected se pe f = ok (never_sent f)
next_facts TradeEvent.pre_broker_aborted se pe f = ok (never_sent f)
next_facts TradeEvent.submit_accepted se pe f = ok (order_open f)
next_facts TradeEvent.submit_ambiguous se pe f = ok (order_open f)
next_facts TradeEvent.submit_rejected se pe f = ok (order_closed f)
next_facts TradeEvent.order_working se pe f = ok (order_open f)
next_facts TradeEvent.order_partial se pe f = ok (order_open f)
next_facts TradeEvent.recovery_accepted se pe f = ok (order_open f)
next_facts TradeEvent.recovery_working se pe f = ok (order_open f)
next_facts TradeEvent.recovery_partial se pe f = ok (order_open f)
next_facts TradeEvent.recovery_cancelling se pe f = ok (order_open f)
next_facts TradeEvent.cancel_still_pending se pe f = ok (order_open f)
next_facts TradeEvent.cancel_requested se pe f = ok (cancel_wanted f)
next_facts TradeEvent.cancel_sent se pe f = ok (cancel_wanted f)
next_facts TradeEvent.cancel_request_rejected se pe f = ok (cancel_wanted f)
next_facts TradeEvent.order_filled se pe f = ok (order_closed f)
next_facts TradeEvent.cancel_confirmed se pe f = ok (order_closed f)
next_facts TradeEvent.recovery_filled se pe f = ok (order_closed f)
next_facts TradeEvent.recovery_cancelled se pe f = ok (order_closed f)
next_facts TradeEvent.recovery_rejected se pe f = ok (order_closed f)
next_facts TradeEvent.order_rejected se pe f = ok (order_closed f)
next_facts TradeEvent.query_ambiguous se pe f = ok (doubtful f)
next_facts TradeEvent.restart_recovery se pe f = ok (doubtful f)
next_facts TradeEvent.recovery_failed se pe f = ok (record f { unresolved_order = true })
next_facts TradeEvent.next_cycle se pe f = ok (record no_facts {
  environment_verified = f.environment_verified;
  account_verified = f.account_verified;
})
next_facts _ se pe f = ok f

-- The sets of states that `assert_invariants` tests.
unfoldable pub on_execution_path : TradeState → Bool
on_execution_path TradeState.idle = false
on_execution_path TradeState.wait_trigger = false
on_execution_path TradeState.trigger = false
on_execution_path TradeState.pre_check = false
on_execution_path TradeState.rejected = false
on_execution_path TradeState.failed = false
on_execution_path _ = true

unfoldable pub on_new_order_path : TradeState → Bool
on_new_order_path TradeState.wait_trigger = true
on_new_order_path TradeState.trigger = true
on_new_order_path TradeState.pre_check = true
on_new_order_path _ = false

unfoldable pub on_cancel_path : TradeState → Bool
on_cancel_path TradeState.pending_cancel = true
on_cancel_path TradeState.cancelling = true
on_cancel_path TradeState.cancel_rejected = true
on_cancel_path _ = false

unfoldable pub is_success : TradeState → Bool
is_success TradeState.filled = true
is_success TradeState.cancelled = true
is_success _ = false

unfoldable pub is_submitted : TradeState → Bool
is_submitted TradeState.submitted = true
is_submitted _ = false

unfoldable pub is_unknown : TradeState → Bool
is_unknown TradeState.unknown = true
is_unknown _ = false

unfoldable pub assert_invariants : MachineSnapshot → Result (Unit {0})
unfolding on_execution_path on_new_order_path on_cancel_path is_success is_submitted is_unknown
assert_invariants s = do
  raise_if (submitted_once && not (intent_persisted && reservation_persisted)) invariant_violation
  raise_if (on_execution_path s.state && not (environment_verified && account_verified))
      invariant_violation
  raise_if
      (is_submitted s.state
        && not (
            broker_snapshot_verified
            && (position_verified
                && (cash_verified
                    && (quote_verified && (intent_persisted && reservation_persisted))))))
      invariant_violation
  raise_if (on_new_order_path s.state && unresolved_order) invariant_violation
  raise_if (on_cancel_path s.state && not cancel_intent_persisted) invariant_violation
  raise_if (is_success s.state && (unresolved_order || not terminal_order_confirmed))
      invariant_violation
  raise_if (is_unknown s.state && not unresolved_order) invariant_violation
  where
    open s.facts use {
      environment_verified, account_verified, broker_snapshot_verified, position_verified,
      cash_verified, quote_verified, intent_persisted, reservation_persisted, unresolved_order,
      terminal_order_confirmed, submitted_once, cancel_intent_persisted,
    }

unfoldable pub declared : TradeState → TradeEvent → Result TradeState
declared s e = elim (transitions s e) [ none ↦ err invalid_transition | some t ↦ ok t ]

unfoldable pub advance :
    Option SessionEvidence
    → Option PrecheckEvidence
    → MachineSnapshot
    → TradeEvent
    → Result MachineSnapshot
unfolding declared
advance se pe s e = do
  next ← declared s.state e
  raise_if (guarded e s.facts) invalid_transition
  facts ← next_facts e se pe s.facts
  let result : MachineSnapshot = record { state = next; facts = facts }
  assert_invariants result
  ok result
