-- ===== src/Machine/Examples.antt =====
-- Runs of the machine of src/qmt_execution_core/state_machine.py on concrete evidence.
use qmt_execution_core.Common.{◌≡◌, refl, ◌⊎◌, true, false, none, some, List, [], ◌∷◌}
use qmt_execution_core.Errors.{ok, err, invalid_transition}
use qmt_execution_core.Domain.{
  TradeState, TradeEvent, SafetyFacts, no_facts, SessionEvidence, PrecheckEvidence,
}
use qmt_execution_core.Table.{transitions}
use qmt_execution_core.Machine.{
  MachineSnapshot, declared, guarded, next_facts, assert_invariants, advance, on_execution_path,
}
use qmt_execution_core.Machine.Reach.{Reachable, start, step, advance_only_invalid}
use qmt_execution_core.Machine.Runs.{
  Run, stop, more, intent_waits, no_blind_resend, settling, Settled, run, execution_can_settle,
}

abbrev session_evidence : SessionEvidence
session_evidence = record {
  ready = true;
  environment_verified = true;
  account_verified = true;
  reason = "";
}

abbrev precheck_evidence : PrecheckEvidence
precheck_evidence = record {
  allowed = true;
  environment_verified = true;
  account_verified = true;
  broker_snapshot_verified = true;
  position_verified = true;
  cash_verified = true;
  quote_verified = true;
  reason = "";
}

abbrev verified_facts : SafetyFacts
verified_facts = record no_facts {
  environment_verified = true;
  account_verified = true;
  broker_snapshot_verified = true;
  position_verified = true;
  cash_verified = true;
  quote_verified = true;
}

abbrev intent_facts : SafetyFacts
intent_facts = record verified_facts { intent_persisted = true; reservation_persisted = true }

abbrev accepted_facts : SafetyFacts
accepted_facts = record intent_facts { unresolved_order = true; submitted_once = true }

abbrev pub pre_check : MachineSnapshot
pre_check = record { state = TradeState.pre_check; facts = verified_facts }

abbrev pub submitted : MachineSnapshot
submitted = record { state = TradeState.submitted; facts = intent_facts }

abbrev pub accepted : MachineSnapshot
accepted = record { state = TradeState.accepted; facts = accepted_facts }

abbrev doubted_facts : SafetyFacts
doubted_facts = record accepted_facts {
  broker_snapshot_verified = false;
  cash_verified = false;
  quote_verified = false;
}

abbrev unknown : MachineSnapshot
unknown = record { state = TradeState.unknown; facts = doubted_facts }

pub pre_check-Reachable : Reachable pre_check
unfolding advance transitions declared guarded next_facts assert_invariants
pre_check-Reachable =
    step none (some precheck_evidence) TradeEvent.precheck_verified
      (step none none TradeEvent.begin_precheck
        (step none none TradeEvent.triggered
          (step (some session_evidence) none TradeEvent.session_ready start refl) refl)
        refl)
      refl

pub intent_step : advance none none pre_check TradeEvent.intent_persisted ≡ ok submitted
unfolding advance transitions declared guarded next_facts assert_invariants
intent_step = refl

pub submitted-Reachable : Reachable submitted
submitted-Reachable = step none none TradeEvent.intent_persisted pre_check-Reachable intent_step

pub accepted-Reachable : Reachable accepted
unfolding advance transitions declared guarded next_facts assert_invariants
accepted-Reachable = step none none TradeEvent.submit_accepted submitted-Reachable refl

abbrev working : MachineSnapshot
working = record { state = TradeState.working; facts = doubted_facts }

abbrev doubt : List TradeEvent
doubt = TradeEvent.query_ambiguous ∷ TradeEvent.recovery_working ∷ []

-- an order in doubt that is found again
doubted-Run : Run accepted doubt working
unfolding advance transitions declared guarded next_facts assert_invariants
doubted-Run =
    more none none TradeEvent.query_ambiguous refl
      (more {s = unknown} none none TradeEvent.recovery_working refl stop)

second_intent_err : advance none none accepted TradeEvent.intent_persisted ≡ err invalid_transition
unfolding advance transitions declared
second_intent_err = refl

advance_only_invalid_example :
    (invalid_transition ≡ invalid_transition)
    × ((transitions TradeState.accepted TradeEvent.intent_persisted ≡ none)
        ⊎ (guarded TradeEvent.intent_persisted accepted_facts ≡ true))
advance_only_invalid_example =
    advance_only_invalid none none TradeEvent.intent_persisted invalid_transition accepted-Reachable
      tt second_intent_err

no_blind_resend_example : intent_waits doubt ≡ true
no_blind_resend_example = no_blind_resend accepted working doubt accepted-Reachable refl doubted-Run

execution_can_settle_example : Settled (run submitted (settling TradeState.submitted))
unfolding on_execution_path
execution_can_settle_example = execution_can_settle submitted submitted-Reachable refl
