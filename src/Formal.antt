-- ===== src/Formal.antt =====
-- src/qmt_execution_core/formal.py: three executions on shared accounts, explored from the code's
-- own machine. The ids of `_LocalGraph` intern snapshots: here a snapshot stands for its id.
pub mod Shared
pub mod Moves
pub mod Checks
pub mod Explore
pub mod Facts
pub mod Submitted
pub mod Global
pub mod Steps
pub mod Progress
pub mod Deadlock
pub mod Assertions
pub mod Verified
pub mod Terminates
pub mod Codes
pub mod Recorded
pub mod Complete
pub mod Runs
pub mod Deployments
pub mod Passes
pub mod Search
pub mod Scenarios
pub mod Examples
use qmt_execution_core.Common.{
  ℕ, Bool, true, false, String, Option, none, some, List, [], ◌∷◌, if◌then◌else◌,
}
use qmt_execution_core.Errors.{Result, err, ok}
use qmt_execution_core.Domain.{Side, TradeState, TradeEvent, SessionEvidence, PrecheckEvidence}
use qmt_execution_core.Domain.Events.{event_eq}
use qmt_execution_core.Machine.{MachineSnapshot, advance}

abbrev pub canonical_session_evidence : SessionEvidence
canonical_session_evidence = record {
  ready = true;
  environment_verified = true;
  account_verified = true;
  reason = "";
}

abbrev pub canonical_precheck_evidence : PrecheckEvidence
canonical_precheck_evidence = record {
  allowed = true;
  environment_verified = true;
  account_verified = true;
  broker_snapshot_verified = true;
  position_verified = true;
  cash_verified = true;
  quote_verified = true;
  reason = "";
}

-- `kwargs` of `_step`
abbrev pub session_kwarg : TradeEvent → Option SessionEvidence
session_kwarg TradeEvent.session_ready = some canonical_session_evidence
session_kwarg _ = none

abbrev pub precheck_kwarg : TradeEvent → Option PrecheckEvidence
precheck_kwarg TradeEvent.precheck_verified = some canonical_precheck_evidence
precheck_kwarg _ = none

abbrev pub step_ : MachineSnapshot → TradeEvent → Result MachineSnapshot
step_ s e = advance (session_kwarg e) (precheck_kwarg e) s e

-- The keys of `TRANSITIONS[state]`, in the order of the source.
unfoldable pub declared_events : TradeState → List TradeEvent
declared_events TradeState.idle = TradeEvent.session_ready ∷ TradeEvent.fatal ∷ []
declared_events TradeState.wait_trigger = TradeEvent.triggered ∷ TradeEvent.fatal ∷ []
declared_events TradeState.trigger = TradeEvent.begin_precheck ∷ TradeEvent.fatal ∷ []
declared_events TradeState.pre_check =
    TradeEvent.precheck_verified ∷ TradeEvent.precheck_rejected ∷ TradeEvent.intent_persisted
    ∷ TradeEvent.fatal ∷ []
declared_events TradeState.submitted =
    TradeEvent.pre_broker_rejected ∷ TradeEvent.pre_broker_aborted ∷ TradeEvent.submit_accepted
    ∷ TradeEvent.submit_rejected ∷ TradeEvent.submit_ambiguous ∷ TradeEvent.restart_recovery
    ∷ TradeEvent.fatal ∷ []
declared_events TradeState.accepted =
    TradeEvent.order_working ∷ TradeEvent.order_partial ∷ TradeEvent.order_filled
    ∷ TradeEvent.order_rejected ∷ TradeEvent.cancel_requested ∷ TradeEvent.cancel_confirmed
    ∷ TradeEvent.query_ambiguous ∷ TradeEvent.restart_recovery ∷ TradeEvent.fatal ∷ []
declared_events TradeState.working =
    TradeEvent.order_working ∷ TradeEvent.order_partial ∷ TradeEvent.order_filled
    ∷ TradeEvent.order_rejected ∷ TradeEvent.cancel_requested ∷ TradeEvent.cancel_confirmed
    ∷ TradeEvent.query_ambiguous ∷ TradeEvent.restart_recovery ∷ TradeEvent.fatal ∷ []
declared_events TradeState.partially_filled =
    TradeEvent.order_partial ∷ TradeEvent.order_filled ∷ TradeEvent.cancel_requested
    ∷ TradeEvent.cancel_confirmed ∷ TradeEvent.query_ambiguous ∷ TradeEvent.restart_recovery
    ∷ TradeEvent.fatal ∷ []
declared_events TradeState.pending_cancel =
    TradeEvent.cancel_sent ∷ TradeEvent.cancel_request_rejected ∷ TradeEvent.order_working
    ∷ TradeEvent.order_partial ∷ TradeEvent.cancel_confirmed ∷ TradeEvent.order_filled
    ∷ TradeEvent.query_ambiguous ∷ TradeEvent.restart_recovery ∷ TradeEvent.fatal ∷ []
declared_events TradeState.cancelling =
    TradeEvent.cancel_still_pending ∷ TradeEvent.cancel_confirmed ∷ TradeEvent.order_working
    ∷ TradeEvent.order_partial ∷ TradeEvent.order_filled ∷ TradeEvent.query_ambiguous
    ∷ TradeEvent.restart_recovery ∷ TradeEvent.fatal ∷ []
declared_events TradeState.cancel_rejected =
    TradeEvent.recovery_working ∷ TradeEvent.recovery_partial ∷ TradeEvent.recovery_cancelling
    ∷ TradeEvent.recovery_filled ∷ TradeEvent.recovery_cancelled ∷ TradeEvent.recovery_rejected
    ∷ TradeEvent.recovery_failed ∷ TradeEvent.query_ambiguous ∷ TradeEvent.restart_recovery ∷ []
declared_events TradeState.unknown =
    TradeEvent.recovery_accepted ∷ TradeEvent.recovery_working ∷ TradeEvent.recovery_partial
    ∷ TradeEvent.recovery_cancelling ∷ TradeEvent.recovery_filled ∷ TradeEvent.recovery_cancelled
    ∷ TradeEvent.recovery_rejected ∷ TradeEvent.recovery_failed ∷ TradeEvent.query_ambiguous ∷ []
declared_events TradeState.filled = TradeEvent.next_cycle ∷ []
declared_events TradeState.cancelled = TradeEvent.next_cycle ∷ []
declared_events TradeState.rejected = TradeEvent.next_cycle ∷ []
declared_events TradeState.failed = []

abbrev pub Edge : Type 0
Edge = TradeEvent × MachineSnapshot

-- `try: successor = _step(...) except (InvalidTransition, InvariantViolation): continue`. From the
-- snapshots of the graph `_step` raises nothing else.
abbrev pub taken : TradeEvent → Result MachineSnapshot → List Edge → List Edge
taken e (err x) rest = rest
taken e (ok successor) rest = (e, successor) ∷ rest

abbrev pub edges_along : MachineSnapshot → List TradeEvent → List Edge
edges_along s [] = []
edges_along s (e ∷ events) = taken e (step_ s e) (edges_along s events)

-- `graph.edges[sid]`
abbrev pub edges : MachineSnapshot → List Edge
edges s = edges_along s (declared_events s.state)

abbrev pub lookup_edge : TradeEvent → List Edge → Option MachineSnapshot
lookup_edge e [] = none
lookup_edge e ((f, target) ∷ rest) = if event_eq f e then some target else lookup_edge e rest

-- `graph.by_event.get((sid, event))`
abbrev pub by_event : MachineSnapshot → TradeEvent → Option MachineSnapshot
by_event s e = lookup_edge e (edges s)
