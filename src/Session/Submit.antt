-- ===== src/Session/Submit.antt =====
-- How `ExecutionSession` in src/qmt_execution_core/session.py sends an order and cancels it.
use qmt_execution_core.Common.{ℕ, zero, suc, not, Option, none, some, if◌then◌else◌}
use qmt_execution_core.Errors.{
  Result, ok, err, runtime_error, recovery_ambiguous, broker_submission_rejected, is_broker_error,
}
use qmt_execution_core.Domain.{
  ExecutionRequest, CancelRequestResult, PrecheckEvidence, TradeEvent, validate_precheck,
}
use qmt_execution_core.Exec.{Exec, raise, lift, attempt, raise_if, ◌>>=◌, ◌>>◌}
use qmt_execution_core.Journal.{Data, assert_identity_unused, with_intent, with_cancel_intent}
use qmt_execution_core.Session.State.{
  Env, sidecar, coordinated, placed, cancelled, State, external, log, get_data, require_open,
  write_data, transition_with, transition,
}
use qmt_execution_core.Session.Report.{
  ExecutionSnapshot, no_reason, given, raised, is_unknown, can_poll, can_cancel, is_waiting,
  is_rejection, any_error,
}
use qmt_execution_core.Session.Observe.{get_state, report, persist_broker_order_id, recover_unknown}

unfoldable pub cancel_answer : Result CancelRequestResult → TradeEvent
cancel_answer (err e) = TradeEvent.cancel_request_rejected
cancel_answer (ok CancelRequestResult.rejected) = TradeEvent.cancel_request_rejected
cancel_answer (ok CancelRequestResult.accepted) = TradeEvent.cancel_sent

-- `reconcile`, `cancel` and `submit` call `self.poll()`, which a subclass overrides.
module _ (env : Env) (self_poll : Exec (State env.World) ExecutionSnapshot) where
  open env use {
    World, verify, execution_healthy, before_submit_coordination, before_broker_submit,
    before_broker_cancel, place_order, cancel_order,
  }

  unfoldable pub reconcile : Exec (State World) ExecutionSnapshot
  reconcile = do
    require_open
    state ← get_state env
    (if is_unknown state
        then recover_unknown env
        else (if can_poll state then self_poll else report env no_reason))

  unfoldable pub cancel_known : Data → Option ℕ → Exec (State World) ExecutionSnapshot
  cancel_known d none = raise recovery_ambiguous
  cancel_known d (some zero) = raise recovery_ambiguous
  cancel_known d (some (suc n)) = do
    write_data env (with_cancel_intent d)
    transition env TradeEvent.cancel_requested
    external (before_broker_cancel (suc n))
    log (cancelled (suc n))
    answer ← attempt is_broker_error (external (cancel_order (suc n)))
    transition env (cancel_answer answer)
    self_poll

  unfoldable pub cancel : Exec (State World) ExecutionSnapshot
  cancel = do
    require_open
    state ← get_state env
    raise_if (not (can_cancel state)) runtime_error
    d ← get_data
    cancel_known d d.broker_order_id

  -- what follows `place_order`
  unfoldable pub after_place : Result ℕ → Exec (State World) ExecutionSnapshot
  after_place (ok id) = do
    persist_broker_order_id env id
    transition env TradeEvent.submit_accepted
    self_poll
  after_place (err e) = do
    transition env
        (if is_rejection e then TradeEvent.submit_rejected else TradeEvent.submit_ambiguous)
    report env (raised e)

  unfoldable pub place : ExecutionRequest → Exec (State World) ExecutionSnapshot
  place r = do
    log (placed r)
    answer ← attempt is_broker_error (external (place_order r))
    after_place answer

  unfoldable pub after_sidecar :
      ExecutionRequest → Result (Unit {0}) → Exec (State World) ExecutionSnapshot
  after_sidecar r (ok u) = place r
  after_sidecar r (err e) = do transition env TradeEvent.pre_broker_aborted; raise e

  unfoldable pub after_coordination :
      ExecutionRequest → Result (Unit {0}) → Exec (State World) ExecutionSnapshot
  after_coordination r (ok u) = do
    log (sidecar r)
    answer ← attempt any_error (external (before_broker_submit r))
    after_sidecar r answer
  after_coordination r (err e) =
      if is_rejection e
      then (do transition env TradeEvent.pre_broker_rejected; report env (raised e))
      else (do transition env TradeEvent.pre_broker_aborted; raise e)

  -- from a verified precheck on
  unfoldable pub send : ExecutionRequest → Exec (State World) ExecutionSnapshot
  send r = do
    d ← get_data
    next ← lift (with_intent r d)
    write_data env next
    transition env TradeEvent.intent_persisted
    log (coordinated r)
    answer ← attempt any_error (external (before_submit_coordination r))
    after_coordination r answer

  unfoldable pub prechecked :
      ExecutionRequest → PrecheckEvidence → Exec (State World) ExecutionSnapshot
  prechecked r evidence =
      if evidence.allowed
      then (do transition_with env none (some evidence) TradeEvent.precheck_verified; send r)
      else (do transition env TradeEvent.precheck_rejected; report env (given evidence.reason))

  unfoldable pub submit : ExecutionRequest → Exec (State World) ExecutionSnapshot
  submit r = do
    require_open
    state ← get_state env
    raise_if (not (is_waiting state)) runtime_error
    healthy ← external execution_healthy
    raise_if (not healthy) broker_submission_rejected
    d ← get_data
    lift (assert_identity_unused r d)
    transition env TradeEvent.triggered
    transition env TradeEvent.begin_precheck
    evidence ← external (verify r)
    lift (validate_precheck evidence)
    prechecked r evidence
