-- ===== src/Runtime.antt =====
-- src/qmt_execution_core/miniqmt/runtime.py: the runtime after it has connected. Its session, its
-- trader, its guard and the checks of the bound account act on one world and are parameters; so is
-- the project's observation handler. `config.environment` is the gate's.
pub mod Recovery
pub mod Blocked
pub mod Config
pub mod Connect
pub mod Acquire
pub mod Held
pub mod Examples
use qmt_execution_core.Common.{
  ℕ, Bool, true, false, not, ◌&&◌, ◌||◌, String, str_eq, Option, none, some, ℤ, int_eq, pos,
  if◌then◌else◌,
}
use qmt_execution_core.Errors.{
  Error, Result, ok, err, event_queue_unhealthy, runtime_configuration_error, recovery_ambiguous,
  runtime_error,
}
use qmt_execution_core.Domain.{ExecutionRequest, TradeState, SessionEvidence, validate_session}
use qmt_execution_core.Exec.{Exec, pure, raise, lift, gets, modify, raise_if, ◌>>=◌, ◌>>◌}
use qmt_execution_core.Adapter.{
  Adapter, RawInt, int, other, mark_disconnected, mark_transport_connected, mark_recovery_required,
  mark_recovery_complete,
}
use qmt_execution_core.Gate.{RuntimeExecutionGate, execution_allowed, revoke, confirm}
use qmt_execution_core.Session.Report.{ExecutionSnapshot}
use qmt_execution_core.Callbacks.{
  BrokerObservation, broker_disconnected, account_status_observed, callback_malformed,
}

-- What the runtime calls.
pub record Parts (W : Type 0) : Type 0 where
  pub open_session : Exec W ExecutionSnapshot
  pub submit_order : ExecutionRequest → Exec W ExecutionSnapshot
  pub poll_order : Exec W ExecutionSnapshot
  pub cancel_order : Exec W ExecutionSnapshot
  pub start_cycle : Exec W ExecutionSnapshot
  pub reconcile : Exec W ExecutionSnapshot
  pub close_session : Exec W (Unit {0})
  pub verify_session : Exec W SessionEvidence
  pub verify_bound_account_healthy : Exec W (Unit {0})
  pub connect : Exec W RawInt
  pub subscribe : Exec W RawInt
  pub unsubscribe : Exec W (Unit {0})
  pub queue_healthy : W → Bool
  pub stop_queue_and_trader : W → W
  pub observation_handler : BrokerObservation → Exec W (Unit {0})
  pub sha256 : String → String

-- The object of `MiniQmtRuntime` with `_RuntimeSignals`; the world is the broker's.
pub record Runtime (W : Type 0) : Type 0 where
  pub strategy_name : String
  pub bound_account_id : String
  pub security_account_type : ℤ
  pub account_status_ok : ℤ
  pub broker : Adapter W
  pub transport_connected : Bool
  pub account_healthy : Bool
  pub gate : RuntimeExecutionGate
  pub closed : Bool

module _ {W : Type 0} where
  -- a method of the broker
  unfoldable pub on_broker : {A : Type 0} → Exec (Adapter W) A → Exec (Runtime W) A
  on_broker m r = let (answer, broker) = m r.broker in (answer, record r { broker = broker })

  -- a call of one of the parts
  unfoldable pub on_world : {A : Type 0} → Exec W A → Exec (Runtime W) A
  on_world m r =
      let (answer, world) = m r.broker.world in
      (answer, record r { broker = record r.broker { world = world } })

  unfoldable pub revoke_gate : Exec (Runtime W) (Unit {0})
  revoke_gate = modify (λ r. record r { gate = revoke r.gate })

  unfoldable pub set_signals : (transport account : Bool) → Exec (Runtime W) (Unit {0})
  set_signals transport account =
      modify (λ r. record r { transport_connected = transport; account_healthy = account })

  unfoldable pub require_not_closed : Exec (Runtime W) (Unit {0})
  require_not_closed r = raise_if r.closed runtime_error r

  -- `_require_exact_zero`
  unfoldable pub require_exact_zero : RawInt → Exec (Runtime W) (Unit {0})
  require_exact_zero other = raise runtime_configuration_error
  require_exact_zero (int n) = raise_if (not (int_eq n (pos 0))) runtime_configuration_error

  abbrev pub set_gate : Result RuntimeExecutionGate → Exec (Runtime W) (Unit {0})
  set_gate (err e) r = (err e, r)
  set_gate (ok gate) r = (ok tt, record r { gate = gate })

  module _ (parts : Parts W) where
    open parts use {
      open_session, submit_order, poll_order, cancel_order, start_cycle, reconcile, close_session,
      verify_session, verify_bound_account_healthy, connect, subscribe, unsubscribe, queue_healthy,
      stop_queue_and_trader, observation_handler, sha256,
    }

    -- the event names the bound account with another type or status
    abbrev pub is_bad_status : Runtime W → String → ℤ → ℤ → Bool
    is_bad_status r id kind status =
        str_eq id r.bound_account_id
        && (not (int_eq kind r.security_account_type) || not (int_eq status r.account_status_ok))

    unfoldable pub note_status : String → ℤ → ℤ → Exec (Runtime W) (Unit {0})
    note_status id kind status r =
        if is_bad_status r id kind status
        then on_broker mark_recovery_required
            (record r { account_healthy = false; gate = revoke r.gate })
        else (ok tt, r)

    -- `handle_callback` of a connected runtime, before the observation handler
    unfoldable pub note : BrokerObservation → Exec (Runtime W) (Unit {0})
    note (callback_malformed name) = raise event_queue_unhealthy
    note broker_disconnected = do set_signals false false; revoke_gate; on_broker mark_disconnected
    note (account_status_observed id kind status) = note_status id kind status
    note _ = pure tt

    unfoldable pub handle_callback : BrokerObservation → Exec (Runtime W) (Unit {0})
    handle_callback event = do note event; on_world (observation_handler event)

    unfoldable pub open_runtime : Exec (Runtime W) ExecutionSnapshot
    open_runtime = do
      require_not_closed
      on_world verify_bound_account_healthy
      out ← on_world open_session
      set_signals true true
      on_broker mark_transport_connected
      on_broker mark_recovery_complete
      pure out

    unfoldable pub confirm_gate : String → Exec (Runtime W) (Unit {0})
    confirm_gate token r = set_gate (confirm sha256 token r.gate) r

    unfoldable pub confirm_live : String → Exec (Runtime W) (Unit {0})
    confirm_live token = do require_not_closed; confirm_gate token

    unfoldable pub submit_request : ExecutionRequest → Exec (Runtime W) ExecutionSnapshot
    submit_request request = do
      require_not_closed
      name ← gets (λ r. r.strategy_name)
      raise_if (not (str_eq request.strategy_id name)) runtime_configuration_error
      on_world (submit_order request)

    unfoldable pub poll_session : Exec (Runtime W) ExecutionSnapshot
    poll_session = do require_not_closed; on_world poll_order

    unfoldable pub cancel_session : Exec (Runtime W) ExecutionSnapshot
    cancel_session = do require_not_closed; on_world cancel_order

    unfoldable pub start_next_cycle : Exec (Runtime W) ExecutionSnapshot
    start_next_cycle = do require_not_closed; on_world start_cycle
