-- ===== src/Runtime/Recovery.antt =====
-- src/qmt_execution_core/miniqmt/runtime.py: recovery after a disconnection, and the end.
use qmt_execution_core.Common.{
  Bool, true, false, not, String, str_eq, Option, none, some, if◌then◌else◌,
}
use qmt_execution_core.Errors.{ok, event_queue_unhealthy, recovery_ambiguous}
use qmt_execution_core.Domain.{TradeState, validate_session}
use qmt_execution_core.Exec.{Exec, pure, raise, lift, gets, modify, raise_if, attempt, ◌>>=◌, ◌>>◌}
use qmt_execution_core.Adapter.{
  mark_disconnected, mark_transport_connected, mark_recovery_required, mark_recovery_complete,
}
use qmt_execution_core.Session.Report.{ExecutionSnapshot, any_error}
use qmt_execution_core.Runtime.{
  Parts, Runtime, on_broker, on_world, revoke_gate, set_signals, require_not_closed,
  require_exact_zero, confirm_gate,
}

-- the states in which a reconciliation counts as failed
abbrev pub is_unsettled : TradeState → Bool
is_unsettled TradeState.unknown = true
is_unsettled TradeState.failed = true
is_unsettled _ = false

module _ {W : Type 0} (parts : Parts W) where
  open parts use {
    reconcile, close_session, verify_session, verify_bound_account_healthy, connect, subscribe,
    unsubscribe, queue_healthy, stop_queue_and_trader, sha256,
  }

  -- the transport, the account and its subscription
  unfoldable pub reconnect : Exec (Runtime W) (Unit {0})
  reconnect = do
    healthy ← gets (λ r. queue_healthy r.broker.world)
    raise_if (not healthy) event_queue_unhealthy
    connected ← on_world connect
    require_exact_zero connected
    set_signals true false
    on_broker mark_transport_connected
    on_world verify_bound_account_healthy
    subscribed ← on_world subscribe
    require_exact_zero subscribed
    set_signals true true

  -- the durable execution and the session's evidence
  unfoldable pub reverify : Exec (Runtime W) ExecutionSnapshot
  reverify = do
    out ← on_world reconcile
    raise_if (is_unsettled out.state) recovery_ambiguous
    evidence ← on_world verify_session
    lift (validate_session evidence)
    raise_if (not evidence.ready) recovery_ambiguous
    pure out

  unfoldable pub confirm_given : Option String → Exec (Runtime W) (Unit {0})
  confirm_given none = raise recovery_ambiguous
  confirm_given (some token) = confirm_gate parts token

  unfoldable pub confirm_if_live : (live : Bool) → Option String → Exec (Runtime W) (Unit {0})
  confirm_if_live false token = pure tt
  confirm_if_live true token = confirm_given token

  -- what comes after the flags are taken back
  unfoldable pub restore_all : Option String → Exec (Runtime W) ExecutionSnapshot
  restore_all token = do
    reconnect
    out ← reverify
    on_broker mark_recovery_complete
    live ← gets (λ r. str_eq r.gate.config.environment "live")
    confirm_if_live live token
    pure out

  unfoldable pub take_back : Exec (Runtime W) (Unit {0})
  take_back = do revoke_gate; on_broker mark_recovery_required; set_signals false false

  unfoldable pub recover_after_disconnect : Option String → Exec (Runtime W) ExecutionSnapshot
  recover_after_disconnect token = do require_not_closed; take_back; restore_all token

  -- the last block of `close`
  unfoldable pub finish_close : Exec (Runtime W) (Unit {0})
  finish_close = modify (λ r. record r {
    closed = true;
    broker = record r.broker { world = stop_queue_and_trader r.broker.world };
  })

  -- `close` of a runtime that is open: the `finally` blocks run whatever raises, and the last
  -- exception is the one that goes on
  unfoldable pub close_open : Exec (Runtime W) (Unit {0})
  close_open = do
    revoke_gate
    on_broker mark_disconnected
    session ← attempt any_error (on_world close_session)
    account ← attempt any_error (on_world unsubscribe)
    finish_close
    lift account
    lift session

  unfoldable pub close_runtime : Exec (Runtime W) (Unit {0})
  close_runtime r = if r.closed then (ok tt, r) else close_open r
