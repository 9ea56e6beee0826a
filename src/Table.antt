-- ===== src/Table.antt =====
-- The transition table of src/qmt_execution_core/state_machine.py.
use qmt_execution_core.Common.{Bool, true, false, Option, none, some}
use qmt_execution_core.Domain.{TradeState, TradeEvent}

-- `TRANSITIONS`; `none` is a missing key
unfoldable pub transitions : TradeState → TradeEvent → Option TradeState
transitions TradeState.idle TradeEvent.session_ready = some TradeState.wait_trigger
transitions TradeState.idle TradeEvent.fatal = some TradeState.failed
transitions TradeState.wait_trigger TradeEvent.triggered = some TradeState.trigger
transitions TradeState.wait_trigger TradeEvent.fatal = some TradeState.failed
transitions TradeState.trigger TradeEvent.begin_precheck = some TradeState.pre_check
transitions TradeState.trigger TradeEvent.fatal = some TradeState.failed
transitions TradeState.pre_check TradeEvent.precheck_verified = some TradeState.pre_check
transitions TradeState.pre_check TradeEvent.precheck_rejected = some TradeState.rejected
transitions TradeState.pre_check TradeEvent.intent_persisted = some TradeState.submitted
transitions TradeState.pre_check TradeEvent.fatal = some TradeState.failed
transitions TradeState.submitted TradeEvent.pre_broker_rejected = some TradeState.rejected
transitions TradeState.submitted TradeEvent.pre_broker_aborted = some TradeState.failed
transitions TradeState.submitted TradeEvent.submit_accepted = some TradeState.accepted
transitions TradeState.submitted TradeEvent.submit_rejected = some TradeState.rejected
transitions TradeState.submitted TradeEvent.submit_ambiguous = some TradeState.unknown
transitions TradeState.submitted TradeEvent.restart_recovery = some TradeState.unknown
transitions TradeState.submitted TradeEvent.fatal = some TradeState.failed
transitions TradeState.accepted TradeEvent.order_working = some TradeState.working
transitions TradeState.accepted TradeEvent.order_partial = some TradeState.partially_filled
transitions TradeState.accepted TradeEvent.order_filled = some TradeState.filled
transitions TradeState.accepted TradeEvent.order_rejected = some TradeState.rejected
transitions TradeState.accepted TradeEvent.cancel_requested = some TradeState.pending_cancel
transitions TradeState.accepted TradeEvent.cancel_confirmed = some TradeState.cancelled
transitions TradeState.accepted TradeEvent.query_ambiguous = some TradeState.unknown
transitions TradeState.accepted TradeEvent.restart_recovery = some TradeState.unknown
transitions TradeState.accepted TradeEvent.fatal = some TradeState.failed
transitions TradeState.working TradeEvent.order_working = some TradeState.working
transitions TradeState.working TradeEvent.order_partial = some TradeState.partially_filled
transitions TradeState.working TradeEvent.order_filled = some TradeState.filled
transitions TradeState.working TradeEvent.order_rejected = some TradeState.rejected
transitions TradeState.working TradeEvent.cancel_requested = some TradeState.pending_cancel
transitions TradeState.working TradeEvent.cancel_confirmed = some TradeState.cancelled
transitions TradeState.working TradeEvent.query_ambiguous = some TradeState.unknown
transitions TradeState.working TradeEvent.restart_recovery = some TradeState.unknown
transitions TradeState.working TradeEvent.fatal = some TradeState.failed
transitions TradeState.partially_filled TradeEvent.order_partial = some TradeState.partially_filled
transitions TradeState.partially_filled TradeEvent.order_filled = some TradeState.filled
transitions TradeState.partially_filled TradeEvent.cancel_requested = some TradeState.pending_cancel
transitions TradeState.partially_filled TradeEvent.cancel_confirmed = some TradeState.cancelled
transitions TradeState.partially_filled TradeEvent.query_ambiguous = some TradeState.unknown
transitions TradeState.partially_filled TradeEvent.restart_recovery = some TradeState.unknown
transitions TradeState.partially_filled TradeEvent.fatal = some TradeState.failed
transitions TradeState.pending_cancel TradeEvent.cancel_sent = some TradeState.cancelling
transitions TradeState.pending_cancel TradeEvent.cancel_request_rejected =
    some TradeState.cancel_rejected
transitions TradeState.pending_cancel TradeEvent.order_working = some TradeState.working
transitions TradeState.pending_cancel TradeEvent.order_partial = some TradeState.partially_filled
transitions TradeState.pending_cancel TradeEvent.cancel_confirmed = some TradeState.cancelled
transitions TradeState.pending_cancel TradeEvent.order_filled = some TradeState.filled
transitions TradeState.pending_cancel TradeEvent.query_ambiguous = some TradeState.unknown
transitions TradeState.pending_cancel TradeEvent.restart_recovery = some TradeState.unknown
transitions TradeState.pending_cancel TradeEvent.fatal = some TradeState.failed
transitions TradeState.cancelling TradeEvent.cancel_still_pending = some TradeState.cancelling
transitions TradeState.cancelling TradeEvent.cancel_confirmed = some TradeState.cancelled
transitions TradeState.cancelling TradeEvent.order_working = some TradeState.working
transitions TradeState.cancelling TradeEvent.order_partial = some TradeState.partially_filled
transitions TradeState.cancelling TradeEvent.order_filled = some TradeState.filled
transitions TradeState.cancelling TradeEvent.query_ambiguous = some TradeState.unknown
transitions TradeState.cancelling TradeEvent.restart_recovery = some TradeState.unknown
transitions TradeState.cancelling TradeEvent.fatal = some TradeState.failed
transitions TradeState.cancel_rejected TradeEvent.recovery_working = some TradeState.working
transitions TradeState.cancel_rejected TradeEvent.recovery_partial =
    some TradeState.partially_filled
transitions TradeState.cancel_rejected TradeEvent.recovery_cancelling = some TradeState.cancelling
transitions TradeState.cancel_rejected TradeEvent.recovery_filled = some TradeState.filled
transitions TradeState.cancel_rejected TradeEvent.recovery_cancelled = some TradeState.cancelled
transitions TradeState.cancel_rejected TradeEvent.recovery_rejected = some TradeState.rejected
transitions TradeState.cancel_rejected TradeEvent.recovery_failed = some TradeState.failed
transitions TradeState.cancel_rejected TradeEvent.query_ambiguous = some TradeState.unknown
transitions TradeState.cancel_rejected TradeEvent.restart_recovery = some TradeState.unknown
transitions TradeState.unknown TradeEvent.recovery_accepted = some TradeState.accepted
transitions TradeState.unknown TradeEvent.recovery_working = some TradeState.working
transitions TradeState.unknown TradeEvent.recovery_partial = some TradeState.partially_filled
transitions TradeState.unknown TradeEvent.recovery_cancelling = some TradeState.cancelling
transitions TradeState.unknown TradeEvent.recovery_filled = some TradeState.filled
transitions TradeState.unknown TradeEvent.recovery_cancelled = some TradeState.cancelled
transitions TradeState.unknown TradeEvent.recovery_rejected = some TradeState.rejected
transitions TradeState.unknown TradeEvent.recovery_failed = some TradeState.failed
transitions TradeState.unknown TradeEvent.query_ambiguous = some TradeState.unknown
transitions TradeState.filled TradeEvent.next_cycle = some TradeState.wait_trigger
transitions TradeState.cancelled TradeEvent.next_cycle = some TradeState.wait_trigger
transitions TradeState.rejected TradeEvent.next_cycle = some TradeState.wait_trigger
transitions _ _ = none

-- `TERMINAL_STATES`
unfoldable pub is_terminal : TradeState → Bool
is_terminal TradeState.filled = true
is_terminal TradeState.cancelled = true
is_terminal TradeState.rejected = true
is_terminal TradeState.failed = true
is_terminal _ = false
