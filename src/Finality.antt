-- ===== src/Finality.antt =====
-- src/qmt_execution_core/finality.py: whether an execution may give up its shared symbol.
pub mod Release
pub mod Examples
use qmt_execution_core.Common.{Bool, true, false, if◌then◌else◌}
use qmt_execution_core.Domain.{TradeState}
use qmt_execution_core.Machine.{MachineSnapshot}

pub data ExecutionFinality : Type 0 where
  open_ resolved quarantined : ExecutionFinality

-- `_OPEN_STATES` and `_RESOLVED_STATES`
is_open_state : TradeState → Bool
is_open_state TradeState.submitted = true
is_open_state TradeState.accepted = true
is_open_state TradeState.working = true
is_open_state TradeState.unknown = true
is_open_state TradeState.partially_filled = true
is_open_state TradeState.pending_cancel = true
is_open_state TradeState.cancelling = true
is_open_state TradeState.cancel_rejected = true
is_open_state _ = false

is_resolved_state : TradeState → Bool
is_resolved_state TradeState.filled = true
is_resolved_state TradeState.cancelled = true
is_resolved_state TradeState.rejected = true
is_resolved_state _ = false

unfoldable pub is_failed : TradeState → Bool
is_failed TradeState.failed = true
is_failed _ = false

unfoldable pub execution_finality : MachineSnapshot → ExecutionFinality
unfolding is_failed is_open_state is_resolved_state
execution_finality s =
    if is_failed s.state
    then (if s.facts.unresolved_order then quarantined else resolved)
    else if is_open_state s.state
    then open_
    else if is_resolved_state s.state
    then resolved
    else resolved
