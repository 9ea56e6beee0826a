-- ===== src/Recovery/Observation.antt =====
-- The events of recovery.py fit the transition table.
use qmt_execution_core.Common.{Bool, true, false}
use qmt_execution_core.Domain.{TradeState}

-- `_OBSERVATION_ENTRY_STATES` of formal.py: the states in which the broker may hold an open order.
abbrev pub is_observation_entry : TradeState → Bool
is_observation_entry TradeState.accepted = true
is_observation_entry TradeState.working = true
is_observation_entry TradeState.partially_filled = true
is_observation_entry TradeState.pending_cancel = true
is_observation_entry TradeState.cancelling = true
is_observation_entry TradeState.cancel_rejected = true
is_observation_entry TradeState.unknown = true
is_observation_entry _ = false
