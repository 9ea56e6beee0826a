-- ===== src/Recovery.antt =====
-- src/qmt_execution_core/recovery.py: which broker order belongs to the durable intent, and which
-- event an observed order status stands for.
pub mod Identity
pub mod Examples
pub mod Observation
use qmt_execution_core.Common.{
  ℕ, Bool, true, false, ◌&&◌, ◌||◌, String, str_eq, ◌==◌, Option, none, some, List, [], ◌∷◌,
  matches, if◌then◌else◌,
}
use qmt_execution_core.Errors.{Result, ok, err, recovery_ambiguous}
use qmt_execution_core.Domain.{
  Side, side_eq, BrokerOrder, BrokerOrderStatus, TradeState, TradeEvent,
}

-- The test of the list comprehension.
unfoldable pub has_identity : String → Side → ℕ → String → BrokerOrder → Bool
has_identity symbol side qty order_remark o =
    str_eq o.order_remark order_remark
    && (str_eq o.symbol symbol && (side_eq o.side side && o.qty == qty))

unfoldable pub only_match : List BrokerOrder → Result BrokerOrder
only_match [] = err recovery_ambiguous
only_match (o ∷ []) = ok o
only_match (o ∷ p ∷ os) = err recovery_ambiguous

unfoldable pub find_unique_managed_order :
    List BrokerOrder → String → Side → ℕ → String → Result BrokerOrder
unfolding only_match
find_unique_managed_order orders symbol side qty order_remark =
    only_match (matches (has_identity symbol side qty order_remark) orders)

-- the dictionary of the recovering branch, and `UNKNOWN`, which returns above it
recovery_event : BrokerOrderStatus → TradeEvent
recovery_event BrokerOrderStatus.accepted = TradeEvent.recovery_accepted
recovery_event BrokerOrderStatus.working = TradeEvent.recovery_working
recovery_event BrokerOrderStatus.partially_filled = TradeEvent.recovery_partial
recovery_event BrokerOrderStatus.cancel_pending = TradeEvent.recovery_cancelling
recovery_event BrokerOrderStatus.partial_cancelled = TradeEvent.recovery_cancelled
recovery_event BrokerOrderStatus.cancelled = TradeEvent.recovery_cancelled
recovery_event BrokerOrderStatus.filled = TradeEvent.recovery_filled
recovery_event BrokerOrderStatus.rejected = TradeEvent.recovery_rejected
recovery_event BrokerOrderStatus.unknown = TradeEvent.query_ambiguous

-- the two larger sets of states that the branches test
may_work : TradeState → Bool
may_work TradeState.accepted = true
may_work TradeState.working = true
may_work TradeState.pending_cancel = true
may_work TradeState.cancelling = true
may_work _ = false

may_trade : TradeState → Bool
may_trade TradeState.accepted = true
may_trade TradeState.working = true
may_trade TradeState.partially_filled = true
may_trade TradeState.pending_cancel = true
may_trade TradeState.cancelling = true
may_trade _ = false

emit_if : Bool → TradeEvent → Result (Option TradeEvent)
emit_if true e = ok (some e)
emit_if false e = err recovery_ambiguous

cancel_pending_event : TradeState → Result (Option TradeEvent)
cancel_pending_event TradeState.pending_cancel = ok (some TradeEvent.cancel_sent)
cancel_pending_event TradeState.cancelling = ok (some TradeEvent.cancel_still_pending)
cancel_pending_event _ = err recovery_ambiguous

accepted_event : TradeState → Result (Option TradeEvent)
accepted_event TradeState.accepted = ok none
accepted_event _ = err recovery_ambiguous

rejected_event : TradeState → Result (Option TradeEvent)
rejected_event TradeState.accepted = ok (some TradeEvent.order_rejected)
rejected_event TradeState.working = ok (some TradeEvent.order_rejected)
rejected_event _ = err recovery_ambiguous

-- the branches for a state that is not recovering
active_event : TradeState → BrokerOrderStatus → Result (Option TradeEvent)
unfolding may_work may_trade emit_if cancel_pending_event accepted_event rejected_event
active_event s BrokerOrderStatus.accepted = accepted_event s
active_event s BrokerOrderStatus.working = emit_if (may_work s) TradeEvent.order_working
active_event s BrokerOrderStatus.partially_filled = emit_if (may_trade s) TradeEvent.order_partial
active_event s BrokerOrderStatus.cancel_pending = cancel_pending_event s
active_event s BrokerOrderStatus.partial_cancelled =
    emit_if (may_trade s) TradeEvent.cancel_confirmed
active_event s BrokerOrderStatus.cancelled = emit_if (may_trade s) TradeEvent.cancel_confirmed
active_event s BrokerOrderStatus.filled = emit_if (may_trade s) TradeEvent.order_filled
active_event s BrokerOrderStatus.rejected = rejected_event s
active_event s BrokerOrderStatus.unknown = ok (some TradeEvent.query_ambiguous)

-- `none` is the source's `None`: nothing new.
unfoldable pub event_for_observation : TradeState → BrokerOrderStatus → Result (Option TradeEvent)
unfolding recovery_event active_event
event_for_observation TradeState.unknown status = ok (some (recovery_event status))
event_for_observation TradeState.cancel_rejected BrokerOrderStatus.accepted =
    ok (some TradeEvent.query_ambiguous)
event_for_observation TradeState.cancel_rejected status = ok (some (recovery_event status))
event_for_observation current status = active_event current status
