-- ===== src/Session/Report.antt =====
-- What the methods of src/qmt_execution_core/session.py report, and the tests that they make.
use qmt_execution_core.Common.{
  ℕ, Bool, true, false, not, ◌&&◌, ◌||◌, String, str_eq, Option, none, some, ◌==◌, ltb,
  if◌then◌else◌,
}
use qmt_execution_core.Errors.{
  Error, Result, ok, err, recovery_ambiguous, broker_submission_rejected, broker_query_ambiguous,
  key_error, type_error, value_error,
}
use qmt_execution_core.Domain.{side_eq, BrokerOrder, TradeState, TradeEvent}
use qmt_execution_core.Table.{transitions}
use qmt_execution_core.Journal.{Data, Intent, Observation}

-- Why a method returned what it did: `str(exc)` is told by the exception.
pub data Reason : Type 0 where
  no_reason : Reason
  given : String → Reason
  raised : Error → Reason
  moved_backwards : Reason

pub record ExecutionSnapshot : Type 0 where
  pub state : TradeState
  pub client_order_id : Option String
  pub broker_order_id : Option ℕ
  pub ordered_qty : ℕ
  pub filled_qty : ℕ
  pub average_fill_price : Option ℕ
  pub reason : Reason

client_id : Option Intent → Option String
client_id none = none
client_id (some i) = some i.client_order_id

ordered : Option Intent → ℕ
ordered none = 0
ordered (some i) = i.qty

filled : Option Observation → ℕ
filled none = 0
filled (some o) = o.filled_qty

average : Option Observation → Option ℕ
average none = none
average (some o) = o.average_fill_price

unfoldable pub snapshot_of : TradeState → Data → Reason → ExecutionSnapshot
unfolding client_id ordered filled average
snapshot_of state d reason = record {
  state = state;
  client_order_id = client_id d.intent;
  broker_order_id = d.broker_order_id;
  ordered_qty = ordered d.intent;
  filled_qty = filled d.last_observation;
  average_fill_price = average d.last_observation;
  reason = reason;
}

-- the tests of `_validate_identity` against the durable intent
differs : Option ℕ → ℕ → Bool
differs none id = false
differs (some durable) id = not (id == durable)

other_text : String → String → Bool
other_text seen durable = not (str_eq seen "") && not (str_eq seen durable)

unfoldable pub validate_identity : BrokerOrder → Data → Result (Unit {0})
unfolding differs other_text
validate_identity o d = elim d.intent [
  | none ↦ err recovery_ambiguous
  | some i ↦
      if differs d.broker_order_id o.order_id
        || (not (str_eq o.symbol i.symbol)
            || (not (side_eq o.side i.side)
                || (not (o.qty == i.qty)
                    || (other_text o.order_remark i.order_remark
                        || other_text o.strategy_name i.strategy_id))))
      then err recovery_ambiguous
      else ok tt
]

unfoldable pub declares : TradeState → TradeEvent → Bool
declares s e = elim (transitions s e) [ none ↦ false | some t ↦ true ]

-- The sets of states that the methods test.
unfoldable pub can_poll : TradeState → Bool
can_poll TradeState.accepted = true
can_poll TradeState.working = true
can_poll TradeState.partially_filled = true
can_poll TradeState.pending_cancel = true
can_poll TradeState.cancelling = true
can_poll TradeState.cancel_rejected = true
can_poll _ = false

unfoldable pub can_cancel : TradeState → Bool
can_cancel TradeState.accepted = true
can_cancel TradeState.working = true
can_cancel TradeState.partially_filled = true
can_cancel _ = false

unfoldable pub is_unknown : TradeState → Bool
is_unknown TradeState.unknown = true
is_unknown _ = false

unfoldable pub is_waiting : TradeState → Bool
is_waiting TradeState.wait_trigger = true
is_waiting _ = false

-- the exceptions that `_recover_unknown` turns into `RECOVERY_FAILED`
unfoldable pub is_recovery_failure : Error → Bool
is_recovery_failure broker_query_ambiguous = true
is_recovery_failure recovery_ambiguous = true
is_recovery_failure key_error = true
is_recovery_failure type_error = true
is_recovery_failure value_error = true
is_recovery_failure _ = false

unfoldable pub is_rejection : Error → Bool
is_rejection broker_submission_rejected = true
is_rejection _ = false

unfoldable pub is_query_ambiguous : Error → Bool
is_query_ambiguous broker_query_ambiguous = true
is_query_ambiguous _ = false

-- the broker's filled quantity is below the one observed last
unfoldable pub backwards : Option Observation → ℕ → Bool
backwards none n = false
backwards (some o) n = ltb n o.filled_qty

abbrev pub any_error : Error → Bool
any_error e = true
