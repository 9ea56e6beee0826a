-- ===== src/Session/Observe.antt =====
-- How `ExecutionSession` in src/qmt_execution_core/session.py learns what the broker did: recovery,
-- polling, and the application of an observed order.
use qmt_execution_core.Common.{ℕ, zero, suc, ◌||◌, Option, none, some, if◌then◌else◌}
use qmt_execution_core.Errors.{Result, ok, err, recovery_ambiguous, journal_integrity_error}
use qmt_execution_core.Domain.{BrokerOrder, TradeState, TradeEvent}
use qmt_execution_core.Recovery.{event_for_observation, find_unique_managed_order}
use qmt_execution_core.Exec.{Exec, pure, raise, lift, gets, attempt, ◌>>=◌, ◌>>◌}
use qmt_execution_core.Journal.{
  Payload, Data, Intent, no_data, with_broker_order_id, with_observation,
}
use qmt_execution_core.Session.State.{
  Env, State, external, get_data, require_open, write_data, transition,
}
use qmt_execution_core.Session.Report.{
  ExecutionSnapshot, Reason, no_reason, raised, moved_backwards, snapshot_of, validate_identity,
  declares, is_unknown, is_recovery_failure, is_query_ambiguous, backwards,
}

unfoldable pub data_or_empty : Option Payload → Data
data_or_empty none = no_data
data_or_empty (some p) = p.fields

module _ (env : Env) where
  open env use {World, query_order, query_orders}

  unfoldable pub get_state : Exec (State World) TradeState
  get_state = gets (λ s. s.snapshot.state)

  -- `snapshot`
  unfoldable pub report : Reason → Exec (State World) ExecutionSnapshot
  report reason s = (ok (snapshot_of s.snapshot.state (data_or_empty s.payload) reason), s)

  unfoldable pub persist_broker_order_id : ℕ → Exec (State World) Unit
  persist_broker_order_id id = do
    d ← get_data
    next ← lift (with_broker_order_id id d)
    write_data env next

  -- `_to_unknown`
  unfoldable pub to_unknown : Exec (State World) Unit
  to_unknown = do
    state ← get_state
    let doubt = is_unknown state || declares state TradeEvent.query_ambiguous
    transition env (if doubt then TradeEvent.query_ambiguous else TradeEvent.fatal)

  -- the end of `_apply_observation`
  unfoldable pub follow : Result (Option TradeEvent) → Exec (State World) ExecutionSnapshot
  follow (err e) = do to_unknown; report (raised e)
  follow (ok none) = report no_reason
  follow (ok (some event)) = do transition env event; report no_reason

  unfoldable pub apply_observation : BrokerOrder → Exec (State World) ExecutionSnapshot
  apply_observation o = do
    d ← get_data
    lift (validate_identity o d)
    if backwards d.last_observation o.filled_qty then fall_back else do
      write_data env (
          with_observation
            (record {
              status = o.status;
              filled_qty = o.filled_qty;
              average_fill_price = o.average_fill_price;
            })
            d)
      state ← get_state
      follow (event_for_observation state o.status)
    where
      fall_back : Exec (State World) ExecutionSnapshot
      fall_back = do transition env TradeEvent.fatal; report moved_backwards

  -- the order that the durable intent identifies
  unfoldable pub search_order : Option Intent → Exec (State World) BrokerOrder
  search_order none = raise recovery_ambiguous
  search_order (some i) = do
    orders ← external query_orders
    o ← lift (find_unique_managed_order orders i.symbol i.side i.qty i.order_remark)
    persist_broker_order_id o.order_id
    pure o

  -- the `try` block of `_recover_unknown`
  unfoldable pub locate : Option ℕ → Option Intent → Exec (State World) BrokerOrder
  locate (some (suc n)) intent = external (query_order (suc n))
  locate _ intent = search_order intent

  unfoldable pub recovered : Result BrokerOrder → Exec (State World) ExecutionSnapshot
  recovered (ok o) = apply_observation o
  recovered (err e) = do transition env TradeEvent.recovery_failed; report (raised e)

  unfoldable pub recover_unknown : Exec (State World) ExecutionSnapshot
  recover_unknown = do
    d ← get_data
    found ← attempt is_recovery_failure (locate d.broker_order_id d.intent)
    recovered found

  unfoldable pub polled : Result BrokerOrder → Exec (State World) ExecutionSnapshot
  polled (ok o) = apply_observation o
  polled (err e) = do to_unknown; report (raised e)

  unfoldable pub poll_order : Option ℕ → Exec (State World) ExecutionSnapshot
  poll_order none = do
    state ← get_state
    if is_unknown state then recover_unknown else raise recovery_ambiguous
  poll_order (some zero) = raise journal_integrity_error
  poll_order (some (suc n)) = do
    answer ← attempt is_query_ambiguous (external (query_order (suc n)))
    polled answer

  unfoldable pub poll : Exec (State World) ExecutionSnapshot
  poll = do require_open; d ← get_data; poll_order d.broker_order_id
