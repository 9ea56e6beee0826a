-- ===== src/Session/Examples.antt =====
-- A session of src/qmt_execution_core/session.py against a concrete broker, guard and file.
use qmt_execution_core.Common.{true, none, List, [], ◌∷◌}
use qmt_execution_core.Errors.{ok}
use qmt_execution_core.Domain.{
  buy, ExecutionRequest, BrokerOrder, BrokerOrderStatus, CancelRequestResult, SessionEvidence,
  PrecheckEvidence,
}
use qmt_execution_core.Journal.{Stored, missing, stored}
use qmt_execution_core.Session.State.{Env, new_session}
use qmt_execution_core.Session.Calls.{Call, after_calls, intent_before_order}
use qmt_execution_core.Session.Durable.{Durable}

abbrev pub request : ExecutionRequest
request = record {
  client_order_id = "a1";
  symbol = "600000.SH";
  side = buy;
  qty = 100;
  limit_price = 7;
  strategy_id = "grid";
  order_remark = "a1";
}

abbrev reported : BrokerOrder
reported = record {
  order_id = 7;
  symbol = "600000.SH";
  side = buy;
  qty = 100;
  filled_qty = 40;
  status = BrokerOrderStatus.partially_filled;
  order_remark = "a1";
  client_order_id = "";
  strategy_name = "";
  average_fill_price = none;
}

abbrev ready : SessionEvidence
ready = record { ready = true; environment_verified = true; account_verified = true; reason = "" }

abbrev allowed : PrecheckEvidence
allowed = record {
  allowed = true;
  environment_verified = true;
  account_verified = true;
  broker_snapshot_verified = true;
  position_verified = true;
  cash_verified = true;
  quote_verified = true;
  reason = "";
}

-- The world is the journal file; the broker takes every order as number 7.
abbrev pub desk : Env
desk = record {
  World = Stored;
  build = ("spec", "source");
  read_journal = λ w. w;
  write_journal = λ p w. (ok tt, stored p);
  acquire_lock = λ w. (ok tt, w);
  release_lock = λ w. w;
  verify_session = λ w. (ok ready, w);
  verify = λ r w. (ok allowed, w);
  execution_healthy = λ w. (ok true, w);
  before_submit_coordination = λ r w. (ok tt, w);
  before_broker_submit = λ r w. (ok tt, w);
  before_broker_cancel = λ id w. (ok tt, w);
  place_order = λ r w. (ok 7, w);
  cancel_order = λ id w. (ok CancelRequestResult.accepted, w);
  query_order = λ id w. (ok reported, w);
  query_orders = λ w. (ok (reported ∷ []), w);
}

abbrev pub day : List Call
day = Call.open_call ∷ Call.submit_call request ∷ Call.cancel_call ∷ []

intent_before_order_example : Durable (after_calls desk day (new_session "main" missing)).trace
intent_before_order_example = intent_before_order desk day "main" missing
