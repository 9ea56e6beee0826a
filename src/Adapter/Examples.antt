-- ===== src/Adapter/Examples.antt =====
-- Orders and payloads of concrete traders, src/qmt_execution_core/miniqmt/adapter.py.
use qmt_execution_core.Common.{ℕ, ◌≡◌, refl, inr, true, none, some, List, [], ◌∷◌, ℤ, pos}
use qmt_execution_core.Errors.{ok, err, value_error}
use qmt_execution_core.Domain.{buy, ExecutionRequest, BrokerOrder, BrokerOrderStatus}
use qmt_execution_core.Domain.Validation.{broker_order, positive, non_negative, optional_amount}
use qmt_execution_core.Status.{plain_int, normalize_qmt_order_status, order_status, status_map}
use qmt_execution_core.Query.{value}
use qmt_execution_core.Adapter.{
  Adapter, Trader, QmtOrderConfig, int, StockOrder, place_order, execution_healthy,
}
use qmt_execution_core.Adapter.Payloads.{
  RawOrder, to_broker_order, side_from_order_type, checked_status,
}
use qmt_execution_core.Adapter.Laws.{
  Meaning, IsShort, rejection_is_definite, IsConsistent, conversion-IsConsistent, overfilled_raises,
}

abbrev config : QmtOrderConfig
config = record { buy_order_type = pos 23; sell_order_type = pos 24; price_type = pos 11 }

-- the world is the orders that were sent
abbrev desk : Trader (List StockOrder)
desk = record {
  order_stock = λ order sent. (value (int (pos 7)), order ∷ sent);
  cancel_order_stock = λ id sent. (value (int (pos 0)), sent);
  health_probe = some (λ sent. (ok true, sent));
  order_gate = none;
}

abbrev adapter : Adapter (List StockOrder)
adapter = record {
  config = config;
  strategy_name = "core";
  query_attempts = 3;
  transport_connected = true;
  recovery_ready = true;
  world = [];
}

abbrev request : ExecutionRequest
request = record {
  client_order_id = "c1";
  symbol = "600000.SH";
  side = buy;
  qty = 100;
  limit_price = 10000000000;
  strategy_id = "s";
  order_remark = "r1";
}

rejection_is_definite_example :
    Meaning desk request (execution_healthy desk adapter).1 (place_order desk request adapter)
    × ((n : ℕ) → (place_order desk request adapter).0 ≡ ok n → IsShort desk request)
rejection_is_definite_example = rejection_is_definite desk request adapter

-- `filled` of 100 shares, with the code of an order that is filled
abbrev reported : ℤ → RawOrder
reported filled = record {
  order_id = some (pos 7);
  stock_code = some "600000.SH";
  order_type = some (pos 23);
  order_volume = some (pos 100);
  traded_volume = some filled;
  order_status = some (plain_int 56);
  order_remark = "r1";
  strategy_name = "core";
  traded_price = some none;
}

abbrev filled_order : BrokerOrder
filled_order = record {
  order_id = 7;
  symbol = "600000.SH";
  side = buy;
  qty = 100;
  filled_qty = 100;
  status = BrokerOrderStatus.filled;
  order_remark = "r1";
  client_order_id = "";
  strategy_name = "core";
  average_fill_price = none;
}

filled_converts : to_broker_order config (reported (pos 100)) ≡ ok filled_order
unfolding to_broker_order broker_order positive non_negative optional_amount side_from_order_type
    checked_status normalize_qmt_order_status order_status status_map
filled_converts = refl

conversion-IsConsistent_example : IsConsistent filled_order
conversion-IsConsistent_example =
    conversion-IsConsistent config (reported (pos 100)) filled_order filled_converts

buy_side : side_from_order_type config (pos 23) ≡ ok buy
unfolding side_from_order_type
buy_side = refl

overfilled_raises_example : to_broker_order config (reported (pos 101)) ≡ err value_error
overfilled_raises_example =
    overfilled_raises config (reported (pos 101)) (pos 7) (pos 100) (pos 101) (pos 23) "600000.SH"
      (plain_int 56) none buy refl refl refl buy_side refl refl refl refl (inr refl)
