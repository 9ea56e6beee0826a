-- ===== src/Domain/Validation.antt =====
-- The `__post_init__` methods of src/qmt_execution_core/domain.py, on numbers as they come from
-- outside. Type tests hold by the types; a float is whole units of 10⁻⁹, or not finite.
use qmt_execution_core.Common.{
  ℕ, ◌||◌, String, Option, none, some, ltb, ◌==◌, ℤ, pos, negsuc, is_empty, if◌then◌else◌,
}
use qmt_execution_core.Errors.{Result, ok, err, ◌>>=◌, ◌>>◌, raise_if, value_error}
use qmt_execution_core.Domain.{Side, BrokerOrder, BrokerOrderStatus, ExecutionRequest}

pub data Float : Type 0 where
  finite : ℤ → Float
  infinite : Float

-- `value <= 0` raises
unfoldable pub positive : ℤ → Result ℕ
positive (pos n) = if n == 0 then err value_error else ok n
positive (negsuc n) = err value_error

-- `value < 0` raises
unfoldable pub non_negative : ℤ → Result ℕ
non_negative (pos n) = ok n
non_negative (negsuc n) = err value_error

-- `isfinite(value)` and not `value < 0`
unfoldable pub amount_of : Float → Result ℕ
amount_of infinite = err value_error
amount_of (finite x) = non_negative x

unfoldable pub optional_amount : Option Float → Result (Option ℕ)
optional_amount none = ok none
optional_amount (some x) = do a ← amount_of x; ok (some a)

unfoldable pub broker_order :
    (order_id : ℤ) (symbol : String) (side : Side) (qty filled_qty : ℤ) (status : BrokerOrderStatus)
    (order_remark client_order_id strategy_name : String) (average_fill_price : Option Float)
    → Result BrokerOrder
broker_order order_id symbol side qty filled status remark client strategy price = do
  id ← positive order_id
  raise_if (is_empty symbol) value_error
  q ← positive qty
  f ← non_negative filled
  raise_if (ltb q f) value_error
  p ← optional_amount price
  ok (record {
    order_id = id;
    symbol = symbol;
    side = side;
    qty = q;
    filled_qty = f;
    status = status;
    order_remark = remark;
    client_order_id = client;
    strategy_name = strategy;
    average_fill_price = p;
  })

-- A price is compared with zero: `limit_price <= 0` raises.
unfoldable pub price_of : Float → Result ℕ
price_of infinite = err value_error
price_of (finite x) = positive x

unfoldable pub execution_request :
    (client_order_id symbol : String) (side : Side) (qty : ℤ) (limit_price : Float)
    (strategy_id order_remark : String)
    → Result ExecutionRequest
execution_request client symbol side qty price strategy remark = do
  raise_if (is_empty client || (is_empty symbol || (is_empty strategy || is_empty remark)))
      value_error
  q ← positive qty
  p ← price_of price
  ok (record {
    client_order_id = client;
    symbol = symbol;
    side = side;
    qty = q;
    limit_price = p;
    strategy_id = strategy;
    order_remark = remark;
  })

pub record BrokerAsset : Type 0 where
  pub cash : ℕ
  pub frozen_cash : ℕ
  pub market_value : ℕ
  pub total_asset : ℕ

unfoldable pub broker_asset :
    (cash frozen_cash market_value total_asset : Float) → Result BrokerAsset
broker_asset cash frozen market total = do
  c ← amount_of cash
  f ← amount_of frozen
  m ← amount_of market
  t ← amount_of total
  ok (record { cash = c; frozen_cash = f; market_value = m; total_asset = t })

pub record BrokerPosition : Type 0 where
  pub symbol : String
  pub volume : ℕ
  pub can_use_volume : ℕ
  pub frozen_volume : ℕ
  pub market_value : ℕ
  pub average_price : ℕ

unfoldable pub broker_position :
    (symbol : String) (volume can_use_volume frozen_volume : ℤ) (market_value average_price : Float)
    → Result BrokerPosition
broker_position symbol volume can_use frozen market average = do
  raise_if (is_empty symbol) value_error
  v ← non_negative volume
  u ← non_negative can_use
  f ← non_negative frozen
  raise_if (ltb v u) value_error
  m ← amount_of market
  a ← amount_of average
  ok (record {
    symbol = symbol;
    volume = v;
    can_use_volume = u;
    frozen_volume = f;
    market_value = m;
    average_price = a;
  })

pub record BrokerTrade : Type 0 where
  pub order_id : ℕ
  pub symbol : String
  pub side : Side
  pub traded_volume : ℕ
  pub traded_price : ℕ
  pub traded_amount : ℕ
  pub traded_id : String
  pub strategy_name : String
  pub order_remark : String

unfoldable pub broker_trade :
    (order_id : ℤ) (symbol : String) (side : Side) (traded_volume : ℤ)
    (traded_price traded_amount : Float) (traded_id strategy_name order_remark : String)
    → Result BrokerTrade
broker_trade order_id symbol side volume price amount id strategy remark = do
  i ← positive order_id
  raise_if (is_empty symbol) value_error
  v ← positive volume
  p ← amount_of price
  a ← amount_of amount
  ok (record {
    order_id = i;
    symbol = symbol;
    side = side;
    traded_volume = v;
    traded_price = p;
    traded_amount = a;
    traded_id = id;
    strategy_name = strategy;
    order_remark = remark;
  })
