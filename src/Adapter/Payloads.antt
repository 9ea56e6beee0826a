-- ===== src/Adapter/Payloads.antt =====
-- src/qmt_execution_core/miniqmt/adapter.py: what the SDK's objects become. A field that is `none`
-- is an attribute that is missing or whose conversion raises TypeError or ValueError.
use qmt_execution_core.Common.{
  Bool, true, false, not, ◌&&◌, String, Option, none, some, List, [], ◌∷◌, ℤ, pos, int_eq, lt_int,
  le_int, ◌==◌, if◌then◌else◌,
}
use qmt_execution_core.Errors.{
  Result, ok, err, ◌>>=◌, broker_query_ambiguous, value_error, type_error,
}
use qmt_execution_core.Domain.{Side, buy, sell, BrokerOrder, BrokerOrderStatus}
use qmt_execution_core.Domain.Validation.{
  Float, broker_order, BrokerAsset, broker_asset, BrokerPosition, broker_position, BrokerTrade,
  broker_trade,
}
use qmt_execution_core.Status.{RawStatus, plain_int, normalize_qmt_order_status}
use qmt_execution_core.Adapter.{QmtOrderConfig}

pub record RawOrder : Type 0 where
  pub order_id : Option ℤ
  pub stock_code : Option String
  pub order_type : Option ℤ
  pub order_volume : Option ℤ
  pub traded_volume : Option ℤ
  pub order_status : Option RawStatus
  pub order_remark : String
  pub strategy_name : String
  pub traded_price : Option (Option Float)

-- `int(getattr(...))` in a `try` whose `except` raises the ambiguity
abbrev pub attribute {ℓ} : {A : Type ℓ} → Option A → Result A
attribute none = err broker_query_ambiguous
attribute (some a) = ok a

unfoldable pub side_from_order_type : QmtOrderConfig → ℤ → Result Side
side_from_order_type config raw =
    if int_eq raw config.buy_order_type
    then ok buy
    else if int_eq raw config.sell_order_type
    then ok sell
    else err broker_query_ambiguous

-- `0 < filled_qty < qty`
abbrev pub is_partial : ℤ → ℤ → Bool
is_partial filled qty = lt_int (pos 0) filled && lt_int filled qty

abbrev pub needs_partial : BrokerOrderStatus → Bool
needs_partial BrokerOrderStatus.partially_filled = true
needs_partial BrokerOrderStatus.partial_cancelled = true
needs_partial _ = false

abbrev pub is_cancel_pending : BrokerOrderStatus → Bool
is_cancel_pending BrokerOrderStatus.cancel_pending = true
is_cancel_pending _ = false

abbrev pub is_filled : BrokerOrderStatus → Bool
is_filled BrokerOrderStatus.filled = true
is_filled _ = false

abbrev pub needs_range : BrokerOrderStatus → Bool
needs_range BrokerOrderStatus.accepted = true
needs_range BrokerOrderStatus.working = true
needs_range BrokerOrderStatus.cancelled = true
needs_range BrokerOrderStatus.rejected = true
needs_range _ = false

-- `_plain_int(raw_status) == 52`
abbrev pub is_partsucc_cancel : RawStatus → Bool
is_partsucc_cancel (plain_int n) = n == 52
is_partsucc_cancel _ = false

abbrev pub doubt_if : Bool → BrokerOrderStatus → BrokerOrderStatus
doubt_if test status = if test then BrokerOrderStatus.unknown else status

-- The four tests that turn an inconsistent status into UNKNOWN, in their order.
unfoldable pub checked_status : RawStatus → (filled_qty qty : ℤ) → BrokerOrderStatus
checked_status raw filled qty =
    let first = normalize_qmt_order_status raw in
    let second = doubt_if (needs_partial first && not (is_partial filled qty)) first in
    let third =
      doubt_if (is_cancel_pending second && (is_partsucc_cancel raw && not (is_partial filled qty)))
        second in
    let fourth = doubt_if (is_filled third && not (int_eq filled qty)) third in
    doubt_if (needs_range fourth && not (le_int (pos 0) filled && le_int filled qty)) fourth

unfoldable pub to_broker_order : QmtOrderConfig → RawOrder → Result BrokerOrder
to_broker_order config raw = do
  order_id ← attribute raw.order_id
  symbol ← attribute raw.stock_code
  raw_order_type ← attribute raw.order_type
  qty ← attribute raw.order_volume
  filled_qty ← attribute raw.traded_volume
  raw_status ← attribute raw.order_status
  average_fill_price ← attribute raw.traded_price
  side ← side_from_order_type config raw_order_type
  broker_order order_id symbol side qty filled_qty (checked_status raw_status filled_qty qty)
      raw.order_remark "" raw.strategy_name average_fill_price

-- `tuple(convert(item) for item in raw)`
unfoldable pub convert_all {ℓ κ} :
    {A : Type ℓ} {B : Type κ} → (A → Result B) → List A → Result (List B)
convert_all convert [] = ok []
convert_all convert (raw ∷ rest) =
    let later = convert_all convert rest in
    convert raw >>= λ item. later >>= λ items. ok (item ∷ items)

-- `except (TypeError, ValueError, AttributeError)`
unfoldable pub or_malformed {ℓ} : {A : Type ℓ} → Result A → Result A
or_malformed (err value_error) = err broker_query_ambiguous
or_malformed (err type_error) = err broker_query_ambiguous
or_malformed r = r

pub record RawAsset : Type 0 where
  pub cash : Option Float
  pub frozen_cash : Option Float
  pub market_value : Option Float
  pub total_asset : Option Float

unfoldable pub to_broker_asset : RawAsset → Result BrokerAsset
to_broker_asset raw = do
  cash ← attribute raw.cash
  frozen_cash ← attribute raw.frozen_cash
  market_value ← attribute raw.market_value
  total_asset ← attribute raw.total_asset
  or_malformed (broker_asset cash frozen_cash market_value total_asset)

-- An attribute with a default is `some` of it where it is missing.
pub record RawPosition : Type 0 where
  pub stock_code : Option String
  pub volume : Option ℤ
  pub can_use_volume : Option ℤ
  pub frozen_volume : Option ℤ
  pub market_value : Option Float
  pub avg_price : Option Float

unfoldable pub to_broker_position : RawPosition → Result BrokerPosition
to_broker_position raw = do
  symbol ← attribute raw.stock_code
  volume ← attribute raw.volume
  can_use_volume ← attribute raw.can_use_volume
  frozen_volume ← attribute raw.frozen_volume
  market_value ← attribute raw.market_value
  average_price ← attribute raw.avg_price
  or_malformed
      (broker_position symbol volume can_use_volume frozen_volume market_value average_price)

pub record RawTrade : Type 0 where
  pub order_type : Option ℤ
  pub order_id : Option ℤ
  pub stock_code : Option String
  pub traded_volume : Option ℤ
  pub traded_price : Option Float
  pub traded_amount : Option Float
  pub traded_id : String
  pub strategy_name : String
  pub order_remark : String

unfoldable pub to_broker_trade : QmtOrderConfig → RawTrade → Result BrokerTrade
to_broker_trade config raw = do
  order_type ← attribute raw.order_type
  order_id ← attribute raw.order_id
  symbol ← attribute raw.stock_code
  side ← side_from_order_type config order_type
  traded_volume ← attribute raw.traded_volume
  traded_price ← attribute raw.traded_price
  traded_amount ← attribute raw.traded_amount
  or_malformed (
      broker_trade order_id symbol side traded_volume traded_price traded_amount raw.traded_id
        raw.strategy_name raw.order_remark)
