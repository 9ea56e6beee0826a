-- ===== src/Callbacks.antt =====
-- src/qmt_execution_core/miniqmt/callbacks.py: what a callback of the SDK becomes. An attribute that
-- is `none` is missing or does not convert; the text of the failure is left out.
use qmt_execution_core.Common.{String, Option, none, some, ℤ}
use qmt_execution_core.Domain.Validation.{Float}

pub data BrokerObservation : Type 0 where
  order_observed :
      (order_id : ℤ) (stock_code : String) (order_status order_volume traded_volume : ℤ)
      (order_remark : String)
      → BrokerObservation
  trade_observed :
      (order_id : ℤ) (stock_code : String) (traded_volume : ℤ) (traded_price : Float)
      → BrokerObservation
  broker_disconnected : BrokerObservation
  account_status_observed : (account_id : String) (account_type status : ℤ) → BrokerObservation
  order_error_observed cancel_error_observed :
      (order_id error_id : Option ℤ) (error_msg : String) → BrokerObservation
  callback_malformed : (callback_name : String) → BrokerObservation

-- The payload of `on_stock_order`.
pub record OrderPayload : Type 0 where
  pub order_id : Option ℤ
  pub stock_code : Option String
  pub order_status : Option ℤ
  pub order_volume : Option ℤ
  pub traded_volume : Option ℤ
  pub order_remark : String

-- The payload of `on_stock_trade`.
pub record TradePayload : Type 0 where
  pub order_id : Option ℤ
  pub stock_code : Option String
  pub traded_volume : Option ℤ
  pub traded_price : Option Float

-- The payload of `on_account_status`.
pub record StatusPayload : Type 0 where
  pub account_id : Option String
  pub account_type : Option ℤ
  pub status : Option ℤ

-- `_convert_and_emit`: what is emitted
abbrev pub observed_or_malformed : String → Option BrokerObservation → BrokerObservation
observed_or_malformed name none = callback_malformed name
observed_or_malformed name (some o) = o

infixl 5 ◌>>=◌
abbrev pub ◌>>=◌ {ℓ κ} : {A : Type ℓ} {B : Type κ} → Option A → (A → Option B) → Option B
none >>= rest = none
some a >>= rest = rest a

unfoldable pub on_stock_order : OrderPayload → BrokerObservation
on_stock_order raw = observed_or_malformed "on_stock_order" (do
  order_id ← raw.order_id
  stock_code ← raw.stock_code
  order_status ← raw.order_status
  order_volume ← raw.order_volume
  traded_volume ← raw.traded_volume
  some
      (order_observed order_id stock_code order_status order_volume traded_volume raw.order_remark))

unfoldable pub on_stock_trade : TradePayload → BrokerObservation
on_stock_trade raw = observed_or_malformed "on_stock_trade" (do
  order_id ← raw.order_id
  stock_code ← raw.stock_code
  traded_volume ← raw.traded_volume
  traded_price ← raw.traded_price
  some (trade_observed order_id stock_code traded_volume traded_price))

unfoldable pub on_account_status : StatusPayload → BrokerObservation
on_account_status raw = observed_or_malformed "on_account_status" (do
  account_id ← raw.account_id
  account_type ← raw.account_type
  status ← raw.status
  some (account_status_observed account_id account_type status))

abbrev pub on_disconnected : BrokerObservation
on_disconnected = broker_disconnected

-- What an error callback carries. `none` is an attribute that is missing, None or does not convert
-- (`_optional_int`).
pub record ErrorPayload : Type 0 where
  pub failed_order_id : Option ℤ
  pub failed_error_id : Option ℤ
  pub failed_error_msg : String

unfoldable pub on_order_error : ErrorPayload → BrokerObservation
on_order_error raw =
    order_error_observed raw.failed_order_id raw.failed_error_id raw.failed_error_msg

unfoldable pub on_cancel_error : ErrorPayload → BrokerObservation
on_cancel_error raw =
    cancel_error_observed raw.failed_order_id raw.failed_error_id raw.failed_error_msg
