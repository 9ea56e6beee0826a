-- ===== src/Adapter/Orders.antt =====
-- src/qmt_execution_core/miniqmt/adapter.py: the queries.
use qmt_execution_core.Common.{ℕ, Option, none, some, List, ◌==◌}
use qmt_execution_core.Errors.{Result, ok, err, broker_query_ambiguous, value_error}
use qmt_execution_core.Domain.{BrokerOrder}
use qmt_execution_core.Domain.Validation.{BrokerAsset, BrokerPosition, BrokerTrade}
use qmt_execution_core.Exec.{Exec, lift, gets, raise_if, ◌>>=◌, ◌>>◌}
use qmt_execution_core.Query.{Reply, strict_query}
use qmt_execution_core.Adapter.{Adapter, QmtOrderConfig}
use qmt_execution_core.Adapter.Payloads.{
  RawOrder, RawAsset, RawPosition, RawTrade, to_broker_order, to_broker_asset, to_broker_position,
  to_broker_trade, convert_all,
}

-- The queries of the trader; `none` is a value that is no list or tuple.
pub record Queries (W : Type 0) : Type 0 where
  pub query_stock_order : ℕ → W → Reply RawOrder × W
  pub query_stock_orders : W → Reply (Option (List RawOrder)) × W
  pub query_stock_asset : W → Reply RawAsset × W
  pub query_stock_positions : W → Reply (Option (List RawPosition)) × W
  pub query_stock_trades : W → Reply (Option (List RawTrade)) × W

abbrev pub require_list {ℓ} : {A : Type ℓ} → Option (List A) → Result (List A)
require_list none = err broker_query_ambiguous
require_list (some all) = ok all

module _ {W : Type 0} where
  -- `_strict_query`
  unfoldable pub query_strictly : {A : Type 0} → (W → Reply A × W) → Exec (Adapter W) A
  query_strictly fn a =
      let (r, w) = strict_query fn broker_query_ambiguous a.query_attempts a.world in
      (r, record a { world = w })

  -- a query of a list whose items are converted
  unfoldable pub query_list :
      {A B : Type 0}
      → (W → Reply (Option (List A)) × W)
      → (QmtOrderConfig → A → Result B)
      → Exec (Adapter W) (List B)
  query_list fn convert = do
    raw ← query_strictly fn
    all ← lift (require_list raw)
    config ← gets (λ a. a.config)
    lift (convert_all (convert config) all)

  module _ (queries : Queries W) where
    unfoldable pub query_order : ℕ → Exec (Adapter W) BrokerOrder
    query_order order_id = do
      raise_if (order_id == 0) value_error
      raw ← query_strictly (queries.query_stock_order order_id)
      config ← gets (λ a. a.config)
      lift (to_broker_order config raw)

    unfoldable pub query_orders : Exec (Adapter W) (List BrokerOrder)
    query_orders = query_list queries.query_stock_orders to_broker_order

    unfoldable pub query_asset : Exec (Adapter W) BrokerAsset
    query_asset = do raw ← query_strictly queries.query_stock_asset; lift (to_broker_asset raw)

    unfoldable pub query_positions : Exec (Adapter W) (List BrokerPosition)
    query_positions = query_list queries.query_stock_positions (λ config. to_broker_position)

    unfoldable pub query_trades : Exec (Adapter W) (List BrokerTrade)
    query_trades = query_list queries.query_stock_trades to_broker_trade
