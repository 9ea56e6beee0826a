-- ===== src/Adapter.antt =====
-- src/qmt_execution_core/miniqmt/adapter.py: the broker that a trader of the SDK gives. The trader,
-- the health probe and the order gate are parameters; each call may raise.
pub mod Payloads
pub mod Orders
pub mod Laws
pub mod Examples
use qmt_execution_core.Common.{
  ℕ, Bool, true, false, not, ◌&&◌, String, Option, none, some, List, ltb, leb, ◌==◌, ℤ, pos, negsuc,
  code_points, are_ascii, length, int_eq, if◌then◌else◌,
}
use qmt_execution_core.Errors.{
  Error, Result, ok, err, broker_submission_rejected, broker_submission_ambiguous,
  broker_query_ambiguous, value_error, type_error, runtime_error,
}
use qmt_execution_core.Domain.{Side, buy, sell, ExecutionRequest, CancelRequestResult, BrokerOrder}
use qmt_execution_core.Exec.{Exec, pure, raise, lift, gets, modify, raise_if, ◌>>=◌, ◌>>◌}
use qmt_execution_core.Query.{Reply, raised, nothing, value}

pub record QmtOrderConfig : Type 0 where
  pub buy_order_type : ℤ
  pub sell_order_type : ℤ
  pub price_type : ℤ

-- What a call returned that should be an `int`.
pub data RawInt : Type 0 where
  int : ℤ → RawInt
  other : RawInt

-- The arguments of `order_stock` after the account.
pub record StockOrder : Type 0 where
  pub stock_code : String
  pub order_type : ℤ
  pub order_volume : ℕ
  pub price_type : ℤ
  pub price : ℕ
  pub strategy_name : String
  pub order_remark : String

-- The object of `MiniQmtBrokerAdapter` with the world that its trader acts on.
pub record Adapter (W : Type 0) : Type 0 where
  pub config : QmtOrderConfig
  pub strategy_name : String
  pub query_attempts : ℕ
  pub transport_connected : Bool
  pub recovery_ready : Bool
  pub world : W

-- What the adapter calls for orders. `none` is a probe or a gate that was not given.
pub record Trader (W : Type 0) : Type 0 where
  pub order_stock : StockOrder → W → Reply RawInt × W
  pub cancel_order_stock : ℕ → W → Reply RawInt × W
  pub health_probe : Option (W → Result Bool × W)
  pub order_gate : Option (W → Result Bool × W)

-- what `order_stock` answered
unfoldable pub order_result : Reply RawInt → Result ℕ
order_result raised = err broker_submission_ambiguous
order_result nothing = err broker_submission_ambiguous
order_result (value other) = err broker_submission_ambiguous
order_result (value (int (pos n))) = if n == 0 then err broker_submission_ambiguous else ok n
order_result (value (int (negsuc n))) =
    if n == 0 then err broker_submission_rejected else err broker_submission_ambiguous

abbrev pub order_type_of : Side → QmtOrderConfig → ℤ
order_type_of buy config = config.buy_order_type
order_type_of sell config = config.sell_order_type

unfoldable pub cancel_result : Reply RawInt → CancelRequestResult
cancel_result (value (int (pos n))) =
    if n == 0 then CancelRequestResult.accepted else CancelRequestResult.rejected
cancel_result _ = CancelRequestResult.rejected

module _ {W : Type 0} where
  -- `__init__`: the tests of the arguments that are not about their types
  unfoldable pub new_adapter :
      QmtOrderConfig
      → (strategy_name : String) → (query_attempts : ℤ)
      → (initially_connected recovery_ready : Bool) → W
      → Result (Adapter W)
  new_adapter config strategy_name (negsuc n) connected ready world = err value_error
  new_adapter config strategy_name (pos n) connected ready world =
      if length (code_points strategy_name) == 0
      then err value_error
      else if n == 0
      then err value_error
      else ok (record {
        config = config;
        strategy_name = strategy_name;
        query_attempts = n;
        transport_connected = connected;
        recovery_ready = ready;
        world = world;
      })

  unfoldable pub mark_disconnected : Exec (Adapter W) Unit
  mark_disconnected = modify (λ a. record a { transport_connected = false; recovery_ready = false })

  unfoldable pub mark_transport_connected : Exec (Adapter W) Unit
  mark_transport_connected =
      modify (λ a. record a { transport_connected = true; recovery_ready = false })

  unfoldable pub mark_recovery_required : Exec (Adapter W) Unit
  mark_recovery_required = modify (λ a. record a { recovery_ready = false })

  unfoldable pub mark_recovery_complete : Exec (Adapter W) Unit
  mark_recovery_complete = do
    connected ← gets (λ a. a.transport_connected)
    raise_if (not connected) runtime_error
    modify (λ a. record a { recovery_ready = true })

  -- a call of the SDK
  unfoldable pub ask : {A : Type 0} → (W → A × W) → Exec (Adapter W) A
  ask call a = let (r, w) = call a.world in (ok r, record a { world = w })

  -- `probe is not None and probe() is not True`
  unfoldable pub refuses : Option (W → Result Bool × W) → Exec (Adapter W) Bool
  refuses none = pure false
  refuses (some probe) = do r ← ask probe; good ← lift r; pure (not good)

  -- `_validate_qmt_remark`
  unfoldable pub validate_qmt_remark : String → Exec (Adapter W) Unit
  validate_qmt_remark remark = do
    raise_if (not (are_ascii (code_points remark))) broker_submission_rejected
    raise_if (ltb 24 (length (code_points remark))) broker_submission_rejected

  abbrev pub stock_order : ExecutionRequest → Adapter W → StockOrder
  stock_order request a = record {
    stock_code = request.symbol;
    order_type = order_type_of request.side a.config;
    order_volume = request.qty;
    price_type = a.config.price_type;
    price = request.limit_price;
    strategy_name = a.strategy_name;
    order_remark = request.order_remark;
  }

  module _ (trader : Trader W) where
    unfoldable pub probed : Bool → Exec (Adapter W) Bool
    probed true = pure false
    probed false = do closed ← refuses trader.order_gate; pure (not closed)

    unfoldable pub connected_and_ready : Bool → Exec (Adapter W) Bool
    connected_and_ready false = pure false
    connected_and_ready true = do sick ← refuses trader.health_probe; probed sick

    unfoldable pub execution_healthy : Exec (Adapter W) Bool
    execution_healthy = do
      ready ← gets (λ a. a.transport_connected && a.recovery_ready)
      connected_and_ready ready

    -- the call and the reading of its answer
    unfoldable pub send_order : ExecutionRequest → Exec (Adapter W) ℕ
    send_order request = do
      order ← gets (stock_order request)
      reply ← ask (trader.order_stock order)
      lift (order_result reply)

    -- after the health test
    unfoldable pub checked_order : ExecutionRequest → (healthy : Bool) → Exec (Adapter W) ℕ
    checked_order request healthy = do
      raise_if (not healthy) broker_submission_rejected
      validate_qmt_remark request.order_remark
      send_order request

    unfoldable pub place_order : ExecutionRequest → Exec (Adapter W) ℕ
    place_order request = do healthy ← execution_healthy; checked_order request healthy

    unfoldable pub cancel_order : ℕ → Exec (Adapter W) CancelRequestResult
    cancel_order order_id = do
      raise_if (order_id == 0) value_error
      reply ← ask (trader.cancel_order_stock order_id)
      pure (cancel_result reply)
