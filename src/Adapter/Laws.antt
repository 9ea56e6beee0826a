-- ===== src/Adapter/Laws.antt =====
-- What src/qmt_execution_core/miniqmt/adapter.py promises of an order and of a converted payload.
use qmt_execution_core.Common.{
  ℕ, ◌<◌, ◌≤◌, ◌≡◌, refl, ◌⊎◌, inl, Bool, true, false, String, Option, some, ℤ, pos, negsuc, arith,
  code_points, are_ascii, length, is_empty, lt_int,
}
use qmt_execution_core.Errors.{Result, ok, err, bind_ok, broker_submission_rejected, value_error}
use qmt_execution_core.Domain.{Side, ExecutionRequest, BrokerOrder, BrokerOrderStatus}
use qmt_execution_core.Domain.Validation.{Float, positive, non_negative, broker_order}
use qmt_execution_core.Status.{RawStatus}
use qmt_execution_core.Exec
use qmt_execution_core.Query.{Reply, value}
use qmt_execution_core.Adapter.{
  Adapter, Trader, QmtOrderConfig, RawInt, int, ask, execution_healthy, validate_qmt_remark,
  order_result, stock_order, send_order, checked_order, place_order,
}
use qmt_execution_core.Adapter.Payloads.{
  RawOrder, attribute, side_from_order_type, checked_status, to_broker_order,
}

module _ {W : Type 0} (trader : Trader W) (request : ExecutionRequest) where
  abbrev pub answer : Adapter W → Reply RawInt
  answer a = (trader.order_stock (stock_order request a) a.world).0

  -- Which outcome of the call after the health test means what.
  abbrev pub Meaning : Adapter W → Result ℕ × Adapter W → Type 0
  Meaning a out =
      ((out.0 ≡ err broker_submission_rejected) → (out.1 ≡ a) ⊎ (answer a ≡ value (int (negsuc 0))))
      × ((n : ℕ) → out.0 ≡ ok n → (0 < n) × (answer a ≡ value (int (pos n))))

  reading :
      (r : Reply RawInt)
      → (order_result r ≡ err broker_submission_rejected → r ≡ value (int (negsuc 0)))
        × ((n : ℕ) → order_result r ≡ ok n → (0 < n) × (r ≡ value (int (pos n))))
  unfolding order_result
  reading r = ground arith

  sent : (a : Adapter W) → Meaning a (send_order trader request a)
  unfolding send_order ask Exec.◌>>=◌
  sent a = let (x, y) = reading (answer a) in (ground arith, ground arith)

  -- the remark that an order is sent with
  abbrev pub IsShort : Type 0
  IsShort =
      (are_ascii (code_points request.order_remark) ≡ true)
      × (length (code_points request.order_remark) ≤ 24)

  checked :
      (healthy : Bool) (a : Adapter W)
      → Meaning a (checked_order trader request healthy a)
        × ((n : ℕ) → (checked_order trader request healthy a).0 ≡ ok n → IsShort)
  unfolding checked_order validate_qmt_remark Exec.◌>>=◌
  checked healthy a = let (x, y) = sent a in ((ground arith, ground arith), ground arith)

  whole :
      (h : Result Bool) (a : Adapter W)
      → Meaning a (Exec.continue h (checked_order trader request) a)
        × ((n : ℕ) → (Exec.continue h (checked_order trader request) a).0 ≡ ok n → IsShort)
  whole (ok healthy) a = checked healthy a
  whole (err e) a = ((λ h. inl refl, λ n h. absurd (cc h)), λ n h. absurd (cc h))

  -- `place_order` raises BrokerSubmissionRejected, which the session takes as final, only if
  -- `order_stock` was not called after the health test or answered -1; and if it returns an id,
  -- that is a positive number that `order_stock` answered, for a remark of at most 24 ASCII
  -- characters.
  pub rejection_is_definite :
      (a : Adapter W)
      → Meaning (execution_healthy trader a).1 (place_order trader request a)
        × ((n : ℕ) → (place_order trader request a).0 ≡ ok n → IsShort)
  unfolding place_order Exec.◌>>=◌
  rejection_is_definite a = let (h, healthy) = execution_healthy trader a in whole h healthy

-- What holds of the numbers of every order that is handed on.
pub record IsConsistent (o : BrokerOrder) : Type 0 where
  pub identified : 0 < o.order_id
  pub named : is_empty o.symbol ≡ false
  pub sized : 0 < o.qty
  pub bounded : o.filled_qty ≤ o.qty
  pub complete : o.status ≡ BrokerOrderStatus.filled → o.filled_qty ≡ o.qty
  pub partial :
      (o.status ≡ BrokerOrderStatus.partially_filled)
        ⊎ (o.status ≡ BrokerOrderStatus.partial_cancelled)
      → (0 < o.filled_qty) × (o.filled_qty < o.qty)

-- the same numbers before and after their validation
valid_numbers :
    (order_id : ℤ) (symbol : String) (side : Side) (qty filled : ℤ) (raw : RawStatus)
    (remark client strategy : String) (price : Option Float) (o : BrokerOrder)
    → broker_order order_id symbol side qty filled
        (checked_status raw filled qty)
        remark
        client
        strategy
        price
      ≡ ok o
    → IsConsistent o
unfolding broker_order checked_status positive non_negative
valid_numbers order_id symbol side qty filled raw remark client strategy price o h = record {
  identified = ground arith;
  named = ground arith;
  sized = ground arith;
  bounded = ground arith;
  complete = ground arith;
  partial = ground arith;
}

-- An order that the conversion of the SDK's payload returns has a positive id and quantity, a
-- symbol and a filled quantity within the order's; FILLED means filled in full, and
-- PARTIALLY_FILLED and PARTIAL_CANCELLED that some but not all was traded.
pub conversion-IsConsistent :
    (config : QmtOrderConfig) (raw : RawOrder) (o : BrokerOrder)
    → to_broker_order config raw ≡ ok o
    → IsConsistent o
unfolding to_broker_order
conversion-IsConsistent config raw o h =
    let (id, _, h₁) = bind_ok (attribute raw.order_id) _ h in
    let (symbol, _, h₂) = bind_ok (attribute raw.stock_code) _ h₁ in
    let (kind, _, h₃) = bind_ok (attribute raw.order_type) _ h₂ in
    let (qty, _, h₄) = bind_ok (attribute raw.order_volume) _ h₃ in
    let (filled, _, h₅) = bind_ok (attribute raw.traded_volume) _ h₄ in
    let (status, _, h₆) = bind_ok (attribute raw.order_status) _ h₅ in
    let (price, _, h₇) = bind_ok (attribute raw.traded_price) _ h₆ in
    let (side, _, h₈) = bind_ok (side_from_order_type config kind) _ h₇ in
    valid_numbers id symbol side qty filled status raw.order_remark "" raw.strategy_name price o h₈

-- A payload whose attributes all convert, but whose traded volume lies outside the order's volume,
-- is not handed on as UNKNOWN: the conversion raises ValueError, which is no broker error.
pub overfilled_raises :
    (config : QmtOrderConfig) (raw : RawOrder) (id qty filled kind : ℤ) (symbol : String)
    (status : RawStatus) (price : Option Float) (side : Side)
    → raw.order_id ≡ some id
    → raw.stock_code ≡ some symbol
    → raw.order_type ≡ some kind
    → side_from_order_type config kind ≡ ok side
    → raw.order_volume ≡ some qty
    → raw.traded_volume ≡ some filled
    → raw.order_status ≡ some status
    → raw.traded_price ≡ some price
    → (lt_int filled (pos 0) ≡ true) ⊎ (lt_int qty filled ≡ true)
    → to_broker_order config raw ≡ err value_error
unfolding to_broker_order broker_order positive non_negative
overfilled_raises config raw id qty filled kind symbol status price side a b c d e f g h out =
    rw (a, b, c, d, e, f, g, h) (ground arith)
