-- ===== src/Coordination/Estimates.antt =====
-- src/qmt_execution_core/coordination.py: the estimates of the cash that a BUY may need. Sums of
-- amounts are exact; the product of an amount with a rate is a parameter, since it is rounded.
use Prim.Native.Nat.{max}
use qmt_execution_core.Common.{ℕ, ◌+◌, ◌*◌, ◌≤◌, ◌≡◌, Option, none, some, ltb, arith}
use qmt_execution_core.Errors.{Result, ok, ◌>>=◌, ◌>>◌, raise_if, coordination_error}
use qmt_execution_core.Domain.{Side, buy, sell, ExecutionRequest}
use qmt_execution_core.Coordination.Tables.{
  Amount, amount, not_finite, finite_non_negative, epsilon,
}

pub record CashRequirementEstimate : Type 0 where
  pub required_cash : ℕ
  pub order_notional : ℕ
  pub transaction_cost_buffer : ℕ
  pub temporary_withholding_buffer : ℕ
  pub fx_rounding_buffer : ℕ
  pub safety_buffer : ℕ

-- what the declared components of an estimate come to
abbrev pub component_floor : CashRequirementEstimate → ℕ
component_floor e =
    e.order_notional + e.transaction_cost_buffer + e.temporary_withholding_buffer
    + e.fx_rounding_buffer + e.safety_buffer

-- `__post_init__`
unfoldable pub cash_requirement_estimate :
    (required notional cost withholding rounding safety : Amount) → Result CashRequirementEstimate
cash_requirement_estimate required notional cost withholding rounding safety = do
  r ← finite_non_negative required
  n ← finite_non_negative notional
  c ← finite_non_negative cost
  w ← finite_non_negative withholding
  x ← finite_non_negative rounding
  s ← finite_non_negative safety
  let e : CashRequirementEstimate = record {
    required_cash = r;
    order_notional = n;
    transaction_cost_buffer = c;
    temporary_withholding_buffer = w;
    fx_rounding_buffer = x;
    safety_buffer = s;
  }
  raise_if (ltb (r + epsilon) (component_floor e)) coordination_error
  ok e

pub record ConservativeCashRequirementEstimator : Type 0 where
  pub fee_rate : ℕ
  pub minimum_fee : ℕ
  pub temporary_withholding_buffer : ℕ
  pub fx_rounding_rate : ℕ
  pub safety_buffer : ℕ

-- its `__post_init__`
unfoldable pub conservative_estimator :
    (fee_rate minimum_fee withholding rounding_rate safety : Amount)
    → Result ConservativeCashRequirementEstimator
conservative_estimator fee_rate minimum_fee withholding rounding_rate safety = do
  f ← finite_non_negative fee_rate
  m ← finite_non_negative minimum_fee
  w ← finite_non_negative withholding
  x ← finite_non_negative rounding_rate
  s ← finite_non_negative safety
  ok (record {
    fee_rate = f;
    minimum_fee = m;
    temporary_withholding_buffer = w;
    fx_rounding_rate = x;
    safety_buffer = s;
  })

abbrev pub notional_of : ExecutionRequest → ℕ
notional_of r = r.qty * r.limit_price

-- A product that is too large for a float is infinite, and so is every sum with it and the larger
-- of it and any amount.
abbrev larger : ℕ → Option ℕ → Amount
larger minimum none = not_finite
larger minimum (some n) = amount (max minimum n)

abbrev float_of : Option ℕ → Amount
float_of none = not_finite
float_of (some n) = amount n

abbrev plus : Amount → Amount → Amount
plus (amount a) (amount b) = amount (a + b)
plus _ _ = not_finite

module _ (product : (value rate : ℕ) → Option ℕ) (self : ConservativeCashRequirementEstimator) where
  -- the estimate for a BUY from the two products
  unfoldable pub buy_estimate :
      ExecutionRequest → Option ℕ → Option ℕ → Result CashRequirementEstimate
  buy_estimate r fee rounding =
      let transaction_cost = larger self.minimum_fee fee in
      let fx_rounding = float_of rounding in
      let required =
        plus
          (plus
            (plus (plus (amount (notional_of r)) transaction_cost)
              (amount self.temporary_withholding_buffer))
            fx_rounding)
          (amount self.safety_buffer) in
      cash_requirement_estimate required (amount (notional_of r)) transaction_cost
        (amount self.temporary_withholding_buffer) fx_rounding (amount self.safety_buffer)

  -- `estimate`; the type tests hold by the types, and the snapshot of the account is not read
  unfoldable pub estimate_for : Side → ExecutionRequest → Result CashRequirementEstimate
  estimate_for sell r =
      cash_requirement_estimate (amount 0) (amount 0) (amount 0) (amount 0) (amount 0) (amount 0)
  estimate_for buy r =
      buy_estimate r (product (notional_of r) self.fee_rate)
        (product (notional_of r) self.fx_rounding_rate)

  abbrev pub estimate : ExecutionRequest → Result CashRequirementEstimate
  estimate r = estimate_for r.side r

  -- all that an order needs for certain
  abbrev pub least_need : ExecutionRequest → ℕ
  least_need r =
      notional_of r + self.minimum_fee + self.temporary_withholding_buffer + self.safety_buffer

  buy_estimate_lem :
      (r : ExecutionRequest) (fee rounding : Option ℕ) (e : CashRequirementEstimate)
      → buy_estimate r fee rounding ≡ ok e
      → (e.required_cash ≡ component_floor e) × (least_need r ≤ e.required_cash)
  unfolding buy_estimate cash_requirement_estimate finite_non_negative
  buy_estimate_lem r none rounding e h = cc
  buy_estimate_lem r (some fee) none e h = cc
  buy_estimate_lem r (some fee) (some x) e h = ground arith

  -- An estimate for a BUY is the sum of its components, and covers what the order needs.
  pub estimate-buy :
      (side : Side) (r : ExecutionRequest) (e : CashRequirementEstimate)
      → side ≡ buy
      → estimate_for side r ≡ ok e
      → (e.required_cash ≡ component_floor e) × (least_need r ≤ e.required_cash)
  unfolding estimate_for
  estimate-buy sell r e b h = cc
  estimate-buy buy r e b h = buy_estimate_lem r _ _ e h
