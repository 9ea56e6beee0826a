-- ===== src/Coordinated/Estimated.antt =====
-- `_coordinate_before_submit` of src/qmt_execution_core/coordinated_session.py with the
-- `ConservativeCashRequirementEstimator` of src/qmt_execution_core/coordination.py.
use qmt_execution_core.Common.{
  ℕ, ◌+◌, ◌≤◌, ◌≡◌, ◌∙◌, ap, Option, none, some, arith, inl, inr, Bool-cases,
}
use qmt_execution_core.Errors.{Result, ok, err, Result-cases, is_coordination_error}
use qmt_execution_core.Domain.{Side, buy, sell, ExecutionRequest}
use qmt_execution_core.Coordination.Tables.{
  Db, Amount, amount, Sqlite, Caller, find_reservation, active_total, epsilon, finite_non_negative,
}
use qmt_execution_core.Coordination.Transactions.{prepare, checked_for}
use qmt_execution_core.Coordination.Transactions.Parts.{prepare_parts}
use qmt_execution_core.Coordination.Transactions.Cash.{prepare_within_cash}
use qmt_execution_core.Coordination.Estimates.{
  CashRequirementEstimate, ConservativeCashRequirementEstimator, estimate, least_need, estimate-buy,
}
use qmt_execution_core.Exec.{attempt, ◌>>=◌}
use qmt_execution_core.Exec.Returns.{returned}
use qmt_execution_core.Coordinated.{
  Shared, Desk, self, commit, amounts, estimated, as_rejection, coordinate_before_submit,
}

-- `float(estimate.required_cash)`
abbrev required_of : Result CashRequirementEstimate → Result Amount
required_of (ok e) = ok (amount e.required_cash)
required_of (err x) = err x

module _ {W : Type 0} (product : (value rate : ℕ) → Option ℕ) where
  abbrev pub conservative :
      ConservativeCashRequirementEstimator → ExecutionRequest → Amount → W → Result Amount × W
  conservative estimator r asset w = (required_of (estimate product estimator r), w)

  abbrev pub with_estimator : ConservativeCashRequirementEstimator → Desk W → Desk W
  with_estimator estimator desk = record desk { cash_estimator = some (conservative estimator) }

module _ {W : Type 0} (product : (value rate : ℕ) → Option ℕ)
    (estimator : ConservativeCashRequirementEstimator) (desk : Desk W) (r : ExecutionRequest) where
  abbrev D : Desk W
  D = with_estimator product estimator desk

  amounts_returned :
      (side : Side) (s t : Shared W) (a q : Amount)
      → side ≡ buy
      → amounts D side r s ≡ (ok (a, q), t)
      → (t.db ≡ s.db)
        × ((desk.query_asset s.outside).0 ≡ ok a)
        × ((e : CashRequirementEstimate) × (estimate product estimator r ≡ ok e)
            × (q ≡ amount e.required_cash))
  unfolding amounts estimated attempt ◌>>=◌
  amounts_returned sell s t a q b h = cc
  amounts_returned buy s t a q b h = elim (Result-cases (desk.query_asset s.outside).0) [
    | inr (x, p) ↦ absurd (cc (rw p at h))
    | inl (cash, p) ↦ elim (Result-cases (estimate product estimator r)) [
      | inr (x, u) ↦ absurd (cc (rw (p, u) at h))
      | inl (e, u) ↦ let g = rw (p, u) at h in (cc g, cc (p, g), (e, u, cc g))
    ]
  ]

  prepared_returned :
      (b q : Amount) (s t : Shared W)
      → (attempt is_coordination_error
              (λ s. commit (prepare (desk.sqlite s.outside) (self D r) b q s.db) s)
            >>= as_rejection D)
          s
        ≡ (ok tt, t)
      → prepare (desk.sqlite s.outside) (self D r) b q s.db ≡ ok t.db
  unfolding as_rejection attempt ◌>>=◌
  prepared_returned b q s t h =
      elim (Result-cases (prepare (desk.sqlite s.outside) (self D r) b q s.db)) [
        | inl (next, p) ↦ let g = rw p at h in cc (p, g)
        | inr (x, p) ↦ elim (Bool-cases (is_coordination_error x)) [
          | inl c ↦ absurd (cc (rw (p, c) at h))
          | inr c ↦ absurd (cc (rw (p, c) at h))
        ]
      ]

finite_amount : (b : Amount) (n : ℕ) → finite_non_negative b ≡ ok n → b ≡ amount n
unfolding finite_non_negative
finite_amount (amount n) m h = ground arith
finite_amount _ m h = cc

granted :
    (sql : Sqlite) (k : Caller) (b q : Amount) (required : ℕ) (before db next : Db)
    → k.side ≡ buy
    → find_reservation k.account_key k.execution_id k.client_order_id before ≡ none
    → db ≡ before
    → q ≡ amount required
    → prepare sql k b q db ≡ ok next
    → (cash : ℕ) × (b ≡ amount cash)
      × (active_total k.account_key next.reservations ≤ cash + epsilon)
      × (active_total k.account_key next.reservations
          ≡ required + active_total k.account_key before.reservations)
unfolding checked_for
granted sql k b q required before db next side free same asked h =
    let (cash, _, x, _, _, _) = prepare_parts sql k db next b q h in
    let known = finite_amount b cash (rw side at x) in
    let (within, grown) = prepare_within_cash sql k cash required before next side free cc in
    (cash, known, within, grown)

-- When `_coordinate_before_submit` with the conservative estimator returns for a BUY that had no
-- reservation, the account was asked for its cash and the estimate was made; the estimate covers
-- the notional amount, the minimum fee and the fixed buffers; the account's active reservations
-- have grown by just the estimate, and are within the cash that was reported and `_EPSILON`.
pub estimate_is_reserved :
    {W : Type 0} (product : (value rate : ℕ) → Option ℕ)
    (estimator : ConservativeCashRequirementEstimator) (desk : Desk W) (r : ExecutionRequest)
    (s t : Shared W)
    → r.side ≡ buy
    → find_reservation desk.account_key desk.execution_id r.client_order_id s.db ≡ none
    → coordinate_before_submit (with_estimator product estimator desk) r s ≡ (ok tt, t)
    → (cash : ℕ) × (e : CashRequirementEstimate) × ((desk.query_asset s.outside).0
        ≡ ok (amount cash))
      × (estimate product estimator r ≡ ok e)
      × (least_need product estimator r ≤ e.required_cash)
      × (active_total desk.account_key t.db.reservations
          ≡ e.required_cash + active_total desk.account_key s.db.reservations)
      × (active_total desk.account_key t.db.reservations ≤ cash + epsilon)
unfolding coordinate_before_submit
estimate_is_reserved product estimator desk r s t b free h =
    let (pair, m, rest) =
      returned (amounts (with_estimator product estimator desk) r.side r) _ s h in
    let (same, asked, (e, made, q)) =
      amounts_returned product estimator desk r r.side s _ pair.0 pair.1 b m in
    let done = prepared_returned product estimator desk r pair.0 pair.1 _ t rest in
    let (cash, known, within, grown) =
      granted _ (self desk r) pair.0 pair.1 e.required_cash s.db _ t.db b free same q done in
    let (_, covers) = estimate-buy product estimator r.side r e b made in
    (cash, e, asked ∙ ap ok known, made, covers, grown, within)
