-- ===== src/Coordinated/Examples.antt =====
-- A coordinated session on a concrete database, src/qmt_execution_core/coordinated_session.py.
use qmt_execution_core.Common.{
  ℕ, ◌+◌, ◌*◌, ◌/◌, ◌≤◌, ◌≡◌, refl, true, false, Option, none, some, [], ◌∷◌,
}
use qmt_execution_core.Errors.{Error, ok, err, is_broker_error}
use qmt_execution_core.Finality.{open_}
use qmt_execution_core.Journal.{Stored, missing}
use qmt_execution_core.Coordination.Tables.{
  amount, opens, epsilon, active_total, claim_of, reservation_for, is_present, insert_claim,
  finite_non_negative,
}
use qmt_execution_core.Coordination.Transactions.{
  prepare, take_claim, take_cash, reserve, validate_identity, is_resolved, checked_for, not_foreign,
  restore_claim, restore_cash, restore, has_claim, held_by,
}
use qmt_execution_core.Coordination.Estimates.{
  CashRequirementEstimate, ConservativeCashRequirementEstimator, cash_requirement_estimate,
  buy_estimate, estimate_for, estimate, least_need,
}
use qmt_execution_core.Coordinated.Estimated.{with_estimator, estimate_is_reserved}
use qmt_execution_core.Coordination.Transactions.Keys.{IsValid}
use qmt_execution_core.Exec.{attempt, ◌>>=◌}
use qmt_execution_core.Exec.Triple.{Outcome}
use qmt_execution_core.Session.Report.{is_rejection}
use qmt_execution_core.Session.Examples.{request}
use qmt_execution_core.Coordinated.{
  Shared, Desk, self, coordinate_before_submit, place_order, estimated, cash_for_restore, amounts,
  as_rejection, owns_claim, sync_request, sync_open, restore_missing,
}
use qmt_execution_core.Coordinated.Sync.{Agrees, sync-Agrees}
use qmt_execution_core.Coordinated.Hooks.{
  Owning, Refused, hook_claims_or_rejects, ambiguous_keeps_claims,
}

-- the broker loses the answer to each order
abbrev account : Desk Stored
account = record {
  account_key = "acc";
  execution_id = "main";
  sqlite = λ w. record { connection = opens; begins = true; commits = true };
  place_order = λ r w. (err Error.os_error, w);
  sidecar = none;
  query_asset = λ w. (ok (amount 1000), w);
  cash_estimator = some (λ r asset w. (ok (amount (r.qty * r.limit_price)), w));
}

abbrev before : Shared Stored
before = record { db = record { claims = []; reservations = [] }; outside = missing }

abbrev after : Shared Stored
after = record before {
  db = record {
    claims = claim_of (self account request) open_ ∷ [];
    reservations = reservation_for (self account request) 700 ∷ [];
  };
}

before-IsValid : IsValid before.db
before-IsValid = record {
  one_claim_per_symbol = tt;
  one_claim_per_execution = tt;
  one_reservation_per_execution = tt;
}

missing_restored : sync_request account request open_ before ≡ (ok tt, after)
unfolding sync_request is_resolved sync_open ◌>>=◌ owns_claim has_claim validate_identity held_by
    restore_missing cash_for_restore attempt estimated restore checked_for finite_non_negative
    not_foreign restore_claim insert_claim is_present restore_cash
missing_restored = refl

sync-Agrees_example : Agrees (self account request) open_ after.db
sync-Agrees_example = sync-Agrees account request open_ before after before-IsValid missing_restored

hook_claims_or_rejects_example :
    Outcome
      (λ u. Owning account before.db request)
      (Refused account before.db)
      (coordinate_before_submit account request before)
hook_claims_or_rejects_example = hook_claims_or_rejects account request before

ambiguous_keeps_claims_example :
    ((place_order account request after).1.db ≡ after.db)
    × ((e : Error)
        → (place_order account request after).0 ≡ err e
        → (is_broker_error e ≡ true) × (is_rejection e ≡ false))
ambiguous_keeps_claims_example = ambiguous_keeps_claims account request after (λ h. cc)

-- a fee of at least 5, and 10 units set aside
abbrev fees : ConservativeCashRequirementEstimator
fees = record {
  fee_rate = 2000000;
  minimum_fee = 5;
  temporary_withholding_buffer = 0;
  fx_rounding_rate = 0;
  safety_buffer = 10;
}

-- a rate is whole units of 10⁻⁹ too
abbrev rounded : (value rate : ℕ) → Option ℕ
rounded value rate = some ((value * rate) / 1000000000)

abbrev bought : Shared Stored
bought = record before {
  db = record {
    claims = claim_of (self account request) open_ ∷ [];
    reservations = reservation_for (self account request) 715 ∷ [];
  };
}

hook_returns :
    coordinate_before_submit (with_estimator rounded fees account) request before ≡ (ok tt, bought)
unfolding coordinate_before_submit ◌>>=◌ amounts estimated attempt as_rejection prepare
    validate_identity checked_for finite_non_negative take_claim insert_claim is_present reserve
    take_cash estimate_for buy_estimate cash_requirement_estimate
hook_returns = refl

estimate_is_reserved_example :
    (cash : ℕ) × (e : CashRequirementEstimate) × ((account.query_asset missing).0
      ≡ ok (amount cash))
    × (estimate rounded fees request ≡ ok e)
    × (least_need rounded fees request ≤ e.required_cash)
    × (active_total "acc" bought.db.reservations
        ≡ e.required_cash + active_total "acc" before.db.reservations)
    × (active_total "acc" bought.db.reservations ≤ cash + epsilon)
estimate_is_reserved_example =
    estimate_is_reserved rounded fees account request before bought refl refl hook_returns
