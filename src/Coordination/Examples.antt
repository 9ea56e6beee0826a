-- ===== src/Coordination/Examples.antt =====
-- Transactions of two executions on one account, src/qmt_execution_core/coordination.py.
use qmt_execution_core.Common.{
  ◌+◌, ◌≤◌, ◌≡◌, subst, ◌≢◌, refl, true, false, String, none, some, List, [], ◌∷◌, arith,
}
use qmt_execution_core.Errors.{ok}
use qmt_execution_core.Domain.{Side, buy, sell, ExecutionRequest}
use qmt_execution_core.Finality.{open_, resolved}
use qmt_execution_core.Coordination.Tables.{
  CashReservation, Db, amount, finite_non_negative, epsilon, opens, Sqlite, Caller, find_claim,
  find_reservation, active_total, owns, is_present, insert_claim, claim_of, reservation_for,
  delete_claim, release_cash,
}
use qmt_execution_core.Coordination.Transactions
use qmt_execution_core.Coordination.Transactions.{
  validate_identity, take_claim, take_cash, reserve, checked_for, not_foreign, finality_update,
  restore_claim, restore_cash, is_resolved,
}
use qmt_execution_core.Coordination.Transactions.Keys.{IsValid}
use qmt_execution_core.Coordination.Transactions.Release.{resolved_releases}
use qmt_execution_core.Coordination.Ops.{Op, perform, history}
use qmt_execution_core.Coordination.Ops.Exclusive.{AllForeign, no_double_claim, history-IsValid}
use qmt_execution_core.Coordination.Ops.Budget.{no_overspending}

abbrev order : String → Side → ExecutionRequest
order client_order_id side = record {
  client_order_id = client_order_id;
  symbol = "600000.SH";
  side = side;
  qty = 100;
  limit_price = 7;
  strategy_id = "grid";
  order_remark = client_order_id;
}

abbrev alice : Caller
alice = record { account_key = "acc"; execution_id = "alice"; request = order "a1" buy }

abbrev bob : Caller
bob = record { account_key = "acc"; execution_id = "bob"; request = order "b1" sell }

abbrev works : Sqlite
works = record { connection = opens; begins = true; commits = true }

abbrev empty : Db
empty = record { claims = []; reservations = [] }

-- what alice's transaction leaves
abbrev claimed : Db
claimed = record {
  claims = claim_of alice open_ ∷ [];
  reservations = reservation_for alice 700 ∷ [];
}

abbrev settled : Db
settled = record {
  claims = [];
  reservations = record (reservation_for alice 700) { active = false } ∷ [];
}

empty-IsValid : IsValid empty
empty-IsValid = record {
  one_claim_per_symbol = tt;
  one_claim_per_execution = tt;
  one_reservation_per_execution = tt;
}

abbrev first_ops : List Op
first_ops = Op.prepare works alice (amount 1000) (amount 700) ∷ []

-- the database of the examples is one that transactions leave
claimed_left : history empty first_ops ≡ claimed
unfolding history perform Transactions.prepare validate_identity take_claim insert_claim is_present
    reserve take_cash checked_for finite_non_negative
claimed_left = refl

claimed-IsValid : IsValid claimed
claimed-IsValid = subst IsValid claimed_left (history-IsValid empty first_ops empty-IsValid)

alice_prepares : Transactions.prepare works alice (amount 1000) (amount 700) empty ≡ ok claimed
unfolding Transactions.prepare validate_identity take_claim insert_claim is_present reserve
    take_cash checked_for finite_non_negative
alice_prepares = refl

alice_resolves : Transactions.update_finality works alice resolved claimed ≡ ok settled
unfolding Transactions.update_finality validate_identity not_foreign finality_update owns
    delete_claim release_cash claim_of reservation_for
alice_resolves = refl

-- bob tries to take the symbol, to release it, and to restore a lost SELL
abbrev attempts : List Op
attempts =
    Op.prepare works bob (amount 1000) (amount 0)
    ∷ Op.update_finality works bob resolved
    ∷ Op.restore works bob (amount 0) open_
    ∷ []

no_double_claim_example :
    Transactions.prepare works bob (amount 1000) (amount 0) (history claimed attempts) ≢ ok empty
no_double_claim_example =
    no_double_claim works works alice bob (amount 1000) (amount 700) (amount 1000) (amount 0) empty
      claimed empty attempts alice_prepares (refl, (refl, (refl, tt))) refl refl refl

alice_claim : find_claim "acc" "600000.SH" claimed ≡ some (claim_of alice open_)
unfolding claim_of
alice_claim = refl

all_foreign : AllForeign (claim_of alice open_) attempts
unfolding owns claim_of
all_foreign = (refl, (refl, (refl, tt)))

-- alice buys for 700 of 1000, and so does carol on another symbol, in vain
abbrev carol : Caller
carol = record {
  account_key = "acc";
  execution_id = "carol";
  request = record (order "c1" buy) { symbol = "000001.SZ" };
}

abbrev buyers : List Op
buyers =
    Op.prepare works alice (amount 1000) (amount 700)
    ∷ Op.prepare works carol (amount 1000) (amount 700)
    ∷ Op.update_finality works alice resolved
    ∷ Op.prepare works carol (amount 1000) (amount 700)
    ∷ []

no_overspending_example : active_total "acc" (history empty buyers).reservations ≤ 1000 + epsilon
no_overspending_example =
    no_overspending "acc" 1000 empty buyers
      (λ same n b. ground arith, (λ same n b. ground arith, (tt, (λ same n b. ground arith, tt))))
      (omega arith)

resolved_releases_example :
    (find_claim "acc" "600000.SH" settled ≡ none)
    × ((r : CashReservation)
        → find_reservation "acc" "alice" "a1" settled ≡ some r
        → r.active ≡ false)
    × (active_total "acc" settled.reservations ≤ active_total "acc" claimed.reservations)
resolved_releases_example =
    resolved_releases works alice claimed settled "acc" claimed-IsValid alice_resolves

-- the claim and the reservation of alice are taken again after a restart that lost them
alice_restored : Transactions.restore works alice (amount 700) open_ empty ≡ ok claimed
unfolding Transactions.restore validate_identity is_resolved checked_for finite_non_negative
    not_foreign restore_claim insert_claim is_present restore_cash
alice_restored = refl
