-- ===== src/Coordination/Transactions/Cash.antt =====
-- What the transactions of coordination.py do to the cash that an account has reserved.
use Prim.Native.Nat.{max}
use qmt_execution_core.Common.{
  ℕ, ◌+◌, ◌≤◌, ◌≡◌, ◌≢◌, ◌⊎◌, inl, inr, refl, true, false, String, str_eq, eq_iff, eq_refl,
  Bool-cases, Option, none, some, List, arith, sum-update_rows_le, sum-update_rows_eq,
}
use qmt_execution_core.Errors.{ok}
use qmt_execution_core.Domain.{Side, buy, sell}
use qmt_execution_core.Finality.{ExecutionFinality, resolved}
use qmt_execution_core.Coordination.Tables.{
  CashReservation, Db, Amount, amount, finite_non_negative, Sqlite, Caller, reservation_of,
  active_in, active_total, find_reservation, epsilon, release_cash, reservation_for,
}
use qmt_execution_core.Coordination.Transactions.{
  restore_cash, restore, is_resolved, take_cash, reserve, finality_update, checked_for, prepare,
  update_finality,
}
use qmt_execution_core.Coordination.Transactions.Parts.{
  prepare_parts, update_finality_parts, restore_parts, restore_resolved,
}

-- Releasing raises no account's total.
pub release_cash-le :
    (k : Caller) (account : String) (rows : List CashReservation)
    → active_total account (release_cash k rows) ≤ active_total account rows
unfolding release_cash
release_cash-le k account rows =
    sum-update_rows_le (active_in account) _ (λ r. record r { active = false })
      (λ r. r.required_cash) rows (λ r. ground arith)

-- Reserving changes the caller's account alone.
reserve_others :
    (side : Side) (k : Caller) (account : String) (available required : ℕ) (db : Db)
    (rows : List CashReservation)
    → account ≢ k.account_key
    → reserve side k available required db ≡ ok rows
    → active_total account rows ≡ active_total account db.reservations
unfolding reserve take_cash reservation_for
reserve_others sell k account available required db rows o h = ground arith
reserve_others buy k account available required db rows o h =
    ground (arith, eq_iff k.account_key account)

-- A reservation is granted within the broker's cash, or was there before.
reserve_within :
    (side : Side) (k : Caller) (available required : ℕ) (db : Db) (rows : List CashReservation)
    → reserve side k available required db ≡ ok rows
    → (active_total k.account_key rows ≡ active_total k.account_key db.reservations)
      ⊎ (active_total k.account_key rows ≤ available + epsilon)
unfolding reserve take_cash reservation_for
reserve_within sell k available required db rows h = ground arith
reserve_within buy k available required db rows h =
    ground (arith, eq_iff k.account_key k.account_key)

within_limit :
    (side : Side) (k : Caller) (available required : ℕ) (db : Db) (rows : List CashReservation)
    (b : Amount) (limit : ℕ)
    → ((n : ℕ) → b ≡ amount n → n ≤ limit)
    → checked_for side b ≡ ok available
    → reserve side k available required db ≡ ok rows
    → active_total k.account_key db.reservations ≤ limit + epsilon
    → active_total k.account_key rows ≤ limit + epsilon
unfolding checked_for finite_non_negative reserve
within_limit sell k available required db rows b limit fits x s below = ground arith
within_limit buy k available required db rows (amount n) limit fits x s below =
    ground (arith, reserve_within buy k n required db rows, fits n refl)
within_limit buy k available required db rows _ limit fits x s below = cc

restore_cash_others :
    (side : Side) (k : Caller) (account : String) (required : ℕ) (found : Option CashReservation)
    (rows : List CashReservation)
    → account ≢ k.account_key
    → active_total account (restore_cash side k required found rows) ≡ active_total account rows
unfolding restore_cash reservation_for
restore_cash_others sell k account required found rows o = refl
restore_cash_others buy k account required none rows o =
    ground (arith, eq_iff k.account_key account)
restore_cash_others buy k account required (some p) rows o =
    sum-update_rows_eq (active_in account)
      (reservation_of k.account_key k.execution_id k.client_order_id)
      (λ q. record q { required_cash = max required p.required_cash; active = true })
      (λ r. r.required_cash) rows
      (λ r. ground (arith, eq_iff r.account_key k.account_key, eq_iff r.account_key account))

module _ (sql : Sqlite) (k : Caller) (db next : Db) (account : String) where
  pub update_finality_lowers :
      (f : ExecutionFinality)
      → update_finality sql k f db ≡ ok next
      → active_total account next.reservations ≤ active_total account db.reservations
  unfolding finality_update
  update_finality_lowers f h =
      let (_, u) = update_finality_parts sql k db next f h in
      ground (arith, release_cash-le k account db.reservations)

  pub prepare_bounded :
      (b r : Amount) (limit : ℕ)
      → (account ≡ k.account_key → (n : ℕ) → b ≡ amount n → n ≤ limit)
      → prepare sql k b r db ≡ ok next
      → active_total account db.reservations ≤ limit + epsilon
      → active_total account next.reservations ≤ limit + epsilon
  prepare_bounded b r limit fits h below =
      let (a, q, x, _, _, s) = prepare_parts sql k db next b r h in
      elim (Bool-cases (str_eq account k.account_key)) [
        | inr other ↦ omega (
          arith,
          reserve_others k.side k account a q db next.reservations
              (λ e. cc ((eq_iff account k.account_key).1 e)) s,
        )
        | inl own ↦
            let same : account ≡ k.account_key = (eq_iff account k.account_key).0 own in
            rw same (
              within_limit k.side k a q db next.reservations b limit (fits same) x s
                (rw same at below))
      ]

  pub restore_bounded :
      (r : Amount) (f : ExecutionFinality)
      → (f ≡ resolved) ⊎ ((account ≢ k.account_key) ⊎ (k.side ≡ sell))
      → restore sql k r f db ≡ ok next
      → active_total account next.reservations ≤ active_total account db.reservations
  unfolding is_resolved restore_cash
  restore_bounded r resolved w h =
      update_finality_lowers resolved (restore_resolved sql k db next r h)
  restore_bounded r f w h =
      let (q, _, _, _, s) = restore_parts sql k db next r f refl h in
      ground (
        arith,
        restore_cash_others k.side k account q
            (find_reservation k.account_key k.execution_id k.client_order_id db) db.reservations,
      )

-- A new reservation is granted only within the broker's cash: after a committed `prepare` of a BUY
-- that had no reservation, the account's active reservations, the new one included, exceed the
-- cash that the broker reported by at most `_EPSILON`.
pub prepare_within_cash :
    (sql : Sqlite) (k : Caller) (n m : ℕ) (db next : Db)
    → k.side ≡ buy
    → find_reservation k.account_key k.execution_id k.client_order_id db ≡ none
    → prepare sql k (amount n) (amount m) db ≡ ok next
    → (active_total k.account_key next.reservations ≤ n + epsilon)
      × (active_total k.account_key next.reservations
          ≡ m + active_total k.account_key db.reservations)
unfolding checked_for finite_non_negative reserve take_cash reservation_for
prepare_within_cash sql k n m db next s free h =
    let (a, q, x, y, _, z) = prepare_parts sql k db next (amount n) (amount m) h in
    ground (arith, eq_refl k.account_key)
