-- ===== src/Coordination/Ops/Budget.antt =====
-- The cash of an account is not promised twice by coordination.py, in any order of transactions.
use qmt_execution_core.Common.{ℕ, ◌+◌, ◌≤◌, ◌≡◌, ◌≢◌, ◌⊎◌, inl, inr, String, List, [], ◌∷◌, arith}
use qmt_execution_core.Errors.{ok, Result-cases}
use qmt_execution_core.Domain.{sell}
use qmt_execution_core.Finality.{resolved}
use qmt_execution_core.Coordination.Tables.{Db, amount, active_total, epsilon}
use qmt_execution_core.Coordination.Transactions.Cash.{
  prepare_bounded, restore_bounded, update_finality_lowers,
}
use qmt_execution_core.Coordination.Ops.{
  Op, prepare, restore, update_finality, perform, or_unchanged, history,
}

-- The broker reports at most `limit` for the account, and no lost BUY of it is restored.
abbrev pub WithinLimit : String → ℕ → Op → Type 0
WithinLimit account limit (prepare sql k b r) =
    account ≡ k.account_key → (n : ℕ) → b ≡ amount n → n ≤ limit
WithinLimit account limit (restore sql k r f) =
    (f ≡ resolved) ⊎ ((account ≢ k.account_key) ⊎ (k.side ≡ sell))
WithinLimit account limit (update_finality sql k f) = Unit {0}

abbrev pub AllWithin : String → ℕ → List Op → Type 0
AllWithin account limit [] = Unit {0}
AllWithin account limit (op ∷ ops) = WithinLimit account limit op × AllWithin account limit ops

perform_bounded :
    (op : Op) (account : String) (limit : ℕ) (db next : Db)
    → WithinLimit account limit op
    → perform op db ≡ ok next
    → active_total account db.reservations ≤ limit + epsilon
    → active_total account next.reservations ≤ limit + epsilon
unfolding perform
perform_bounded (prepare sql k b r) account limit db next w h below =
    prepare_bounded sql k db next account b r limit w h below
perform_bounded (restore sql k r f) account limit db next w h below =
    omega (arith, restore_bounded sql k db next account r f w h)
perform_bounded (update_finality sql k f) account limit db next w h below =
    omega (arith, update_finality_lowers sql k db next account f h)

or_unchanged_bounded :
    (op : Op) (account : String) (limit : ℕ) (db : Db)
    → WithinLimit account limit op
    → active_total account db.reservations ≤ limit + epsilon
    → active_total account (or_unchanged (perform op db) db).reservations ≤ limit + epsilon
or_unchanged_bounded op account limit db w below = elim (Result-cases (perform op db)) [
  | inl (next, h) ↦ rw h (perform_bounded op account limit db next w h below)
  | inr (e, h) ↦ rw h below
]

-- No overspending: if the broker never reports more than `limit` for an account, and no lost BUY
-- of the account is restored, then in every history of transactions, of any executions in any
-- order, the account's active reservations stay within `limit` and `_EPSILON`.
pub no_overspending :
    (account : String) (limit : ℕ) (db : Db) (ops : List Op)
    → AllWithin account limit ops
    → active_total account db.reservations ≤ limit + epsilon
    → active_total account (history db ops).reservations ≤ limit + epsilon
unfolding history
no_overspending account limit db [] w below = below
no_overspending account limit db (op ∷ ops) w below =
    no_overspending account limit (or_unchanged (perform op db) db) ops w.1
      (or_unchanged_bounded op account limit db w.0 below)
