-- ===== src/Coordination/Transactions/Parts.antt =====
-- What a committed transaction of coordination.py consists of.
use qmt_execution_core.Common.{ℕ, ◌≡◌, false, not}
use qmt_execution_core.Errors.{ok, raise_if, bind_ok, coordination_error}
use qmt_execution_core.Finality.{ExecutionFinality, resolved}
use qmt_execution_core.Coordination.Tables.{
  Db, Amount, Sqlite, opened, Caller, find_claim, find_reservation,
}
use qmt_execution_core.Coordination.Transactions.{
  validate_identity, checked_for, take_claim, reserve, not_foreign, finality_update, restore_claim,
  restore_cash, is_resolved, prepare, restore, update_finality,
}

module _ (sql : Sqlite) (k : Caller) (db next : Db) where
  pub prepare_parts :
      (b r : Amount)
      → prepare sql k b r db ≡ ok next
      → (available : ℕ) × (required : ℕ) × (checked_for k.side b ≡ ok available)
        × (checked_for k.side r ≡ ok required)
        × (take_claim k (find_claim k.account_key k.symbol db) db.claims ≡ ok next.claims)
        × (reserve k.side k available required db ≡ ok next.reservations)
  unfolding prepare
  prepare_parts b r h =
      let (_, _, h₁) = bind_ok (validate_identity k) _ h in
      let (available, a, h₂) = bind_ok (checked_for k.side b) _ h₁ in
      let (required, q, h₃) = bind_ok (checked_for k.side r) _ h₂ in
      let (_, _, h₄) = bind_ok (opened sql) _ h₃ in
      let (claims, c, h₅) =
        bind_ok (take_claim k (find_claim k.account_key k.symbol db) db.claims) _ h₄ in
      let (reservations, s, h₆) = bind_ok (reserve k.side k available required db) _ h₅ in
      let (_, _, h₇) = bind_ok (raise_if (not sql.commits) coordination_error) _ h₆ in
      (available, required, a, q, cc, cc)

  pub update_finality_parts :
      (f : ExecutionFinality)
      → update_finality sql k f db ≡ ok next
      → (not_foreign k (find_claim k.account_key k.symbol db) ≡ ok tt)
        × (finality_update k f (find_claim k.account_key k.symbol db) db ≡ ok next)
  unfolding update_finality
  update_finality_parts f h =
      let (_, _, h₁) = bind_ok (validate_identity k) _ h in
      let (_, _, h₂) = bind_ok (opened sql) _ h₁ in
      let (_, n, h₃) = bind_ok (not_foreign k (find_claim k.account_key k.symbol db)) _ h₂ in
      let (d, u, h₄) =
        bind_ok (finality_update k f (find_claim k.account_key k.symbol db) db) _ h₃ in
      let (_, _, h₅) = bind_ok (raise_if (not sql.commits) coordination_error) _ h₄ in (n, cc)

  pub restore_parts :
      (r : Amount) (f : ExecutionFinality)
      → is_resolved f ≡ false
      → restore sql k r f db ≡ ok next
      → (required : ℕ) × (checked_for k.side r ≡ ok required)
        × (not_foreign k (find_claim k.account_key k.symbol db) ≡ ok tt)
        × (restore_claim k f (find_claim k.account_key k.symbol db) db.claims ≡ ok next.claims)
        × (restore_cash k.side k required
              (find_reservation k.account_key k.execution_id k.client_order_id db)
              db.reservations
            ≡ next.reservations)
  unfolding restore
  restore_parts r f unresolved h =
      let (_, _, h₁) = bind_ok (validate_identity k) _ h in
      let (required, q, h₂) = bind_ok (checked_for k.side r) _ (rw unresolved at h₁) in
      let (_, _, h₃) = bind_ok (opened sql) _ h₂ in
      let (_, n, h₄) = bind_ok (not_foreign k (find_claim k.account_key k.symbol db)) _ h₃ in
      let (claims, c, h₅) =
        bind_ok (restore_claim k f (find_claim k.account_key k.symbol db) db.claims) _ h₄ in
      let (_, _, h₆) = bind_ok (raise_if (not sql.commits) coordination_error) _ h₅ in
      (required, q, n, cc, cc)

  pub restore_resolved :
      (r : Amount)
      → restore sql k r resolved db ≡ ok next
      → update_finality sql k resolved db ≡ ok next
  unfolding restore is_resolved
  restore_resolved r h = (bind_ok (validate_identity k) _ h).2
