-- ===== src/Coordination/Transactions/Release.antt =====
-- What a resolved execution gives back in coordination.py, and what `restore` takes again.
use Prim.Native.Nat.{max}
use qmt_execution_core.Common.{
  ℕ, ◌≤◌, ◌≡◌, refl, true, false, String, Option, none, some, List, [], ◌∷◌, arith, IsKey, find_row,
  find_row_congr, find-delete_rows-none, find-update_rows, Option-cases, inl, inr, eq_iff, eq_refl,
  subst, find_row_hit, ◌≢◌, ◌&&◌,
}
use qmt_execution_core.Errors.{ok}
use qmt_execution_core.Domain.{buy}
use qmt_execution_core.Finality.{ExecutionFinality, resolved}
use qmt_execution_core.Coordination.Tables.{
  SymbolClaim, CashReservation, Db, amount, Sqlite, Caller, claim_at, reservation_of, find_claim,
  find_reservation, active_total, delete_claim, release_cash, reservation_for, owns,
  finite_non_negative,
}
use qmt_execution_core.Coordination.Transactions.{
  not_foreign, finality_update, restore_cash, is_resolved, checked_for, restore, update_finality,
}
use qmt_execution_core.Coordination.Transactions.Parts.{update_finality_parts, restore_parts}
use qmt_execution_core.Coordination.Transactions.Keys.{IsValid, same_symbol}
use qmt_execution_core.Coordination.Transactions.Cash.{release_cash-le}

delete_claim_gone :
    (k : Caller) (c : SymbolClaim) (rows : List SymbolClaim)
    → IsKey same_symbol rows
    → find_row (claim_at k.account_key k.symbol) rows ≡ some c
    → owns k c ≡ true
    → find_row (claim_at k.account_key k.symbol) (delete_claim k rows) ≡ none
unfolding delete_claim owns
delete_claim_gone k c [] keys f o = cc
delete_claim_gone k c (r ∷ rows) keys f o = ground (
  arith,
  delete_claim_gone k c rows keys.1,
  eq_iff r.account_key k.account_key,
  eq_iff r.symbol k.symbol,
  find_row_congr (same_symbol r) (claim_at k.account_key k.symbol) rows,
  find-delete_rows-none (λ a. claim_at k.account_key k.symbol a && owns k a)
      (claim_at k.account_key k.symbol) rows,
)

released :
    (k : Caller) (rows : List CashReservation) (r : CashReservation)
    → find_row (reservation_of k.account_key k.execution_id k.client_order_id) (release_cash k rows)
      ≡ some r
    → r.active ≡ false
unfolding release_cash
released k [] r h = cc
released k (q ∷ rows) r h = ground (arith, released k rows r)

claim_gone :
    (k : Caller) (found : Option SymbolClaim) (db next : Db)
    → IsKey same_symbol db.claims
    → find_claim k.account_key k.symbol db ≡ found
    → not_foreign k found ≡ ok tt
    → finality_update k resolved found db ≡ ok next
    → find_claim k.account_key k.symbol next ≡ none
unfolding finality_update not_foreign
claim_gone k none db next keys f n u = ground arith
claim_gone k (some c) db next keys f n u = ground (arith, delete_claim_gone k c db.claims keys f)

released_by :
    (k : Caller) (found : Option SymbolClaim) (db next : Db) (account : String)
    → finality_update k resolved found db ≡ ok next
    → (next.reservations ≡ release_cash k db.reservations)
      × (active_total account next.reservations ≤ active_total account db.reservations)
unfolding finality_update
released_by k none db next account u =
    (cc, ground (arith, release_cash-le k account db.reservations))
released_by k (some c) db next account u =
    (cc, ground (arith, release_cash-le k account db.reservations))

-- After a committed `update_finality` to `RESOLVED` the symbol is free again and the execution's
-- reservation, if it had one, is inactive; no account's reserved total has grown.
pub resolved_releases :
    (sql : Sqlite) (k : Caller) (db next : Db) (account : String)
    → IsValid db
    → update_finality sql k resolved db ≡ ok next
    → (find_claim k.account_key k.symbol next ≡ none)
      × ((r : CashReservation)
          → find_reservation k.account_key k.execution_id k.client_order_id next ≡ some r
          → r.active ≡ false)
      × (active_total account next.reservations ≤ active_total account db.reservations)
resolved_releases sql k db next account v h =
    let (n, u) = update_finality_parts sql k db next resolved h in
    let (rows, less) = released_by k (find_claim k.account_key k.symbol db) db next account u in
    (
      claim_gone k (find_claim k.account_key k.symbol db) db next v.one_claim_per_symbol refl n u,
      λ r f. released k db.reservations r (
          subst
            (λ l.
              find_row (reservation_of k.account_key k.execution_id k.client_order_id) l ≡ some r)
            rows f),
      less,
    )

reservation_restored :
    (k : Caller) (n : ℕ) (db : Db)
    → (r : CashReservation) × (find_row
          (reservation_of k.account_key k.execution_id k.client_order_id)
          (restore_cash buy k n
            (find_reservation k.account_key k.execution_id k.client_order_id db)
            db.reservations)
        ≡ some r)
      × (r.active ≡ true)
      × (n ≤ r.required_cash)
      × ((q : CashReservation)
          → find_reservation k.account_key k.execution_id k.client_order_id db ≡ some q
          → q.required_cash ≤ r.required_cash)
unfolding restore_cash reservation_for
reservation_restored k n db =
    elim (Option-cases (find_reservation k.account_key k.execution_id k.client_order_id db)) [
      | inl missing ↦ (
        reservation_for k n,
        ground (arith, eq_refl k.account_key, eq_refl k.execution_id, eq_refl k.client_order_id),
        refl,
        omega arith,
        λ q f. cc,
      )
      | inr (p, found) ↦ (
        record p { required_cash = max n p.required_cash; active = true },
        ground (
          arith,
          find_row_hit (reservation_of k.account_key k.execution_id k.client_order_id)
              db.reservations p found,
          find-update_rows (reservation_of k.account_key k.execution_id k.client_order_id)
              (reservation_of k.account_key k.execution_id k.client_order_id)
              (λ q. record q { required_cash = max n p.required_cash; active = true })
              db.reservations (λ a. refl),
        ),
        refl,
        omega arith,
        λ q f. ground arith,
      )
    ]

-- A committed `restore` of an unresolved BUY leaves an active reservation of the caller that is no
-- smaller than the amount asked for, and no smaller than what was reserved before.
restore_reserves :
    (sql : Sqlite) (k : Caller) (db next : Db) (n : ℕ) (f : ExecutionFinality)
    → k.side ≡ buy
    → f ≢ resolved
    → restore sql k (amount n) f db ≡ ok next
    → (r : CashReservation) × (find_reservation k.account_key k.execution_id k.client_order_id next
        ≡ some r)
      × (r.active ≡ true)
      × (n ≤ r.required_cash)
      × ((q : CashReservation)
          → find_reservation k.account_key k.execution_id k.client_order_id db ≡ some q
          → q.required_cash ≤ r.required_cash)
unfolding is_resolved checked_for finite_non_negative
restore_reserves sql k db next n f s u h =
    let (m, q, _, _, rows) = restore_parts sql k db next (amount n) f (ground arith) h in
    let same : m ≡ n = ground arith in
    let kept = reservation_restored k n db in
    subst
      (λ l.
        (r : CashReservation) × (find_row
            (reservation_of k.account_key k.execution_id k.client_order_id) l
          ≡ some r)
        × (r.active ≡ true)
        × (n ≤ r.required_cash)
        × ((q : CashReservation)
            → find_reservation k.account_key k.execution_id k.client_order_id db ≡ some q
            → q.required_cash ≤ r.required_cash))
      (rw (← same, ← s) rows) kept
