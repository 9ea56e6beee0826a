-- ===== src/Coordination/Transactions/Keys.antt =====
-- The primary keys and the unique index of the tables of coordination.py.
use qmt_execution_core.Common.{
  ℕ, ◌≡◌, refl, Bool, Option, none, some, List, arith, IsKey, delete_rows-IsKey, update_rows-IsKey,
  Option-cases, inl, inr,
}
use qmt_execution_core.Errors.{ok}
use qmt_execution_core.Domain.{Side, buy, sell}
use qmt_execution_core.Finality.{ExecutionFinality, open_, resolved}
use qmt_execution_core.Coordination.Tables.{
  SymbolClaim, CashReservation, Db, Amount, Sqlite, Caller, claim_at, claim_by, reservation_of,
  find_reservation, insert_claim, claim_of, set_finality, delete_claim, release_cash,
  reservation_for,
}
use qmt_execution_core.Coordination.Transactions.{
  take_claim, take_cash, reserve, finality_update, restore_claim, restore_cash, is_resolved,
  prepare, restore, update_finality,
}
use qmt_execution_core.Coordination.Transactions.Parts.{
  prepare_parts, update_finality_parts, restore_parts, restore_resolved,
}

abbrev pub same_symbol : SymbolClaim → SymbolClaim → Bool
same_symbol c = claim_at c.account_key c.symbol

abbrev pub same_owner : SymbolClaim → SymbolClaim → Bool
same_owner c = claim_by c.account_key c.execution_id c.client_order_id

abbrev pub same_reservation : CashReservation → CashReservation → Bool
same_reservation r = reservation_of r.account_key r.execution_id r.client_order_id

-- The rows respect the declared keys.
pub record IsValid (db : Db) : Type 0 where
  pub one_claim_per_symbol : IsKey same_symbol db.claims
  pub one_claim_per_execution : IsKey same_owner db.claims
  pub one_reservation_per_execution : IsKey same_reservation db.reservations

abbrev ClaimKeys : List SymbolClaim → Type 0
ClaimKeys rows = IsKey same_symbol rows × IsKey same_owner rows

insert-ClaimKeys :
    (k : Caller) (f : ExecutionFinality) (rows rows' : List SymbolClaim)
    → insert_claim (claim_of k f) rows ≡ ok rows'
    → ClaimKeys rows
    → ClaimKeys rows'
unfolding insert_claim claim_of
insert-ClaimKeys k f rows rows' i h = ground arith

set_finality-ClaimKeys :
    (k : Caller) (f : ExecutionFinality) (rows : List SymbolClaim)
    → ClaimKeys rows
    → ClaimKeys (set_finality k f rows)
unfolding set_finality
set_finality-ClaimKeys k f rows h = (
  update_rows-IsKey same_symbol _ _ rows (λ a b. refl) (λ a b. refl) h.0,
  update_rows-IsKey same_owner _ _ rows (λ a b. refl) (λ a b. refl) h.1,
)

delete_claim-ClaimKeys :
    (k : Caller) (rows : List SymbolClaim) → ClaimKeys rows → ClaimKeys (delete_claim k rows)
unfolding delete_claim
delete_claim-ClaimKeys k rows h =
    (delete_rows-IsKey same_symbol _ rows h.0, delete_rows-IsKey same_owner _ rows h.1)

take_claim-ClaimKeys :
    (k : Caller) (found : Option SymbolClaim) (rows rows' : List SymbolClaim)
    → take_claim k found rows ≡ ok rows'
    → ClaimKeys rows
    → ClaimKeys rows'
unfolding take_claim
take_claim-ClaimKeys k none rows rows' t h = insert-ClaimKeys k open_ rows rows' t h
take_claim-ClaimKeys k (some c) rows rows' t h = ground arith

restore_claim-ClaimKeys :
    (k : Caller) (f : ExecutionFinality) (found : Option SymbolClaim)
    (rows rows' : List SymbolClaim)
    → restore_claim k f found rows ≡ ok rows'
    → ClaimKeys rows
    → ClaimKeys rows'
unfolding restore_claim
restore_claim-ClaimKeys k f none rows rows' t h = insert-ClaimKeys k f rows rows' t h
restore_claim-ClaimKeys k f (some c) rows rows' t h =
    ground (arith, set_finality-ClaimKeys k f rows h)

release_cash-IsKey :
    (k : Caller) (rows : List CashReservation)
    → IsKey same_reservation rows
    → IsKey same_reservation (release_cash k rows)
unfolding release_cash
release_cash-IsKey k rows h =
    update_rows-IsKey same_reservation _ _ rows (λ a b. refl) (λ a b. refl) h

reserve-IsKey :
    (side : Side) (k : Caller) (available required : ℕ) (db : Db) (rows : List CashReservation)
    → reserve side k available required db ≡ ok rows
    → IsKey same_reservation db.reservations
    → IsKey same_reservation rows
unfolding reserve take_cash reservation_for
reserve-IsKey sell k available required db rows r h = ground arith
reserve-IsKey buy k available required db rows r h = ground arith

restore_cash-IsKey :
    (side : Side) (k : Caller) (required : ℕ) (db : Db)
    → IsKey same_reservation db.reservations
    → IsKey same_reservation (
        restore_cash side k required
          (find_reservation k.account_key k.execution_id k.client_order_id db)
          db.reservations)
unfolding restore_cash reservation_for
restore_cash-IsKey sell k required db h = h
restore_cash-IsKey buy k required db h =
    elim (Option-cases (find_reservation k.account_key k.execution_id k.client_order_id db)) [
      | inl missing ↦ ground arith
      | inr (r, found) ↦
          rw found
            (update_rows-IsKey same_reservation _ _ db.reservations (λ a b. refl) (λ a b. refl) h)
    ]

finality_update-IsValid :
    (k : Caller) (f : ExecutionFinality) (found : Option SymbolClaim) (db next : Db)
    → finality_update k f found db ≡ ok next
    → IsValid db
    → IsValid next
unfolding finality_update
finality_update-IsValid k f found db next u h = ground (
  arith,
  delete_claim-ClaimKeys k db.claims,
  set_finality-ClaimKeys k f db.claims,
  release_cash-IsKey k db.reservations,
)

module _ (sql : Sqlite) (k : Caller) (db next : Db) (h : IsValid db) where
  pub prepare-IsValid : (b r : Amount) → prepare sql k b r db ≡ ok next → IsValid next
  prepare-IsValid b r p =
      let (a, q, _, _, c, s) = prepare_parts sql k db next b r p in
      let (x, y) =
        take_claim-ClaimKeys k _ db.claims next.claims c
          (h.one_claim_per_symbol, h.one_claim_per_execution) in
      record {
        one_claim_per_symbol = x;
        one_claim_per_execution = y;
        one_reservation_per_execution =
            reserve-IsKey k.side k a q db next.reservations s h.one_reservation_per_execution;
      }

  pub update_finality-IsValid :
      (f : ExecutionFinality) → update_finality sql k f db ≡ ok next → IsValid next
  update_finality-IsValid f p =
      finality_update-IsValid k f _ db next (update_finality_parts sql k db next f p).1 h

  pub restore-IsValid :
      (r : Amount) (f : ExecutionFinality) → restore sql k r f db ≡ ok next → IsValid next
  unfolding is_resolved
  restore-IsValid r resolved p =
      update_finality-IsValid resolved (restore_resolved sql k db next r p)
  restore-IsValid r f p =
      let (q, _, _, c, s) = restore_parts sql k db next r f refl p in
      let (x, y) =
        restore_claim-ClaimKeys k f _ db.claims next.claims c
          (h.one_claim_per_symbol, h.one_claim_per_execution) in
      record {
        one_claim_per_symbol = x;
        one_claim_per_execution = y;
        one_reservation_per_execution =
            rw (← s) (restore_cash-IsKey k.side k q db h.one_reservation_per_execution);
      }
