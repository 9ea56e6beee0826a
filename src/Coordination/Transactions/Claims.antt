-- ===== src/Coordination/Transactions/Claims.antt =====
-- Who owns a symbol: coordination.py gives an account's symbol to one execution at a time.
use qmt_execution_core.Common.{
  ◌≡◌, refl, Bool, true, false, not, String, eq_iff, some, List, [], ◌∷◌, arith, find_row,
  find-update_rows, find_row_hit,
}
use qmt_execution_core.Errors.{ok}
use qmt_execution_core.Finality.{ExecutionFinality, open_, resolved}
use qmt_execution_core.Coordination.Tables.{
  SymbolClaim, Db, Amount, Sqlite, Caller, claim_at, claim_by, find_claim, owns, insert_claim,
  claim_of, set_finality, delete_claim,
}
use qmt_execution_core.Coordination.Transactions.{
  take_claim, not_foreign, finality_update, restore_claim, is_resolved, prepare, restore,
  update_finality,
}
use qmt_execution_core.Coordination.Transactions.Parts.{
  prepare_parts, update_finality_parts, restore_parts, restore_resolved,
}

-- The claim is not the caller's.
abbrev pub is_foreign : Caller → SymbolClaim → Bool
is_foreign k c = not (claim_by k.account_key k.execution_id k.client_order_id c)

insert_foreign :
    (k : Caller) (f : ExecutionFinality) (account symbol : String) (c : SymbolClaim)
    (rows rows' : List SymbolClaim)
    → find_row (claim_at account symbol) rows ≡ some c
    → insert_claim (claim_of k f) rows ≡ ok rows'
    → find_row (claim_at account symbol) rows' ≡ some c
unfolding insert_claim claim_of
insert_foreign k f account symbol c rows rows' h i =
    ground (arith, eq_iff k.account_key account, eq_iff k.symbol symbol)

set_foreign :
    (k : Caller) (f : ExecutionFinality) (account symbol : String) (c : SymbolClaim)
    (rows : List SymbolClaim)
    → find_row (claim_at account symbol) rows ≡ some c
    → claim_at k.account_key k.symbol c ≡ false
    → find_row (claim_at account symbol) (set_finality k f rows) ≡ some c
unfolding set_finality
set_foreign k f account symbol c rows h o = ground (
  arith,
  find-update_rows (claim_at k.account_key k.symbol) (claim_at account symbol)
      (λ c. record c { finality = f }) rows (λ a. refl),
)

delete_foreign :
    (k : Caller) (account symbol : String) (c : SymbolClaim) (rows : List SymbolClaim)
    → find_row (claim_at account symbol) rows ≡ some c
    → is_foreign k c ≡ true
    → find_row (claim_at account symbol) (delete_claim k rows) ≡ some c
unfolding delete_claim owns
delete_foreign k account symbol c [] h o = cc
delete_foreign k account symbol c (r ∷ rows) h o =
    ground (arith, delete_foreign k account symbol c rows)

-- a claim at the caller's own key that `not_foreign` lets pass is the caller's
at_own_key :
    (k : Caller) (account symbol : String) (c : SymbolClaim) (db : Db)
    → find_claim account symbol db ≡ some c
    → not_foreign k (find_claim k.account_key k.symbol db) ≡ ok tt
    → is_foreign k c ≡ true
    → claim_at k.account_key k.symbol c ≡ false
unfolding not_foreign owns
at_own_key k account symbol c db h n o = ground (
  arith,
  find_row_hit (claim_at account symbol) db.claims c h,
  eq_iff c.account_key account,
  eq_iff c.symbol symbol,
  eq_iff c.account_key k.account_key,
  eq_iff c.symbol k.symbol,
)

module _ (sql : Sqlite) (k : Caller) (db next : Db) (account symbol : String) (c : SymbolClaim)
    (held : find_claim account symbol db ≡ some c) (foreign : is_foreign k c ≡ true) where
  pub prepare_foreign :
      (b r : Amount) → prepare sql k b r db ≡ ok next → find_claim account symbol next ≡ some c
  unfolding take_claim
  prepare_foreign b r h =
      let (_, _, _, _, t, _) = prepare_parts sql k db next b r h in
      ground (arith, insert_foreign k open_ account symbol c db.claims next.claims)

  pub update_foreign :
      (f : ExecutionFinality)
      → update_finality sql k f db ≡ ok next
      → find_claim account symbol next ≡ some c
  unfolding finality_update
  update_foreign f h =
      let (n, u) = update_finality_parts sql k db next f h in
      ground (
        arith,
        delete_foreign k account symbol c db.claims,
        set_foreign k f account symbol c db.claims held
            (at_own_key k account symbol c db held n foreign),
      )

  pub restore_foreign :
      (r : Amount) (f : ExecutionFinality)
      → restore sql k r f db ≡ ok next
      → find_claim account symbol next ≡ some c
  unfolding restore_claim is_resolved
  restore_foreign r resolved h = update_foreign resolved (restore_resolved sql k db next r h)
  restore_foreign r f h =
      let (_, _, n, u, _) = restore_parts sql k db next r f refl h in
      ground (
        arith,
        insert_foreign k f account symbol c db.claims next.claims,
        set_foreign k f account symbol c db.claims held
            (at_own_key k account symbol c db held n foreign),
      )
