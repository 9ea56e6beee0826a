-- ===== src/Coordination/Ops/Exclusive.antt =====
-- One execution at a time owns an account's symbol, in every history of transactions.
use qmt_execution_core.Common.{
  ◌≡◌, ◌≢◌, Bool, true, false, ◌&&◌, String, str_eq, eq_iff, eq_refl, Option-cases, some, List, [],
  ◌∷◌, arith, find_row_hit, inl, inr,
}
use qmt_execution_core.Errors.{ok, Result-cases}
use qmt_execution_core.Finality.{open_}
use qmt_execution_core.Coordination.Tables.{
  SymbolClaim, Db, Amount, Sqlite, Caller, claim_at, find_claim, owns, insert_claim, claim_of,
}
use qmt_execution_core.Coordination.Transactions
use qmt_execution_core.Coordination.Transactions.{take_claim}
use qmt_execution_core.Coordination.Transactions.Parts.{prepare_parts}
use qmt_execution_core.Coordination.Transactions.Claims.{
  is_foreign, prepare_foreign, update_foreign, restore_foreign,
}
use qmt_execution_core.Coordination.Transactions.Keys.{
  IsValid, prepare-IsValid, update_finality-IsValid, restore-IsValid,
}
use qmt_execution_core.Coordination.Ops.{
  Op, prepare, restore, update_finality, perform, caller, or_unchanged, history,
}

perform_foreign :
    (op : Op) (db next : Db) (account symbol : String) (c : SymbolClaim)
    → find_claim account symbol db ≡ some c
    → is_foreign (caller op) c ≡ true
    → perform op db ≡ ok next
    → find_claim account symbol next ≡ some c
unfolding perform
perform_foreign (prepare sql k b r) db next account symbol c held o h =
    prepare_foreign sql k db next account symbol c held o b r h
perform_foreign (restore sql k r f) db next account symbol c held o h =
    restore_foreign sql k db next account symbol c held o r f h
perform_foreign (update_finality sql k f) db next account symbol c held o h =
    update_foreign sql k db next account symbol c held o f h

-- Every operation of the history is some other execution's.
abbrev pub AllForeign : SymbolClaim → List Op → Type 0
AllForeign c [] = Unit {0}
AllForeign c (op ∷ ops) = (is_foreign (caller op) c ≡ true) × AllForeign c ops

or_unchanged_foreign :
    (op : Op) (db : Db) (account symbol : String) (c : SymbolClaim)
    → find_claim account symbol db ≡ some c
    → is_foreign (caller op) c ≡ true
    → find_claim account symbol (or_unchanged (perform op db) db) ≡ some c
or_unchanged_foreign op db account symbol c held o = elim (Result-cases (perform op db)) [
  | inl (next, h) ↦ rw h (perform_foreign op db next account symbol c held o h)
  | inr (e, h) ↦ rw h held
]

-- A claim outlives every history of transactions of other executions, whatever they ask for and
-- whether they succeed or raise: nobody else can take, change or release it.
pub claim_outlives_others :
    (db : Db) (ops : List Op) (account symbol : String) (c : SymbolClaim)
    → find_claim account symbol db ≡ some c
    → AllForeign c ops
    → find_claim account symbol (history db ops) ≡ some c
unfolding history
claim_outlives_others db [] account symbol c held o = held
claim_outlives_others db (op ∷ ops) account symbol c held o =
    claim_outlives_others (or_unchanged (perform op db) db) ops account symbol c
      (or_unchanged_foreign op db account symbol c held o.0) o.1

-- What a committed `prepare` leaves: the caller owns the symbol.
pub prepare_claims :
    (sql : Sqlite) (k : Caller) (b r : Amount) (db next : Db)
    → Transactions.prepare sql k b r db ≡ ok next
    → (c : SymbolClaim) × (find_claim k.account_key k.symbol next ≡ some c) × (owns k c ≡ true)
unfolding take_claim insert_claim claim_of owns
prepare_claims sql k b r db next h =
    let (_, _, _, _, t, _) = prepare_parts sql k db next b r h in
    elim (Option-cases (find_claim k.account_key k.symbol db)) [
      | inl free ↦ (
        claim_of k open_,
        ground (arith, eq_refl k.account_key, eq_refl k.symbol),
        ground (arith, eq_refl k.execution_id, eq_refl k.client_order_id),
      )
      | inr (c, held) ↦ (c, ground arith, ground arith)
    ]

-- One execution: the same account, `execution_id` and `client_order_id`.
abbrev pub same_execution : Caller → Caller → Bool
same_execution k l =
    str_eq k.account_key l.account_key
    && (str_eq k.execution_id l.execution_id && str_eq k.client_order_id l.client_order_id)

abbrev pub OfOthers : Caller → List Op → Type 0
OfOthers k [] = Unit {0}
OfOthers k (op ∷ ops) = (same_execution k (caller op) ≡ false) × OfOthers k ops

owned_is_foreign :
    (k l : Caller) (c : SymbolClaim)
    → c.account_key ≡ k.account_key
    → owns k c ≡ true
    → same_execution k l ≡ false
    → is_foreign l c ≡ true
unfolding owns
owned_is_foreign k l c a o d =
    ground (arith, eq_iff c.execution_id k.execution_id, eq_iff c.client_order_id k.client_order_id)

OfOthers-AllForeign :
    (k : Caller) (c : SymbolClaim) (ops : List Op)
    → c.account_key ≡ k.account_key
    → owns k c ≡ true
    → OfOthers k ops
    → AllForeign c ops
OfOthers-AllForeign k c [] a o d = tt
OfOthers-AllForeign k c (op ∷ ops) a o d =
    (owned_is_foreign k (caller op) c a o d.0, OfOthers-AllForeign k c ops a o d.1)

refused :
    (sql : Sqlite) (l : Caller) (b r : Amount) (db : Db) (c : SymbolClaim) (final : Db)
    → find_claim l.account_key l.symbol db ≡ some c
    → is_foreign l c ≡ true
    → Transactions.prepare sql l b r db ≢ ok final
unfolding take_claim owns
refused sql l b r db c final held o h =
    let (_, _, _, _, t, _) = prepare_parts sql l db final b r h in
    ground (arith, find_row_hit (claim_at l.account_key l.symbol) db.claims c held)

-- No double claim: once `prepare` has committed for one execution, then after any history of
-- transactions of other executions, `prepare` for another execution on the same account and symbol
-- does not commit.
pub no_double_claim :
    (sql sql' : Sqlite) (k l : Caller) (b r b' r' : Amount) (db next final : Db) (ops : List Op)
    → Transactions.prepare sql k b r db ≡ ok next
    → OfOthers k ops
    → same_execution k l ≡ false
    → l.account_key ≡ k.account_key
    → l.symbol ≡ k.symbol
    → Transactions.prepare sql' l b' r' (history next ops) ≢ ok final
no_double_claim sql sql' k l b r b' r' db next final ops h others d a s =
    let (c, held, o) = prepare_claims sql k b r db next h in
    let here = find_row_hit (claim_at k.account_key k.symbol) next.claims c held in
    let at : c.account_key ≡ k.account_key = ground (arith, eq_iff c.account_key k.account_key) in
    let kept =
      claim_outlives_others next ops k.account_key k.symbol c held
        (OfOthers-AllForeign k c ops at o others) in
    refused sql' l b' r' (history next ops) c final (rw (a, s) kept) (owned_is_foreign k l c at o d)

perform-IsValid : (op : Op) (db next : Db) → IsValid db → perform op db ≡ ok next → IsValid next
unfolding perform
perform-IsValid (prepare sql k b r) db next v h = prepare-IsValid sql k db next v b r h
perform-IsValid (restore sql k r f) db next v h = restore-IsValid sql k db next v r f h
perform-IsValid (update_finality sql k f) db next v h = update_finality-IsValid sql k db next v f h

or_unchanged-IsValid : (op : Op) (db : Db) → IsValid db → IsValid (or_unchanged (perform op db) db)
or_unchanged-IsValid op db v = elim (Result-cases (perform op db)) [
  | inl (next, h) ↦ rw h (perform-IsValid op db next v h)
  | inr (e, h) ↦ rw h v
]

-- Every history of transactions keeps the keys: one claim for an account's symbol, one claim and
-- one reservation for an execution.
pub history-IsValid : (db : Db) (ops : List Op) → IsValid db → IsValid (history db ops)
unfolding history
history-IsValid db [] v = v
history-IsValid db (op ∷ ops) v =
    history-IsValid (or_unchanged (perform op db) db) ops (or_unchanged-IsValid op db v)
