-- ===== src/Coordination/Transactions.antt =====
-- src/qmt_execution_core/coordination.py: the operations of `SQLiteExecutionCoordinator`. A
-- transaction that raises is rolled back, so an operation returns the new database or an error.
pub mod Parts
pub mod Claims
pub mod Cash
pub mod Keys
pub mod Release
pub mod Refusal
use Prim.Native.Nat.{max}
use qmt_execution_core.Common.{
  ℕ, ◌+◌, ◌-◌, Bool, true, false, not, ◌&&◌, String, str_eq, Option, none, some, List, ◌∷◌, ltb,
  if◌then◌else◌, update_rows,
}
use qmt_execution_core.Errors.{
  Result, ok, err, ◌>>=◌, ◌>>◌, raise_if, coordination_error, symbol_claim_conflict,
  cash_reservation_rejected,
}
use qmt_execution_core.Domain.{Side, buy, sell}
use qmt_execution_core.Finality.{ExecutionFinality, open_, resolved}
use qmt_execution_core.Coordination.Tables.{
  SymbolClaim, CashReservation, Db, Amount, finite_non_negative, epsilon, Sqlite, opened, Caller,
  reservation_of, find_claim, find_reservation, active_total, owns, insert_claim, claim_of,
  reservation_for, set_finality, delete_claim, release_cash,
}

-- `_plain_non_empty` on both names
unfoldable pub validate_identity : Caller → Result (Unit {0})
validate_identity k = do
  raise_if (str_eq k.account_key "") coordination_error
  raise_if (str_eq k.execution_id "") coordination_error

-- the claim step of `prepare`
unfoldable pub take_claim :
    Caller → Option SymbolClaim → List SymbolClaim → Result (List SymbolClaim)
unfolding owns
take_claim k none rows = insert_claim (claim_of k open_) rows
take_claim k (some c) rows = if owns k c then ok rows else err symbol_claim_conflict

-- the reservation step of `prepare` for a BUY; `effective = available - already_reserved` may be
-- negative, so the reserved sum stands on the other side of the test
unfoldable pub take_cash :
    Caller → ℕ → ℕ → Option CashReservation → List CashReservation → Result (List CashReservation)
unfolding reservation_for
take_cash k available required (some r) rows = do
  raise_if (not r.active) coordination_error
  raise_if (ltb epsilon ((r.required_cash - required) + (required - r.required_cash)))
      coordination_error
  ok rows
take_cash k available required none rows = do
  raise_if (ltb (available + epsilon) (required + active_total k.account_key rows))
      cash_reservation_rejected
  ok (reservation_for k required ∷ rows)

unfoldable pub reserve : Side → Caller → ℕ → ℕ → Db → Result (List CashReservation)
unfolding take_cash
reserve sell k available required db = ok db.reservations
reserve buy k available required db =
    take_cash k available required
      (find_reservation k.account_key k.execution_id k.client_order_id db) db.reservations

-- the amounts of a BUY are checked, those of a SELL are not read
unfoldable pub checked_for : Side → Amount → Result ℕ
unfolding finite_non_negative
checked_for buy a = finite_non_negative a
checked_for sell a = ok 0

unfoldable pub prepare : Sqlite → Caller → Amount → Amount → Db → Result Db
prepare sql k broker_available_cash required_cash db = do
  validate_identity k
  available ← checked_for k.side broker_available_cash
  required ← checked_for k.side required_cash
  opened sql
  claims ← take_claim k (find_claim k.account_key k.symbol db) db.claims
  reservations ← reserve k.side k available required db
  raise_if (not sql.commits) coordination_error
  ok (record { claims = claims; reservations = reservations })

-- the first check of `restore` and of `update_finality`
unfoldable pub not_foreign : Caller → Option SymbolClaim → Result (Unit {0})
unfolding owns
not_foreign k none = ok tt
not_foreign k (some c) = raise_if (not (owns k c)) symbol_claim_conflict

unfoldable pub finality_update : Caller → ExecutionFinality → Option SymbolClaim → Db → Result Db
finality_update k resolved none db =
    ok (record db { reservations = release_cash k db.reservations })
finality_update k resolved (some c) db =
    ok (record { claims = delete_claim k db.claims; reservations = release_cash k db.reservations })
finality_update k f none db = err coordination_error
finality_update k f (some c) db = ok (record db { claims = set_finality k f db.claims })

unfoldable pub update_finality : Sqlite → Caller → ExecutionFinality → Db → Result Db
update_finality sql k f db = do
  validate_identity k
  opened sql
  let claim = find_claim k.account_key k.symbol db
  not_foreign k claim
  next ← finality_update k f claim db
  raise_if (not sql.commits) coordination_error
  ok next

-- the claim step of `restore`
unfoldable pub restore_claim :
    Caller → ExecutionFinality → Option SymbolClaim → List SymbolClaim → Result (List SymbolClaim)
restore_claim k f none rows = insert_claim (claim_of k f) rows
restore_claim k f (some c) rows = ok (set_finality k f rows)

-- the reservation step of `restore`; the row found has the primary key, so the UPDATE is of it
unfoldable pub restore_cash :
    Side → Caller → ℕ → Option CashReservation → List CashReservation → List CashReservation
unfolding reservation_for
restore_cash sell k required found rows = rows
restore_cash buy k required none rows = reservation_for k required ∷ rows
restore_cash buy k required (some r) rows =
    update_rows (reservation_of k.account_key k.execution_id k.client_order_id)
      (λ q. record q { required_cash = max required r.required_cash; active = true }) rows

unfoldable pub is_resolved : ExecutionFinality → Bool
is_resolved resolved = true
is_resolved _ = false

unfoldable pub restore : Sqlite → Caller → Amount → ExecutionFinality → Db → Result Db
restore sql k required_cash f db = do
  validate_identity k
  if is_resolved f then update_finality sql k f db else do
    required ← checked_for k.side required_cash
    opened sql
    let claim = find_claim k.account_key k.symbol db
    not_foreign k claim
    claims ← restore_claim k f claim db.claims
    let found = find_reservation k.account_key k.execution_id k.client_order_id db
    raise_if (not sql.commits) coordination_error
    ok (record {
      claims = claims;
      reservations = restore_cash k.side k required found db.reservations;
    })

unfoldable pub held_by : Caller → Option SymbolClaim → Result Bool
unfolding owns
held_by k none = ok false
held_by k (some c) = if owns k c then ok true else err symbol_claim_conflict

-- a query reads outside a transaction: `sql.begins` says whether SQLite answers it
unfoldable pub has_claim : Sqlite → Caller → Db → Result Bool
has_claim sql k db = do
  validate_identity k
  opened sql
  held_by k (find_claim k.account_key k.symbol db)

unfoldable pub active_reserved_cash : Sqlite → String → Db → Result ℕ
active_reserved_cash sql account db = do
  raise_if (str_eq account "") coordination_error
  opened sql
  ok (active_total account db.reservations)

unfoldable pub get_claim : Sqlite → String → String → Db → Result (Option SymbolClaim)
get_claim sql account symbol db = do
  raise_if (str_eq account "") coordination_error
  raise_if (str_eq symbol "") coordination_error
  opened sql
  ok (find_claim account symbol db)

unfoldable pub get_reservation :
    Sqlite → String → String → String → Db → Result (Option CashReservation)
get_reservation sql account execution client db = do
  raise_if (str_eq account "") coordination_error
  raise_if (str_eq execution "") coordination_error
  raise_if (str_eq client "") coordination_error
  opened sql
  ok (find_reservation account execution client db)
