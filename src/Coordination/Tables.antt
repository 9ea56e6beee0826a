-- ===== src/Coordination/Tables.antt =====
-- src/qmt_execution_core/coordination.py: the tables of the coordination database and the SQL
-- statements on them. Amounts of money are whole numbers of a unit of 10⁻⁹, which is `_EPSILON`:
-- the rounding of floats is not modelled. The time stamps of the rows are left out.
use qmt_execution_core.Common.{
  ℕ, Bool, true, false, not, ◌&&◌, ◌||◌, String, str_eq, Option, none, some, List, ◌∷◌,
  if◌then◌else◌, find_row, update_rows, delete_rows, sum_rows,
}
use qmt_execution_core.Errors.{
  Result, ok, err, ◌>>◌, raise_if, coordination_error, os_error, sqlite_error,
}
use qmt_execution_core.Domain.{ExecutionRequest}
use qmt_execution_core.Finality.{ExecutionFinality}

-- A row of `symbol_claim`; the time stamps are left out.
pub record SymbolClaim : Type 0 where
  pub account_key : String
  pub symbol : String
  pub execution_id : String
  pub client_order_id : String
  pub finality : ExecutionFinality

-- A row of `cash_reservation`.
pub record CashReservation : Type 0 where
  pub account_key : String
  pub execution_id : String
  pub client_order_id : String
  pub symbol : String
  pub required_cash : ℕ
  pub active : Bool

pub record Db : Type 0 where
  pub claims : List SymbolClaim
  pub reservations : List CashReservation

-- What an argument of type `float | None` can hold, as `_finite_non_negative` tells it apart.
pub data Amount : Type 0 where
  absent not_numeric not_finite : Amount
  negative : ℕ → Amount
  amount : ℕ → Amount

unfoldable pub finite_non_negative : Amount → Result ℕ
finite_non_negative (amount n) = ok n
finite_non_negative _ = err coordination_error

abbrev pub epsilon : ℕ
epsilon = 1

-- What `_connect` meets, which stands outside every `try`: the folder can not be made, or SQLite
-- fails to open the file.
pub data Connection : Type 0 where
  opens no_folder no_database : Connection

-- `_connect`
abbrev pub connect_database : Connection → Result (Unit {0})
connect_database opens = ok tt
connect_database no_folder = err os_error
connect_database no_database = err sqlite_error

-- How SQLite answers: the connection, whether it takes the write lock, and whether it carries the
-- transaction through. Rolling back and closing do not fail.
pub record Sqlite : Type 0 where
  pub connection : Connection
  pub begins : Bool
  pub commits : Bool

-- `_connect` and `_begin`
abbrev pub opened : Sqlite → Result (Unit {0})
opened sql = do connect_database sql.connection; raise_if (not sql.begins) coordination_error

-- Who calls: `account_key`, `execution_id` and the request of the execution.
pub record Caller : Type 0 where
  pub account_key : String
  pub execution_id : String
  pub request : ExecutionRequest
  pub open request use {client_order_id, symbol, side}

-- The WHERE clauses.
abbrev pub claim_at : String → String → SymbolClaim → Bool
claim_at account symbol c = str_eq c.account_key account && str_eq c.symbol symbol

abbrev pub claim_by : String → String → String → SymbolClaim → Bool
claim_by account execution client c =
    str_eq c.account_key account
    && (str_eq c.execution_id execution && str_eq c.client_order_id client)

abbrev pub reservation_of : String → String → String → CashReservation → Bool
reservation_of account execution client r =
    str_eq r.account_key account
    && (str_eq r.execution_id execution && str_eq r.client_order_id client)

abbrev pub active_in : String → CashReservation → Bool
active_in account r = str_eq r.account_key account && r.active

-- SELECT ... FROM symbol_claim WHERE account_key=? AND symbol=?
abbrev pub find_claim : String → String → Db → Option SymbolClaim
find_claim account symbol db = find_row (claim_at account symbol) db.claims

abbrev pub find_reservation : String → String → String → Db → Option CashReservation
find_reservation account execution client db =
    find_row (reservation_of account execution client) db.reservations

-- SELECT COALESCE(SUM(required_cash), 0.0) ... WHERE account_key=? AND active=1
abbrev pub active_total : String → List CashReservation → ℕ
active_total account rows = sum_rows (active_in account) (λ r. r.required_cash) rows

unfoldable pub owns : Caller → SymbolClaim → Bool
owns k c = str_eq c.execution_id k.execution_id && str_eq c.client_order_id k.client_order_id

unfoldable pub is_present : {A : Type 0} → Option A → Bool
is_present none = false
is_present (some a) = true

-- INSERT INTO symbol_claim. The primary key is (account_key, symbol), and a unique index stands on
-- (account_key, execution_id, client_order_id): `sqlite3.IntegrityError` is re-raised as
-- `CoordinationError`.
unfoldable pub insert_claim : SymbolClaim → List SymbolClaim → Result (List SymbolClaim)
unfolding is_present
insert_claim c rows =
    if is_present (find_row (claim_at c.account_key c.symbol) rows)
      || is_present (find_row (claim_by c.account_key c.execution_id c.client_order_id) rows)
    then err coordination_error
    else ok (c ∷ rows)

unfoldable pub claim_of : Caller → ExecutionFinality → SymbolClaim
claim_of k f = record {
  account_key = k.account_key;
  symbol = k.symbol;
  execution_id = k.execution_id;
  client_order_id = k.client_order_id;
  finality = f;
}

unfoldable pub reservation_for : Caller → ℕ → CashReservation
reservation_for k required = record {
  account_key = k.account_key;
  execution_id = k.execution_id;
  client_order_id = k.client_order_id;
  symbol = k.symbol;
  required_cash = required;
  active = true;
}

-- UPDATE symbol_claim SET finality=? WHERE account_key=? AND symbol=?
unfoldable pub set_finality : Caller → ExecutionFinality → List SymbolClaim → List SymbolClaim
set_finality k f rows =
    update_rows (claim_at k.account_key k.symbol) (λ c. record c { finality = f }) rows

-- DELETE FROM symbol_claim WHERE account_key=? AND symbol=? AND execution_id=? AND client_order_id=?
unfoldable pub delete_claim : Caller → List SymbolClaim → List SymbolClaim
unfolding owns
delete_claim k rows = delete_rows (λ c. claim_at k.account_key k.symbol c && owns k c) rows

-- UPDATE cash_reservation SET active=0 ... AND active=1
unfoldable pub release_cash : Caller → List CashReservation → List CashReservation
release_cash k rows =
    update_rows (λ r. reservation_of k.account_key k.execution_id k.client_order_id r && r.active)
      (λ r. record r { active = false }) rows
