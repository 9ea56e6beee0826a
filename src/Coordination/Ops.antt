-- ===== src/Coordination/Ops.antt =====
-- The writing operations of coordination.py as values, so that histories of them can be spoken of.
pub mod Exclusive
pub mod Budget
use qmt_execution_core.Common.{List, [], ◌∷◌}
use qmt_execution_core.Errors.{Result, ok, err}
use qmt_execution_core.Finality.{ExecutionFinality}
use qmt_execution_core.Coordination.Tables.{Db, Amount, Sqlite, Caller}
use qmt_execution_core.Coordination.Transactions

pub data Op : Type 0 where
  prepare : Sqlite → Caller → Amount → Amount → Op
  restore : Sqlite → Caller → Amount → ExecutionFinality → Op
  update_finality : Sqlite → Caller → ExecutionFinality → Op

unfoldable pub perform : Op → Db → Result Db
perform (prepare sql k available required) db = Transactions.prepare sql k available required db
perform (restore sql k required f) db = Transactions.restore sql k required f db
perform (update_finality sql k f) db = Transactions.update_finality sql k f db

abbrev pub caller : Op → Caller
caller (prepare sql k available required) = k
caller (restore sql k required f) = k
caller (update_finality sql k f) = k

-- an operation that raises leaves the database as it was
abbrev pub or_unchanged : Result Db → Db → Db
or_unchanged (ok next) db = next
or_unchanged (err e) db = db

-- a history of transactions, in the order in which SQLite serializes them
unfoldable pub history : Db → List Op → Db
history db [] = db
history db (op ∷ ops) = history (or_unchanged (perform op db) db) ops
