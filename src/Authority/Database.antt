-- ===== src/Authority/Database.antt =====
-- The identity of a coordination database, src/qmt_execution_core/coordination.py: `_initialize`
-- and `create` of `SQLiteExecutionCoordinator`. The claims and reservations are in Coordination.
use qmt_execution_core.Common.{
  ℕ, Bool, ◌&&◌, Option, none, some, List, [], ◌∷◌, ℤ, pos, int_eq, if◌then◌else◌,
}
use qmt_execution_core.Errors.{
  Result, ok, err, ◌>>=◌, coordination_error, coordination_identity_error,
}
use qmt_execution_core.Binding.Digest.{text_eq}

pub record CoordinationDbIdentity : Type 0 where
  pub schema_version : ℤ
  pub account_key : List ℕ
  pub db_uuid : List ℕ
  pub authority_id : List ℕ

-- What the two tables hold: the row of `coordination_meta`, if any, and the identities.
pub record Database : Type 0 where
  pub meta : Option ℤ
  pub identities : List CoordinationDbIdentity

abbrev pub empty_database : Database
empty_database = record { meta = none; identities = [] }

abbrev pub identity_eq : CoordinationDbIdentity → CoordinationDbIdentity → Bool
identity_eq a b =
    text_eq a.account_key b.account_key
    && (text_eq a.db_uuid b.db_uuid
        && (text_eq a.authority_id b.authority_id && int_eq a.schema_version b.schema_version))

-- The row of `coordination_meta` is written once and compared ever after.
abbrev pub with_meta : Option ℤ → Database → Result Database
with_meta none db = ok (record db { meta = some (pos 1) })
with_meta (some version) db = if int_eq version (pos 1) then ok db else err coordination_error

abbrev pub require_schema : Database → Result Database
require_schema db = with_meta db.meta db

abbrev pub require_identity :
    CoordinationDbIdentity → List CoordinationDbIdentity → Database → Result Database
require_identity expected [] db = err coordination_identity_error
require_identity expected (row ∷ []) db =
    if identity_eq row expected then ok db else err coordination_identity_error
require_identity expected (row ∷ other ∷ rest) db = err coordination_identity_error

abbrev pub check_expected : Option CoordinationDbIdentity → Database → Result Database
check_expected none db = ok db
check_expected (some expected) db = require_identity expected db.identities db

-- The file that is opened; without an expectation a missing file is created.
abbrev pub opened_file : Option CoordinationDbIdentity → Option Database → Result Database
opened_file expected (some db) = ok db
opened_file none none = ok empty_database
opened_file (some expected) none = err coordination_identity_error

-- `_initialize`: the database as it is committed. What raises is rolled back.
unfoldable pub initialize : Option CoordinationDbIdentity → Option Database → Result Database
initialize expected file = do
  db ← opened_file expected file
  with_schema ← require_schema db
  check_expected expected with_schema

-- `create`: the file must not exist
unfoldable pub create_database : CoordinationDbIdentity → Option Database → Result Database
create_database identity (some db) = err coordination_identity_error
create_database identity none =
    initialize (some identity) (some (record { meta = some (pos 1); identities = identity ∷ [] }))
