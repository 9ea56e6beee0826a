-- ===== src/Authority/Store.antt =====
-- src/qmt_execution_core/authority.py, `AccountRuntimeAuthority`: the files of one root, of which
-- the code names one for each account, and the databases. The lock of the account makes what
-- `resolve` does under it one step.
use qmt_execution_core.Common.{
  ℕ, Bool, true, false, not, ◌&&◌, ◌||◌, Option, none, some, List, [], ◌∷◌, ◌++◌, ℤ, pos, int_eq,
  code_points, if◌then◌else◌,
}
use qmt_execution_core.Errors.{
  Error, Result, ok, err, runtime_authority_error, coordination_error, os_error,
}
use qmt_execution_core.Exec.{Exec, pure, lift, gets, raise_if as fail_if, ◌>>=◌, ◌>>◌}
use qmt_execution_core.Binding.{Stored, unreadable, no_object, object}
use qmt_execution_core.Binding.Digest.{text_eq}
use qmt_execution_core.Authority.{
  Host, AccountAuthority, is_blank, is_environment, require_digest, account_authority,
  account_key_from_binding_identity, to_payload, from_payload,
}
use qmt_execution_core.Authority.Database.{CoordinationDbIdentity, Database, create_database}

abbrev pub some_of : {A : Type 0} → Result A → Result (Option A)
some_of (err e) = err e
some_of (ok a) = ok (some a)

-- A directory of files by path.
abbrev pub Files : Type 0 → Type 0
Files A = List (List ℕ × A)

abbrev pub lookup : {A : Type 0} → List ℕ → Files A → Option A
lookup path [] = none
lookup path ((p, a) ∷ rest) = if text_eq p path then some a else lookup path rest

abbrev pub store : {A : Type 0} → List ℕ → A → Files A → Files A
store path a files = (path, a) ∷ files

-- `locks` has the paths of the lock files that are there; what stands in them is not modelled.
pub record Disk : Type 0 where
  pub authorities : Files Stored
  pub databases : Files Database
  pub locks : List (List ℕ)

-- The account that a runtime stands for, and the database that it means, if it says so.
pub record Identity : Type 0 where
  pub account_key : List ℕ
  pub environment : List ℕ
  pub account_type : ℤ
  pub account_id_sha256 : List ℕ
  pub coordination_db_path : Option (List ℕ)

-- What `lock.acquire` does: it takes the lock, which `lock.release` then frees or fails to, or it
-- raises, with or without a file made for it.
pub data Locking : Type 0 where
  taken : (frees : Bool) → Locking
  refused : (error : Error) (made : Bool) → Locking

-- What else a call depends on: the lock; the two values of `uuid4`; whether SQLite fails to create the
-- database, and the file that it then leaves; whether the record can be written.
pub record Chance : Type 0 where
  pub locking : Locking
  pub authority_id : List ℕ
  pub db_uuid : List ℕ
  pub broken_database : Option (Option Database)
  pub can_write : Bool

abbrev pub new_identity : Identity → Chance → CoordinationDbIdentity
new_identity i chance = record {
  schema_version = pos 1;
  account_key = i.account_key;
  db_uuid = chance.db_uuid;
  authority_id = chance.authority_id;
}

abbrev pub put_database : List ℕ → Database → Disk → Disk
put_database path db disk = record disk { databases = store path db disk.databases }

abbrev pub leave : List ℕ → Option Database → Disk → Disk
leave path none disk = disk
leave path (some db) disk = put_database path db disk

abbrev pub touch : List ℕ → Disk → Disk
touch path disk = record disk { locks = path ∷ disk.locks }

-- `lock.acquire` before the work and, whatever that does, `lock.release` after it
unfoldable pub under_lock : {A : Type 0} → List ℕ → Locking → Exec Disk A → Exec Disk A
under_lock path (taken true) work disk = work (touch path disk)
under_lock path (taken false) work disk = (err os_error, (work (touch path disk)).1)
under_lock path (refused e made) work disk = (err e, if made then touch path disk else disk)

abbrev pub created : List ℕ → Result Database → Exec Disk (Unit {0})
created path (err e) disk = (err e, disk)
created path (ok db) disk = (ok tt, put_database path db disk)

abbrev pub create_failing :
    List ℕ → CoordinationDbIdentity → Option Database → Option Database → Exec Disk (Unit {0})
create_failing path identity left none disk = (err coordination_error, leave path left disk)
create_failing path identity left (some db) disk =
    created path (create_database identity (some db)) disk

-- `SQLiteExecutionCoordinator.create`, where SQLite works and where it does not
unfoldable pub make_database :
    List ℕ → CoordinationDbIdentity → Option (Option Database) → Exec Disk (Unit {0})
make_database path identity none disk =
    created path (create_database identity (lookup path disk.databases)) disk
make_database path identity (some left) disk =
    create_failing path identity left (lookup path disk.databases) disk

module _ (host : Host) (root : List ℕ) where
  open host use {is_absolute, canonical}

  abbrev pub authority_path : List ℕ → List ℕ
  authority_path key = root ++ (code_points "/" ++ (key ++ code_points ".authority.json"))

  abbrev pub lock_path : List ℕ → List ℕ
  lock_path key = root ++ (code_points "/" ++ (key ++ code_points ".authority.lock"))

  abbrev pub default_coordination_db_path : List ℕ → List ℕ
  default_coordination_db_path key =
      root ++ (code_points "/" ++ (key ++ code_points ".coordination.db"))

  -- the payload of the file, and whose record it is
  abbrev pub read_stored : Stored → List ℕ → Result AccountAuthority
  read_stored unreadable key = err runtime_authority_error
  read_stored no_object key = err runtime_authority_error
  read_stored (object payload) key = of_record (from_payload host payload)
    where
      of_record : Result AccountAuthority → Result AccountAuthority
      of_record (err e) = err e
      of_record (ok a) = if text_eq a.account_key key then ok a else err runtime_authority_error

  abbrev pub read_file : Option Stored → List ℕ → Result (Option AccountAuthority)
  read_file none key = ok none
  read_file (some stored) key = some_of (read_stored stored key)

  -- `_read_authority`
  unfoldable pub read_authority : List ℕ → Disk → Result (Option AccountAuthority)
  read_authority key disk = read_file (lookup (authority_path key) disk.authorities) key

  abbrev pub same_path : Option (List ℕ) → List ℕ → Bool
  same_path none certified = true
  same_path (some intended) certified = text_eq (canonical intended) (canonical certified)

  -- `_verify_authority`
  unfoldable pub verifies : Identity → AccountAuthority → Bool
  verifies i a =
      text_eq a.account_key i.account_key
      && ((text_eq a.environment i.environment
            && (int_eq a.account_type i.account_type
                && text_eq a.account_id_sha256 i.account_id_sha256))
          && same_path i.coordination_db_path a.coordination_db_path)

  abbrev pub path_of : List ℕ → Option (List ℕ) → List ℕ
  path_of key none = default_coordination_db_path key
  path_of key (some path) = canonical path

  abbrev pub chosen_path : Identity → List ℕ
  chosen_path i = path_of i.account_key i.coordination_db_path

  abbrev pub new_authority : Identity → Chance → AccountAuthority
  new_authority i chance = record {
    schema_version = pos 1;
    authority_id = chance.authority_id;
    account_key = i.account_key;
    environment = i.environment;
    account_type = i.account_type;
    account_id_sha256 = i.account_id_sha256;
    coordination_db_path = chosen_path i;
    coordination_db_uuid = chance.db_uuid;
  }

  -- `_write_authority_atomic`: `os.replace` puts the whole file there, or nothing
  unfoldable pub write_authority_atomic :
      AccountAuthority → (can_write : Bool) → Exec Disk (Unit {0})
  write_authority_atomic a false disk = (err os_error, disk)
  write_authority_atomic a true disk = (
    ok tt,
    record disk {
      authorities = store (authority_path a.account_key) (object (to_payload a)) disk.authorities;
    },
  )

  -- `_bootstrap`
  unfoldable pub bootstrap : Identity → Chance → Exec Disk AccountAuthority
  bootstrap i chance = do
    fail_if (not (is_absolute (chosen_path i))) runtime_authority_error
    make_database (chosen_path i) (new_identity i chance) chance.broken_database
    a ← lift (account_authority host (new_authority i chance))
    write_authority_atomic a chance.can_write
    pure a

  -- under the lock
  abbrev pub found_or_bootstrap :
      Identity → Chance → Bool → Option AccountAuthority → Exec Disk AccountAuthority
  found_or_bootstrap i chance wanted (some a) = do
    fail_if (not (verifies i a)) runtime_authority_error
    pure a
  found_or_bootstrap i chance wanted none = do
    fail_if (not wanted) runtime_authority_error
    bootstrap i chance

  unfoldable pub resolve_locked : Identity → Chance → Bool → Exec Disk AccountAuthority
  resolve_locked i chance wanted = do
    read ← gets (read_authority i.account_key)
    existing ← lift read
    found_or_bootstrap i chance wanted existing

  -- `resolve` before it takes the lock: the account with its digest in normal form
  unfoldable pub checked_identity : Identity → Result Identity
  checked_identity i =
      if is_blank i.account_key || not (is_environment i.environment)
      then err runtime_authority_error
      else with_digest (require_digest i.account_id_sha256)
    where
      with_key : List ℕ → Result (List ℕ) → Result Identity
      with_key digest (err e) = err e
      with_key digest (ok derived) =
          if text_eq derived i.account_key
          then ok (record i { account_id_sha256 = digest })
          else err runtime_authority_error

      with_digest : Result (List ℕ) → Result Identity
      with_digest (err e) = err e
      with_digest (ok digest) =
          with_key digest
            (account_key_from_binding_identity host i.environment i.account_type digest)

  unfoldable pub resolve : Identity → Chance → (wanted : Bool) → Exec Disk AccountAuthority
  resolve i chance wanted = do
    checked ← lift (checked_identity i)
    under_lock (lock_path checked.account_key) chance.locking (resolve_locked checked chance wanted)
