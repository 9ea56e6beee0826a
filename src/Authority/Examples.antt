-- ===== src/Authority/Examples.antt =====
-- The record of one account, src/qmt_execution_core/authority.py, on a disk that starts empty.
use qmt_execution_core.Common.{
  ℕ, ◌≡◌, ◌≢◌, refl, true, false, Option, none, some, List, [], ◌∷◌, ℤ, pos, code_points,
}
use qmt_execution_core.Errors.{ok}
use qmt_execution_core.Binding.{Json, number}
use qmt_execution_core.Binding.Digest.{
  normalized_digest, is_digest, all_hex, is_hex, lower, lower_char, strip_left, strip_right,
  is_space,
}
use qmt_execution_core.Authority.{
  Host, AccountAuthority, validate, account_authority, require_digest,
}
use qmt_execution_core.Authority.Database.{
  CoordinationDbIdentity, Database, initialize, create_database,
}
use qmt_execution_core.Authority.Opening.{only_certified_opens}
use qmt_execution_core.Authority.Store.{
  Disk, Identity, taken, Chance, new_authority, read_authority, checked_identity, resolve,
}
use qmt_execution_core.Authority.Certified.{Unchanged, Agrees, verify_changes_nothing}

abbrev plain_int_of : Json → Option ℤ
plain_int_of (number n) = some n
plain_int_of _ = none

abbrev host : Host
host = record {
  is_uuid = λ s. true;
  is_absolute = λ s. true;
  canonical = λ s. s;
  sha256_hex = λ s. code_points "k";
  shown_int = λ n. code_points "2";
  shown = λ v. [];
  int_of = plain_int_of;
}

abbrev root : List ℕ
root = code_points "/core"

abbrev account : Identity
account = record {
  account_key = code_points "k";
  environment = code_points "simulation";
  account_type = pos 2;
  account_id_sha256 =
      code_points "aaaaaaaaaaaaaaaaaaaaaaaaaaaaaaaaaaaaaaaaaaaaaaaaaaaaaaaaaaaaaaaa";
  coordination_db_path = none;
}

abbrev drawn : Chance
drawn = record {
  locking = taken true;
  authority_id = code_points "u1";
  db_uuid = code_points "u2";
  broken_database = none;
  can_write = true;
}

abbrev redrawn : Chance
redrawn = record drawn { authority_id = code_points "u3"; db_uuid = code_points "u4" }

abbrev empty_disk : Disk
empty_disk = record { authorities = []; databases = []; locks = [] }

abbrev authority : AccountAuthority
authority = new_authority host root account drawn

abbrev ready_disk : Disk
ready_disk = (resolve host root account drawn true empty_disk).1

authority_accepted : account_authority host authority ≡ ok authority
unfolding require_digest normalized_digest is_digest all_hex is_hex lower lower_char strip_left
    strip_right is_space account_authority validate
authority_accepted = refl

verify_changes_nothing_example :
    Unchanged ready_disk (resolve host root account redrawn false ready_disk).1
    × ((a : AccountAuthority) (after : Disk)
        → resolve host root account redrawn false ready_disk ≡ (ok a, after)
        → (j : Identity) × (checked_identity host root account ≡ ok j)
          × (read_authority host root j.account_key ready_disk ≡ ok (some a))
          × Agrees host root j a)
verify_changes_nothing_example = verify_changes_nothing host root account redrawn ready_disk

abbrev certified : CoordinationDbIdentity
certified = record {
  schema_version = pos 1;
  account_key = code_points "k";
  db_uuid = code_points "u2";
  authority_id = code_points "u1";
}

only_certified_opens_example :
    ((file : Option Database) (db : Database)
      → initialize (some certified) file ≡ ok db
      → (there : Database) × (file ≡ some there) × (there.identities ≡ certified ∷ []))
    × ((db : Database)
        → create_database certified none ≡ ok db
        → initialize (some certified) (some db) ≡ ok db)
    × ((there db : Database) → create_database certified (some there) ≢ ok db)
only_certified_opens_example = only_certified_opens certified
