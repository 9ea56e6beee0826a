-- ===== src/Authority.antt =====
-- src/qmt_execution_core/authority.py: the one record that certifies the database of an account.
-- Texts are lists of code points. What the operating system, `uuid`, SHA-256 and `str` and `int` of
-- a JSON value give are parameters.
pub mod Database
pub mod Opening
pub mod Store
pub mod RoundTrip
pub mod Resolved
pub mod Certified
pub mod Examples
use qmt_execution_core.Common.{
  ℕ, Bool, true, false, not, ◌&&◌, ◌||◌, String, str_eq, Option, none, some, List, [], ◌∷◌, ◌++◌, ℤ,
  pos, negsuc, ◌==◌, int_eq, code_points, if◌then◌else◌,
}
use qmt_execution_core.Errors.{
  Result, ok, err, ◌>>=◌, ◌>>◌, raise_if, runtime_authority_error, coordination_error,
}
use qmt_execution_core.Binding.Digest.{text_eq, normalized_digest, is_digest}
use qmt_execution_core.Binding.{
  Json, text, number, Object, get_key, has_key, value_or_null, environment_of,
}

pub record Host : Type 0 where
  pub is_uuid : List ℕ → Bool
  pub is_absolute : List ℕ → Bool
  pub canonical : List ℕ → List ℕ
  pub sha256_hex : List ℕ → List ℕ
  pub shown_int : ℤ → List ℕ
  pub shown : Json → List ℕ
  pub int_of : Json → Option ℤ

pub record AccountAuthority : Type 0 where
  pub schema_version : ℤ
  pub authority_id : List ℕ
  pub account_key : List ℕ
  pub environment : List ℕ
  pub account_type : ℤ
  pub account_id_sha256 : List ℕ
  pub coordination_db_path : List ℕ
  pub coordination_db_uuid : List ℕ

abbrev pub is_blank : List ℕ → Bool
is_blank [] = true
is_blank (c ∷ s) = false

abbrev pub is_positive : ℤ → Bool
is_positive (pos n) = not (n == 0)
is_positive (negsuc n) = false

-- `environment in {"simulation", "live"}`
abbrev pub is_environment : List ℕ → Bool
is_environment s = text_eq s (code_points "simulation") || text_eq s (code_points "live")

-- `_require_account_id_sha256`, and its twin in `account_key_from_binding_identity`
unfoldable pub require_digest : List ℕ → Result (List ℕ)
require_digest value = elim (normalized_digest value) [
  | err e ↦ err runtime_authority_error
  | ok digest ↦ ok digest
]

module _ (host : Host) where
  open host use {is_uuid, is_absolute, sha256_hex, shown_int, shown, int_of}

  abbrev pub is_uuid_text : List ℕ → Bool
  is_uuid_text s = not (is_blank s) && is_uuid s

  -- `__post_init__`, in the order of its tests; each raises RuntimeAuthorityError
  unfoldable pub validate : AccountAuthority → Result (Unit {0})
  validate a = do
    raise_if (not (is_positive a.schema_version)) runtime_authority_error
    raise_if (not (is_uuid_text a.authority_id)) runtime_authority_error
    raise_if (is_blank a.account_key) runtime_authority_error
    raise_if (not (is_environment a.environment)) runtime_authority_error
    digest ← require_digest a.account_id_sha256
    raise_if (is_blank a.coordination_db_path) runtime_authority_error
    raise_if (not (is_absolute a.coordination_db_path)) runtime_authority_error
    raise_if (not (is_uuid_text a.coordination_db_uuid)) runtime_authority_error

  unfoldable pub account_authority : AccountAuthority → Result AccountAuthority
  account_authority a = do validate a; ok a

  abbrev pub str_of : Option Json → List ℕ
  str_of none = []
  str_of (some (text s)) = s
  str_of (some v) = shown v

  -- `int(value)`; TypeError and ValueError become RuntimeAuthorityError
  abbrev pub require_int : Option Json → Result ℤ
  require_int none = err runtime_authority_error
  require_int (some v) = elim (int_of v) [ none ↦ err runtime_authority_error | some n ↦ ok n ]

  -- `account_key_from_binding_identity` of coordination.py
  unfoldable pub account_key_from_binding_identity :
      (environment : List ℕ) (account_type : ℤ) (account_id_sha256 : List ℕ) → Result (List ℕ)
  account_key_from_binding_identity environment account_type account_id_sha256 = do
    raise_if (not (is_environment environment)) coordination_error
    digest ← elim (normalized_digest account_id_sha256) [
      | err e ↦ err coordination_error
      | ok digest ↦ ok digest
    ]
    ok (
        sha256_hex (
          code_points "qmt-execution-core|"
          ++ (environment
              ++ (code_points "|" ++ (shown_int account_type ++ (code_points "|" ++ digest))))))

abbrev pub is_authority_field : String → Bool
is_authority_field key =
    str_eq key "schema_version"
    || (str_eq key "authority_id"
        || (str_eq key "account_key"
            || (str_eq key "environment"
                || (str_eq key "account_type"
                    || (str_eq key "account_id_sha256"
                        || (str_eq key "coordination_db_path"
                            || str_eq key "coordination_db_uuid"))))))

abbrev pub all_authority_fields : Object → Bool
all_authority_fields [] = true
all_authority_fields ((key, v) ∷ rest) = is_authority_field key && all_authority_fields rest

-- `set(payload) == required`
unfoldable pub has_required_fields : Object → Bool
has_required_fields o =
    all_authority_fields o
    && (has_key "schema_version" o
        && (has_key "authority_id" o
            && (has_key "account_key" o
                && (has_key "environment" o
                    && (has_key "account_type" o
                        && (has_key "account_id_sha256" o
                            && (has_key "coordination_db_path" o
                                && has_key "coordination_db_uuid" o)))))))

unfoldable pub to_payload : AccountAuthority → Object
to_payload a =
    ("schema_version", number a.schema_version)
    ∷ ("authority_id", text a.authority_id)
    ∷ ("account_key", text a.account_key)
    ∷ ("environment", text a.environment)
    ∷ ("account_type", number a.account_type)
    ∷ ("account_id_sha256", text a.account_id_sha256)
    ∷ ("coordination_db_path", text a.coordination_db_path)
    ∷ ("coordination_db_uuid", text a.coordination_db_uuid)
    ∷ []

unfoldable pub from_payload : Host → Object → Result AccountAuthority
from_payload host payload = do
  raise_if (not (has_required_fields payload)) runtime_authority_error
  schema_version ← require_int host (get_key "schema_version" payload)
  account_type ← require_int host (get_key "account_type" payload)
  account_authority host (record {
    schema_version = schema_version;
    authority_id = str_of host (get_key "authority_id" payload);
    account_key = str_of host (get_key "account_key" payload);
    environment = str_of host (get_key "environment" payload);
    account_type = account_type;
    account_id_sha256 = str_of host (get_key "account_id_sha256" payload);
    coordination_db_path = str_of host (get_key "coordination_db_path" payload);
    coordination_db_uuid = str_of host (get_key "coordination_db_uuid" payload);
  })
