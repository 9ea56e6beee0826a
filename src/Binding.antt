-- ===== src/Binding.antt =====
-- src/qmt_execution_core/miniqmt/binding.py: the binding of a runtime to one account by digests.
-- Texts that the code takes apart are lists of code points. SHA-256, `str` of a JSON value that is
-- no text and the resolved form of a path are parameters.
pub mod Digest
pub mod Select
pub mod RoundTrip
pub mod Unique
pub mod Examples
use qmt_execution_core.Common.{
  ℕ, Bool, true, false, not, ◌&&◌, ◌||◌, String, str_eq, Option, none, some, List, [], ◌∷◌, ℤ, pos,
  negsuc, ◌==◌, is_empty, code_points, if◌then◌else◌,
}
use qmt_execution_core.Errors.{Result, ok, err, ◌>>=◌, ◌>>◌, raise_if, account_binding_error}
use qmt_execution_core.Domain.Validation.{Float, finite}
use qmt_execution_core.Binding.Digest.{normalized_digest, is_digest, text_eq}

-- What `json.loads` returns for a member of the object.
pub data Json : Type 0 where
  text : List ℕ → Json
  number : ℤ → Json
  decimal : Float → Json
  boolean : Bool → Json
  null compound : Json

-- `_ALLOWED_ENVIRONMENTS`
pub data Environment : Type 0 where
  simulation live : Environment

abbrev pub environment_eq : Environment → Environment → Bool
environment_eq simulation simulation = true
environment_eq live live = true
environment_eq _ _ = false

abbrev pub environment_text : Environment → List ℕ
environment_text simulation = code_points "simulation"
environment_text live = code_points "live"

abbrev pub environment_of : List ℕ → Option Environment
environment_of s =
    if text_eq s (code_points "simulation")
    then some simulation
    else if text_eq s (code_points "live")
    then some live
    else none

pub record QmtAccountBinding : Type 0 where
  pub environment : Environment
  pub account_type : ℤ
  pub account_id_sha256 : List ℕ
  pub qmt_path_sha256 : List ℕ

-- `value or ""`
abbrev pub is_falsy : Json → Bool
is_falsy (text []) = true
is_falsy (number (pos n)) = n == 0
is_falsy (decimal (finite (pos n))) = n == 0
is_falsy (boolean b) = not b
is_falsy null = true
is_falsy _ = false

-- `account_type` is a plain int
abbrev pub plain_number : Json → Result ℤ
plain_number (number n) = ok n
plain_number _ = err account_binding_error

abbrev pub allowed_environment : List ℕ → Result Environment
allowed_environment s = elim (environment_of s) [ none ↦ err account_binding_error | some e ↦ ok e ]

-- A dictionary with its keys.
abbrev pub Object : Type 0
Object = List (String × Json)

abbrev pub get_key : String → Object → Option Json
get_key key [] = none
get_key key ((k, v) ∷ rest) = if str_eq k key then some v else get_key key rest

abbrev pub is_binding_field : String → Bool
is_binding_field key =
    str_eq key "schema_version"
    || (str_eq key "environment"
        || (str_eq key "account_type"
            || (str_eq key "account_id_sha256" || str_eq key "qmt_path_sha256")))

abbrev pub all_binding_fields : Object → Bool
all_binding_fields [] = true
all_binding_fields ((key, v) ∷ rest) = is_binding_field key && all_binding_fields rest

abbrev pub has_key : String → Object → Bool
has_key key o = elim (get_key key o) [ none ↦ false | some v ↦ true ]

-- `set(payload) == _BINDING_FIELDS`
unfoldable pub is_strict : Object → Bool
is_strict o =
    all_binding_fields o
    && (has_key "schema_version" o
        && (has_key "environment" o
            && (has_key "account_type" o
                && (has_key "account_id_sha256" o && has_key "qmt_path_sha256" o))))

-- `value == 1`, which Python grants `True` and `1.0` too
abbrev pub equals_one : Option Json → Bool
equals_one (some (number (pos n))) = n == 1
equals_one (some (decimal (finite (pos n)))) = n == 1000000000
equals_one (some (boolean b)) = b
equals_one _ = false

-- What `json.loads` of the file gives.
pub data Stored : Type 0 where
  unreadable : Stored
  no_object : Stored
  object : Object → Stored

unfoldable pub to_payload : QmtAccountBinding → Object
to_payload b =
    ("schema_version", number (pos 1))
    ∷ ("environment", text (environment_text b.environment))
    ∷ ("account_type", number b.account_type)
    ∷ ("account_id_sha256", text b.account_id_sha256)
    ∷ ("qmt_path_sha256", text b.qmt_path_sha256)
    ∷ []

abbrev pub value_or_null : Option Json → Json
value_or_null none = null
value_or_null (some v) = v

-- What the code calls: the digest of a text, `str` of a value that is no text, and the digest of the
-- normalized path.
pub record Digests : Type 0 where
  pub sha256_text : String → List ℕ
  pub shown : Json → List ℕ
  pub qmt_path_fingerprint : String → List ℕ

module _ (digests : Digests) where
  open digests use {sha256_text, shown, qmt_path_fingerprint}

  -- `account_id_fingerprint`
  unfoldable pub account_id_fingerprint : String → Result (List ℕ)
  account_id_fingerprint id = if is_empty id then err account_binding_error else ok (sha256_text id)

  abbrev pub string_of : Json → List ℕ
  string_of (text s) = s
  string_of v = shown v

  -- `_validate_sha256`
  unfoldable pub validate_sha256 : Json → Result (List ℕ)
  validate_sha256 v = normalized_digest (if is_falsy v then [] else string_of v)

  -- `QmtAccountBinding.__post_init__`
  unfoldable pub account_binding :
      (environment : List ℕ) (account_type id path : Json) → Result QmtAccountBinding
  account_binding environment account_type id path = do
    e ← allowed_environment environment
    t ← plain_number account_type
    i ← validate_sha256 id
    p ← validate_sha256 path
    ok (record { environment = e; account_type = t; account_id_sha256 = i; qmt_path_sha256 = p })

  -- `QmtAccountBinding.create`
  unfoldable pub create :
      (environment : List ℕ) (account_type : ℤ) (account_id qmt_path : String)
      → Result QmtAccountBinding
  create environment account_type account_id qmt_path = do
    id ← account_id_fingerprint account_id
    account_binding environment (number account_type) (text id)
        (text (qmt_path_fingerprint qmt_path))

  -- `str(payload.get("environment", ""))`
  abbrev pub environment_string : Option Json → List ℕ
  environment_string none = []
  environment_string (some v) = string_of v

  unfoldable pub load_object : Object → Environment → (qmt_path : String) → Result QmtAccountBinding
  load_object payload environment qmt_path = do
    raise_if (not (is_strict payload)) account_binding_error
    raise_if (not (equals_one (get_key "schema_version" payload))) account_binding_error
    raise_if (has_key "account_id" payload || has_key "qmt_path" payload) account_binding_error
    binding ←
        account_binding (environment_string (get_key "environment" payload))
          (value_or_null (get_key "account_type" payload))
          (value_or_null (get_key "account_id_sha256" payload))
          (value_or_null (get_key "qmt_path_sha256" payload))
    raise_if (not (environment_eq binding.environment environment)) account_binding_error
    raise_if (not (text_eq binding.qmt_path_sha256 (qmt_path_fingerprint qmt_path)))
        account_binding_error
    ok binding

  abbrev pub load_stored : Stored → Environment → String → Result QmtAccountBinding
  load_stored unreadable environment qmt_path = err account_binding_error
  load_stored no_object environment qmt_path = err account_binding_error
  load_stored (object payload) environment qmt_path = load_object payload environment qmt_path

  unfoldable pub load_account_binding :
      Stored → (environment : List ℕ) → (qmt_path : String) → Result QmtAccountBinding
  load_account_binding stored environment qmt_path = do
    e ← allowed_environment environment
    load_stored stored e qmt_path
