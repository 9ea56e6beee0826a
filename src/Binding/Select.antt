-- ===== src/Binding/Select.antt =====
-- src/qmt_execution_core/miniqmt/binding.py: the one account of a trader that a binding names.
use qmt_execution_core.Common.{
  ℕ, Bool, false, not, ◌&&◌, String, str_eq, Option, none, some, List, [], ◌∷◌, ℤ, int_eq, ◌==◌,
  length, matches, if◌then◌else◌,
}
use qmt_execution_core.Errors.{Result, ok, err, account_binding_error}
use qmt_execution_core.Exec.{Exec, pure, raise, lift, raise_if, ◌>>=◌, ◌>>◌}
use qmt_execution_core.Query.{Reply, strict_query}
use qmt_execution_core.Binding.{QmtAccountBinding, Digests, account_id_fingerprint}
use qmt_execution_core.Binding.Digest.{text_eq}

-- What the SDK reports; `none` is an attribute that is missing or does not convert.
pub record AccountInfo : Type 0 where
  pub account_id : Option String
  pub account_type : Option ℤ

pub record AccountStatus : Type 0 where
  pub account_id : Option String
  pub account_type : Option ℤ
  pub status : Option ℤ

pub record Discovery (W Account : Type 0) : Type 0 where
  pub query_account_infos : W → Reply (Option (List AccountInfo)) × W
  pub query_account_status : W → Reply (Option (List AccountStatus)) × W
  pub stock_account_factory : String → W → Result Account × W

pub record BoundQmtAccount (Account : Type 0) : Type 0 where
  pub account_id : String
  pub account_type : ℤ
  pub account : Account

abbrev pub is_int : Option ℤ → ℤ → Bool
is_int none n = false
is_int (some m) n = int_eq m n

abbrev pub is_string : Option String → String → Bool
is_string none s = false
is_string (some t) s = str_eq t s

-- `_status_matches`
unfoldable pub status_matches : String → (account_type ok_code : ℤ) → AccountStatus → Bool
status_matches id kind ok_code s =
    is_string s.account_id id && (is_int s.account_type kind && is_int s.status ok_code)

module _ (digests : Digests) where
  -- the digest of an empty id raises
  abbrev pub same_digest : QmtAccountBinding → String → Result (List ℕ) → Result (Option String)
  same_digest binding id (err e) = err e
  same_digest binding id (ok d) = ok (if text_eq d binding.account_id_sha256 then some id else none)

  -- the id of an entry that is the account of the binding
  abbrev pub candidate : QmtAccountBinding → ℤ → Option String → Option ℤ → Result (Option String)
  candidate binding kind none t = ok none
  candidate binding kind (some id) none = ok none
  candidate binding kind (some id) (some t) =
      if int_eq t kind then same_digest binding id (account_id_fingerprint digests id) else ok none

  abbrev pub add_candidate : Result (Option String) → Result (List String) → Result (List String)
  add_candidate (err e) later = err e
  add_candidate (ok found) (err e) = err e
  add_candidate (ok none) (ok ids) = ok ids
  add_candidate (ok (some id)) (ok ids) = ok (id ∷ ids)

  -- `candidates`; the type of each is the one asked for
  unfoldable pub candidates : QmtAccountBinding → ℤ → List AccountInfo → Result (List String)
  candidates binding kind [] = ok []
  candidates binding kind (info ∷ rest) =
      let later = candidates binding kind rest in
      add_candidate (candidate binding kind info.account_id info.account_type) later

abbrev pub the_one {ℓ} : {A : Type ℓ} → List A → Result A
the_one [] = err account_binding_error
the_one (a ∷ []) = ok a
the_one (a ∷ b ∷ rest) = err account_binding_error

abbrev pub require_list {ℓ} : {A : Type ℓ} → Option (List A) → Result (List A)
require_list none = err account_binding_error
require_list (some all) = ok all

module _ {W : Type 0} where
  -- `strict_non_none_query`
  unfoldable pub strict_non_none_query :
      {A : Type 0} → (attempts : ℕ) → (W → Reply A × W) → Exec W A
  strict_non_none_query attempts fn =
      if attempts == 0
      then raise account_binding_error
      else strict_query fn account_binding_error attempts

module _ {W Account : Type 0} (digests : Digests) (trader : Discovery W Account) where
  -- after the two queries
  unfoldable pub choose_account :
      QmtAccountBinding
      → (security_account_type account_status_ok : ℤ) → Option (List AccountInfo)
      → Option (List AccountStatus)
      → Exec W (BoundQmtAccount Account)
  choose_account binding kind ok_code raw_infos raw_statuses = do
    infos ← lift (require_list raw_infos)
    statuses ← lift (require_list raw_statuses)
    ids ← lift (candidates digests binding kind infos)
    account_id ← lift (the_one ids)
    healthy ← lift (the_one (matches (status_matches account_id kind ok_code) statuses))
    account ← trader.stock_account_factory account_id
    pure (record { account_id = account_id; account_type = kind; account = account })

  unfoldable pub select_bound_account :
      QmtAccountBinding
      → (security_account_type account_status_ok : ℤ) → (attempts : ℕ)
      → Exec W (BoundQmtAccount Account)
  select_bound_account binding kind ok_code attempts = do
    raise_if (not (int_eq binding.account_type kind)) account_binding_error
    infos ← strict_non_none_query attempts trader.query_account_infos
    statuses ← strict_non_none_query attempts trader.query_account_status
    choose_account binding kind ok_code infos statuses

  unfoldable pub verify_bound_account_healthy :
      BoundQmtAccount Account
      → (security_account_type account_status_ok : ℤ) → (attempts : ℕ) → Exec W Unit
  verify_bound_account_healthy bound kind ok_code attempts = do
    raw ← strict_non_none_query attempts trader.query_account_status
    statuses ← lift (require_list raw)
    raise_if (not (length (matches (status_matches bound.account_id kind ok_code) statuses) == 1))
        account_binding_error
