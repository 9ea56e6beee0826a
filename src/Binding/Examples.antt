-- ===== src/Binding/Examples.antt =====
-- A concrete binding, src/qmt_execution_core/miniqmt/binding.py.
use qmt_execution_core.Common.{
  ℕ, ◌≡◌, refl, String, str_eq, none, some, List, [], ◌∷◌, pos, code_points, if◌then◌else◌,
}
use qmt_execution_core.Errors.{ok}
use qmt_execution_core.Query.{value, query_loop, strict_query}
use qmt_execution_core.Exec.{◌>>=◌}
use qmt_execution_core.Binding.Digest.{
  normalized_digest, is_digest, all_hex, is_hex, lower, lower_char, strip_left, strip_right,
  is_space,
}
use qmt_execution_core.Binding.{
  Json, text, number, simulation, environment_text, QmtAccountBinding, Digests, object, to_payload,
  validate_sha256, account_binding, load_account_binding, account_id_fingerprint,
}
use qmt_execution_core.Binding.RoundTrip.{payload_loads_back}
use qmt_execution_core.Binding.Select.{
  Discovery, BoundQmtAccount, status_matches, candidates, strict_non_none_query, choose_account,
  select_bound_account,
}
use qmt_execution_core.Binding.Unique.{Selected, selection_is_unique}

abbrev own_digest : List ℕ
own_digest = code_points "aaaaaaaaaaaaaaaaaaaaaaaaaaaaaaaaaaaaaaaaaaaaaaaaaaaaaaaaaaaaaaaa"

abbrev path_digest : List ℕ
path_digest = code_points "0000000000000000000000000000000000000000000000000000000000000000"

abbrev digests : Digests
digests = record {
  sha256_text = λ id. if str_eq id "8881" then own_digest else path_digest;
  shown = λ v. [];
  qmt_path_fingerprint = λ path. path_digest;
}

abbrev binding : QmtAccountBinding
binding = record {
  environment = simulation;
  account_type = pos 2;
  account_id_sha256 = own_digest;
  qmt_path_sha256 = path_digest;
}

-- a digest in capitals, with blanks around it
abbrev written : Json
written = text (code_points " AAAAAAAAAAAAAAAAAAAAAAAAAAAAAAAAAAAAAAAAAAAAAAAAAAAAAAAAAAAAAAAA\n")

written_binds :
    account_binding digests (code_points "simulation") (number (pos 2)) written (text path_digest)
    ≡ ok binding
unfolding account_binding validate_sha256 normalized_digest is_digest all_hex is_hex lower
    lower_char strip_left strip_right is_space
written_binds = refl

payload_loads_back_example :
    load_account_binding digests
      (object (to_payload binding))
      (environment_text simulation)
      "C:/qmt"
    ≡ ok binding
payload_loads_back_example =
    payload_loads_back digests (code_points "simulation") (number (pos 2)) written
      (text path_digest) binding "C:/qmt" written_binds refl

-- a trader with two accounts, of which one is bound
abbrev trader : Discovery Unit String
trader = record {
  query_account_infos = λ w. (
    value (
        some (
          record { account_id = some "8880"; account_type = some (pos 2) }
          ∷ record { account_id = some "8881"; account_type = some (pos 2) }
          ∷ [])),
    w,
  );
  query_account_status = λ w. (
    value (
        some (
          record { account_id = some "8881"; account_type = some (pos 2); status = some (pos 0) }
          ∷ record { account_id = some "8880"; account_type = none; status = none }
          ∷ [])),
    w,
  );
  stock_account_factory = λ id w. (ok id, w);
}

abbrev bound : BoundQmtAccount String
bound = record { account_id = "8881"; account_type = pos 2; account = "8881" }

bound_selected : select_bound_account digests trader binding (pos 2) (pos 0) 3 tt ≡ (ok bound, tt)
unfolding select_bound_account choose_account strict_non_none_query strict_query query_loop
    candidates status_matches account_id_fingerprint ◌>>=◌
bound_selected = refl

selection_is_unique_example : Selected digests trader binding (pos 2) (pos 0) 3 tt bound
selection_is_unique_example =
    selection_is_unique digests trader binding (pos 2) (pos 0) 3 tt tt bound bound_selected
