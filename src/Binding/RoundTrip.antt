-- ===== src/Binding/RoundTrip.antt =====
-- A binding of src/qmt_execution_core/miniqmt/binding.py, written and loaded again.
use qmt_execution_core.Common.{ℕ, ◌≡◌, refl, subst, String, List, [], ◌∷◌, ℤ, arith}
use qmt_execution_core.Errors.{ok, bind_ok, ok_inj}
use qmt_execution_core.Binding.Digest.{is_digest, digest_stays, normalized-is_digest, text_eq_refl}
use qmt_execution_core.Binding.{
  Json, text, Environment, simulation, live, environment_text, QmtAccountBinding,
  allowed_environment, plain_number, Digests, validate_sha256, account_binding, to_payload,
  load_object, object, load_account_binding, is_strict,
}

module _ (digests : Digests) where
  digest_again :
      (v : Json) (s : List ℕ)
      → validate_sha256 digests v ≡ ok s
      → validate_sha256 digests (text s) ≡ ok s
  unfolding validate_sha256 is_digest
  digest_again v [] h = absurd (ground (arith, normalized-is_digest _ [] h))
  digest_again v (c ∷ s) h = digest_stays (c ∷ s) (normalized-is_digest _ (c ∷ s) h)

  environment_again : (e : Environment) → allowed_environment (environment_text e) ≡ ok e
  environment_again simulation = refl
  environment_again live = refl

  abbrev LoadsBack : String → QmtAccountBinding → Type 0
  LoadsBack qmt_path b =
      digests.qmt_path_fingerprint qmt_path ≡ b.qmt_path_sha256
      → load_account_binding digests (object (to_payload b)) (environment_text b.environment)
          qmt_path
        ≡ ok b

  loads :
      (e : Environment) (n : ℤ) (i p : List ℕ) (qmt_path : String)
      → validate_sha256 digests (text i) ≡ ok i
      → validate_sha256 digests (text p) ≡ ok p
      → LoadsBack qmt_path
          (record { environment = e; account_type = n; account_id_sha256 = i; qmt_path_sha256 = p })
  unfolding account_binding load_account_binding load_object to_payload is_strict
  loads simulation n i p qmt_path hi hp same = rw (hi, hp, same, text_eq_refl p) refl
  loads live n i p qmt_path hi hp same = rw (hi, hp, same, text_eq_refl p) refl

  -- A binding that the constructor accepts is returned unchanged by `load_account_binding` from the
  -- payload that `to_payload` makes of it, for its own environment and a path with its digest.
  pub payload_loads_back :
      (environment : List ℕ) (account_type id path : Json) (b : QmtAccountBinding)
      (qmt_path : String)
      → account_binding digests environment account_type id path ≡ ok b
      → digests.qmt_path_fingerprint qmt_path ≡ b.qmt_path_sha256
      → load_account_binding digests
          (object (to_payload b))
          (environment_text b.environment)
          qmt_path
        ≡ ok b
  unfolding account_binding
  payload_loads_back environment account_type id path b qmt_path h same =
      let (e, _, h₁) = bind_ok (allowed_environment environment) _ h in
      let (t, _, h₂) = bind_ok (plain_number account_type) _ h₁ in
      let (i, hi, h₃) = bind_ok (validate_sha256 digests id) _ h₂ in
      let (p, hp, h₄) = bind_ok (validate_sha256 digests path) _ h₃ in
      subst (LoadsBack qmt_path) (ok_inj h₄)
        (loads e t i p qmt_path (digest_again id i hi) (digest_again path p hp)) same
