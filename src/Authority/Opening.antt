-- ===== src/Authority/Opening.antt =====
-- Which database a coordinator with an expected identity opens, src/qmt_execution_core/coordination.py.
use qmt_execution_core.Common.{
  ◌≡◌, ◌≢◌, refl, sym, ap, ◌∙◌, subst, inl, inr, then_taken, else_taken, true, Option, none, some,
  List, [], ◌∷◌, ℤ, pos, int_eq, int_eq_sound, arith, Bool-cases,
}
use qmt_execution_core.Errors.{ok, bind_ok, ok_inj}
use qmt_execution_core.Binding.Digest.{text_eq_refl, text_eq_sound}
use qmt_execution_core.Authority.Database.{
  CoordinationDbIdentity, Database, identity_eq, with_meta, require_schema, require_identity,
  initialize, create_database,
}

identity_eq_sound : (a b : CoordinationDbIdentity) → identity_eq a b ≡ true → a ≡ b
identity_eq_sound a b h =
    let key : a.account_key ≡ b.account_key = text_eq_sound _ _ (ground arith) in
    let uuid : a.db_uuid ≡ b.db_uuid = text_eq_sound _ _ (ground arith) in
    let id : a.authority_id ≡ b.authority_id = text_eq_sound _ _ (ground arith) in
    let version : a.schema_version ≡ b.schema_version = int_eq_sound _ _ (ground arith) in
    cc (key, uuid, id, version)

identity_eq_refl : (a : CoordinationDbIdentity) → identity_eq a a ≡ true
identity_eq_refl a =
    rw (text_eq_refl a.account_key, text_eq_refl a.db_uuid, text_eq_refl a.authority_id)
      (same_version a.schema_version)
  where
    same_version : (n : ℤ) → int_eq n n ≡ true
    same_version n = ground arith

meta_keeps :
    (meta : Option ℤ) (db after : Database)
    → with_meta meta db ≡ ok after
    → after.identities ≡ db.identities
meta_keeps none db after h = sym (ap (λ d. d.identities) (ok_inj h))
meta_keeps (some version) db after h = elim (Bool-cases (int_eq version (pos 1))) [
  | inl same ↦ ap (λ d. d.identities) (sym (ok_inj (then_taken (int_eq version (pos 1)) _ same h)))
  | inr old ↦ absurd (cc (else_taken (int_eq version (pos 1)) _ old h))
]

one_row :
    (expected : CoordinationDbIdentity) (rows : List CoordinationDbIdentity) (db after : Database)
    → require_identity expected rows db ≡ ok after
    → rows ≡ expected ∷ []
one_row expected [] db after h = absurd (cc h)
one_row expected (row ∷ other ∷ rest) db after h = absurd (cc h)
one_row expected (row ∷ []) db after h = elim (Bool-cases (identity_eq row expected)) [
  | inl same ↦ ap (λ r. r ∷ []) (identity_eq_sound row expected same)
  | inr foreign ↦ absurd (cc (else_taken (identity_eq row expected) _ foreign h))
]

opened :
    (expected : CoordinationDbIdentity) (file : Option Database) (db : Database)
    → initialize (some expected) file ≡ ok db
    → (there : Database) × (file ≡ some there) × (there.identities ≡ expected ∷ [])
unfolding initialize
opened expected none db h = absurd (cc h)
opened expected (some there) db h =
    let (schema, q, k) = bind_ok (require_schema there) _ h in
    (
      there,
      refl,
      sym (meta_keeps there.meta there schema q) ∙ one_row expected schema.identities schema db k,
    )

abbrev fresh : CoordinationDbIdentity → Database
fresh identity = record { meta = some (pos 1); identities = identity ∷ [] }

fresh_opens :
    (expected : CoordinationDbIdentity)
    → initialize (some expected) (some (fresh expected)) ≡ ok (fresh expected)
unfolding initialize
fresh_opens expected = rw (identity_eq_refl expected) refl

created_opens :
    (expected : CoordinationDbIdentity) (db : Database)
    → create_database expected none ≡ ok db
    → initialize (some expected) (some db) ≡ ok db
unfolding create_database
created_opens expected db h =
    subst (λ d. initialize (some expected) (some d) ≡ ok d)
      (ok_inj (sym (fresh_opens expected) ∙ h)) (fresh_opens expected)

-- A coordinator that expects an identity opens only a file that exists and whose one identity row is
-- the expected one: it refuses a missing file, a database without an identity, with another one or
-- with several. A database that `create` makes for an identity opens for that identity, and
-- `create` refuses every file that exists.
pub only_certified_opens :
    (expected : CoordinationDbIdentity)
    → ((file : Option Database) (db : Database)
        → initialize (some expected) file ≡ ok db
        → (there : Database) × (file ≡ some there) × (there.identities ≡ expected ∷ []))
      × ((db : Database)
          → create_database expected none ≡ ok db
          → initialize (some expected) (some db) ≡ ok db)
      × ((there db : Database) → create_database expected (some there) ≢ ok db)
unfolding create_database
only_certified_opens expected = (opened expected, created_opens expected, λ there db h. cc h)
