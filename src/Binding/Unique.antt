-- ===== src/Binding/Unique.antt =====
-- Which account src/qmt_execution_core/miniqmt/binding.py selects.
use qmt_execution_core.Common.{
  ℕ, ◌≡◌, ◌↔◌, refl, sym, ap, subst, ◌∙◌, ◌+◌, ◌⊎◌, inl, inr, Bool, true, false, not, ◌&&◌, String,
  Option, none, some, List, [], ◌∷◌, ℤ, int_eq, length, arith, Bool-cases, if◌then◌else◌, is_empty,
  eq_iff, both_true, matches, IsOnlyOne, matches-IsOnlyOne, int_eq_sound, int_eq_refl,
}
use qmt_execution_core.Errors.{ok, Result-cases, ok_inj}
use qmt_execution_core.Exec.Returns.{returned, lift_returned, raise_if_returned}
use qmt_execution_core.Binding.{QmtAccountBinding, Digests, account_id_fingerprint}
use qmt_execution_core.Binding.Digest.{text_eq, text_eq_sound}
use qmt_execution_core.Binding.Select.{
  AccountInfo, AccountStatus, Discovery, BoundQmtAccount, is_int, is_string, status_matches,
  candidate, candidates, the_one, require_list, choose_account, select_bound_account,
  strict_non_none_query,
}

-- The entries that pass a test, counted.
abbrev pub count {ℓ} : {A : Type ℓ} → (A → Bool) → List A → ℕ
count p [] = 0
count p (a ∷ rest) = (if p a then 1 else 0) + count p rest

-- The status says that the account of this id and type is healthy.
abbrev pub SaysHealthy : String → (account_type ok_code : ℤ) → AccountStatus → Type 0
SaysHealthy id kind ok_code s =
    (s.account_id ≡ some id) × (s.account_type ≡ some kind) × (s.status ≡ some ok_code)

is_string_iff : (o : Option String) (s : String) → (is_string o s ≡ true) ↔ (o ≡ some s)
is_string_iff none s = (λ h. absurd (cc h), λ h. absurd (cc h))
is_string_iff (some t) s = (λ h. ap some ((eq_iff t s).0 h), λ h. (eq_iff t s).1 (cc h))

is_int_iff : (o : Option ℤ) (n : ℤ) → (is_int o n ≡ true) ↔ (o ≡ some n)
is_int_iff none n = (λ h. absurd (cc h), λ h. absurd (cc h))
is_int_iff (some m) n =
    (λ h. ap some (int_eq_sound m n h), λ h. let same : m ≡ n = cc h in rw same (int_eq_refl n))

status_matches-SaysHealthy :
    (id : String) (kind ok_code : ℤ) (s : AccountStatus)
    → (status_matches id kind ok_code s ≡ true) ↔ SaysHealthy id kind ok_code s
unfolding status_matches
status_matches-SaysHealthy id kind ok_code s = (
  λ h.
      let (a, h₁) = both_true (is_string s.account_id id) _ h in
      let (b, c) = both_true (is_int s.account_type kind) _ h₁ in
      ((is_string_iff _ _).0 a, (is_int_iff _ _).0 b, (is_int_iff _ _).0 c),
  λ m.
      rw
        (
          (is_string_iff s.account_id id).1 m.0,
          (is_int_iff s.account_type kind).1 m.1,
          (is_int_iff s.status ok_code).1 m.2,
        )
        refl,
)

module _ (digests : Digests) (binding : QmtAccountBinding) (kind : ℤ) where
  abbrev has_digest : Option String → Bool
  has_digest none = false
  has_digest (some id) = text_eq (digests.sha256_text id) binding.account_id_sha256

  -- an entry of the securities type whose id has the bound digest
  abbrev pub names_bound : AccountInfo → Bool
  names_bound info = is_int info.account_type kind && has_digest info.account_id

  abbrev pub IsNamed : String → Type 0
  IsNamed id = (digests.sha256_text id ≡ binding.account_id_sha256) × (is_empty id ≡ false)

  abbrev AllNamed : List String → Type 0
  AllNamed [] = Unit {0}
  AllNamed (id ∷ ids) = IsNamed id × AllNamed ids

  candidate_cases :
      (o : Option String) (t : Option ℤ) (r : Option String)
      → candidate digests binding kind o t ≡ ok r
      → ((r ≡ none) × ((is_int t kind && has_digest o) ≡ false))
        ⊎ ((id : String) × (r ≡ some id) × ((is_int t kind && has_digest o) ≡ true) × IsNamed id)
  unfolding account_id_fingerprint
  candidate_cases none t r h = inl (ground arith, ground arith)
  candidate_cases (some id) none r h = inl (ground arith, refl)
  candidate_cases (some id) (some t) r h = elim (Bool-cases (int_eq t kind)) [
    | inr away ↦ inl (ground arith, ground arith)
    | inl here ↦ elim (Bool-cases (text_eq (digests.sha256_text id) binding.account_id_sha256)) [
      | inr foreign ↦ inl (ground arith, ground arith)
      | inl own ↦ inr (
        id,
        ground arith,
        ground arith,
        (text_eq_sound (digests.sha256_text id) binding.account_id_sha256 own, ground arith),
      )
    ]
  ]

  counted :
      (infos : List AccountInfo) (ids : List String)
      → candidates digests binding kind infos ≡ ok ids
      → (length ids ≡ count names_bound infos) × AllNamed ids
  unfolding candidates
  counted [] ids h = ground arith
  counted (info ∷ infos) ids h =
      elim (Result-cases (candidate digests binding kind info.account_id info.account_type)) [
        | inr (e, q) ↦ absurd (ground (arith, q))
        | inl (r, q) ↦ elim (Result-cases (candidates digests binding kind infos)) [
          | inr (e, k) ↦ absurd (ground (arith, q, k))
          | inl (rest, k) ↦
              let (n, named) = counted infos rest k in
              elim (candidate_cases info.account_id info.account_type r q) [
                | inl (a, b) ↦ ground (arith, a, b, n, named, q, k)
                | inr (id, a, b, c) ↦ ground (arith, a, b, c, n, named, q, k)
              ]
        ]
      ]

required :
    {A : Type 0} (raw : Option (List A)) (all : List A) → require_list raw ≡ ok all → raw ≡ some all
required raw all h = ground arith

the_one_found : {A : Type 0} (all : List A) (a : A) → the_one all ≡ ok a → all ≡ a ∷ []
the_one_found all a h = ground arith

module _ {W Account : Type 0} (digests : Digests) (trader : Discovery W Account)
    (binding : QmtAccountBinding) (kind ok_code : ℤ) (attempts : ℕ) where
  -- What the queries answered, and that the account is the one of them.
  pub record Selected (world : W) (bound : BoundQmtAccount Account) : Type 0 where
    pub infos : List AccountInfo
    pub statuses : List AccountStatus
    pub asked_infos :
        (strict_non_none_query attempts trader.query_account_infos world).0 ≡ ok (some infos)
    pub asked_statuses :
        (strict_non_none_query attempts trader.query_account_status
          (strict_non_none_query attempts trader.query_account_infos world).1).0
        ≡ ok (some statuses)
    pub unique : count (names_bound digests binding kind) infos ≡ 1
    pub status : AccountStatus
    pub healthy : IsOnlyOne (SaysHealthy bound.account_id kind ok_code) statuses status
    pub named : IsNamed digests binding kind bound.account_id
    pub securities : int_eq binding.account_type kind ≡ true
    pub same_type : bound.account_type ≡ kind

  -- An account is selected only if the binding is for the securities type, exactly one of the
  -- reported accounts of that type has an id with the bound digest, exactly one reported status
  -- says that this id is healthy, and it is this id that is returned.
  pub selection_is_unique :
      (world after : W) (bound : BoundQmtAccount Account)
      → select_bound_account digests trader binding kind ok_code attempts world ≡ (ok bound, after)
      → Selected world bound
  unfolding select_bound_account choose_account
  selection_is_unique world after bound h =
      let (securities, h₁) =
        raise_if_returned (not (int_eq binding.account_type kind)) _ _ world h in
      let ask_infos = strict_non_none_query attempts trader.query_account_infos in
      let ask_statuses = strict_non_none_query attempts trader.query_account_status in
      let (raw, q₂, h₂) = returned ask_infos _ world h₁ in
      let between = (ask_infos world).1 in
      let (raw_statuses, q₃, h₃) = returned ask_statuses _ between h₂ in
      let (infos, q₄, h₄) = lift_returned (require_list raw) _ _ h₃ in
      let (statuses, q₅, h₅) = lift_returned (require_list raw_statuses) _ _ h₄ in
      let (ids, q₆, h₆) = lift_returned (candidates digests binding kind infos) _ _ h₅ in
      let (id, q₇, h₇) = lift_returned (the_one ids) _ _ h₆ in
      let (status, q₈, h₈) =
        lift_returned (the_one (matches (status_matches id kind ok_code) statuses)) _ _ h₇ in
      let (account, q₉, h₉) = returned (trader.stock_account_factory id) _ _ h₈ in
      let (one, named) = counted digests binding kind infos ids q₆ in
      let one_id : ids ≡ id ∷ [] = the_one_found ids id q₇ in
      let one_status =
        the_one_found (matches (status_matches id kind ok_code) statuses) status q₈ in
      subst (Selected world) (ok_inj (ap (λ x. x.0) h₉)) (record {
        infos = infos;
        statuses = statuses;
        asked_infos = ap (λ x. x.0) q₂ ∙ ap ok (required raw infos q₄);
        asked_statuses = ap (λ x. x.0) q₃ ∙ ap ok (required raw_statuses statuses q₅);
        unique = sym one ∙ ap length one_id;
        status = status;
        healthy =
            (matches-IsOnlyOne (status_matches id kind ok_code) (SaysHealthy id kind ok_code)
                (status_matches-SaysHealthy id kind ok_code) statuses status).0
              one_status;
        named = (subst (AllNamed digests binding kind) one_id named).0;
        securities = ground arith;
        same_type = refl;
      })
