-- ===== src/Authority/Certified.antt =====
-- What a resolved record of src/qmt_execution_core/authority.py is worth.
use qmt_execution_core.Common.{
  ℕ, ◌≡◌, refl, subst, inl, inr, true, false, Option, none, some, List, int_eq, int_eq_sound,
  both_true, ◌&&◌, Bool-cases,
}
use qmt_execution_core.Errors.{Result, ok, err}
use qmt_execution_core.Exec.{Exec, lift, ◌>>=◌}
use qmt_execution_core.Exec.Returns.{lift_returned}
use qmt_execution_core.Binding.Digest.{text_eq, text_eq_sound}
use qmt_execution_core.Authority.{Host, AccountAuthority}
use qmt_execution_core.Authority.Store.{
  Disk, Identity, Locking, taken, refused, Chance, touch, under_lock, lock_path, same_path,
  read_authority, verifies, found_or_bootstrap, resolve_locked, checked_identity, resolve,
}
use qmt_execution_core.Authority.Resolved.{outcome}

-- the records and the databases are the same
abbrev pub Unchanged : Disk → Disk → Type 0
Unchanged before after =
    (after.authorities ≡ before.authorities) × (after.databases ≡ before.databases)

module _ (host : Host) (root : List ℕ) where
  -- a call that returned has taken the lock, and went on from there
  locked :
      (j : Identity) (locking : Locking) (rest : Exec Disk AccountAuthority) (before after : Disk)
      (a : AccountAuthority)
      → under_lock (lock_path host root j.account_key) locking rest before ≡ (ok a, after)
      → rest (touch (lock_path host root j.account_key) before) ≡ (ok a, after)
  unfolding under_lock
  locked j (taken true) rest before after a h = h
  locked j (taken false) rest before after a h = absurd (cc h)
  locked j (refused e made) rest before after a h = absurd (cc h)

  found_stays :
      (i : Identity) (chance : Chance) (before : Disk) (r : Result (Option AccountAuthority))
      → ((lift r >>= found_or_bootstrap host root i chance false) before).1 ≡ before
  unfolding ◌>>=◌
  found_stays i chance before (err e) = refl
  found_stays i chance before (ok none) = refl
  found_stays i chance before (ok (some a)) = elim (Bool-cases (verifies host root i a)) [
    | inl good ↦ rw good refl
    | inr bad ↦ rw bad refl
  ]

  locked_stays :
      (i : Identity) (chance : Chance) (before : Disk)
      → (resolve_locked host root i chance false before).1 ≡ before
  unfolding resolve_locked ◌>>=◌
  locked_stays i chance before =
      found_stays i chance before (read_authority host root i.account_key before)

  refused_stays :
      (j : Identity) (chance : Chance) (locking : Locking) (before : Disk)
      → Unchanged before
          (under_lock
            (lock_path host root j.account_key)
            locking
            (resolve_locked host root j chance false)
            before).1
  unfolding under_lock
  refused_stays j chance (taken true) before =
      rw (locked_stays j chance (touch (lock_path host root j.account_key) before)) (refl, refl)
  refused_stays j chance (taken false) before =
      rw (locked_stays j chance (touch (lock_path host root j.account_key) before)) (refl, refl)
  refused_stays j chance (refused e true) before = (refl, refl)
  refused_stays j chance (refused e false) before = (refl, refl)

  checked_stays :
      (chance : Chance) (before : Disk) (r : Result Identity)
      → Unchanged before
          ((lift r >>= λ j.
              under_lock
                (lock_path host root j.account_key)
                chance.locking
                (resolve_locked host root j chance false))
            before).1
  unfolding ◌>>=◌
  checked_stays chance before (err e) = (refl, refl)
  checked_stays chance before (ok j) = refused_stays j chance chance.locking before

  -- The record is of this account, and of the intended database if there is one.
  pub record Agrees (i : Identity) (a : AccountAuthority) : Type 0 where
    pub same_key : a.account_key ≡ i.account_key
    pub same_environment : a.environment ≡ i.environment
    pub same_type : a.account_type ≡ i.account_type
    pub same_account : a.account_id_sha256 ≡ i.account_id_sha256
    pub same_database :
        (path : List ℕ)
        → i.coordination_db_path ≡ some path
        → host.canonical path ≡ host.canonical a.coordination_db_path

  path-same :
      (o : Option (List ℕ)) (certified : List ℕ)
      → same_path host root o certified ≡ true
      → (path : List ℕ) → o ≡ some path
      → host.canonical path ≡ host.canonical certified
  path-same none certified h path q = absurd (cc q)
  path-same (some p) certified h path q =
      let same : p ≡ path = cc q in
      subst (λ x. host.canonical x ≡ host.canonical certified) same (text_eq_sound _ _ h)

  verifies-Agrees :
      (i : Identity) (a : AccountAuthority) → verifies host root i a ≡ true → Agrees i a
  unfolding verifies
  verifies-Agrees i a h =
      let (key, h₁) = both_true (text_eq a.account_key i.account_key) _ h in
      let (rest, path) =
        both_true
          (text_eq a.environment i.environment
            && (int_eq a.account_type i.account_type
                && text_eq a.account_id_sha256 i.account_id_sha256))
          _ h₁ in
      let (environment, h₂) = both_true (text_eq a.environment i.environment) _ rest in
      let (kind, digest) = both_true (int_eq a.account_type i.account_type) _ h₂ in
      record {
        same_key = text_eq_sound _ _ key;
        same_environment = text_eq_sound _ _ environment;
        same_type = int_eq_sound _ _ kind;
        same_account = text_eq_sound _ _ digest;
        same_database = path-same i.coordination_db_path a.coordination_db_path path;
      }

  -- Without the permission to bootstrap, `resolve` changes no record and no database, whether it
  -- returns or raises; only the account's lock file may be new. It returns only a record that was
  -- there, with the key, the environment, the type and the digest of the account and the database
  -- that is intended, if one is.
  pub verify_changes_nothing :
      (i : Identity) (chance : Chance) (before : Disk)
      → Unchanged before (resolve host root i chance false before).1
        × ((a : AccountAuthority) (after : Disk)
            → resolve host root i chance false before ≡ (ok a, after)
            → (j : Identity) × (checked_identity host root i ≡ ok j)
              × (read_authority host root j.account_key before ≡ ok (some a))
              × Agrees j a)
  unfolding resolve read_authority
  verify_changes_nothing i chance before = (
    checked_stays chance before (checked_identity host root i),
    λ a after h.
        let (j, q, k) = lift_returned (checked_identity host root i) _ before h in
        let path = lock_path host root j.account_key in
        elim (outcome host root j chance false (touch path before) after a
          (locked j chance.locking _ before after a k)) [
            | inl (holds, same) ↦ (j, q, holds.0, verifies-Agrees j a holds.1)
            | inr (w, n, b) ↦ absurd (cc w)
          ],
  )
