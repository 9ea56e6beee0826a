-- ===== src/Authority/Resolved.antt =====
-- What a call of `resolve` in src/qmt_execution_core/authority.py that returned has found or made.
use qmt_execution_core.Common.{
  ℕ, ◌≡◌, ◌≢◌, refl, sym, ap, ◌∙◌, subst, ◌⊎◌, inl, inr, Bool, true, false, not, Option, none, some,
  List, int_eq_refl, arith, Option-cases,
}
use qmt_execution_core.Errors.{Result, ok, err, bind_ok, ok_inj, runtime_authority_error}
use qmt_execution_core.Exec.{lift, ◌>>=◌}
use qmt_execution_core.Exec.Returns.{returned, lift_returned, raise_if_returned}
use qmt_execution_core.Binding.{object}
use qmt_execution_core.Binding.Digest.{text_eq_refl}
use qmt_execution_core.Authority.{Host, AccountAuthority, account_authority, to_payload, validate}
use qmt_execution_core.Authority.Database.{CoordinationDbIdentity, Database, create_database}
use qmt_execution_core.Authority.RoundTrip.{ReadsInts, record_reads_back}
use qmt_execution_core.Authority.Store.{
  Files, Disk, Identity, Chance, lookup, store, some_of, same_path, path_of, authority_path,
  read_authority, read_stored, verifies, chosen_path, new_identity, new_authority, make_database,
  created, create_failing, put_database, write_authority_atomic, bootstrap, found_or_bootstrap,
  resolve_locked,
}

-- A resolved path is in its final form.
abbrev pub IsFinal : Host → Type 0
IsFinal host = (path : List ℕ) → host.canonical (host.canonical path) ≡ host.canonical path

module _ (host : Host) (root : List ℕ) where
  -- The record of the account is on the disk and in order.
  abbrev pub Holds : Identity → AccountAuthority → Disk → Type 0
  Holds i a disk =
      (read_authority host root i.account_key disk ≡ ok (some a)) × (verifies host root i a ≡ true)

  pub holding_stays :
      (i : Identity) (a : AccountAuthority) (disk : Disk) (chance : Chance) (wanted : Bool)
      → Holds i a disk
      → resolve_locked host root i chance wanted disk ≡ (ok a, disk)
  unfolding resolve_locked ◌>>=◌
  holding_stays i a disk chance wanted h = rw (h.0, h.1) refl

  lookup-store :
      {A : Type 0} (path : List ℕ) (a : A) (files : Files A)
      → lookup path (store path a files) ≡ some a
  lookup-store path a files = rw (text_eq_refl path) refl

  read_back :
      (a : AccountAuthority)
      → ReadsInts host
      → account_authority host a ≡ ok a
      → read_stored host root (object (to_payload a)) a.account_key ≡ ok a
  read_back a ints valid = rw (record_reads_back host a ints valid, text_eq_refl a.account_key) refl

  written :
      (a : AccountAuthority) (disk : Disk)
      → ReadsInts host
      → account_authority host a ≡ ok a
      → read_authority host root a.account_key (write_authority_atomic host root a true disk).1
        ≡ ok (some a)
  unfolding read_authority write_authority_atomic
  written a disk ints valid =
      let found =
        lookup-store (authority_path host root a.account_key) (object (to_payload a))
          disk.authorities in
      rw found (ap some_of (read_back a ints valid))

  same_chosen :
      (key : List ℕ) (o : Option (List ℕ))
      → IsFinal host
      → same_path host root o (path_of host root key o) ≡ true
  same_chosen key none final = refl
  same_chosen key (some path) final = rw (final path) (text_eq_refl (host.canonical path))

  verified :
      (i : Identity) (chance : Chance)
      → IsFinal host
      → verifies host root i (new_authority host root i chance) ≡ true
  unfolding verifies
  verified i chance final =
      rw
        (
          text_eq_refl i.account_key,
          text_eq_refl i.environment,
          int_eq_refl i.account_type,
          text_eq_refl i.account_id_sha256,
        )
        (same_chosen i.account_key i.coordination_db_path final)

  accepted_itself : (a b : AccountAuthority) → account_authority host a ≡ ok b → b ≡ a
  unfolding account_authority
  accepted_itself a b h = let (_, _, k) = bind_ok (validate host a) _ h in sym (ok_inj k)

  -- What the making of the database leaves, if it returns.
  abbrev Made : List ℕ → CoordinationDbIdentity → Disk → Disk → Type 0
  Made path identity before after =
      (lookup path before.databases ≡ none)
      × ((db : Database) × (create_database identity none ≡ ok db)
          × (after ≡ put_database path db before))

  created_made :
      (path : List ℕ) (identity : CoordinationDbIdentity) (r : Result Database)
      (before after : Disk) (u : Unit {0})
      → create_database identity none ≡ r
      → created path r before ≡ (ok u, after)
      → (db : Database) × (create_database identity none ≡ ok db)
        × (after ≡ put_database path db before)
  created_made path identity (err e) before after u q h = absurd (cc h)
  created_made path identity (ok db) before after u q h = (db, q, cc h)

  never_over :
      (path : List ℕ) (identity : CoordinationDbIdentity) (db : Database) (before after : Disk)
      (u : Unit {0})
      → created path (create_database identity (some db)) before ≢ (ok u, after)
  unfolding create_database
  never_over path identity db before after u h = cc h

  making :
      (path : List ℕ) (identity : CoordinationDbIdentity) (failure : Option (Option Database))
      (before after : Disk) (u : Unit {0})
      → make_database path identity failure before ≡ (ok u, after)
      → Made path identity before after
  unfolding make_database
  making path identity none before after u h = elim (Option-cases (lookup path before.databases)) [
    | inr (db, q) ↦ absurd (
        never_over path identity db before after u
          (subst (λ o. created path (create_database identity o) before ≡ (ok u, after)) q h))
    | inl q ↦ (
      q,
      created_made path identity _ before after u refl
          (subst (λ o. created path (create_database identity o) before ≡ (ok u, after)) q h),
    )
  ]
  making path identity (some left) before after u h =
      elim (Option-cases (lookup path before.databases)) [
        | inr (db, q) ↦ absurd (
            never_over path identity db before after u
              (subst (λ o. create_failing path identity left o before ≡ (ok u, after)) q h))
        | inl q ↦
            absurd
              (cc (subst (λ o. create_failing path identity left o before ≡ (ok u, after)) q h))
      ]

  write_returned :
      (a : AccountAuthority) (can_write : Bool) (before after : Disk) (u : Unit {0})
      → write_authority_atomic host root a can_write before ≡ (ok u, after)
      → after ≡ (write_authority_atomic host root a true before).1
  unfolding write_authority_atomic
  write_returned a false before after u h = absurd (cc h)
  write_returned a true before after u h = cc h

  -- what a bootstrap leaves
  pub record Bootstrapped (i : Identity) (chance : Chance) (before : Disk) (a : AccountAuthority)
      (after : Disk) : Type 0 where
    made : a ≡ new_authority host root i chance
    valid : account_authority host a ≡ ok a
    fresh : lookup (chosen_path host root i) before.databases ≡ none
    db : Database
    in_order : create_database (new_identity i chance) none ≡ ok db
    kept :
        after
        ≡ (write_authority_atomic host root a true
            (put_database (chosen_path host root i) db before)).1

  bootstrapped :
      (i : Identity) (chance : Chance) (before after : Disk) (a : AccountAuthority)
      → bootstrap host root i chance before ≡ (ok a, after)
      → Bootstrapped i chance before a after
  unfolding bootstrap
  bootstrapped i chance before after a h =
      let (absolute, h₁) =
        raise_if_returned (not (host.is_absolute (chosen_path host root i))) _ _ before h in
      let make =
        make_database (chosen_path host root i) (new_identity i chance) chance.broken_database in
      let (_, q, h₂) = returned make _ before h₁ in
      let (b, valid, h₃) =
        lift_returned (account_authority host (new_authority host root i chance)) _ _ h₂ in
      let (_, w, h₄) = returned (write_authority_atomic host root b chance.can_write) _ _ h₃ in
      let same : b ≡ new_authority host root i chance =
        accepted_itself (new_authority host root i chance) b valid in
      let (fresh, (db, in_order, mid)) = making _ _ chance.broken_database before _ _ q in
      let here : b ≡ a = ok_inj (ap (λ x. x.0) h₄) in
      subst (λ x. Bootstrapped i chance before x after) here
        (record {
          made = same;
          valid = subst (λ x. account_authority host x ≡ ok b) (sym same) valid;
          fresh = fresh;
          db = db;
          in_order = in_order;
          kept =
              sym (ap (λ x. x.1) h₄)
              ∙ write_returned b chance.can_write _ _ _ w
              ∙ ap (λ d. (write_authority_atomic host root b true d).1) mid;
        })

  pub bootstrap-Holds :
      (i : Identity) (chance : Chance) (before after : Disk) (a : AccountAuthority)
      → ReadsInts host
      → IsFinal host
      → Bootstrapped i chance before a after
      → Holds i a after
  bootstrap-Holds i chance before after a ints final b =
      let key : a.account_key ≡ i.account_key = ap (λ x. x.account_key) b.made in
      let disk = put_database (chosen_path host root i) b.db before in
      let on_disk : read_authority host root a.account_key after ≡ ok (some a) =
        subst (λ d. read_authority host root a.account_key d ≡ ok (some a)) (sym b.kept)
          (written a disk ints b.valid) in
      (
        subst (λ k. read_authority host root k after ≡ ok (some a)) key on_disk,
        subst (λ x. verifies host root i x ≡ true) (sym b.made) (verified i chance final),
      )

  -- A call that returned has found the record or has made it.
  abbrev pub Outcome : Identity → Chance → Bool → Disk → Disk → AccountAuthority → Type 0
  Outcome i chance wanted before after a =
      (Holds i a before × (after ≡ before))
      ⊎ ((wanted ≡ true)
          × (read_authority host root i.account_key before ≡ ok none)
          × Bootstrapped i chance before a after)

  by_read :
      (i : Identity) (chance : Chance) (wanted : Bool) (before after : Disk) (a : AccountAuthority)
      (r : Result (Option AccountAuthority))
      → read_authority host root i.account_key before ≡ r
      → (lift r >>= found_or_bootstrap host root i chance wanted) before ≡ (ok a, after)
      → Outcome i chance wanted before after a
  unfolding ◌>>=◌
  by_read i chance wanted before after a (err e) q h = absurd (cc h)
  by_read i chance wanted before after a (ok none) q h =
      let (w, k) = raise_if_returned (not wanted) runtime_authority_error _ before h in
      inr (ground arith, q, bootstrapped i chance before after a k)
  by_read i chance wanted before after a (ok (some b)) q h =
      let (v, k) =
        raise_if_returned (not (verifies host root i b)) runtime_authority_error _ before h in
      let same : b ≡ a = ok_inj (ap (λ x. x.0) k) in
      let good : verifies host root i b ≡ true = ground arith in
      inl (subst (λ x. Holds i x before) same (q, good), sym (ap (λ x. x.1) k))

  pub outcome :
      (i : Identity) (chance : Chance) (wanted : Bool) (before after : Disk) (a : AccountAuthority)
      → resolve_locked host root i chance wanted before ≡ (ok a, after)
      → Outcome i chance wanted before after a
  unfolding resolve_locked ◌>>=◌
  outcome i chance wanted before after a h = by_read i chance wanted before after a _ refl h
