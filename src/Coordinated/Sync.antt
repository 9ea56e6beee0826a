-- ===== src/Coordinated/Sync.antt =====
-- What `_sync` of src/qmt_execution_core/coordinated_session.py leaves in the coordination database.
use qmt_execution_core.Common.{
  ◌≡◌, ◌≢◌, refl, ◌⊎◌, Bool, true, false, some, arith, find-update_rows, find_row_hit, Option-cases,
  inl, inr, eq_refl,
}
use qmt_execution_core.Errors.{Result, ok, err, Result-cases, symbol_claim_conflict}
use qmt_execution_core.Domain.{ExecutionRequest}
use qmt_execution_core.Finality.{ExecutionFinality, open_, resolved, quarantined}
use qmt_execution_core.Coordination.Tables.{
  SymbolClaim, Db, Amount, Sqlite, Caller, claim_at, find_claim, owns, insert_claim, claim_of,
  set_finality,
}
use qmt_execution_core.Coordination.Transactions.{
  not_foreign, finality_update, restore_claim, is_resolved, restore, update_finality, has_claim,
  held_by, validate_identity,
}
use qmt_execution_core.Coordination.Transactions.Parts.{update_finality_parts, restore_parts}
use qmt_execution_core.Coordination.Transactions.Keys.{IsValid}
use qmt_execution_core.Coordination.Transactions.Release.{resolved_releases}
use qmt_execution_core.Exec.Triple.{Outcome}
use qmt_execution_core.Exec.{attempt, continue, ◌>>=◌}
use qmt_execution_core.Coordinated.{
  Shared, Desk, self, finish, owns_claim, sync_resolved, sync_open, sync_request, restore_missing,
  cash_for_restore, commit, keep_claim, give_up,
}

-- The claim of the caller stands with this finality.
pub record Holds (k : Caller) (f : ExecutionFinality) (db : Db) : Type 0 where
  pub claim : SymbolClaim
  pub stands : find_claim k.account_key k.symbol db ≡ some claim
  pub is_own : owns k claim ≡ true
  pub in_step : claim.finality ≡ f

-- The caller has no claim on the symbol.
pub record Free (k : Caller) (db : Db) : Type 0 where
  pub no_own : (c : SymbolClaim) → find_claim k.account_key k.symbol db ≡ some c → owns k c ≡ false

set_finality_lem :
    (k : Caller) (f : ExecutionFinality) (c : SymbolClaim) (db next : Db)
    → find_claim k.account_key k.symbol db ≡ some c
    → next.claims ≡ set_finality k f db.claims
    → find_claim k.account_key k.symbol next ≡ some (record c { finality = f })
unfolding set_finality
set_finality_lem k f c db next held s = ground (
  arith,
  find_row_hit (claim_at k.account_key k.symbol) db.claims c held,
  find-update_rows (claim_at k.account_key k.symbol) (claim_at k.account_key k.symbol)
      (λ c. record c { finality = f }) db.claims (λ a. refl),
)

kept_claims :
    (k : Caller) (f : ExecutionFinality) (c : SymbolClaim) (db next : Db)
    → f ≢ resolved
    → finality_update k f (some c) db ≡ ok next
    → next.claims ≡ set_finality k f db.claims
unfolding finality_update
kept_claims k resolved c db next u h = absurd (u refl)
kept_claims k open_ c db next u h = ground arith
kept_claims k quarantined c db next u h = ground arith

update_Holds :
    (sql : Sqlite) (k : Caller) (f : ExecutionFinality) (db next : Db)
    → f ≢ resolved
    → update_finality sql k f db ≡ ok next
    → Holds k f next
unfolding not_foreign finality_update owns
update_Holds sql k f db next u h =
    let (n, p) = update_finality_parts sql k db next f h in
    elim (Option-cases (find_claim k.account_key k.symbol db)) [
      | inl free ↦ ground arith
      | inr (c, held) ↦ record {
        claim = record c { finality = f };
        stands = set_finality_lem k f c db next held (kept_claims k f c db next u (rw held at p));
        is_own = ground arith;
        in_step = refl;
      }
    ]

restore-Holds :
    (sql : Sqlite) (k : Caller) (a : Amount) (f : ExecutionFinality) (db next : Db)
    → f ≢ resolved
    → restore sql k a f db ≡ ok next
    → Holds k f next
unfolding not_foreign restore_claim insert_claim claim_of owns is_resolved
restore-Holds sql k a f db next u h =
    let (_, _, n, p, _) = restore_parts sql k db next a f (ground arith) h in
    elim (Option-cases (find_claim k.account_key k.symbol db)) [
      | inl free ↦ record {
        claim = claim_of k f;
        stands = ground (arith, eq_refl k.account_key, eq_refl k.symbol);
        is_own = ground (arith, eq_refl k.execution_id, eq_refl k.client_order_id);
        in_step = refl;
      }
      | inr (c, held) ↦ record {
        claim = record c { finality = f };
        stands = set_finality_lem k f c db next held (ground arith);
        is_own = ground arith;
        in_step = refl;
      }
    ]

-- What the database says of the caller when `_sync` returns.
abbrev pub Agrees : Caller → ExecutionFinality → Db → Type 0
Agrees k f db = (f ≢ resolved → Holds k f db) × (f ≡ resolved → Free k db)

abbrev Ends : {W : Type 0} → Caller → ExecutionFinality → Result (Unit {0}) × Shared W → Type 0
Ends k f x = Outcome (λ u s. Agrees k f s.db) (λ e s. Unit {0}) x

module _ {W : Type 0} (desk : Desk W) where
  finish_open :
      (r : ExecutionRequest) (f : ExecutionFinality) (s : Shared W)
      → f ≢ resolved
      → Ends (self desk r) f (finish desk r f s)
  unfolding finish
  finish_open r f s u =
      elim (Result-cases (update_finality (desk.sqlite s.outside) (self desk r) f s.db)) [
        | inl (next, h) ↦ rw h (
          λ v. update_Holds (desk.sqlite s.outside) (self desk r) f s.db next u h,
          λ e. absurd (u e),
        )
        | inr (e, h) ↦ rw h tt
      ]

  finish_resolved :
      (r : ExecutionRequest) (s : Shared W)
      → IsValid s.db
      → Ends (self desk r) resolved (finish desk r resolved s)
  unfolding finish
  finish_resolved r s v =
      let k = self desk r in
      elim (Result-cases (update_finality (desk.sqlite s.outside) k resolved s.db)) [
        | inl (next, h) ↦
            let (gone, _, _) = resolved_releases (desk.sqlite s.outside) k s.db next "" v h in
            rw h (λ u. absurd (u refl), λ e. record { no_own = λ c held. cc })
        | inr (e, h) ↦ rw h tt
      ]

  restored_open :
      (r : ExecutionRequest) (f : ExecutionFinality) (a : Result Amount) (s : Shared W)
      → f ≢ resolved
      → Ends (self desk r) f (
          continue a
            (λ required s. commit (restore (desk.sqlite s.outside) (self desk r) required f s.db) s)
            s)
  restored_open r f (err e) s u = tt
  restored_open r f (ok a) s u =
      elim (Result-cases (restore (desk.sqlite s.outside) (self desk r) a f s.db)) [
        | inl (next, h) ↦ rw h (
          λ v. restore-Holds (desk.sqlite s.outside) (self desk r) a f s.db next u h,
          λ e. absurd (u e),
        )
        | inr (e, h) ↦ rw h tt
      ]

  keep_open :
      (r : ExecutionRequest) (f : ExecutionFinality) (held : Bool) (s : Shared W)
      → f ≢ resolved
      → Ends (self desk r) f (keep_claim desk r f held s)
  unfolding keep_claim restore_missing ◌>>=◌
  keep_open r f true s u = finish_open r f s u
  keep_open r f false s u =
      let (a, after) = cash_for_restore desk r.side r s in restored_open r f a after u

  sync_open_lem :
      (r : ExecutionRequest) (f : ExecutionFinality) (s : Shared W)
      → f ≢ resolved
      → Ends (self desk r) f (sync_open desk r f s)
  unfolding sync_open ◌>>=◌ owns_claim
  sync_open_lem r f s u =
      elim (Result-cases (has_claim (desk.sqlite s.outside) (self desk r) s.db)) [
        | inl (held, h) ↦ rw h (keep_open r f held s u)
        | inr (e, h) ↦ rw h tt
      ]

  has_claim-Free :
      (sql : Sqlite) (k : Caller) (db : Db)
      → (has_claim sql k db ≡ ok false) ⊎ (has_claim sql k db ≡ err symbol_claim_conflict)
      → Free k db
  unfolding has_claim held_by validate_identity
  has_claim-Free sql k db h = record { no_own = λ c held. ground arith }

  sync_resolved_lem :
      (r : ExecutionRequest) (s : Shared W)
      → IsValid s.db
      → Ends (self desk r) resolved (sync_resolved desk r s)
  unfolding sync_resolved ◌>>=◌ attempt owns_claim give_up
  sync_resolved_lem r s v =
      let sql = desk.sqlite s.outside in
      let k = self desk r in
      elim (Result-cases (has_claim sql k s.db)) [
        | inl (true, h) ↦ rw h (finish_resolved r s v)
        | inl (false, h) ↦ rw h (λ u. absurd (u refl), λ e. has_claim-Free sql k s.db (inl h))
        | inr (symbol_claim_conflict, h) ↦
            rw h (λ u. absurd (u refl), λ e. has_claim-Free sql k s.db (inr h))
        | inr (e, h) ↦ rw h tt
      ]

  sync_cases :
      (r : ExecutionRequest) (f : ExecutionFinality) (s : Shared W)
      → IsValid s.db
      → Ends (self desk r) f (sync_request desk r f s)
  unfolding sync_request is_resolved
  sync_cases r resolved s v = sync_resolved_lem r s v
  sync_cases r open_ s v = sync_open_lem r open_ s (λ e. cc)
  sync_cases r quarantined s v = sync_open_lem r quarantined s (λ e. cc)

-- On a database with its keys, if `_sync` returns for the durable request of an execution, then the
-- database agrees with the execution's finality: unresolved, the execution has the claim on the
-- symbol, with that finality; resolved, it has no claim on the symbol, whoever else has.
pub sync-Agrees :
    {W : Type 0} (desk : Desk W) (r : ExecutionRequest) (f : ExecutionFinality) (s t : Shared W)
    → IsValid s.db
    → sync_request desk r f s ≡ (ok tt, t)
    → Agrees (self desk r) f t.db
sync-Agrees desk r f s t v h = rw h at (sync_cases desk r f s v)
