-- ===== src/Coordinated/Hooks.antt =====
-- What the hook before an order and the broker port of
-- src/qmt_execution_core/coordinated_session.py do to the shared claims.
use qmt_execution_core.Common.{
  ℕ, ◌≡◌, ◌≢◌, refl, false, true, some, none, arith, inl, inr, ◌⊎◌, Bool-cases,
}
use qmt_execution_core.Errors.{
  Error, Result, ok, err, Result-cases, is_broker_error, is_coordination_error,
  broker_submission_rejected,
}
use qmt_execution_core.Domain.{Side, buy, sell, ExecutionRequest}
use qmt_execution_core.Coordination.Tables.{
  SymbolClaim, Db, Amount, connect_database, find_claim, owns,
}
use qmt_execution_core.Coordination.Transactions.{prepare}
use qmt_execution_core.Coordination.Transactions.Refusal.{prepare-Refusal}
use qmt_execution_core.Coordination.Ops.Exclusive.{prepare_claims}
use qmt_execution_core.Session.Report.{is_rejection}
use qmt_execution_core.Exec.{attempt, continue, settle, ◌>>=◌}
use qmt_execution_core.Exec.Triple.{Outcome, Triple, bind}
use qmt_execution_core.Exec.Keeps.{Keeps, Keeps-bind, Keeps-raise, Keeps-pure}
use qmt_execution_core.Coordinated.{
  Shared, Desk, self, outer, commit, amounts, estimated, estimate_or, as_rejection,
  coordinate_before_submit, place_order, after_raw_place,
}

module _ {W : Type 0} (desk : Desk W) (d : Db) where
  abbrev Has : Shared W → Type 0
  Has s = s.db ≡ d

  -- the exception that the session takes for a definitive refusal, or what the opening of the
  -- database raised; the database is unchanged
  abbrev pub Refused : Error → Shared W → Type 0
  Refused e s =
      Has s
      × ((e ≡ broker_submission_rejected)
          ⊎ (connect_database (desk.sqlite s.outside).connection ≡ err e))

  outer-Keeps : {A : Type 0} (call : W → Result A × W) → Keeps Has (outer call)
  outer-Keeps call = record { at = λ s h. h }

  estimated-Keeps : (r : ExecutionRequest) → Keeps Has (estimated desk r)
  unfolding estimated
  estimated-Keeps r =
      elim desk.cash_estimator
        as (λ c. Keeps Has (estimated (record desk { cash_estimator = c }) r)) [
          | none ↦ Keeps-raise _
          | some estimate ↦
              Keeps-bind _ _ (outer-Keeps _)
                λ asset. Keeps-bind _ _ (outer-Keeps _) λ required. Keeps-pure _
        ]

  spent :
      (a : Result (Amount × Amount)) (t : Shared W)
      → Has t
      → Outcome
          (λ x s. Has s)
          Refused
          (continue
            (settle (λ e. true) a t).0
            (estimate_or broker_submission_rejected)
            (settle (λ e. true) a t).1)
  spent (ok x) t h = h
  spent (err e) t h = (h, inl refl)

  amounts_lem :
      (side : Side) (r : ExecutionRequest) → Triple Has (amounts desk side r) (λ x s. Has s) Refused
  unfolding amounts ◌>>=◌ attempt
  amounts_lem sell r = record { at = λ s h. h }
  amounts_lem buy r = record {
    at = λ s h. let (a, t) = estimated desk r s in spent a t ((estimated-Keeps r).at s h);
  }

  -- the caller owns the symbol
  abbrev pub Owning : ExecutionRequest → Shared W → Type 0
  Owning r s =
      (c : SymbolClaim) × (find_claim desk.account_key r.symbol s.db ≡ some c)
      × (owns (self desk r) c ≡ true)

  prepared_lem :
      (r : ExecutionRequest) (b q : Amount) (s : Shared W)
      → Has s
      → Outcome
          (λ u. Owning r)
          Refused
          (continue
            (settle is_coordination_error
              (commit (prepare (desk.sqlite s.outside) (self desk r) b q s.db) s).0
              (commit (prepare (desk.sqlite s.outside) (self desk r) b q s.db) s).1).0
            (as_rejection desk)
            (settle is_coordination_error
              (commit (prepare (desk.sqlite s.outside) (self desk r) b q s.db) s).0
              (commit (prepare (desk.sqlite s.outside) (self desk r) b q s.db) s).1).1)
  unfolding as_rejection
  prepared_lem r b q s h =
      elim (Result-cases (prepare (desk.sqlite s.outside) (self desk r) b q s.db)) [
        | inl (next, p) ↦
            rw p (prepare_claims (desk.sqlite s.outside) (self desk r) b q s.db next p)
        | inr (e, p) ↦
            elim (rw p at (prepare-Refusal (desk.sqlite s.outside) (self desk r) b q s.db)) [
              | inl c ↦ rw p (rw c (h, inl refl))
              | inr raised ↦ elim (Bool-cases (is_coordination_error e)) [
                | inl c ↦ rw p (rw c (h, inl refl))
                | inr c ↦ rw p (rw c (h, inr raised))
              ]
            ]
      ]

-- If rolling back and closing a connection do not fail, which is how SQLite is modelled: a return of
-- `_coordinate_before_submit` means that the execution owns the symbol. An exception leaves the
-- database as it was, and is `BrokerSubmissionRejected`, whatever the account and the estimator did,
-- unless it is the sqlite3 or OS error that `_connect` raised, which nothing maps.
pub hook_claims_or_rejects :
    {W : Type 0} (desk : Desk W) (r : ExecutionRequest) (s : Shared W)
    → Outcome (λ u. Owning desk s.db r) (Refused desk s.db) (coordinate_before_submit desk r s)
unfolding coordinate_before_submit ◌>>=◌ attempt
hook_claims_or_rejects desk r s =
    (bind {Q = λ x t. t.db ≡ s.db} _ _ (amounts_lem desk s.db r.side r)
        λ x. record { at = λ t h. prepared_lem desk s.db r x.0 x.1 t h }).at
      s refl

answered :
    {W : Type 0} (desk : Desk W) (r : ExecutionRequest) (t : Shared W) (a : Result ℕ)
    → a ≢ err broker_submission_rejected
    → ((continue
          (settle (λ e. true) a t).0
          (after_raw_place desk r)
          (settle (λ e. true) a t).1).1.db
        ≡ t.db)
      × ((e : Error)
          → (continue
              (settle (λ e. true) a t).0
              (after_raw_place desk r)
              (settle (λ e. true) a t).1).0
            ≡ err e
          → (is_broker_error e ≡ true) × (is_rejection e ≡ false))
unfolding after_raw_place is_rejection is_broker_error
answered desk r t (ok id) n = (refl, λ e h. cc)
answered desk r t (err broker_submission_rejected) n = absurd (n refl)
answered desk r t (err x) n = (refl, λ e h. ground arith)

-- Unless the raw broker definitively refuses the order, `place_order` leaves the database as it was,
-- so claim and reservation stay; and what it raises then is a broker error that the session takes
-- for an ambiguous submission, whatever the raw broker raised.
pub ambiguous_keeps_claims :
    {W : Type 0} (desk : Desk W) (r : ExecutionRequest) (s : Shared W)
    → (desk.place_order r s.outside).0 ≢ err broker_submission_rejected
    → ((place_order desk r s).1.db ≡ s.db)
      × ((e : Error)
          → (place_order desk r s).0 ≡ err e
          → (is_broker_error e ≡ true) × (is_rejection e ≡ false))
unfolding place_order ◌>>=◌ attempt
ambiguous_keeps_claims desk r s n =
    let (a, w) = desk.place_order r s.outside in answered desk r (record s { outside = w }) a n
