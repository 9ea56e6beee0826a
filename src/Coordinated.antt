-- ===== src/Coordinated.antt =====
-- src/qmt_execution_core/coordinated_session.py: a session that shares an account through the
-- coordination database.
pub mod Methods
pub mod Sync
pub mod Hooks
pub mod Estimated
pub mod Examples
use qmt_execution_core.Common.{
  ℕ, Bool, true, false, ◌||◌, String, str_eq, Option, none, some, ◌==◌, if◌then◌else◌,
}
use qmt_execution_core.Errors.{
  Error, Result, ok, err, is_broker_error, is_coordination_error, broker_submission_rejected,
  broker_submission_ambiguous, coordination_error, symbol_claim_conflict,
}
use qmt_execution_core.Domain.{Side, buy, sell, ExecutionRequest}
use qmt_execution_core.Machine.{MachineSnapshot}
use qmt_execution_core.Finality.{ExecutionFinality, resolved, execution_finality}
use qmt_execution_core.Coordination.Tables.{Db, Amount, absent, Sqlite, Caller}
use qmt_execution_core.Coordination.Transactions.{
  prepare, restore, update_finality, is_resolved, has_claim,
}
use qmt_execution_core.Exec.{Exec, raise, pure, lift, gets, attempt, ◌>>=◌, ◌>>◌}
use qmt_execution_core.Journal.{Payload, Intent}
use qmt_execution_core.Session.State.{Env, State, external}
use qmt_execution_core.Session.Observe.{poll}
use qmt_execution_core.Session.Submit.{submit, reconcile, cancel}
use qmt_execution_core.Session.Life.{open_session}
use qmt_execution_core.Session.Report.{ExecutionSnapshot, any_error, is_rejection}

-- The world of a coordinated session: the database, and the rest.
pub record Shared (W : Type 0) : Type 0 where
  pub db : Db
  pub outside : W

-- What the session is given: the raw broker, the project's hook, the account's resource and the
-- cash estimator, if there is one. `query_asset` is modelled by the cash that it reports.
pub record Desk (W : Type 0) : Type 0 where
  pub account_key : String
  pub execution_id : String
  pub sqlite : W → Sqlite
  pub place_order : ExecutionRequest → W → Result ℕ × W
  pub sidecar : Option (ExecutionRequest → W → Result (Unit {0}) × W)
  pub query_asset : W → Result Amount × W
  pub cash_estimator : Option (ExecutionRequest → Amount → W → Result Amount × W)

module _ {W : Type 0} where
  abbrev outer : {A : Type 0} → (W → Result A × W) → Exec (Shared W) A
  outer call s = let (r, w) = call s.outside in (r, record s { outside = w })

  -- a transaction: the database it leaves, or an exception and the database as it was
  abbrev commit : Result Db → Exec (Shared W) (Unit {0})
  commit (ok next) s = (ok tt, record s { db = next })
  commit (err e) s = (err e, s)

  -- `except Exception` around an estimate
  abbrev estimate_or : Error → Result (Amount × Amount) → Exec (Shared W) (Amount × Amount)
  estimate_or x (ok a) = pure a
  estimate_or x (err e) = raise x

-- `request_of` is the constructor call of `_durable_request` with the tests of `__post_init__`
unfoldable pub request_of : Intent → Result ExecutionRequest
request_of i =
    if str_eq i.client_order_id ""
      || (str_eq i.symbol ""
          || (str_eq i.strategy_id ""
              || (str_eq i.order_remark "" || (i.qty == 0 || i.limit_price == 0))))
    then err coordination_error
    else ok (record {
      client_order_id = i.client_order_id;
      symbol = i.symbol;
      side = i.side;
      qty = i.qty;
      limit_price = i.limit_price;
      strategy_id = i.strategy_id;
      order_remark = i.order_remark;
    })

intent_in : Option Payload → Option Intent
intent_in none = none
intent_in (some p) = p.fields.intent

reconstruct : Option Intent → Result (Option ExecutionRequest)
reconstruct none = ok none
reconstruct (some i) = elim (request_of i) [ ok r ↦ ok (some r) | err e ↦ err e ]

module _ {W : Type 0} (desk : Desk W) where
  open desk use {account_key, execution_id, sqlite, query_asset, cash_estimator}

  abbrev pub self : ExecutionRequest → Caller
  self r = record { account_key = account_key; execution_id = execution_id; request = r }

  unfoldable pub finish : ExecutionRequest → ExecutionFinality → Exec (Shared W) (Unit {0})
  finish r f s = commit (update_finality (sqlite s.outside) (self r) f s.db) s

  unfoldable pub estimated : ExecutionRequest → Exec (Shared W) (Amount × Amount)
  estimated r = elim cash_estimator [
    | none ↦ raise broker_submission_rejected
    | some estimate ↦ do
      asset ← outer query_asset
      required ← outer (estimate r asset)
      pure (asset, required)
  ]

  -- the two amounts that `_coordinate_before_submit` passes on
  unfoldable pub amounts : Side → ExecutionRequest → Exec (Shared W) (Amount × Amount)
  amounts sell r = pure (absent, absent)
  amounts buy r = do
    answer ← attempt any_error (estimated r)
    estimate_or broker_submission_rejected answer

  as_rejection : Result (Unit {0}) → Exec (Shared W) (Unit {0})
  as_rejection (ok u) = pure tt
  as_rejection (err e) = raise broker_submission_rejected

  unfoldable pub coordinate_before_submit : ExecutionRequest → Exec (Shared W) (Unit {0})
  unfolding as_rejection
  coordinate_before_submit r = do
    (available, required) ← amounts r.side r
    answer ←
        attempt is_coordination_error
          λ s. commit (prepare (sqlite s.outside) (self r) available required s.db) s
    as_rejection answer

  -- `_CoordinatedBrokerPort.place_order`, after the raw broker answered
  unfoldable pub after_raw_place : ExecutionRequest → Result ℕ → Exec (Shared W) ℕ
  after_raw_place r (ok id) = pure id
  after_raw_place r (err e) =
      if is_rejection e
      then (finish r resolved >> raise e)
      else (if is_broker_error e then raise e else raise broker_submission_ambiguous)

  unfoldable pub place_order : ExecutionRequest → Exec (Shared W) ℕ
  place_order r = do
    answer ← attempt any_error (outer (desk.place_order r))
    after_raw_place r answer

  unfoldable pub after_hook : ExecutionRequest → Result (Unit {0}) → Exec (Shared W) (Unit {0})
  after_hook r (ok u) = pure tt
  after_hook r (err e) = do finish r resolved; raise e

  run_hook :
      ExecutionRequest
      → Option (ExecutionRequest → W → Result (Unit {0}) × W)
      → Exec (Shared W) (Unit {0})
  run_hook r none = pure tt
  run_hook r (some hook) = do answer ← attempt any_error (outer (hook r)); after_hook r answer

  unfoldable pub run_project_sidecar : ExecutionRequest → Exec (Shared W) (Unit {0})
  unfolding run_hook
  run_project_sidecar r = run_hook r desk.sidecar

  -- the estimate that `restore` gets; its `available` is not used
  unfoldable pub cash_for_restore : Side → ExecutionRequest → Exec (Shared W) Amount
  cash_for_restore sell r = pure absent
  cash_for_restore buy r = do
    answer ← attempt any_error (estimated r)
    (available, required) ← estimate_or coordination_error answer
    pure required

  unfoldable pub owns_claim : ExecutionRequest → Exec (Shared W) Bool
  owns_claim r s = (has_claim (sqlite s.outside) (self r) s.db, s)

  abbrev is_conflict : Error → Bool
  is_conflict symbol_claim_conflict = true
  is_conflict _ = false

  give_up : ExecutionRequest → Result Bool → Exec (Shared W) (Unit {0})
  give_up r (ok true) = finish r resolved
  give_up r (ok false) = pure tt
  give_up r (err e) = pure tt

  unfoldable pub sync_resolved : ExecutionRequest → Exec (Shared W) (Unit {0})
  unfolding give_up
  sync_resolved r = do answer ← attempt is_conflict (owns_claim r); give_up r answer

  unfoldable pub restore_missing : ExecutionRequest → ExecutionFinality → Exec (Shared W) (Unit {0})
  restore_missing r f = do
    required ← cash_for_restore r.side r
    λ s. commit (restore (sqlite s.outside) (self r) required f s.db) s

  keep_claim : ExecutionRequest → ExecutionFinality → Bool → Exec (Shared W) (Unit {0})
  keep_claim r f true = finish r f
  keep_claim r f false = restore_missing r f

  unfoldable pub sync_open : ExecutionRequest → ExecutionFinality → Exec (Shared W) (Unit {0})
  unfolding keep_claim
  sync_open r f = do held ← owns_claim r; keep_claim r f held

  unfoldable pub sync_request : ExecutionRequest → ExecutionFinality → Exec (Shared W) (Unit {0})
  sync_request r f = if is_resolved f then sync_resolved r else sync_open r f

  unfoldable pub sync_found :
      ExecutionSnapshot
      → MachineSnapshot
      → Option ExecutionRequest
      → Exec (State (Shared W)) ExecutionSnapshot
  sync_found snapshot machine none = pure snapshot
  sync_found snapshot machine (some r) = do
    external (sync_request r (execution_finality machine))
    pure snapshot

  -- `_sync`
  unfoldable pub sync : ExecutionSnapshot → Exec (State (Shared W)) ExecutionSnapshot
  unfolding intent_in reconstruct
  sync snapshot = do
    payload ← gets (λ s. s.payload)
    request ← lift (reconstruct (intent_in payload))
    machine ← gets (λ s. s.snapshot)
    sync_found snapshot machine request
