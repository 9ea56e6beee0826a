-- ===== src/Coordinated/Methods.antt =====
-- The methods of `CoordinatedExecutionSession` in src/qmt_execution_core/coordinated_session.py.
use qmt_execution_core.Domain.{ExecutionRequest}
use qmt_execution_core.Exec.{Exec, ◌>>=◌}
use qmt_execution_core.Session.State.{Env, State}
use qmt_execution_core.Session.Observe.{poll}
use qmt_execution_core.Session.Submit.{submit, reconcile, cancel}
use qmt_execution_core.Session.Life.{open_session}
use qmt_execution_core.Session.Report.{ExecutionSnapshot}
use qmt_execution_core.Coordinated.{
  Shared, Desk, outer, coordinate_before_submit, run_project_sidecar, place_order, sync,
}

-- `CoordinatedExecutionSession`: the session over the shared world, with `_sync` after each method
-- but `next_cycle` and `close`. `raw` has the guard, the files and the other calls of the broker.
module _ (raw : Env) (desk : Desk raw.World) where
  abbrev pub shared : Env
  shared = record {
    World = Shared raw.World;
    build = raw.build;
    read_journal = λ s. raw.read_journal s.outside;
    write_journal = λ p. outer (raw.write_journal p);
    acquire_lock = outer raw.acquire_lock;
    release_lock = λ s. record s { outside = raw.release_lock s.outside };
    verify_session = outer raw.verify_session;
    verify = λ r. outer (raw.verify r);
    execution_healthy = outer raw.execution_healthy;
    before_submit_coordination = coordinate_before_submit desk;
    before_broker_submit = run_project_sidecar desk;
    before_broker_cancel = λ id. outer (raw.before_broker_cancel id);
    place_order = place_order desk;
    cancel_order = λ id. outer (raw.cancel_order id);
    query_order = λ id. outer (raw.query_order id);
    query_orders = outer raw.query_orders;
  }

  unfoldable pub synced_poll : Exec (State (Shared raw.World)) ExecutionSnapshot
  synced_poll = do snapshot ← poll shared; sync desk snapshot

  unfoldable pub synced_open : Exec (State (Shared raw.World)) ExecutionSnapshot
  synced_open = do snapshot ← open_session shared; sync desk snapshot

  unfoldable pub synced_submit :
      ExecutionRequest → Exec (State (Shared raw.World)) ExecutionSnapshot
  synced_submit r = do snapshot ← submit shared synced_poll r; sync desk snapshot

  unfoldable pub synced_reconcile : Exec (State (Shared raw.World)) ExecutionSnapshot
  synced_reconcile = do snapshot ← reconcile shared synced_poll; sync desk snapshot

  unfoldable pub synced_cancel : Exec (State (Shared raw.World)) ExecutionSnapshot
  synced_cancel = do snapshot ← cancel shared synced_poll; sync desk snapshot
