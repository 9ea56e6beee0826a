-- ===== src/Runtime/Acquire.antt =====
-- src/qmt_execution_core/miniqmt/runtime.py, `connect`: what it acquires, in which order, and what
-- its handler gives back. The SDK, the account's selection and the constructors are parameters.
use qmt_execution_core.Common.{ℕ, Bool, true, false, Option, none, some, List, if◌then◌else◌}
use qmt_execution_core.Errors.{Result, ok, err}
use qmt_execution_core.Exec.{Exec, pure, lift, modify, ◌>>=◌, ◌>>◌}
use qmt_execution_core.Adapter.{RawInt}
use qmt_execution_core.SessionId.{release}
use qmt_execution_core.Runtime.Connect.{Pool, TraderCalls, exact_zero, start_up, try_candidates}

-- What the local variables hold: the mutex, the running queue, the lease, the trader by its session
-- id, and a session that is not closed; and the leases of all processes.
pub record Resources (W : Type 0) : Type 0 where
  pub world : W
  pub leases : List ℕ
  pub runtime_mutex : Bool
  pub queue_runs : Bool
  pub session_id_lease : Option ℕ
  pub trader : Option ℕ
  pub session : Bool

abbrev pub nothing_held : {W : Type 0} → W → List ℕ → Resources W
nothing_held w leases = record {
  world = w;
  leases = leases;
  runtime_mutex = false;
  queue_runs = false;
  session_id_lease = none;
  trader = none;
  session = false;
}

-- `runtime_lock_mode`, with the session id that is configured or drawn, or with the candidates and
-- whether the configuration gives the only one
pub data LockMode : Type 0 where
  exclusive_mode : (session_id : ℕ) → LockMode
  shared_mode : (fixed : Bool) (candidates : List ℕ) → LockMode

pub record Calls (W : Type 0) : Type 0 where
  pub traders : TraderCalls W
  pub acquire_mutex : W → Result (Unit {0}) × W
  pub start_queue : W → Result (Unit {0}) × W
  pub select_account : ℕ → W → Result (Unit {0}) × W
  pub subscribe : ℕ → W → Result RawInt × W
  pub build_session : W → Result (Unit {0}) × W
  pub open_after : W → Result (Unit {0}) × W
  pub close_session : W → W

module _ {W : Type 0} where
  abbrev pub world_call : {A : Type 0} → (W → Result A × W) → Exec (Resources W) A
  world_call f r = let (a, w) = f r.world in (a, record r { world = w })

  abbrev pub with_lease : Result ℕ × Pool W → Exec (Resources W) ℕ
  with_lease (ok id, p) r = (
    ok id,
    record r { world = p.world; leases = p.leases; session_id_lease = some id; trader = some id },
  )
  with_lease (err e, p) r = (err e, record r { world = p.world; leases = p.leases })

  module _ (calls : Calls W) where
    open calls use {
      traders, acquire_mutex, start_queue, select_account, subscribe, build_session, open_after,
      close_session,
    }

    unfoldable pub take_mutex : LockMode → Exec (Resources W) (Unit {0})
    take_mutex (shared_mode fixed ids) = pure tt
    take_mutex (exclusive_mode id) = do
      world_call acquire_mutex
      modify λ r. record r { runtime_mutex = true }

    unfoldable pub run_queue : Exec (Resources W) (Unit {0})
    run_queue = do world_call start_queue; modify λ r. record r { queue_runs = true }

    unfoldable pub start_trader : LockMode → Exec (Resources W) ℕ
    start_trader (shared_mode fixed ids) r =
        with_lease
          (try_candidates traders fixed ids (record { world = r.world; leases = r.leases })) r
    start_trader (exclusive_mode id) r =
        (do
          world_call (traders.trader_factory id)
          modify λ r. record r { trader = some id }
          world_call (start_up traders id)
          pure id)
          r

    unfoldable pub bind_and_build : (auto_open : Bool) → ℕ → Exec (Resources W) ℕ
    bind_and_build auto_open id = do
      world_call (select_account id)
      code ← world_call (subscribe id)
      lift (exact_zero code)
      world_call build_session
      modify λ r. record r { session = true }
      if auto_open then world_call open_after else pure tt
      pure id

    unfoldable pub acquire_all : LockMode → (auto_open : Bool) → Exec (Resources W) ℕ
    acquire_all mode auto_open = do
      take_mutex mode
      run_queue
      id ← start_trader mode
      bind_and_build auto_open id

    abbrev pub after_close : Bool → W → W
    after_close session w = if session then close_session w else w

    abbrev pub stopped : Option ℕ → W → W
    stopped none w = w
    stopped (some id) w = traders.stop id w

    abbrev pub given_back : Option ℕ → List ℕ → List ℕ
    given_back none leases = leases
    given_back (some id) leases = release id leases

    -- `except Exception`
    unfoldable pub give_all_back : Resources W → Resources W
    give_all_back r = record {
      world = stopped r.trader (after_close r.session r.world);
      leases = given_back r.session_id_lease r.leases;
      runtime_mutex = false;
      queue_runs = false;
      session_id_lease = none;
      trader = none;
      session = false;
    }

    abbrev pub or_give_all_back : Result ℕ × Resources W → Result ℕ × Resources W
    or_give_all_back (ok id, r) = (ok id, r)
    or_give_all_back (err e, r) = (err e, give_all_back r)

    unfoldable pub connect_all : LockMode → (auto_open : Bool) → Exec (Resources W) ℕ
    connect_all mode auto_open r = or_give_all_back (acquire_all mode auto_open r)
