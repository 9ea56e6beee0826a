-- ===== src/Session/Life.antt =====
-- How `ExecutionSession` in src/qmt_execution_core/session.py opens, closes and starts a new cycle.
use qmt_execution_core.Common.{true, false, not, String, Option, none, some, if◌then◌else◌}
use qmt_execution_core.Errors.{
  Result, ok, err, session_closed, runtime_error, journal_error, journal_integrity_error,
}
use qmt_execution_core.Domain.{SessionEvidence, TradeState, TradeEvent, validate_session}
use qmt_execution_core.Machine.{MachineSnapshot, initial_snapshot}
use qmt_execution_core.Exec.{Exec, pure, raise, lift, gets, modify, attempt, raise_if, ◌>>=◌, ◌>>◌}
use qmt_execution_core.Journal.{
  Payload, Stored, missing, unreadable, stored, Data, new_payload, validate_payload,
  machine_snapshot, cleared, verification_matches,
}
use qmt_execution_core.Session.State.{
  Env, State, external, set_owned, get_data, require_open, write, write_data, transition_with,
  transition,
}
use qmt_execution_core.Session.Report.{ExecutionSnapshot, no_reason, declares, any_error}
use qmt_execution_core.Session.Observe.{get_state, report, recover_unknown}

-- what `open` does in a state that the journal held
pub data Resume : Type 0 where
  start stay restart recover abandon : Resume

unfoldable pub resume : TradeState → Resume
resume TradeState.idle = start
resume TradeState.wait_trigger = stay
resume TradeState.filled = stay
resume TradeState.cancelled = stay
resume TradeState.rejected = stay
resume TradeState.failed = stay
resume TradeState.submitted = restart
resume TradeState.accepted = restart
resume TradeState.working = restart
resume TradeState.partially_filled = restart
resume TradeState.pending_cancel = restart
resume TradeState.cancelling = restart
resume TradeState.cancel_rejected = restart
resume TradeState.unknown = recover
resume TradeState.trigger = abandon
resume TradeState.pre_check = abandon

module _ (env : Env) where
  open env use {World, build, read_journal, acquire_lock, release_lock, verify_session}

  -- `ExecutionJournal.open`; the payload is set before the snapshot in it is checked
  unfoldable pub load_journal : Stored → Exec (State World) MachineSnapshot
  load_journal unreadable = raise journal_integrity_error
  load_journal missing = do
    id ← gets (λ s. s.execution_id)
    write env (new_payload id)
    pure initial_snapshot
  load_journal (stored p) = do
    id ← gets (λ s. s.execution_id)
    lift (validate_payload id p)
    modify (λ s. record s { payload = some p })
    lift (machine_snapshot p)

  -- a journal that is open is not opened again
  unfoldable pub load_once : Option Payload → Stored → Exec (State World) MachineSnapshot
  load_once none file = load_journal file
  load_once (some p) file = raise journal_error

  unfoldable pub open_journal : Exec (State World) MachineSnapshot
  open_journal = do
    held ← gets (λ s. s.payload)
    file ← gets (λ s. read_journal s.world)
    load_once held file

  unfoldable pub bind_verification : Data → Option (String × String) → Exec (State World) Unit
  bind_verification d none = write_data env (record d { formal_verification = some build })
  bind_verification d (some bound) =
      raise_if (not (verification_matches build d)) journal_integrity_error

  unfoldable pub resume_with : SessionEvidence → Resume → Exec (State World) Unit
  resume_with evidence start = transition_with env (some evidence) none TradeEvent.session_ready
  resume_with evidence stay = pure tt
  resume_with evidence restart = do
    transition env TradeEvent.restart_recovery
    recover_unknown env
    pure tt
  resume_with evidence recover = do recover_unknown env; pure tt
  resume_with evidence abandon = transition env TradeEvent.fatal

  -- the `try` block of `open`
  unfoldable pub open_body : Exec (State World) ExecutionSnapshot
  open_body = do
    m ← open_journal
    modify (λ s. record s { snapshot = m })
    d ← get_data
    bind_verification d d.formal_verification
    evidence ← external verify_session
    lift (validate_session evidence)
    raise_if (not evidence.ready) runtime_error
    state ← get_state env
    resume_with evidence (resume state)
    modify (λ s. record s { is_open = true })
    report env no_reason

  unfoldable pub release : Exec (State World) Unit
  release = modify (λ s. record s { owned = false; world = release_lock s.world })

  unfoldable pub opened : Result ExecutionSnapshot → Exec (State World) ExecutionSnapshot
  opened (ok r) = pure r
  opened (err e) = do release; raise e

  unfoldable pub open_session : Exec (State World) ExecutionSnapshot
  open_session = do
    is_closed ← gets (λ s. s.is_closed)
    is_open ← gets (λ s. s.is_open)
    raise_if is_closed session_closed
    if is_open then report env no_reason else do
      owned ← gets (λ s. s.owned)
      raise_if owned runtime_error
      external acquire_lock
      set_owned true
      answer ← attempt any_error open_body
      opened answer

  unfoldable pub close : Exec (State World) Unit
  close = do
    is_closed ← gets (λ s. s.is_closed)
    if is_closed
        then pure tt
        else do release; modify (λ s. record s { is_open = false; is_closed = true })

  unfoldable pub next_cycle : Exec (State World) ExecutionSnapshot
  next_cycle = do
    require_open
    state ← get_state env
    raise_if (not (declares state TradeEvent.next_cycle)) runtime_error
    transition env TradeEvent.next_cycle
    d ← get_data
    write_data env (cleared d)
    report env no_reason
