-- ===== src/Session/Calls.antt =====
-- Sequences of calls of `ExecutionSession` in src/qmt_execution_core/session.py, each with whatever
-- outcome, on one object.
use qmt_execution_core.Common.{String, Option, none, some, List, [], ◌∷◌}
use qmt_execution_core.Errors.{Result, ok, err}
use qmt_execution_core.Domain.{ExecutionRequest, PrecheckEvidence, SessionEvidence}
use qmt_execution_core.Exec.{Exec}
use qmt_execution_core.Exec.Keeps.{
  Keeps, Keeps-bind, Keeps-if, Keeps-lift, Keeps-raise, Keeps-gets, Keeps-attempt, Keeps-raise_if,
  Keeps-pure,
}
use qmt_execution_core.Journal.{Payload, Stored, missing, unreadable, stored, Data}
use qmt_execution_core.Session.State.{Env, State, new_session}
use qmt_execution_core.Session.Submit.{prechecked, submit, reconcile, cancel}
use qmt_execution_core.Session.Observe.{poll}
use qmt_execution_core.Session.Report.{ExecutionSnapshot}
use qmt_execution_core.Session.Life.{
  Resume, start, stay, restart, recover, abandon, load_journal, load_once, open_journal,
  bind_verification, resume_with, open_body, release, opened, open_session, close, next_cycle,
}
use qmt_execution_core.Session.Stable.{
  get_data-Keeps, require_open-Keeps, write_data-Keeps, transition-Keeps, get_state-Keeps,
  report-Keeps, recover_unknown-Keeps, poll-Keeps, reconcile-Keeps, cancel-Keeps,
}
use qmt_execution_core.Session.Durable.{Durable, IsDurable, Durable-Stable}
use qmt_execution_core.Session.Sending.{send-Durable}

pub data Call : Type 0 where
  open_call poll_call reconcile_call cancel_call next_cycle_call close_call : Call
  submit_call : ExecutionRequest → Call

module _ (env : Env) where
  -- one call, with its result left out
  unfoldable pub after_call : Call → State env.World → State env.World
  after_call Call.open_call s = (open_session env s).1
  after_call Call.poll_call s = (poll env s).1
  after_call Call.reconcile_call s = (reconcile env (poll env) s).1
  after_call Call.cancel_call s = (cancel env (poll env) s).1
  after_call Call.next_cycle_call s = (next_cycle env s).1
  after_call Call.close_call s = (close env s).1
  after_call (Call.submit_call r) s = (submit env (poll env) r s).1

  unfoldable pub after_calls : List Call → State env.World → State env.World
  after_calls [] s = s
  after_calls (c ∷ cs) s = after_calls cs (after_call c s)

  prechecked-Durable :
      (self_poll : Exec (State env.World) ExecutionSnapshot) (r : ExecutionRequest)
      (evidence : PrecheckEvidence)
      → Keeps IsDurable self_poll
      → Keeps IsDurable (prechecked env self_poll r evidence)
  unfolding prechecked
  prechecked-Durable self_poll r evidence polls =
      Keeps-if _ _ _
        (Keeps-bind _ _ ((Durable-Stable env).transition_Keeps _ _ _)
          λ _. send-Durable env r self_poll polls)
        (Keeps-bind _ _ (transition-Keeps (Durable-Stable env) _)
          λ _. report-Keeps (Durable-Stable env) _)

  pub submit-Durable :
      (self_poll : Exec (State env.World) ExecutionSnapshot) (r : ExecutionRequest)
      → Keeps IsDurable self_poll
      → Keeps IsDurable (submit env self_poll r)
  unfolding submit
  submit-Durable self_poll r polls = Keeps-bind _ _ (require_open-Keeps (Durable-Stable env)) λ _.
      Keeps-bind _ _ (get_state-Keeps (Durable-Stable env)) λ _.
        Keeps-bind _ _ (Keeps-raise_if _ _) λ _.
          Keeps-bind _ _ ((Durable-Stable env).external_Keeps _) λ _.
            Keeps-bind _ _ (Keeps-raise_if _ _) λ _.
              Keeps-bind _ _ (get_data-Keeps (Durable-Stable env)) λ _.
                Keeps-bind _ _ (Keeps-lift _) λ _.
                  Keeps-bind _ _ (transition-Keeps (Durable-Stable env) _) λ _.
                    Keeps-bind _ _ (transition-Keeps (Durable-Stable env) _) λ _.
                      Keeps-bind _ _ ((Durable-Stable env).external_Keeps _) λ evidence.
                        Keeps-bind _ _ (Keeps-lift _)
                          λ _. prechecked-Durable self_poll r evidence polls

  load_journal-Durable : (file : Stored) → Keeps IsDurable (load_journal env file)
  unfolding load_journal
  load_journal-Durable unreadable = Keeps-raise _
  load_journal-Durable missing =
      Keeps-bind _ _ (Keeps-gets _)
        λ id. Keeps-bind _ _ ((Durable-Stable env).write_Keeps _) λ _. Keeps-pure _
  load_journal-Durable (stored p) = Keeps-bind _ _ (Keeps-gets _) λ id.
      Keeps-bind _ _ (Keeps-lift _) λ _. Keeps-bind _ _ (record { at = λ s h. h }) λ _. Keeps-lift _

  load_once-Durable :
      (held : Option Payload) (file : Stored) → Keeps IsDurable (load_once env held file)
  unfolding load_once
  load_once-Durable none file = load_journal-Durable file
  load_once-Durable (some p) file = Keeps-raise _

  open_journal-Durable : Keeps IsDurable (open_journal env)
  unfolding open_journal
  open_journal-Durable =
      Keeps-bind _ _ (Keeps-gets _)
        λ held. Keeps-bind _ _ (Keeps-gets _) λ file. load_once-Durable held file

  bind_verification-Durable :
      (d : Data) (b : Option (String × String)) → Keeps IsDurable (bind_verification env d b)
  unfolding bind_verification
  bind_verification-Durable d none = write_data-Keeps (Durable-Stable env) _
  bind_verification-Durable d (some b) = Keeps-raise_if _ _

  resume_with-Durable : (e : SessionEvidence) (r : Resume) → Keeps IsDurable (resume_with env e r)
  unfolding resume_with
  resume_with-Durable e start = (Durable-Stable env).transition_Keeps _ _ _
  resume_with-Durable e stay = Keeps-pure _
  resume_with-Durable e restart =
      Keeps-bind _ _ (transition-Keeps (Durable-Stable env) _)
        λ _. Keeps-bind _ _ (recover_unknown-Keeps (Durable-Stable env)) λ _. Keeps-pure _
  resume_with-Durable e recover =
      Keeps-bind _ _ (recover_unknown-Keeps (Durable-Stable env)) λ _. Keeps-pure _
  resume_with-Durable e abandon = transition-Keeps (Durable-Stable env) _

  open_body-Durable : Keeps IsDurable (open_body env)
  unfolding open_body
  open_body-Durable = Keeps-bind _ _ open_journal-Durable λ m.
      Keeps-bind _ _ (record { at = λ s h. h })
        λ _. Keeps-bind _ _ (get_data-Keeps (Durable-Stable env)) λ d.
          Keeps-bind _ _ (bind_verification-Durable d _) λ _.
            Keeps-bind _ _ ((Durable-Stable env).external_Keeps _) λ e.
              Keeps-bind _ _ (Keeps-lift _) λ _. Keeps-bind _ _ (Keeps-raise_if _ _) λ _.
                Keeps-bind _ _ (get_state-Keeps (Durable-Stable env)) λ state.
                  Keeps-bind _ _ (resume_with-Durable e _) λ _.
                    Keeps-bind _ _ (record { at = λ s h. h })
                      λ _. report-Keeps (Durable-Stable env) _

  opened-Durable : (a : Result ExecutionSnapshot) → Keeps IsDurable (opened env a)
  unfolding opened release
  opened-Durable (ok r) = Keeps-pure r
  opened-Durable (err e) = Keeps-bind _ _ (record { at = λ s h. h }) λ _. Keeps-raise e

  pub open_session-Durable : Keeps IsDurable (open_session env)
  unfolding open_session
  open_session-Durable = Keeps-bind _ _ (Keeps-gets _) λ is_closed.
      Keeps-bind _ _ (Keeps-gets _) λ is_open. Keeps-bind _ _ (Keeps-raise_if _ _) λ _.
        Keeps-if _ _ _ (report-Keeps (Durable-Stable env) _) (
          Keeps-bind _ _ (Keeps-gets _) λ owned. Keeps-bind _ _ (Keeps-raise_if _ _) λ _.
            Keeps-bind _ _ ((Durable-Stable env).external_Keeps _) λ _.
              Keeps-bind _ _ (record { at = λ s h. h })
                λ _. Keeps-bind _ _ (Keeps-attempt _ _ open_body-Durable) λ a. opened-Durable a)

  pub close-Durable : Keeps IsDurable (close env)
  unfolding close release
  close-Durable = Keeps-bind _ _ (Keeps-gets _) λ is_closed.
      Keeps-if _ _ _ (Keeps-pure _)
        (Keeps-bind _ _ (record { at = λ s h. h }) λ _. record { at = λ s h. h })

  pub next_cycle-Durable : Keeps IsDurable (next_cycle env)
  unfolding next_cycle
  next_cycle-Durable = Keeps-bind _ _ (require_open-Keeps (Durable-Stable env)) λ _.
      Keeps-bind _ _ (get_state-Keeps (Durable-Stable env)) λ _.
        Keeps-bind _ _ (Keeps-raise_if _ _) λ _.
          Keeps-bind _ _ (transition-Keeps (Durable-Stable env) _) λ _.
            Keeps-bind _ _ (get_data-Keeps (Durable-Stable env)) λ d.
              Keeps-bind _ _ (write_data-Keeps (Durable-Stable env) _)
                λ _. report-Keeps (Durable-Stable env) _

  call-Durable : (c : Call) (s : State env.World) → IsDurable s → IsDurable (after_call c s)
  unfolding after_call
  call-Durable Call.open_call s h = open_session-Durable.at s h
  call-Durable Call.poll_call s h = (poll-Keeps (Durable-Stable env)).at s h
  call-Durable Call.reconcile_call s h =
      (reconcile-Keeps (Durable-Stable env) (poll env) (poll-Keeps (Durable-Stable env))).at s h
  call-Durable Call.cancel_call s h =
      (cancel-Keeps (Durable-Stable env) (poll env) (poll-Keeps (Durable-Stable env))).at s h
  call-Durable Call.next_cycle_call s h = next_cycle-Durable.at s h
  call-Durable Call.close_call s h = close-Durable.at s h
  call-Durable (Call.submit_call r) s h =
      (submit-Durable (poll env) r (poll-Keeps (Durable-Stable env))).at s h

  calls-Durable :
      (cs : List Call) (s : State env.World) → IsDurable s → IsDurable (after_calls cs s)
  unfolding after_calls
  calls-Durable [] s h = h
  calls-Durable (c ∷ cs) s h = calls-Durable cs (after_call c s) (call-Durable c s h)

  -- Whatever calls a session object gets, and whatever the broker, the file system, the guard and
  -- the hooks answer, at each `place_order` the last write to the journal reached the file, is in
  -- SUBMITTED and carries the intent of that order.
  pub intent_before_order :
      (cs : List Call) (execution_id : String) (w : env.World)
      → Durable (after_calls cs (new_session execution_id w)).trace
  intent_before_order cs execution_id w =
      calls-Durable cs (new_session execution_id w) Durable.start
