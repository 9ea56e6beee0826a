-- ===== src/Session/Durable.antt =====
-- What the journal file holds when `ExecutionSession` in src/qmt_execution_core/session.py hands an
-- order to the broker.
use qmt_execution_core.Common.{◌≡◌, refl, Bool, true, false, Option, none, some, List, [], ◌∷◌}
use qmt_execution_core.Errors.{Result, ok, err}
use qmt_execution_core.Domain.{ExecutionRequest, TradeState, TradeEvent}
use qmt_execution_core.Exec.Triple.{Outcome, Triple}
use qmt_execution_core.Exec.Keeps.{Keeps, keeps_rules}
use qmt_execution_core.Journal.{Payload, intent_of}
use qmt_execution_core.Session.State.{
  Env, Effect, wrote, coordinated, sidecar, placed, cancelled, State, external, log, succeeded,
  get_payload, write, transition_with,
}
use qmt_execution_core.Session.Stable.{is_placed, Stable}

-- The last write of a trace, newest effect first, and whether the file took it.
abbrev pub last_write : List Effect → Option (Payload × Bool)
last_write [] = none
last_write (wrote p b ∷ t) = some (p, b)
last_write (coordinated r ∷ t) = last_write t
last_write (sidecar r ∷ t) = last_write t
last_write (placed r ∷ t) = last_write t
last_write (cancelled i ∷ t) = last_write t

-- The last write reached the file, is in SUBMITTED and carries the intent of `r`.
pub record Recorded (r : ExecutionRequest) (t : List Effect) : Type 0 where
  pub payload : Payload
  pub is_last : last_write t ≡ some (payload, true)
  pub in_submitted : payload.machine.state ≡ TradeState.submitted
  pub carries : payload.fields.intent ≡ some (intent_of r)

-- Every order of the trace went to the broker with its intent in the file.
pub data Durable : List Effect → Type 0 where
  start : Durable []
  other : {e : Effect} {t : List Effect} → is_placed e ≡ false → Durable t → Durable (e ∷ t)
  place :
      {r : ExecutionRequest} {t : List Effect} → Recorded r t → Durable t → Durable (placed r ∷ t)

abbrev pub IsDurable : {W : Type 0} → State W → Type 0
IsDurable s = Durable s.trace

module _ (env : Env) where
  external-Durable :
      {A : Type 0} (call : env.World → Result A × env.World) → Keeps IsDurable (external call)
  unfolding external
  external-Durable call = record { at = λ s h. h }

  write-Durable : (p : Payload) → Keeps IsDurable (write env p)
  unfolding write
  write-Durable p = record { at = λ s h. other refl h }

  transition_with-Durable :
      (se : _) (pe : _) (e : TradeEvent) → Keeps IsDurable (transition_with env se pe e)
  unfolding transition_with get_payload
  transition_with-Durable se pe e = search (keeps_rules, write-Durable) depth 10

  log-Durable : (e : Effect) → is_placed e ≡ false → Keeps IsDurable (log {W = env.World} e)
  unfolding log
  log-Durable e n = record { at = λ s h. other n h }

  pub Durable-Stable : Stable env IsDurable
  Durable-Stable = record {
    external_Keeps = external-Durable;
    write_Keeps = write-Durable;
    transition_Keeps = transition_with-Durable;
    log_Keeps = log-Durable;
  }

  write_ends :
      (p : Payload) (a : Result (Unit {0})) (w : env.World) (s : State env.World)
      → Durable s.trace
      → Outcome
          (λ u t. IsDurable t × (t.payload ≡ some p) × (last_write t.trace ≡ some (p, true)))
          (λ e t. IsDurable t)
          (a, record s { payload = some p; world = w; trace = wrote p (succeeded a) ∷ s.trace })
  write_ends p (ok u) w s h = (other refl h, refl, refl)
  write_ends p (err e) w s h = other refl h

  pub write_lem :
      (p : Payload)
      → Triple IsDurable
          (write env p)
          (λ u t. IsDurable t × (t.payload ≡ some p) × (last_write t.trace ≡ some (p, true)))
          (λ e t. IsDurable t)
  unfolding write
  write_lem p = record {
    at = λ s h. let (a, w) = env.write_journal p s.world in write_ends p a w s h;
  }
