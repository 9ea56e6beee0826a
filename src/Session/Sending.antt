-- ===== src/Session/Sending.antt =====
-- `submit` of src/qmt_execution_core/session.py up to `place_order`: the intent is in the file first.
use qmt_execution_core.Common.{◌≡◌, refl, Bool, none, some, arith}
use qmt_execution_core.Errors.{Error, Result, ok, err}
use qmt_execution_core.Domain.{ExecutionRequest, TradeState, TradeEvent}
use qmt_execution_core.Machine.{MachineSnapshot, advance}
use qmt_execution_core.Table.{transitions}
use qmt_execution_core.Machine.Reach.{advance_parts}
use qmt_execution_core.Exec.{Exec, attempt, ◌>>◌}
use qmt_execution_core.Exec.Keeps.{Keeps, Keeps-bind, Keeps-if, Keeps-attempt, Keeps-raise}
use qmt_execution_core.Exec.Triple.{Outcome, Triple, bind, after, of_Keeps, to_Keeps}
use qmt_execution_core.Journal.{
  Payload, Data, intent_of, with_intent, assert_identity_unused, record_transition,
}
use qmt_execution_core.Session.State.{
  Env, State, external, log, get_payload, write_data, transition_with, transition,
}
use qmt_execution_core.Session.Stable.{
  get_payload-Keeps, get_data-Keeps, after_place-Keeps, transition-Keeps, report-Keeps,
}
use qmt_execution_core.Session.Report.{ExecutionSnapshot}
use qmt_execution_core.Session.Submit.{place, after_sidecar, after_coordination, send}
use qmt_execution_core.Session.Durable.{
  Recorded, Durable, other, IsDurable, Durable-Stable, write_lem,
}

with_intent_lem :
    (r : ExecutionRequest) (d : Data) {n : Data}
    → with_intent r d ≡ ok n
    → n.intent ≡ some (intent_of r)
unfolding with_intent assert_identity_unused
with_intent_lem r d h = ground arith

intent_state :
    (m n : MachineSnapshot)
    → advance none none m TradeEvent.intent_persisted ≡ ok n
    → n.state ≡ TradeState.submitted
unfolding transitions
intent_state m n h =
    let (t, _, _, _) = advance_parts none none TradeEvent.intent_persisted m n h in ground arith

module _ (env : Env) (r : ExecutionRequest) where
  -- The last write of the state carries the intent of `r`, and memory holds what was written.
  abbrev Carrying : State env.World → Type 0
  Carrying s = (p : Payload) × (s.payload ≡ some p) × (p.fields.intent ≡ some (intent_of r))

  write_data_lem :
      (n : Data)
      → n.intent ≡ some (intent_of r)
      → Triple IsDurable (write_data env n) (λ u t. IsDurable t × Carrying t) (λ e t. IsDurable t)
  unfolding write_data
  write_data_lem n h = bind _ _ (of_Keeps IsDurable _ (get_payload-Keeps (Durable-Stable env))) λ p.
      after _ (write_lem env (record p { fields = n }))
        λ u t (d, m, l). (d, (record p { fields = n }, m, h))

  -- A state that is ready for the transition, whose result is in SUBMITTED.
  abbrev Submitting : MachineSnapshot → State env.World → Type 0
  Submitting n s = IsDurable s × Carrying s × (n.state ≡ TradeState.submitted)

  submitting :
      (a : Result MachineSnapshot) (s : State env.World)
      → ((n : MachineSnapshot) → a ≡ ok n → n.state ≡ TradeState.submitted)
      → IsDurable s × Carrying s
      → Outcome Submitting (λ e t. IsDurable t) (a, s)
  submitting (ok n) s h (d, c) = (d, c, h n refl)
  submitting (err e) s h (d, c) = d

  loaded_lem :
      (n : MachineSnapshot)
      → Triple
          (Submitting n)
          get_payload
          (λ p t.
            IsDurable t × (n.state ≡ TradeState.submitted) × (p.fields.intent ≡ some (intent_of r)))
          (λ e t. IsDurable t)
  unfolding get_payload
  loaded_lem n = record { at = λ s (d, (p, m, i), h). rw m (d, h, i) }

  -- The transition to SUBMITTED leaves the intent in the file, or raises.
  intent_lem :
      Triple
        (λ s. IsDurable s × Carrying s)
        (transition env TradeEvent.intent_persisted)
        (λ u t. IsDurable t × Recorded r t.trace)
        (λ e t. IsDurable t)
  unfolding transition transition_with record_transition
  intent_lem =
      bind {Q = λ m t. IsDurable t × Carrying t} _ _ (record { at = λ s h. h })
        λ m.
          bind {Q = Submitting} _ _
            (record { at = λ s h. submitting _ s (λ n e. intent_state m n e) h })
            λ n.
              bind {Q = λ u. Submitting n} _ _ (record { at = λ s h. h })
                λ _. bind _ _ (loaded_lem n) λ p. record {
                  at = λ s (d, h, i).
                      (after _ (write_lem env (record_transition TradeEvent.intent_persisted n p))
                          λ u t (d', m, l). (
                            d',
                            record { payload = _; is_last = l; in_submitted = h; carries = i },
                          )).at
                        s d;
                }

  -- What the hooks between the intent and the order keep.
  abbrev IsReady : State env.World → Type 0
  IsReady s = IsDurable s × Recorded r s.trace

  hook_lem :
      {A : Type 0} (catches : Error → Bool) (call : env.World → Result A × env.World)
      → Keeps IsReady (attempt catches (external call))
  unfolding external
  hook_lem catches call = Keeps-attempt _ _ (record { at = λ s h. h })

  ready :
      {A : Type 0} (m : Exec (State env.World) A)
      → Keeps IsReady m
      → Triple IsReady m (λ a. IsReady) (λ e t. IsDurable t)
  ready m k = record { at = λ s h. drops (m s) ((of_Keeps IsReady m k).at s h) }
    where
      drops :
          {A : Type 0} (x : Result A × State env.World)
          → Outcome (λ a. IsReady) (λ e. IsReady) x
          → Outcome (λ a. IsReady) (λ e t. IsDurable t) x
      drops (ok a, s) h = h
      drops (err e, s) (d, h) = d

  intended :
      (a : Result Data) (s : State env.World)
      → ((n : Data) → a ≡ ok n → n.intent ≡ some (intent_of r))
      → IsDurable s
      → Outcome (λ n t. IsDurable t × (n.intent ≡ some (intent_of r))) (λ e t. IsDurable t) (a, s)
  intended (ok n) s h d = (d, h n refl)
  intended (err e) s h d = d

  module _ (self_poll : Exec (State env.World) ExecutionSnapshot)
      (polls : Keeps IsDurable self_poll) where
    placed_lem : Triple IsReady (place env self_poll r) (λ a t. IsDurable t) (λ e t. IsDurable t)
    unfolding place log
    placed_lem =
        bind {Q = λ u t. IsDurable t} _ _ (record { at = λ s (d, h). Durable.place h d })
          λ _. of_Keeps IsDurable _ (
            Keeps-bind _ _ (Keeps-attempt _ _ ((Durable-Stable env).external_Keeps _))
              λ a. after_place-Keeps (Durable-Stable env) self_poll polls a)

    leaves :
        {B : Type 0} (m : Exec (State env.World) B)
        → Keeps IsDurable m
        → Triple IsReady m (λ a t. IsDurable t) (λ e t. IsDurable t)
    leaves m k = record { at = λ s (d, h). (of_Keeps IsDurable m k).at s d }

    transition_raises :
        {B : Type 0} (e : TradeEvent) (m : Exec (State env.World) B)
        → Keeps IsDurable m
        → Triple IsReady (transition env e >> m) (λ a t. IsDurable t) (λ e t. IsDurable t)
    transition_raises e m k =
        leaves _ (Keeps-bind _ _ (transition-Keeps (Durable-Stable env) e) λ _. k)

    after_sidecar_lem :
        (a : Result (Unit {0}))
        → Triple IsReady (after_sidecar env self_poll r a) (λ a t. IsDurable t) (λ e t. IsDurable t)
    unfolding after_sidecar
    after_sidecar_lem (ok u) = placed_lem
    after_sidecar_lem (err e) = transition_raises _ _ (Keeps-raise e)

    after_coordination_lem :
        (a : Result (Unit {0}))
        → Triple IsReady
            (after_coordination env self_poll r a)
            (λ a t. IsDurable t)
            (λ e t. IsDurable t)
    unfolding after_coordination log
    after_coordination_lem (ok u) =
        bind {Q = λ u. IsReady} _ _
          (record {
            at = λ s (d, h). (
              other refl d,
              record {
                payload = h.payload;
                is_last = h.is_last;
                in_submitted = h.in_submitted;
                carries = h.carries;
              },
            );
          })
          λ _. bind {Q = λ a. IsReady} _ _ (ready _ (hook_lem _ _)) λ a. after_sidecar_lem a
    after_coordination_lem (err e) = leaves _ (
        Keeps-if _ _ _
          (Keeps-bind _ _ (transition-Keeps (Durable-Stable env) _)
            λ _. report-Keeps (Durable-Stable env) _)
          (Keeps-bind _ _ (transition-Keeps (Durable-Stable env) _) λ _. Keeps-raise e))

    pub send-Durable : Keeps IsDurable (send env self_poll r)
    unfolding send log
    send-Durable = to_Keeps IsDurable _ (
        bind _ _ (of_Keeps IsDurable _ (get_data-Keeps (Durable-Stable env))) λ d.
          bind {Q = λ n t. IsDurable t × (n.intent ≡ some (intent_of r))} _ _
            (record { at = λ s h. intended _ s (λ n e. with_intent_lem r d e) h })
            λ n.
              bind _ _ (record { at = λ s (d', h). (write_data_lem n h).at s d' })
                λ _. bind _ _ intent_lem λ _.
                  bind {Q = λ u. IsReady} _ _
                    (record {
                      at = λ s (d, h). (
                        other refl d,
                        record {
                          payload = h.payload;
                          is_last = h.is_last;
                          in_submitted = h.in_submitted;
                          carries = h.carries;
                        },
                      );
                    })
                    λ _.
                      bind {Q = λ a. IsReady} _ _ (ready _ (hook_lem _ _))
                        λ a. after_coordination_lem a)
