-- ===== src/Formal/Facts.antt =====
-- What one process of src/qmt_execution_core/formal.py may become: the edges of the local graph and
-- the process that a step leaves.
use qmt_execution_core.Common.{
  ◌≡◌, refl, subst, inl, inr, Bool, true, false, not, ◌&&◌, Option, some, List, [], ◌∷◌, arith,
  Bool-cases,
}
use qmt_execution_core.Errors.{ok, Result-cases}
use qmt_execution_core.Domain.{
  TradeState, TradeEvent, SafetyFacts, SessionEvidence, PrecheckEvidence,
}
use qmt_execution_core.Domain.Events.{event_eq, event_eq_sound}
use qmt_execution_core.Table.{transitions}
use qmt_execution_core.Machine.{MachineSnapshot, next_facts, is_submitted, is_unknown}
use qmt_execution_core.Machine.Reach.{Coherent, advance_parts, advance-Coherent}
use qmt_execution_core.Finality.{execution_finality, is_failed}
use qmt_execution_core.Formal.{
  Edge, step_, taken, edges_along, edges, lookup_edge, by_event, declared_events, session_kwarg,
  precheck_kwarg,
}
use qmt_execution_core.Formal.Shared.{
  Three, Index, Process, process, FormalScenario, replace_process, is_resolved, sync_phase,
}
use qmt_execution_core.Formal.Checks.{check_process}

-- Each edge is a step of the machine.
abbrev pub AreSteps : MachineSnapshot → List Edge → Type 0
AreSteps s [] = Unit {0}
AreSteps s ((e, t) ∷ rest) = (step_ s e ≡ ok t) × AreSteps s rest

taken-AreSteps :
    (s : MachineSnapshot) (e : TradeEvent) (rest : List Edge)
    → AreSteps s rest
    → AreSteps s (taken e (step_ s e) rest)
taken-AreSteps s e rest h = elim (Result-cases (step_ s e)) [
  | inl (t, q) ↦ rw q (q, h)
  | inr (x, q) ↦ rw q h
]

along-AreSteps :
    (s : MachineSnapshot) (events : List TradeEvent) → AreSteps s (edges_along s events)
along-AreSteps s [] = tt
along-AreSteps s (e ∷ events) = taken-AreSteps s e (edges_along s events) (along-AreSteps s events)

pub edges-AreSteps : (s : MachineSnapshot) → AreSteps s (edges s)
unfolding declared_events
edges-AreSteps s = along-AreSteps s _

lookup-step :
    (s : MachineSnapshot) (e : TradeEvent) (all : List Edge) (t : MachineSnapshot)
    → AreSteps s all
    → lookup_edge e all ≡ some t
    → step_ s e ≡ ok t
lookup-step s e [] t h q = cc
lookup-step s e ((f, u) ∷ rest) t h q = elim (Bool-cases (event_eq f e)) [
  | inl same ↦
      let hit : u ≡ t = ground arith in
      let key : f ≡ e = event_eq_sound f e same in
      subst (λ k. step_ s k ≡ ok t) key (subst (λ v. step_ s f ≡ ok v) hit h.0)
  | inr differ ↦
      let deeper : lookup_edge e rest ≡ some t = ground arith in lookup-step s e rest t h.1 deeper
]

pub by_event-step :
    (s : MachineSnapshot) (e : TradeEvent) (t : MachineSnapshot)
    → by_event s e ≡ some t
    → step_ s e ≡ ok t
by_event-step s e t q = lookup-step s e (edges s) t (edges-AreSteps s) q

-- What a process is in every global state.
pub record IsFine (p : Process) : Type 0 where
  pub coherent : Coherent p.snapshot.state p.snapshot.facts
  pub released : (p.held && is_resolved (execution_finality p.snapshot)) ≡ false
  pub claimed :
      (not p.held
        && (not (is_resolved (execution_finality p.snapshot))
            && not (is_submitted p.snapshot.state)))
      ≡ false

-- The process may have cash at the broker, now or later: a failed one that sent nothing never will.
abbrev pub charged : Process → Bool
charged p = p.held && not (is_failed p.snapshot.state && not p.snapshot.facts.submitted_once)

pub fine_check :
    (s : TradeState) (f : SafetyFacts) (held : Bool)
    → IsFine (process (record { state = s; facts = f }) held)
    → check_process (process (record { state = s; facts = f }) held) ≡ ok tt
unfolding check_process execution_finality is_failed is_submitted is_unknown
fine_check TradeState.idle f held h = let c = h.coherent in ground arith
fine_check _ f held h = let c = h.coherent in ground arith

-- What a step of a process that is not waiting for the coordinator leaves: resources are neither
-- taken nor cash promised by it.
pub record Follows (before after : Process) : Type 0 where
  pub fine : IsFine after
  pub no_claim : after.held ≡ true → before.held ≡ true
  pub no_cash : charged after ≡ true → charged before ≡ true

-- The finality of the target decides who holds what.
settled :
    (se : Option SessionEvidence) (pe : Option PrecheckEvidence) (e : TradeEvent) (p q : TradeState)
    (f g : SafetyFacts) (held : Bool)
    → transitions p e ≡ some q
    → next_facts e se pe f ≡ ok g
    → Coherent p f
    → Coherent q g
    → is_submitted p ≡ false
    → event_eq e TradeEvent.next_cycle ≡ false
    → (held && is_resolved (execution_finality (record { state = p; facts = f }))) ≡ false
    → (not held
        && (not (is_resolved (execution_finality (record { state = p; facts = f })))
            && not (is_submitted p)))
      ≡ false
    → (event_eq e TradeEvent.intent_persisted && is_submitted q) ≡ false
    → held ≡ false
    → is_resolved (execution_finality (record { state = q; facts = g })) ≡ true
unfolding transitions next_facts execution_finality is_failed is_submitted
settled se pe TradeEvent.session_ready p q f g held t n c d s nc r l en hf = ground arith
settled se pe _ p q f g held t n c d s nc r l en hf = ground arith

-- a failed process takes no step
pub stepping :
    (s t : MachineSnapshot) (e : TradeEvent)
    → step_ s e ≡ ok t
    → (transitions s.state e ≡ some t.state)
      × (next_facts e (session_kwarg e) (precheck_kwarg e) s.facts ≡ ok t.facts)
      × (is_failed s.state ≡ false)
unfolding is_failed transitions
stepping s t e h =
    let (p, _, n, _) = advance_parts (session_kwarg e) (precheck_kwarg e) e s t h in
    (p, n, ground arith)

pub sync-Follows :
    (state : Three Process) (scenario : FormalScenario) (i : Index) (s t : MachineSnapshot)
    (e : TradeEvent) (held : Bool)
    → IsFine (process s held)
    → is_submitted s.state ≡ false
    → step_ s e ≡ ok t
    → event_eq e TradeEvent.next_cycle ≡ false
    → (p : Process) × (sync_phase state scenario i t held
          (event_eq e TradeEvent.intent_persisted && is_submitted t.state)
        ≡ some (replace_process state i p))
      × Follows (process s held) p
unfolding sync_phase
sync-Follows state scenario i s t e held fine wait h nc =
    let (p, n, alive) = stepping s t e h in
    let c = advance-Coherent (session_kwarg e) (precheck_kwarg e) e s t fine.coherent h in
    let free : (event_eq e TradeEvent.intent_persisted && is_submitted t.state) ≡ false
        → held ≡ false
        → is_resolved (execution_finality t) ≡ true =
      settled (session_kwarg e) (precheck_kwarg e) e s.state t.state s.facts t.facts held p n
        fine.coherent c wait nc fine.released fine.claimed in
    elim (Bool-cases (event_eq e TradeEvent.intent_persisted && is_submitted t.state)) [
      | inl entered ↦ (
        process t false,
        ground arith,
        record {
          fine = record { coherent = c; released = refl; claimed = ground arith };
          no_claim = λ x. cc;
          no_cash = λ x. cc;
        },
      )
      | inr other ↦ elim (Bool-cases (is_resolved (execution_finality t))) [
        | inl over ↦ (
          process t false,
          ground arith,
          record {
            fine = record { coherent = c; released = refl; claimed = ground arith };
            no_claim = λ x. cc;
            no_cash = λ x. cc;
          },
        )
        | inr lasting ↦ (
          process t true,
          ground arith,
          record {
            fine = record { coherent = c; released = lasting; claimed = refl };
            no_claim = λ x. ground arith;
            no_cash = λ x. ground arith;
          },
        )
      ]
    ]
