-- ===== src/Finality/Release.antt =====
-- When finality.py lets the shared resources of an execution go.
use qmt_execution_core.Common.{◌≡◌, ◌≢◌, ◌↔◌, true, Option, some, arith}
use qmt_execution_core.Errors.{ok}
use qmt_execution_core.Domain.{
  TradeState, TradeEvent, SafetyFacts, SessionEvidence, PrecheckEvidence,
}
use qmt_execution_core.Machine.{MachineSnapshot, next_facts, advance}
use qmt_execution_core.Table.{transitions}
use qmt_execution_core.Machine.Reach.{Coherent, Reachable, Reachable-Coherent, advance_parts}
use qmt_execution_core.Finality.{resolved, quarantined, execution_finality}

release :
    (p : TradeState) (f : SafetyFacts)
    → Coherent p f
    → f.unresolved_order ≡ true
    → execution_finality (record { state = p; facts = f }) ≢ resolved
unfolding execution_finality
release TradeState.idle f c u = ground arith
release _ f c u = ground arith

-- In every snapshot that a run reaches, an unresolved order keeps the execution's claim: the
-- finality is not `RESOLVED`, and it is `QUARANTINED` exactly in `FAILED` with an unresolved order.
pub unresolved_keeps_claim :
    (s : MachineSnapshot)
    → Reachable s
    → (s.facts.unresolved_order ≡ true → execution_finality s ≢ resolved)
      × ((execution_finality s ≡ quarantined)
          ↔ ((s.state ≡ TradeState.failed) × (s.facts.unresolved_order ≡ true)))
unfolding execution_finality
unresolved_keeps_claim s r = (release s.state s.facts (Reachable-Coherent r), ground arith)

reopening :
    (se : Option SessionEvidence) (pe : Option PrecheckEvidence) (e : TradeEvent) (p q : TradeState)
    (f g : SafetyFacts)
    → transitions p e ≡ some q
    → next_facts e se pe f ≡ ok g
    → Coherent p f
    → execution_finality (record { state = p; facts = f }) ≡ resolved
    → execution_finality (record { state = q; facts = g }) ≢ resolved
    → e ≡ TradeEvent.intent_persisted
unfolding transitions next_facts execution_finality
reopening se pe TradeEvent.session_ready p q f g t n c u w = ground arith
reopening se pe _ p q f g t n c u w = ground arith

-- A resolved execution that a step makes unresolved again has persisted a new intent: no other
-- event reopens it.
only_intent_reopens :
    (se : Option SessionEvidence) (pe : Option PrecheckEvidence) (e : TradeEvent)
    (s t : MachineSnapshot)
    → Reachable s
    → advance se pe s e ≡ ok t
    → execution_finality s ≡ resolved
    → execution_finality t ≢ resolved
    → e ≡ TradeEvent.intent_persisted
only_intent_reopens se pe e s t r h a b =
    let (p, _, n, _) = advance_parts se pe e s t h in
    reopening se pe e s.state t.state s.facts t.facts p n (Reachable-Coherent r) a b
