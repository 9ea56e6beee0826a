-- ===== src/Verifier/Canonical.antt =====
-- The events that src/qmt_execution_core/verifier.py tries, with its own evidence, are all that
-- `advance` of src/qmt_execution_core/state_machine.py can take with any.
use qmt_execution_core.Common.{◌≡◌, refl, true, false, not, ◌&&◌, Option, none, some, arith}
use qmt_execution_core.Errors.{ok, bind_ok, raise_if, raise_if_ok, invariant_violation}
use qmt_execution_core.Domain.{
  TradeState, TradeEvent, SafetyFacts, SessionEvidence, PrecheckEvidence, validate_session,
  validate_precheck, complete,
}
use qmt_execution_core.Table.{transitions}
use qmt_execution_core.Machine.{MachineSnapshot, advance, declared, next_facts}
use qmt_execution_core.Machine.Reach.{advance_parts}
use qmt_execution_core.Formal.{step_, declared_events, session_kwarg, precheck_kwarg}
use qmt_execution_core.Verifier.Report.{is_event_in}

allowed_is_complete :
    (v : PrecheckEvidence)
    → not v.allowed ≡ false
    → (v.allowed && not (complete v)) ≡ false
    → (v.environment_verified ≡ true)
      × (v.account_verified ≡ true)
      × (v.broker_snapshot_verified ≡ true)
      × (v.position_verified ≡ true)
      × (v.cash_verified ≡ true)
      × (v.quote_verified ≡ true)
allowed_is_complete v allowed valid = ground arith

ready_is_verified :
    (v : SessionEvidence)
    → not v.ready ≡ false
    → (v.ready && not (v.environment_verified && v.account_verified)) ≡ false
    → (v.environment_verified ≡ true) × (v.account_verified ≡ true)
ready_is_verified v ready valid = ground arith

same_facts :
    (se : Option SessionEvidence) (pe : Option PrecheckEvidence) (e : TradeEvent)
    (f g : SafetyFacts)
    → next_facts e se pe f ≡ ok g
    → next_facts e (session_kwarg e) (precheck_kwarg e) f ≡ ok g
unfolding next_facts
same_facts none pe TradeEvent.session_ready f g h = absurd (cc h)
same_facts (some v) pe TradeEvent.session_ready f g h =
    let (_, valid, h₁) = bind_ok (validate_session v) _ h in
    let (_, ready, h₂) = bind_ok (raise_if (not v.ready) invariant_violation) _ h₁ in
    let (a, b) = ready_is_verified v (raise_if_ok _ _ ready) (raise_if_ok _ _ valid) in
    cc (h₂, a, b)
same_facts se none TradeEvent.precheck_verified f g h = absurd (cc h)
same_facts se (some v) TradeEvent.precheck_verified f g h =
    let (_, valid, h₁) = bind_ok (validate_precheck v) _ h in
    let (_, allowed, h₂) = bind_ok (raise_if (not v.allowed) invariant_violation) _ h₁ in
    let (a, b, c, d, e, k) =
      allowed_is_complete v (raise_if_ok _ _ allowed) (raise_if_ok _ _ valid) in
    cc (h₂, a, b, c, d, e, k)
same_facts se pe _ f g h = h

declared-some :
    (s : TradeState) (e : TradeEvent) {t : TradeState}
    → transitions s e ≡ some t
    → declared s e ≡ ok t
unfolding declared
declared-some s e h = rw (declared, h) refl

pub canonical_step :
    (se : Option SessionEvidence) (pe : Option PrecheckEvidence) (e : TradeEvent)
    (s t : MachineSnapshot)
    → advance se pe s e ≡ ok t
    → step_ s e ≡ ok t
unfolding advance
canonical_step se pe e s t h =
    let (p, q, r, a) = advance_parts se pe e s t h in
    rw (declared-some s.state e p, q, same_facts se pe e s.facts t.facts r, a) refl

pub declared_listed :
    (s : TradeState) (e : TradeEvent) (t : TradeState)
    → transitions s e ≡ some t
    → is_event_in e (declared_events s) ≡ true
unfolding transitions declared_events
declared_listed s e t h = ground arith
