-- ===== src/Machine/Reach.antt =====
-- The snapshots that `advance` of state_machine.py reaches from the initial one.
use qmt_execution_core.Common.{
  ◌≡◌, refl, subst, ◌≢◌, ◌⊎◌, inl, inr, true, false, not, ◌&&◌, Option, none, some, arith,
  Bool-cases, Option-cases,
}
use qmt_execution_core.Errors.{
  Error, ok, err, invalid_transition, Result-cases, bind_ok, raise_if, raise_if_ok,
}
use qmt_execution_core.Domain.{
  TradeState, TradeEvent, SafetyFacts, no_facts, SessionEvidence, PrecheckEvidence, complete,
}
use qmt_execution_core.Machine.{
  MachineSnapshot, initial_snapshot, declared, guarded, next_facts, assert_invariants, advance,
}
use qmt_execution_core.Table.{transitions}

pub data Reachable : MachineSnapshot → Type 0 where
  start : Reachable initial_snapshot
  step :
      {s t : MachineSnapshot} (se : Option SessionEvidence) (pe : Option PrecheckEvidence)
      (e : TradeEvent)
      → Reachable s
      → advance se pe s e ≡ ok t
      → Reachable t

-- Between the session's verification and its first order only the verification is on record.
abbrev only_verified : SafetyFacts
only_verified = record no_facts { environment_verified = true; account_verified = true }

abbrev IsVerified : SafetyFacts → Type 0
IsVerified f = (f.environment_verified ≡ true) × (f.account_verified ≡ true)

abbrev IsOpen : SafetyFacts → Type 0
IsOpen f =
    (f.intent_persisted ≡ true)
    × (f.reservation_persisted ≡ true)
    × (f.unresolved_order ≡ true)
    × (f.terminal_order_confirmed ≡ false)

abbrev IsClosed : SafetyFacts → Type 0
IsClosed f =
    (f.intent_persisted ≡ true)
    × (f.reservation_persisted ≡ true)
    × (f.unresolved_order ≡ false)
    × (f.terminal_order_confirmed ≡ true)
    × (f.submitted_once ≡ true)

-- What the facts are in each state of a run.
abbrev pub Coherent : TradeState → SafetyFacts → Type 0
Coherent TradeState.idle f = f ≡ no_facts
Coherent TradeState.wait_trigger f = f ≡ only_verified
Coherent TradeState.trigger f = f ≡ only_verified
Coherent TradeState.pre_check f =
    IsVerified f
    × (f.intent_persisted ≡ false)
    × (f.reservation_persisted ≡ false)
    × (f.unresolved_order ≡ false)
    × (f.terminal_order_confirmed ≡ false)
    × (f.submitted_once ≡ false)
    × (f.cancel_intent_persisted ≡ false)
Coherent TradeState.submitted f = f ≡ record {
  environment_verified = true;
  account_verified = true;
  broker_snapshot_verified = true;
  position_verified = true;
  cash_verified = true;
  quote_verified = true;
  intent_persisted = true;
  reservation_persisted = true;
  unresolved_order = false;
  terminal_order_confirmed = false;
  submitted_once = false;
  cancel_intent_persisted = false;
}
Coherent TradeState.accepted f = IsVerified f × IsOpen f × (f.submitted_once ≡ true)
Coherent TradeState.working f = IsVerified f × IsOpen f × (f.submitted_once ≡ true)
Coherent TradeState.partially_filled f = IsVerified f × IsOpen f × (f.submitted_once ≡ true)
Coherent TradeState.pending_cancel f =
    IsVerified f × IsOpen f × (f.submitted_once ≡ true) × (f.cancel_intent_persisted ≡ true)
Coherent TradeState.cancelling f =
    IsVerified f × IsOpen f × (f.submitted_once ≡ true) × (f.cancel_intent_persisted ≡ true)
Coherent TradeState.cancel_rejected f =
    IsVerified f × IsOpen f × (f.submitted_once ≡ true) × (f.cancel_intent_persisted ≡ true)
Coherent TradeState.unknown f = IsVerified f × IsOpen f
Coherent TradeState.filled f = IsVerified f × IsClosed f
Coherent TradeState.cancelled f = IsVerified f × IsClosed f
Coherent TradeState.rejected f =
    IsVerified f
    × (f.unresolved_order ≡ false)
    × (f.intent_persisted ≡ f.reservation_persisted)
    × ((f.submitted_once && not f.intent_persisted) ≡ false)
Coherent TradeState.failed f =
    (f.intent_persisted ≡ f.reservation_persisted)
    × ((f.submitted_once && not f.intent_persisted) ≡ false)
    × ((f.unresolved_order && not f.intent_persisted) ≡ false)

-- The facts that an entry of the table leaves are coherent with the state that it leads to.
next_facts-Coherent :
    (se : Option SessionEvidence) (pe : Option PrecheckEvidence) (e : TradeEvent) (p q : TradeState)
    (f g : SafetyFacts)
    → transitions p e ≡ some q
    → guarded e f ≡ false
    → next_facts e se pe f ≡ ok g
    → Coherent p f
    → Coherent q g
unfolding transitions guarded next_facts
next_facts-Coherent se pe TradeEvent.session_ready p q f g t n h c = ground arith
next_facts-Coherent se pe _ p q f g t n h c = ground arith

pub assert_invariants-Coherent :
    (p : TradeState) (f : SafetyFacts)
    → Coherent p f
    → assert_invariants (record { state = p; facts = f }) ≡ ok tt
unfolding assert_invariants
assert_invariants-Coherent TradeState.idle f c = ground arith
assert_invariants-Coherent _ f c = ground arith

declared_ok :
    (p : TradeState) (e : TradeEvent) {q : TradeState}
    → declared p e ≡ ok q
    → transitions p e ≡ some q
unfolding declared
declared_ok p e h = ground arith

-- What a successful step is made of.
pub advance_parts :
    (se : Option SessionEvidence) (pe : Option PrecheckEvidence) (e : TradeEvent)
    (s t : MachineSnapshot)
    → advance se pe s e ≡ ok t
    → (transitions s.state e ≡ some t.state)
      × (guarded e s.facts ≡ false)
      × (next_facts e se pe s.facts ≡ ok t.facts)
      × (assert_invariants t ≡ ok tt)
unfolding advance
advance_parts se pe e s t h =
    let (q, d, h₁) = bind_ok (declared s.state e) _ h in
    let (_, g, h₂) = bind_ok (raise_if (guarded e s.facts) invalid_transition) _ h₁ in
    let (f, n, h₃) = bind_ok (next_facts e se pe s.facts) _ h₂ in
    let r : MachineSnapshot = record { state = q; facts = f } in
    let (u, a, h₄) = bind_ok (assert_invariants r) _ h₃ in
    let same : r ≡ t = cc h₄ in
    subst
      (λ v.
        (transitions s.state e ≡ some v.state)
        × (guarded e s.facts ≡ false)
        × (next_facts e se pe s.facts ≡ ok v.facts)
        × (assert_invariants v ≡ ok tt))
      same (declared_ok s.state e d, raise_if_ok _ _ g, n, a)

pub advance-Coherent :
    (se : Option SessionEvidence) (pe : Option PrecheckEvidence) (e : TradeEvent)
    (s t : MachineSnapshot)
    → Coherent s.state s.facts
    → advance se pe s e ≡ ok t
    → Coherent t.state t.facts
advance-Coherent se pe e s t c h =
    let (p, q, r, _) = advance_parts se pe e s t h in
    next_facts-Coherent se pe e s.state t.state s.facts t.facts p q r c

pub Reachable-Coherent : {s : MachineSnapshot} → Reachable s → Coherent s.state s.facts
Reachable-Coherent start = refl
Reachable-Coherent (step {s} {t} se pe e r h) =
    advance-Coherent se pe e s t (Reachable-Coherent r) h

-- The evidence that an event takes is present, valid and positive.
abbrev pub Evidenced : TradeEvent → Option SessionEvidence → Option PrecheckEvidence → Type 0
Evidenced TradeEvent.session_ready se pe =
    (e : SessionEvidence) × (se ≡ some e)
    × (e.ready ≡ true)
    × (e.environment_verified ≡ true)
    × (e.account_verified ≡ true)
Evidenced TradeEvent.precheck_verified se pe =
    (e : PrecheckEvidence) × (pe ≡ some e) × (e.allowed ≡ true) × (complete e ≡ true)
Evidenced _ se pe = Unit {0}

next_facts-Evidenced :
    (se : Option SessionEvidence) (pe : Option PrecheckEvidence) (e : TradeEvent) (f : SafetyFacts)
    (x : Error)
    → Evidenced e se pe
    → next_facts e se pe f ≢ err x
unfolding next_facts
next_facts-Evidenced se pe TradeEvent.session_ready f x v = ground arith
next_facts-Evidenced se pe _ f x v = ground arith

-- the step with its evidence, from any coherent snapshot
pub advance_raises :
    (se : Option SessionEvidence) (pe : Option PrecheckEvidence) (e : TradeEvent)
    (s : MachineSnapshot) (x : Error)
    → Coherent s.state s.facts
    → Evidenced e se pe
    → advance se pe s e ≡ err x
    → (x ≡ invalid_transition) × ((transitions s.state e ≡ none) ⊎ (guarded e s.facts ≡ true))
unfolding advance
advance_raises se pe e s x c v h = elim (Option-cases (transitions s.state e)) [
  | inl undeclared ↦ ground arith
  | inr (q, t) ↦ elim (Bool-cases (guarded e s.facts)) [
    | inl refused ↦ ground arith
    | inr free ↦ elim (Result-cases (next_facts e se pe s.facts)) [
      | inr (y, n) ↦ absurd (next_facts-Evidenced se pe e s.facts y v n)
      | inl (g, n) ↦ ground (
        arith,
        assert_invariants-Coherent q g (next_facts-Coherent se pe e s.state q s.facts g t free n c),
      )
    ]
  ]
]

-- From a snapshot that a run reaches, an event whose evidence is in order never violates an
-- invariant: the one exception is `InvalidTransition`, raised only where the table has no entry or
-- a guard refuses the event.
pub advance_only_invalid :
    {s : MachineSnapshot} (se : Option SessionEvidence) (pe : Option PrecheckEvidence)
    (e : TradeEvent) (x : Error)
    → Reachable s
    → Evidenced e se pe
    → advance se pe s e ≡ err x
    → (x ≡ invalid_transition) × ((transitions s.state e ≡ none) ⊎ (guarded e s.facts ≡ true))
advance_only_invalid {s} se pe e x r v h = advance_raises se pe e s x (Reachable-Coherent r) v h
