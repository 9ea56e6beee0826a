-- ===== src/Machine/Runs.antt =====
-- Sequences of steps of state_machine.py: what must happen before a new order, and that an
-- execution can always be brought to its end.
use qmt_execution_core.Common.{
  ◌≡◌, refl, Bool, true, false, List, [], ◌∷◌, Option, none, some, arith, if◌then◌else◌, Bool-cases,
  inl, inr,
}
use qmt_execution_core.Errors.{Result, ok, err, ◌>>=◌}
use qmt_execution_core.Domain.{
  TradeState, TradeEvent, SafetyFacts, SessionEvidence, PrecheckEvidence,
}
use qmt_execution_core.Machine.{
  MachineSnapshot, declared, guarded, next_facts, assert_invariants, advance, on_execution_path,
}
use qmt_execution_core.Table.{transitions, is_terminal}
use qmt_execution_core.Machine.Reach.{
  Coherent, Reachable, Reachable-Coherent, advance-Coherent, advance_parts,
}

-- The broker's confirmation that an order will not trade any more.
abbrev pub confirms_end : TradeEvent → Bool
confirms_end TradeEvent.order_filled = true
confirms_end TradeEvent.cancel_confirmed = true
confirms_end TradeEvent.order_rejected = true
confirms_end TradeEvent.recovery_filled = true
confirms_end TradeEvent.recovery_cancelled = true
confirms_end TradeEvent.recovery_rejected = true
confirms_end _ = false

abbrev pub is_intent : TradeEvent → Bool
is_intent TradeEvent.intent_persisted = true
is_intent _ = false

-- No intent stands before the first confirmation.
abbrev pub intent_waits : List TradeEvent → Bool
intent_waits [] = true
intent_waits (e ∷ es) =
    if confirms_end e then true else (if is_intent e then false else intent_waits es)

-- `Run s es t`: the events `es`, with whatever evidence, lead from `s` to `t`.
pub data Run : MachineSnapshot → List TradeEvent → MachineSnapshot → Type 0 where
  stop : {s : MachineSnapshot} → Run s [] s
  more :
      {s t u : MachineSnapshot} {es : List TradeEvent} (se : Option SessionEvidence)
      (pe : Option PrecheckEvidence) (e : TradeEvent)
      → advance se pe s e ≡ ok t
      → Run t es u
      → Run s (e ∷ es) u

-- One step leaves an unresolved order unresolved, unless the broker confirms its end.
stays_unresolved :
    (se : Option SessionEvidence) (pe : Option PrecheckEvidence) (e : TradeEvent) (p q : TradeState)
    (f g : SafetyFacts)
    → transitions p e ≡ some q
    → next_facts e se pe f ≡ ok g
    → Coherent p f
    → f.unresolved_order ≡ true
    → confirms_end e ≡ false
    → (g.unresolved_order ≡ true) × (is_intent e ≡ false)
unfolding transitions next_facts
stays_unresolved se pe TradeEvent.session_ready p q f g t n c u w = ground arith
stays_unresolved se pe _ p q f g t n c u w = ground arith

waits :
    {s t : MachineSnapshot} {es : List TradeEvent}
    → Coherent s.state s.facts
    → s.facts.unresolved_order ≡ true
    → Run s es t
    → intent_waits es ≡ true
waits c u stop = refl
waits {s} c u (more {t} {es} se pe e h r) =
    let (p, _, n, _) = advance_parts se pe e s t h in
    elim (Bool-cases (confirms_end e)) [
      | inl ended ↦ ground arith
      | inr unended ↦
          let (v, w) = stays_unresolved se pe e s.state t.state s.facts t.facts p n c u unended in
          ground (arith, waits (advance-Coherent se pe e s t c h) v r)
    ]

-- While an order is unresolved, no intent for another order is persisted: in every sequence of
-- events from a reached snapshot with an unresolved order, a confirmation by the broker comes
-- before the first `INTENT_PERSISTED`.
pub no_blind_resend :
    (s t : MachineSnapshot) (es : List TradeEvent)
    → Reachable s
    → s.facts.unresolved_order ≡ true
    → Run s es t
    → intent_waits es ≡ true
no_blind_resend s t es r u run = waits (Reachable-Coherent r) u run

-- The events that settle an execution: the order is accepted if it was only submitted, and then
-- the broker reports it filled.
abbrev pub settling : TradeState → List TradeEvent
settling TradeState.submitted = TradeEvent.submit_accepted ∷ TradeEvent.order_filled ∷ []
settling TradeState.unknown = TradeEvent.recovery_filled ∷ []
settling TradeState.cancel_rejected = TradeEvent.recovery_filled ∷ []
settling TradeState.filled = []
settling TradeState.cancelled = []
settling _ = TradeEvent.order_filled ∷ []

-- the machine over a list of events that take no evidence
unfoldable pub run : MachineSnapshot → List TradeEvent → Result MachineSnapshot
run s [] = ok s
run s (e ∷ es) = do t ← advance none none s e; run t es

abbrev pub Settled : Result MachineSnapshot → Type 0
Settled (ok t) =
    (is_terminal t.state ≡ true)
    × (t.facts.unresolved_order ≡ false)
    × (t.facts.terminal_order_confirmed ≡ true)
Settled (err x) = ⊥

settles :
    (p : TradeState) (f : SafetyFacts)
    → Coherent p f
    → on_execution_path p ≡ true
    → Settled (run (record { state = p; facts = f }) (settling p))
unfolding run advance declared guarded transitions next_facts assert_invariants on_execution_path
    is_terminal
settles TradeState.idle f c h = ground arith
settles _ f c h = ground arith

-- From every reached snapshot in a state of `on_execution_path`, which is each state after the
-- intent but `REJECTED` and `FAILED`, `UNKNOWN` and `CANCEL_REJECTED` included, the events `settling`
-- lead without an exception to a terminal snapshot with no unresolved order and the broker's
-- confirmation.
pub execution_can_settle :
    (s : MachineSnapshot)
    → Reachable s
    → on_execution_path s.state ≡ true
    → Settled (run s (settling s.state))
execution_can_settle s r h = settles s.state s.facts (Reachable-Coherent r) h
