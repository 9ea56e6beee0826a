-- ===== src/Formal/Progress.antt =====
-- A live process of src/qmt_execution_core/formal.py has an event that takes it on.
use qmt_execution_core.Common.{
  ◌≡◌, ◌≢◌, refl, ◌⊎◌, inl, inr, Bool, true, false, ◌||◌, Option, none, some, List, [], ◌∷◌, arith,
  Bool-cases, then_taken, else_taken,
}
use qmt_execution_core.Errors.{ok, Result-cases}
use qmt_execution_core.Domain.{TradeState, TradeEvent, SafetyFacts}
use qmt_execution_core.Domain.Events.{event_eq, event_eq_sound}
use qmt_execution_core.Table.{transitions, is_terminal}
use qmt_execution_core.Machine.{MachineSnapshot, guarded, is_submitted}
use qmt_execution_core.Machine.Reach.{Coherent, advance_raises, Evidenced}
use qmt_execution_core.Formal.{
  Edge, step_, edges_along, declared_events, session_kwarg, precheck_kwarg,
  canonical_session_evidence, canonical_precheck_evidence,
}
use qmt_execution_core.Formal.Shared.{Three, Index, Process, process, FormalScenario}
use qmt_execution_core.Formal.Moves.{Successor, with_label, elsewhere}
use qmt_execution_core.Formal.Facts.{IsFine, sync-Follows}

-- The canonical evidence is in order.
pub canonical-Evidenced : (e : TradeEvent) → Evidenced e (session_kwarg e) (precheck_kwarg e)
canonical-Evidenced TradeEvent.session_ready = (canonical_session_evidence, refl, refl, refl, refl)
canonical-Evidenced TradeEvent.precheck_verified = (canonical_precheck_evidence, refl, refl, refl)
canonical-Evidenced _ = tt

-- the event by which a live process can always end
abbrev pub last_resort : TradeState → TradeEvent
last_resort TradeState.unknown = TradeEvent.recovery_failed
last_resort TradeState.cancel_rejected = TradeEvent.recovery_failed
last_resort _ = TradeEvent.fatal

can_fail :
    (p : TradeState) (f : SafetyFacts)
    → is_terminal p ≡ false
    → ((transitions p (last_resort p) ≡ none) ⊎ (guarded (last_resort p) f ≡ true))
    → ⊥
unfolding is_terminal transitions guarded
can_fail p f live h = ground arith

pub fails :
    (s : MachineSnapshot)
    → Coherent s.state s.facts
    → is_terminal s.state ≡ false
    → (t : MachineSnapshot) × (step_ s (last_resort s.state) ≡ ok t)
fails s c live =
    let e = last_resort s.state in
    elim (Result-cases (step_ s e)) [
      | inl found ↦ found
      | inr (x, q) ↦ absurd (
          can_fail s.state s.facts live
            (advance_raises (session_kwarg e) (precheck_kwarg e) e s x c (canonical-Evidenced e)
              q).1)
    ]

abbrev pub contains_event : TradeEvent → List TradeEvent → Bool
contains_event e [] = false
contains_event e (f ∷ events) = event_eq f e || contains_event e events

pub last_resort-declared :
    (p : TradeState)
    → is_terminal p ≡ false
    → (contains_event (last_resort p) (declared_events p) ≡ true)
      × (event_eq (last_resort p) TradeEvent.next_cycle ≡ false)
unfolding is_terminal declared_events
last_resort-declared p live = ground arith

module _ (scenario : FormalScenario) (state : Three Process) (i : Index) (s : MachineSnapshot)
    (held : Bool) (fine : IsFine (process s held)) where
  more_found :
      (e : TradeEvent) (o : Option (Three Process)) (p : Three Process) (rest : List Successor)
      → o ≡ some p
      → with_label i e o rest ≢ []
  more_found e o p rest q h = ground arith

  -- an edge other than NEXT_CYCLE is a successor
  edge_found :
      (e : TradeEvent) (t : MachineSnapshot) (rest : List Edge)
      → is_submitted s.state ≡ false
      → step_ s e ≡ ok t
      → event_eq e TradeEvent.next_cycle ≡ false
      → elsewhere state scenario i held ((e, t) ∷ rest) ≢ []
  unfolding elsewhere
  edge_found e t rest away h nc z =
      let (p, q, f) = sync-Follows state scenario i s t e held fine away h nc in
      more_found e _ _ _ q (else_taken (event_eq e TradeEvent.next_cycle) _ nc z)

  rest_found :
      (e : TradeEvent) (t : MachineSnapshot) (rest : List Edge)
      → is_submitted s.state ≡ false
      → step_ s e ≡ ok t
      → elsewhere state scenario i held rest ≢ []
      → elsewhere state scenario i held ((e, t) ∷ rest) ≢ []
  unfolding elsewhere
  rest_found e t rest away h more = elim (Bool-cases (event_eq e TradeEvent.next_cycle)) [
    | inl cycle ↦ λ z. more (then_taken (event_eq e TradeEvent.next_cycle) _ cycle z)
    | inr differ ↦ edge_found e t rest away h differ
  ]

  pub event_found :
      (events : List TradeEvent) (e : TradeEvent) (t : MachineSnapshot)
      → is_submitted s.state ≡ false
      → contains_event e events ≡ true
      → event_eq e TradeEvent.next_cycle ≡ false
      → step_ s e ≡ ok t
      → elsewhere state scenario i held (edges_along s events) ≢ []
  event_found [] e t away c nc h = absurd (ground arith)
  event_found (f ∷ events) e t away c nc h = elim (Bool-cases (event_eq f e)) [
    | inl same ↦
        let key : f ≡ e = event_eq_sound f e same in
        rw (key, h) (edge_found e t (edges_along s events) away h nc)
    | inr differ ↦
        let deeper : contains_event e events ≡ true = ground arith in
        let more = event_found events e t away deeper nc h in
        elim (Result-cases (step_ s f)) [
          | inl (u, q) ↦ rw q (rest_found f u (edges_along s events) away q more)
          | inr (x, q) ↦ rw q more
        ]
  ]
