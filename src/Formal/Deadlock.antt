-- ===== src/Formal/Deadlock.antt =====
-- `_global_successors` of src/qmt_execution_core/formal.py finds no successor only where all
-- processes have ended.
use qmt_execution_core.Common.{
  ◌≡◌, ◌≢◌, refl, sym, ap, ◌∙◌, subst, inl, inr, Bool, true, false, not, Option, some, [],
  left-empty, right-empty, arith, Bool-cases, then_taken, else_taken,
}
use qmt_execution_core.Errors.{ok, ok_inj, bind_ok}
use qmt_execution_core.Domain.{TradeState, TradeEvent, SafetyFacts}
use qmt_execution_core.Table.{transitions, is_terminal}
use qmt_execution_core.Machine.{
  MachineSnapshot, guarded, is_submitted, advance, declared, next_facts, assert_invariants,
}
use qmt_execution_core.Machine.Reach.{Coherent}
use qmt_execution_core.Formal.{taken, edges, by_event, declared_events}
use qmt_execution_core.Formal.Shared.{
  Three, Index, p0, p1, p2, nth, Process, process, FormalScenario, can_prepare,
}
use qmt_execution_core.Formal.Moves.{
  before_coordination, after_coordination, elsewhere, successors_of, global_successors, along,
  coordination_abort, sidecar_abort, coordination, Label,
}
use qmt_execution_core.Formal.Progress.{fails, last_resort, last_resort-declared, event_found}
use qmt_execution_core.Formal.Facts.{IsFine}
use qmt_execution_core.Formal.Global.{IsSound, IsFine-at}

abort_of :
    (p : TradeState) (f : SafetyFacts)
    → is_submitted p ≡ true
    → Coherent p f
    → (t : MachineSnapshot) × (by_event
          (record { state = p; facts = f })
          TradeEvent.pre_broker_aborted
        ≡ some t)
unfolding is_submitted declared_events advance declared transitions guarded next_facts
    assert_invariants
abort_of TradeState.submitted f w c =
    subst
      (λ g.
        (t : MachineSnapshot) × (by_event (record { state = TradeState.submitted; facts = g })
            TradeEvent.pre_broker_aborted
          ≡ some t))
      (sym c) (_, refl)
abort_of _ f w c = absurd (ground arith)

-- A process without a successor has ended.
module _ (scenario : FormalScenario) (state : Three Process) (i : Index) where
  along_found :
      (label : Label) (held : Bool) (o : Option MachineSnapshot) (t : MachineSnapshot)
      → o ≡ some t
      → along state i label held o ≢ []
  along_found label held o t q h = ground arith

  before_found :
      (s : MachineSnapshot)
      → Coherent s.state s.facts
      → is_submitted s.state ≡ true
      → before_coordination state scenario i s ≢ ok []
  unfolding before_coordination
  before_found s c wait h =
      let (t, q) = abort_of s.state s.facts wait c in
      let (able, k, rest) = bind_ok (can_prepare state scenario i) _ h in
      along_found coordination_abort false _ t q
        (left-empty _ _ (right-empty (coordination state i s able) _ (ok_inj rest)))

  after_found :
      (s : MachineSnapshot)
      → Coherent s.state s.facts
      → is_submitted s.state ≡ true
      → after_coordination state i s ≢ []
  unfolding after_coordination
  after_found s c wait h =
      let (t, q) = abort_of s.state s.facts wait c in
      along_found sidecar_abort false _ t q (left-empty _ _ h)

  elsewhere_found :
      (s : MachineSnapshot) (held : Bool)
      → IsFine (process s held)
      → is_submitted s.state ≡ false
      → is_terminal s.state ≡ false
      → elsewhere state scenario i held (edges s) ≢ []
  elsewhere_found s held fine away live =
      let (t, h) = fails s fine.coherent live in
      let (c, nc) = last_resort-declared s.state live in
      event_found scenario state i s held fine (declared_events s.state) (last_resort s.state) t
        away c nc h

  pub stuck_process :
      IsSound scenario state
      → successors_of state scenario i ≡ ok []
      → is_terminal (nth state i).snapshot.state ≡ true
  unfolding successors_of
  stuck_process sound h =
      let fine = IsFine-at scenario state sound i in
      let s = (nth state i).snapshot in
      let held = (nth state i).held in
      elim (Bool-cases (is_terminal s.state)) [
        | inl ended ↦ ended
        | inr live ↦ elim (Bool-cases (is_submitted s.state)) [
          | inr away ↦ absurd (
              elsewhere_found s held fine away live
                (ok_inj (else_taken (is_submitted s.state) _ away h)))
          | inl wait ↦
              let inner = then_taken (is_submitted s.state) _ wait h in
              elim (Bool-cases (not held)) [
                | inl free ↦
                    absurd (before_found s fine.coherent wait (then_taken (not held) _ free inner))
                | inr taken ↦ absurd (
                    after_found s fine.coherent wait (ok_inj (else_taken (not held) _ taken inner)))
              ]
        ]
      ]

abbrev pub AllEnded : Three Process → Type 0
AllEnded state =
    (is_terminal state.at_0.snapshot.state ≡ true)
    × (is_terminal state.at_1.snapshot.state ≡ true)
    × (is_terminal state.at_2.snapshot.state ≡ true)

pub no_deadlock :
    (scenario : FormalScenario) (state : Three Process)
    → IsSound scenario state
    → global_successors state scenario ≡ ok []
    → AllEnded state
unfolding global_successors
no_deadlock scenario state sound h =
    let (a, x, h₁) = bind_ok (successors_of state scenario p0) _ h in
    let (b, y, h₂) = bind_ok (successors_of state scenario p1) _ h₁ in
    let (c, z, h₃) = bind_ok (successors_of state scenario p2) _ h₂ in
    let none_at_all = ok_inj h₃ in
    let no_a : a ≡ [] = left-empty a _ none_at_all in
    let others = right-empty a _ none_at_all in
    let no_b : b ≡ [] = left-empty b c others in
    let no_c : c ≡ [] = right-empty b c others in
    (
      stuck_process scenario state p0 sound (x ∙ ap ok no_a),
      stuck_process scenario state p1 sound (y ∙ ap ok no_b),
      stuck_process scenario state p2 sound (z ∙ ap ok no_c),
    )
