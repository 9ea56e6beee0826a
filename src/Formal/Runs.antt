-- ===== src/Formal/Runs.antt =====
-- Interleavings by the labels of their steps, src/qmt_execution_core/formal.py.
use qmt_execution_core.Common.{
  refl, inl, inr, Bool, true, false, ◌&&◌, List, [], ◌∷◌, ◌++◌, Bool-cases, if◌then◌else◌,
}
use qmt_execution_core.Errors.{Result, ok, err, Result-cases}
use qmt_execution_core.Domain.{TradeEvent}
use qmt_execution_core.Domain.Events.{event_eq}
use qmt_execution_core.Formal.Shared.{Three, Index, p0, p1, p2, index_eq, Process, FormalScenario}
use qmt_execution_core.Formal.Moves.{Label, coordination_ok, on_event, Successor, global_successors}
use qmt_execution_core.Formal.Verified.{IsAmong, Reached, next}

abbrev label_eq : Label → Label → Bool
label_eq coordination_ok coordination_ok = true
label_eq (on_event e) (on_event f) = event_eq e f
label_eq _ _ = false

-- the first successor of the process with the label; the state itself if there is none
abbrev pub choose : Three Process → Index → Label → List Successor → Three Process
choose state index label [] = state
choose state index label ((i, l, s) ∷ rest) =
    let later = choose state index label rest in
    if index_eq i index && label_eq l label then s else later

abbrev pub choose_of : Three Process → Index → Label → Result (List Successor) → Three Process
choose_of state index label (ok all) = choose state index label all
choose_of state index label (err e) = state

abbrev pub follow_moves : FormalScenario → Three Process → List (Index × Label) → Three Process
follow_moves scenario state [] = state
follow_moves scenario state ((index, label) ∷ rest) =
    follow_moves scenario (choose_of state index label (global_successors state scenario)) rest

module _ (scenario : FormalScenario) where
  choose-Reached :
      (state : Three Process) (index : Index) (label : Label) (rest : List Successor)
      → Reached scenario state
      → ((t : Three Process) → IsAmong t rest → Reached scenario t)
      → Reached scenario (choose state index label rest)
  choose-Reached state index label [] r h = r
  choose-Reached state index label ((i, l, s) ∷ rest) r h =
      elim (Bool-cases (index_eq i index && label_eq l label)) [
        | inl taken ↦ rw taken (h s (inl refl))
        | inr other ↦ rw other (choose-Reached state index label rest r (λ t m. h t (inr m)))
      ]

  choose_of-Reached :
      (state : Three Process) (index : Index) (label : Label)
      → Reached scenario state
      → Reached scenario (choose_of state index label (global_successors state scenario))
  choose_of-Reached state index label r = elim (Result-cases (global_successors state scenario)) [
    | inr (e, h) ↦ rw h r
    | inl (all, h) ↦ rw h (choose-Reached state index label all r (λ t m. next all r h m))
  ]

  pub follow_moves-Reached :
      (state : Three Process) (moves : List (Index × Label))
      → Reached scenario state
      → Reached scenario (follow_moves scenario state moves)
  follow_moves-Reached state [] r = r
  follow_moves-Reached state ((index, label) ∷ rest) r =
      follow_moves-Reached (choose_of state index label (global_successors state scenario)) rest
        (choose_of-Reached state index label r)

-- one process from IDLE to WORKING
abbrev pub to_working : Index → List (Index × Label)
to_working i =
    (i, on_event TradeEvent.session_ready)
    ∷ (i, on_event TradeEvent.triggered)
    ∷ (i, on_event TradeEvent.begin_precheck)
    ∷ (i, on_event TradeEvent.precheck_verified)
    ∷ (i, on_event TradeEvent.intent_persisted)
    ∷ (i, coordination_ok)
    ∷ (i, on_event TradeEvent.submit_accepted)
    ∷ (i, on_event TradeEvent.order_working)
    ∷ []

abbrev pub all_to_working : List (Index × Label)
all_to_working = to_working p0 ++ (to_working p1 ++ to_working p2)
