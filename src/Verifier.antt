-- ===== src/Verifier.antt =====
-- src/qmt_execution_core/verifier.py: the exhaustive check of one execution's machine, which a
-- session makes before it opens. Its evidence, `_step` and the order of `TRANSITIONS` are those of
-- Formal. A set is a list; the fuel bounds the passes of a `while`.
pub mod Backward
pub mod Report
pub mod Hashes
pub mod Sources
pub mod Canonical
pub mod Explored
pub mod Paths
pub mod Verified
pub mod Release
pub mod Examples
use qmt_execution_core.Common.{
  ℕ, zero, suc, Bool, true, false, not, ◌&&◌, ◌||◌, Option, none, some, List, [], ◌∷◌, ◌++◌, ◌==◌,
  if◌then◌else◌,
}
use qmt_execution_core.Errors.{
  Error, Result, ok, err, ◌>>=◌, ◌>>◌, raise_if, runtime_error, invalid_transition,
}
use qmt_execution_core.Domain.{TradeState, TradeEvent}
use qmt_execution_core.Domain.Events.{event_eq}
use qmt_execution_core.Machine.{MachineSnapshot, initial_snapshot, assert_invariants}
use qmt_execution_core.Machine.Equality.{state_eq, snapshot_eq, member_of}
use qmt_execution_core.Finality.{
  ExecutionFinality, open_, resolved, quarantined, execution_finality,
}
use qmt_execution_core.Formal.{declared_events, step_}

-- The states that `_assert_v04_finality_refinement` names.
abbrev pub must_stay_open : TradeState → Bool
must_stay_open TradeState.unknown = true
must_stay_open TradeState.cancel_rejected = true
must_stay_open _ = false

abbrev pub is_failed_state : TradeState → Bool
is_failed_state TradeState.failed = true
is_failed_state _ = false

abbrev pub must_be_resolved : TradeState → Bool
must_be_resolved TradeState.filled = true
must_be_resolved TradeState.cancelled = true
must_be_resolved TradeState.rejected = true
must_be_resolved _ = false

abbrev pub is_open_finality : ExecutionFinality → Bool
is_open_finality open_ = true
is_open_finality _ = false

abbrev pub is_quarantined : ExecutionFinality → Bool
is_quarantined quarantined = true
is_quarantined _ = false

abbrev pub is_resolved_finality : ExecutionFinality → Bool
is_resolved_finality resolved = true
is_resolved_finality _ = false

-- `_assert_v04_finality_refinement`
unfoldable pub assert_v04_finality : MachineSnapshot → Result (Unit {0})
assert_v04_finality s = do
  let finality = execution_finality s
  raise_if (must_stay_open s.state && not (is_open_finality finality)) runtime_error
  raise_if (is_failed_state s.state && s.facts.unresolved_order && not (is_quarantined finality))
      runtime_error
  raise_if (must_be_resolved s.state && not (is_resolved_finality finality)) runtime_error

pub record Edge : Type 0 where
  pub source : MachineSnapshot
  pub event : TradeEvent
  pub target : MachineSnapshot

-- The variables of the forward loop.
pub record Exploration : Type 0 where
  pub queue : List MachineSnapshot
  pub reachable : List MachineSnapshot
  pub edges : List Edge
  pub reached_declared_edges : List (TradeState × TradeEvent)

abbrev pub new_exploration : Exploration
new_exploration = record {
  queue = initial_snapshot ∷ [];
  reachable = initial_snapshot ∷ [];
  edges = [];
  reached_declared_edges = [];
}

abbrev pub has_edge : Edge → List Edge → Bool
has_edge e [] = false
has_edge e (f ∷ all) =
    (event_eq f.event e.event && snapshot_eq f.source e.source && snapshot_eq f.target e.target)
    || has_edge e all

abbrev pub has_pair : TradeState → TradeEvent → List (TradeState × TradeEvent) → Bool
has_pair s e [] = false
has_pair s e ((t, f) ∷ all) = (event_eq f e && state_eq t s) || has_pair s e all

-- `edges.add`, `reached_declared_edges.add`
abbrev pub add_edge : Edge → List Edge → List Edge
add_edge e all = if has_edge e all then all else e ∷ all

abbrev pub add_pair :
    TradeState → TradeEvent → List (TradeState × TradeEvent) → List (TradeState × TradeEvent)
add_pair s e all = if has_pair s e all then all else (s, e) ∷ all

-- `if successor not in reachable`
abbrev pub reach : MachineSnapshot → Exploration → Exploration
reach s found =
    if member_of s found.reachable
    then found
    else record found { reachable = s ∷ found.reachable; queue = found.queue ++ (s ∷ []) }

abbrev pub note_edge : Edge → Exploration → Exploration
note_edge e found = record found {
  edges = add_edge e found.edges;
  reached_declared_edges = add_pair e.source.state e.event found.reached_declared_edges;
}

-- what follows `try: successor = _step(current, event)`
unfoldable pub follow_event :
    MachineSnapshot → TradeEvent → Result MachineSnapshot → Exploration → Result Exploration
follow_event current event (err invalid_transition) found = ok found
follow_event current event (err e) found = err e
follow_event current event (ok successor) found = do
  assert_invariants successor
  assert_v04_finality successor
  ok (
      reach successor
        (note_edge (record { source = current; event = event; target = successor }) found))

-- `for event in TRANSITIONS[current.state]`
unfoldable pub follow_all : MachineSnapshot → List TradeEvent → Exploration → Result Exploration
follow_all current [] found = ok found
follow_all current (event ∷ events) found =
    follow_event current event (step_ current event) found >>= follow_all current events

unfoldable pub visit : MachineSnapshot → Exploration → Result Exploration
visit current found = do
  assert_invariants current
  assert_v04_finality current
  follow_all current (declared_events current.state) found

unfoldable pub explore_queue :
    Exploration
    → List MachineSnapshot
    → (again : Exploration → Result (Option Exploration)) → Result (Option Exploration)
explore_queue found [] again = ok (some found)
explore_queue found (current ∷ queue) again =
    visit current (record found { queue = queue }) >>= again

-- `while queue`; `none` when the fuel is used up
unfoldable pub explore : ℕ → Exploration → Result (Option Exploration)
explore zero found = ok none
explore (suc fuel) found = explore_queue found found.queue (explore fuel)
