-- ===== src/Formal/Moves.antt =====
-- src/qmt_execution_core/formal.py, `_global_successors`.
use qmt_execution_core.Common.{
  Bool, true, false, not, ◌&&◌, Option, none, some, List, [], ◌∷◌, ◌++◌, if◌then◌else◌,
}
use qmt_execution_core.Errors.{Result, ◌>>=◌, ok}
use qmt_execution_core.Domain.{TradeEvent}
use qmt_execution_core.Domain.Events.{event_eq}
use qmt_execution_core.Machine.{MachineSnapshot, is_submitted}
use qmt_execution_core.Formal.{Edge, edges, by_event}
use qmt_execution_core.Formal.Shared.{
  Three, Index, p0, p1, p2, nth, Process, process, FormalScenario, replace_process, can_prepare,
  can_restore, sync_phase,
}

-- The text of a successor, after `p{index}:`.
pub data Label : Type 0 where
  coordination_ok coordination_rejected coordination_abort : Label
  restart_precoord_quarantine sidecar_abort : Label
  on_event : TradeEvent → Label

abbrev pub Successor : Type 0
Successor = Index × Label × Three Process

-- `target = graph.by_event.get(...)`, and one successor if it is not None
abbrev pub along :
    Three Process → Index → Label → (held : Bool) → Option MachineSnapshot → List Successor
along state index label held none = []
along state index label held (some target) =
    (index, label, replace_process state index (process target held)) ∷ []

-- The intent is durable and the coordinator was asked.
abbrev pub coordination : Three Process → Index → MachineSnapshot → Bool → List Successor
coordination state index snapshot true =
    (index, coordination_ok, replace_process state index (process snapshot true)) ∷ []
coordination state index snapshot false =
    along state index coordination_rejected false (by_event snapshot TradeEvent.pre_broker_rejected)

-- A crash before the coordination, then an open that gives the recovery up.
abbrev pub quarantine :
    Three Process → FormalScenario → Index → Option MachineSnapshot → List Successor
quarantine state scenario index none = []
quarantine state scenario index (some restarted) =
    if can_restore state scenario index
    then along state index restart_precoord_quarantine true
        (by_event restarted TradeEvent.recovery_failed)
    else []

unfoldable pub before_coordination :
    Three Process → FormalScenario → Index → MachineSnapshot → Result (List Successor)
before_coordination state scenario index snapshot = do
  able ← can_prepare state scenario index
  ok (
      coordination state index snapshot able
      ++ (along state index coordination_abort false
            (by_event snapshot TradeEvent.pre_broker_aborted)
          ++ quarantine state scenario index (by_event snapshot TradeEvent.restart_recovery)))

abbrev pub outcome : Three Process → Index → MachineSnapshot → TradeEvent → List Successor
outcome state index snapshot e =
    along state index (on_event e) (not (event_eq e TradeEvent.submit_rejected))
      (by_event snapshot e)

unfoldable pub after_coordination : Three Process → Index → MachineSnapshot → List Successor
after_coordination state index snapshot =
    along state index sidecar_abort false (by_event snapshot TradeEvent.pre_broker_aborted)
    ++ (outcome state index snapshot TradeEvent.submit_accepted
        ++ (outcome state index snapshot TradeEvent.submit_ambiguous
            ++ (outcome state index snapshot TradeEvent.submit_rejected
                ++ outcome state index snapshot TradeEvent.restart_recovery)))

abbrev pub with_label :
    Index → TradeEvent → Option (Three Process) → List Successor → List Successor
with_label index e none rest = rest
with_label index e (some candidate) rest = (index, on_event e, candidate) ∷ rest

unfoldable pub elsewhere :
    Three Process → FormalScenario → Index → (held : Bool) → List Edge → List Successor
elsewhere state scenario index held [] = []
elsewhere state scenario index held ((e, target) ∷ rest) =
    let later = elsewhere state scenario index held rest in
    if event_eq e TradeEvent.next_cycle
    then later
    else with_label index e
        (sync_phase state scenario index target held
          (event_eq e TradeEvent.intent_persisted && is_submitted target.state))
        later

-- One pass of `for index in range(3)`.
unfoldable pub successors_of : Three Process → FormalScenario → Index → Result (List Successor)
successors_of state scenario index =
    if is_submitted snapshot.state
    then (if not held
        then before_coordination state scenario index snapshot
        else ok (after_coordination state index snapshot))
    else ok (elsewhere state scenario index held (edges snapshot))
  where
    open nth state index use {snapshot, held}

unfoldable pub global_successors : Three Process → FormalScenario → Result (List Successor)
global_successors state scenario = do
  first ← successors_of state scenario p0
  second ← successors_of state scenario p1
  third ← successors_of state scenario p2
  ok (first ++ (second ++ third))
