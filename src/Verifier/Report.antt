-- ===== src/Verifier/Report.antt =====
-- src/qmt_execution_core/verifier.py: `verify_state_machine` and `verify_release_model`. The hashes
-- of the specification and of the sources are those of Hashes.
use qmt_execution_core.Common.{
  ℕ, Bool, false, not, ◌||◌, String, Option, none, some, List, [], ◌∷◌, ◌++◌, length,
}
use qmt_execution_core.Errors.{Result, ok, ◌>>=◌, ◌>>◌, raise_if, runtime_error}
use qmt_execution_core.Domain.{TradeState, TradeEvent}
use qmt_execution_core.Domain.Events.{event_eq}
use qmt_execution_core.Machine.{MachineSnapshot}
use qmt_execution_core.Machine.Equality.{state_eq, member_of}
use qmt_execution_core.Formal.{declared_events}
use qmt_execution_core.Verifier.{Exploration, explore, new_exploration, has_pair}
use qmt_execution_core.Verifier.Backward.{Return, go_back, terminal_ones}

-- the keys of `TRANSITIONS`
abbrev pub all_states : List TradeState
all_states =
    TradeState.idle ∷ TradeState.wait_trigger ∷ TradeState.trigger ∷ TradeState.pre_check
    ∷ TradeState.submitted ∷ TradeState.accepted ∷ TradeState.working ∷ TradeState.partially_filled
    ∷ TradeState.pending_cancel ∷ TradeState.cancelling ∷ TradeState.cancel_rejected
    ∷ TradeState.unknown ∷ TradeState.filled ∷ TradeState.cancelled ∷ TradeState.rejected
    ∷ TradeState.failed ∷ []

abbrev pub pairs_of : TradeState → List TradeEvent → List (TradeState × TradeEvent)
pairs_of s [] = []
pairs_of s (e ∷ events) = (s, e) ∷ pairs_of s events

-- `declared_edges`
unfoldable pub declared_edges : List TradeState → List (TradeState × TradeEvent)
declared_edges [] = []
declared_edges (s ∷ states) = pairs_of s (declared_events s) ++ declared_edges states

-- `bool(missing_edges)`
unfoldable pub has_missing_edge :
    List (TradeState × TradeEvent) → List (TradeState × TradeEvent) → Bool
has_missing_edge [] reached = false
has_missing_edge ((s, e) ∷ rest) reached =
    not (has_pair s e reached) || has_missing_edge rest reached

abbrev pub is_reached : TradeState → List MachineSnapshot → Bool
is_reached s [] = false
is_reached s (t ∷ all) = state_eq t.state s || is_reached s all

-- `bool(missing_states)`
abbrev pub has_missing_state : List TradeState → List MachineSnapshot → Bool
has_missing_state [] reachable = false
has_missing_state (s ∷ states) reachable =
    not (is_reached s reachable) || has_missing_state states reachable

-- `bool(nonterminating)`
unfoldable pub has_nonterminating : List MachineSnapshot → List MachineSnapshot → Bool
has_nonterminating [] can_reach_terminal = false
has_nonterminating (s ∷ all) can_reach_terminal =
    not (member_of s can_reach_terminal) || has_nonterminating all can_reach_terminal

abbrev pub is_event_in : TradeEvent → List TradeEvent → Bool
is_event_in e [] = false
is_event_in e (f ∷ all) = event_eq f e || is_event_in e all

-- `bool(illegal_unknown_events)`
unfoldable pub has_illegal_unknown_event : Bool
has_illegal_unknown_event =
    let events = declared_events TradeState.unknown in
    is_event_in TradeEvent.intent_persisted events
    || (is_event_in TradeEvent.submit_accepted events
        || (is_event_in TradeEvent.triggered events
            || is_event_in TradeEvent.begin_precheck events))

pub record StateMachineReport : Type 0 where
  pub reachable_abstract_states : ℕ
  pub reachable_transitions : ℕ
  pub declared_states : ℕ
  pub declared_transitions : ℕ
  pub spec_sha256 : String
  pub source_sha256 : String

-- The two hashes; that of the sources may raise.
pub record SourceDigests : Type 0 where
  pub spec : String
  pub sources : Result String

-- what follows the backward loop
unfoldable pub last_checks :
    SourceDigests → Exploration → Option Return → Result (Option StateMachineReport)
last_checks digests found none = ok none
last_checks digests found (some back) = do
  raise_if (has_nonterminating found.reachable back.can_reach_terminal) runtime_error
  raise_if has_illegal_unknown_event runtime_error
  sources ← digests.sources
  ok (
      some (record {
        reachable_abstract_states = length found.reachable;
        reachable_transitions = length found.edges;
        declared_states = length all_states;
        declared_transitions = length (declared_edges all_states);
        spec_sha256 = digests.spec;
        source_sha256 = sources;
      }))

-- what follows the forward loop
unfoldable pub after_exploration :
    ℕ → SourceDigests → Option Exploration → Result (Option StateMachineReport)
after_exploration fuel digests none = ok none
after_exploration fuel digests (some found) = do
  raise_if (has_missing_edge (declared_edges all_states) found.reached_declared_edges) runtime_error
  raise_if (has_missing_state all_states found.reachable) runtime_error
  let ends = terminal_ones found.reachable
  last_checks digests found
      (go_back fuel found.edges (record { frontier = ends; can_reach_terminal = ends }))

-- `none` when the fuel is used up
unfoldable pub verify_state_machine : ℕ → SourceDigests → Result (Option StateMachineReport)
verify_state_machine fuel digests = explore fuel new_exploration >>= after_exploration fuel digests
