-- ===== src/Formal/Explore.antt =====
-- src/qmt_execution_core/formal.py, `_verify_scenario`: the breadth-first search of all
-- interleavings. A message's text is left out; the fuel bounds the passes of `while queue`.
use qmt_execution_core.Common.{
  ℕ, zero, suc, ◌+◌, ◌*◌, Bool, true, false, not, ◌&&◌, ◌||◌, Option, none, some, List, [], ◌∷◌,
  ◌++◌, ◌==◌, if◌then◌else◌, length,
}
use qmt_execution_core.Errors.{Result, err, ok, ◌>>=◌, ◌>>◌, raise_if, runtime_error}
use qmt_execution_core.Domain.{SafetyFacts}
use qmt_execution_core.Table.{is_terminal}
use qmt_execution_core.Machine.{initial_snapshot}
use qmt_execution_core.Machine.Equality.{rank}
use qmt_execution_core.Formal.Shared.{Three, Process, process, FormalScenario}
use qmt_execution_core.Formal.Moves.{Successor, global_successors}
use qmt_execution_core.Formal.Checks.{
  assert_global_invariants, is_all_working, has_cross_account_same_symbol_working,
}

-- A number for each global state: equal states are those with equal numbers.
abbrev pub bit : Bool → ℕ
bit true = 1
bit false = 0

-- one more binary digit
abbrev pub digit : Bool → ℕ → ℕ
digit b n = bit b + 2 * n

abbrev pub facts_code : SafetyFacts → ℕ → ℕ
facts_code f n = digit f.environment_verified (
    digit f.account_verified (
      digit f.broker_snapshot_verified (
        digit f.position_verified (
          digit f.cash_verified (
            digit f.quote_verified (
              digit f.intent_persisted (
                digit f.reservation_persisted (
                  digit f.unresolved_order (
                    digit f.terminal_order_confirmed
                      (digit f.submitted_once (digit f.cancel_intent_persisted n)))))))))))

unfoldable pub process_code : Process → ℕ
process_code p = digit p.held (facts_code p.snapshot.facts (rank p.snapshot.state))

abbrev pub state_code : Three Process → ℕ
state_code s = process_code s.at_0 + 131072 * (process_code s.at_1 + 131072 * process_code s.at_2)

-- `state in reachable`
abbrev pub seen : Three Process → List (Three Process) → Bool
seen state [] = false
seen state (s ∷ reachable) = (state_code s == state_code state) || seen state reachable

-- The variables of the loop.
pub record Search : Type 0 where
  pub queue : List (Three Process)
  pub reachable : List (Three Process)
  pub edges : ℕ
  pub all_working_reached : Bool
  pub cross_account_same_symbol_working_reached : Bool
  pub legitimate_terminal_deadlocks : ℕ

abbrev pub initial_state : Three Process
initial_state = record {
  at_0 = process initial_snapshot false;
  at_1 = process initial_snapshot false;
  at_2 = process initial_snapshot false;
}

abbrev pub new_search : Search
new_search = record {
  queue = initial_state ∷ [];
  reachable = initial_state ∷ [];
  edges = 0;
  all_working_reached = false;
  cross_account_same_symbol_working_reached = false;
  legitimate_terminal_deadlocks = 0;
}

-- `if successor not in reachable`
unfoldable pub record_successor : Three Process → Search → Search
record_successor successor found =
    if seen successor found.reachable
    then record found { edges = suc found.edges }
    else record found {
      edges = suc found.edges;
      reachable = successor ∷ found.reachable;
      queue = found.queue ++ (successor ∷ []);
    }

-- `for _, successor in successors`
unfoldable pub record_all : FormalScenario → List Successor → Search → Result Search
record_all scenario [] found = ok found
record_all scenario ((i, label, successor) ∷ rest) found =
    let later = record_all scenario rest (record_successor successor found) in
    assert_global_invariants successor scenario >>= λ _. later

abbrev pub all_terminal : Three Process → Bool
all_terminal s =
    is_terminal s.at_0.snapshot.state
    && (is_terminal s.at_1.snapshot.state && is_terminal s.at_2.snapshot.state)

-- `if not successors`
unfoldable pub count_deadlock : Three Process → List Successor → Search → Result Search
count_deadlock current (s ∷ rest) found = ok found
count_deadlock current [] found =
    if all_terminal current
    then ok
        (record found { legitimate_terminal_deadlocks = suc found.legitimate_terminal_deadlocks })
    else err runtime_error

abbrev pub witnessed : FormalScenario → Three Process → Search → Search
witnessed scenario current found = record found {
  all_working_reached = is_all_working current || found.all_working_reached;
  cross_account_same_symbol_working_reached =
      has_cross_account_same_symbol_working current scenario
      || found.cross_account_same_symbol_working_reached;
}

-- One pass of the loop, for the state that `popleft` returned.
unfoldable pub visit : FormalScenario → Three Process → Search → Result Search
visit scenario current found = do
  assert_global_invariants current scenario
  successors ← global_successors current scenario
  counted ← count_deadlock current successors (witnessed scenario current found)
  record_all scenario successors counted

-- `while queue`, over its first pass
unfoldable pub explore_queue :
    FormalScenario
    → Search
    → List (Three Process)
    → (again : Search → Result (Option Search)) → Result (Option Search)
explore_queue scenario found [] again = ok (some found)
explore_queue scenario found (current ∷ queue) again =
    visit scenario current (record found { queue = queue }) >>= again

-- `none` when the fuel is used up
unfoldable pub explore : ℕ → FormalScenario → Search → Result (Option Search)
explore zero scenario found = ok none
explore (suc fuel) scenario found = explore_queue scenario found found.queue (explore fuel scenario)

pub record ScenarioReport : Type 0 where
  pub reachable_global_states : ℕ
  pub reachable_interleaving_edges : ℕ
  pub all_three_working_reached : Bool
  pub cross_account_same_symbol_working_reached : Bool
  pub legitimate_terminal_deadlocks : ℕ

unfoldable pub reported : FormalScenario → Option Search → Result (Option ScenarioReport)
reported scenario none = ok none
reported scenario (some found) = do
  raise_if (scenario.require_all_working && not found.all_working_reached) runtime_error
  raise_if
      (scenario.require_cross_account_same_symbol_working
        && not found.cross_account_same_symbol_working_reached)
      runtime_error
  ok (
      some (record {
        reachable_global_states = length found.reachable;
        reachable_interleaving_edges = found.edges;
        all_three_working_reached = found.all_working_reached;
        cross_account_same_symbol_working_reached = found.cross_account_same_symbol_working_reached;
        legitimate_terminal_deadlocks = found.legitimate_terminal_deadlocks;
      }))

unfoldable pub verify_scenario : ℕ → FormalScenario → Result (Option ScenarioReport)
verify_scenario fuel scenario = do found ← explore fuel scenario new_search; reported scenario found
