-- ===== src/Formal/Passes.antt =====
-- `verify_three_process_coordination` of src/qmt_execution_core/formal.py raises nothing.
use qmt_execution_core.Common.{ℕ, suc, ◌≡◌, refl, true, some}
use qmt_execution_core.Errors.{ok}
use qmt_execution_core.Table.{transitions}
use qmt_execution_core.Machine.{
  is_submitted, declared, guarded, next_facts, assert_invariants, advance,
}
use qmt_execution_core.Finality.{execution_finality, is_failed}
use qmt_execution_core.Formal.{declared_events}
use qmt_execution_core.Formal.Shared.{
  p0, p1, p2, FormalScenario, claim_free, can_prepare, active_reserved_cash, sync_phase,
}
use qmt_execution_core.Formal.Moves.{
  before_coordination, after_coordination, elsewhere, successors_of, global_successors,
}
use qmt_execution_core.Formal.Checks.{is_all_working, has_cross_account_same_symbol_working}
use qmt_execution_core.Formal.Explore.{initial_state, ScenarioReport, verify_scenario}
use qmt_execution_core.Formal.Terminates.{state_count}
use qmt_execution_core.Formal.Verified.{begin, InRange}
use qmt_execution_core.Formal.Complete.{IsReachedWith, is_crossing}
use qmt_execution_core.Formal.Runs.{follow_moves, follow_moves-Reached, all_to_working}
use qmt_execution_core.Formal.Scenarios.{
  same_account_three_distinct_symbols, same_account_same_symbol_exclusion,
  same_account_cash_contention, cross_account_same_symbol_independence,
}
use qmt_execution_core.Formal.Deployments.{
  CoordinationReport, verify_three_process_coordination, scenario_passes,
}

distinct_works :
    is_all_working (follow_moves same_account_three_distinct_symbols initial_state all_to_working)
    ≡ true
unfolding global_successors successors_of before_coordination after_coordination elsewhere
    is_submitted declared_events advance declared transitions guarded next_facts assert_invariants
    sync_phase execution_finality is_failed claim_free can_prepare active_reserved_cash
    is_all_working
distinct_works = refl

independence_works :
    is_all_working
      (follow_moves cross_account_same_symbol_independence initial_state all_to_working)
    ≡ true
unfolding global_successors successors_of before_coordination after_coordination elsewhere
    is_submitted declared_events advance declared transitions guarded next_facts assert_invariants
    sync_phase execution_finality is_failed claim_free can_prepare active_reserved_cash
    is_all_working
independence_works = refl

independence_crosses :
    is_crossing cross_account_same_symbol_independence
      (follow_moves cross_account_same_symbol_independence initial_state all_to_working)
    ≡ true
unfolding global_successors successors_of before_coordination after_coordination elsewhere
    is_submitted declared_events advance declared transitions guarded next_facts assert_invariants
    sync_phase execution_finality is_failed claim_free can_prepare active_reserved_cash
    has_cross_account_same_symbol_working
independence_crosses = refl

distinct-InRange : InRange same_account_three_distinct_symbols
distinct-InRange p0 = (100, refl)
distinct-InRange p1 = (100, refl)
distinct-InRange p2 = (100, refl)

exclusion-InRange : InRange same_account_same_symbol_exclusion
exclusion-InRange p0 = (100, refl)
exclusion-InRange p1 = (100, refl)
exclusion-InRange p2 = (100, refl)

pub contention-InRange : InRange same_account_cash_contention
contention-InRange p0 = (100, refl)
contention-InRange p1 = (100, refl)
contention-InRange p2 = (100, refl)

independence-InRange : InRange cross_account_same_symbol_independence
independence-InRange p0 = (100, refl)
independence-InRange p1 = (100, refl)
independence-InRange p2 = (100, refl)

-- the verification returned a report with both witnesses of concurrency
abbrev pub Passed : ℕ → Type 0
Passed fuel =
    (report : CoordinationReport) × (verify_three_process_coordination fuel ≡ ok (some report))
    × (report.cross_symbol_concurrency_witness ≡ true)
    × (report.cross_account_same_symbol_concurrency_witness ≡ true)

all_reported :
    (fuel : ℕ) (a b c d : ScenarioReport)
    → verify_scenario fuel same_account_three_distinct_symbols ≡ ok (some a)
    → verify_scenario fuel same_account_same_symbol_exclusion ≡ ok (some b)
    → verify_scenario fuel same_account_cash_contention ≡ ok (some c)
    → verify_scenario fuel cross_account_same_symbol_independence ≡ ok (some d)
    → a.all_three_working_reached ≡ true
    → d.cross_account_same_symbol_working_reached ≡ true
    → Passed fuel
unfolding verify_three_process_coordination
all_reported fuel a b c d p q r s w x = rw (p, q, r, s) (_, refl, w, x)

all_run :
    (scenario : FormalScenario)
    → is_all_working (follow_moves scenario initial_state all_to_working) ≡ true
    → IsReachedWith scenario is_all_working
all_run scenario w = (_, follow_moves-Reached scenario initial_state all_to_working begin, w)

-- The verification of the four deployments returns a report within the fuel, in which both
-- witnesses of concurrency are set.
pub coordination_passes : Passed (suc state_count)
coordination_passes =
    let (a, p, w, _) =
      scenario_passes same_account_three_distinct_symbols distinct-InRange
        (λ q. all_run same_account_three_distinct_symbols distinct_works) (λ q. cc) in
    let (b, q, _, _) =
      scenario_passes same_account_same_symbol_exclusion exclusion-InRange (λ q. cc) (λ q. cc) in
    let (c, r, _, _) =
      scenario_passes same_account_cash_contention contention-InRange (λ q. cc) (λ q. cc) in
    let (d, s, _, x) =
      scenario_passes cross_account_same_symbol_independence independence-InRange
        (λ q. all_run cross_account_same_symbol_independence independence_works)
        (λ q. (
          follow_moves cross_account_same_symbol_independence initial_state all_to_working,
          follow_moves-Reached cross_account_same_symbol_independence initial_state all_to_working
              begin,
          independence_crosses,
        )) in
    all_reported (suc state_count) a b c d p q r s (w refl) (x refl)
