-- ===== src/Formal/Deployments.antt =====
-- `verify_three_process_coordination` of src/qmt_execution_core/formal.py. Left out are the size of
-- the local graph and the entries that are constants.
use qmt_execution_core.Common.{
  ℕ, suc, ◌+◌, ◌≡◌, ◌∙◌, refl, inl, inr, Bool, true, Option, none, some, Bool-cases,
}
use qmt_execution_core.Errors.{Result, ok, err}
use qmt_execution_core.Formal.Shared.{FormalScenario}
use qmt_execution_core.Formal.Checks.{is_all_working}
use qmt_execution_core.Formal.Explore.{Search, ScenarioReport, verify_scenario, reported}
use qmt_execution_core.Formal.Terminates.{state_count}
use qmt_execution_core.Formal.Verified.{InRange}
use qmt_execution_core.Formal.Complete.{IsReachedWith, is_crossing, search_is_exact}
use qmt_execution_core.Formal.Scenarios.{
  same_account_three_distinct_symbols, same_account_same_symbol_exclusion,
  same_account_cash_contention, cross_account_same_symbol_independence,
}

-- `reports`, by the names of the scenarios
pub record Reports : Type 0 where
  pub distinct_symbols : ScenarioReport
  pub exclusion : ScenarioReport
  pub contention : ScenarioReport
  pub independence : ScenarioReport

pub record CoordinationReport : Type 0 where
  pub scenarios : Reports
  pub total_reachable_global_states : ℕ
  pub total_reachable_interleaving_edges : ℕ
  pub cross_symbol_concurrency_witness : Bool
  pub cross_account_same_symbol_concurrency_witness : Bool

abbrev pub summed_up : Reports → CoordinationReport
summed_up all = record {
  scenarios = all;
  total_reachable_global_states =
      all.distinct_symbols.reachable_global_states + all.exclusion.reachable_global_states
      + all.contention.reachable_global_states + all.independence.reachable_global_states;
  total_reachable_interleaving_edges =
      all.distinct_symbols.reachable_interleaving_edges + all.exclusion.reachable_interleaving_edges
      + all.contention.reachable_interleaving_edges + all.independence.reachable_interleaving_edges;
  cross_symbol_concurrency_witness = all.distinct_symbols.all_three_working_reached;
  cross_account_same_symbol_concurrency_witness =
      all.independence.cross_account_same_symbol_working_reached;
}

-- An exception ends the comprehension; `none` when the fuel is used up.
abbrev pub with_report {ℓ} :
    {A B : Type ℓ} → Result (Option A) → (A → Result (Option B)) → Result (Option B)
with_report (ok (some report)) rest = rest report
with_report (ok none) rest = ok none
with_report (err e) rest = err e

unfoldable pub verify_three_process_coordination : ℕ → Result (Option CoordinationReport)
verify_three_process_coordination fuel =
    with_report (verify_scenario fuel same_account_three_distinct_symbols) λ first.
      with_report (verify_scenario fuel same_account_same_symbol_exclusion) λ second.
        with_report (verify_scenario fuel same_account_cash_contention) λ third.
          with_report (verify_scenario fuel cross_account_same_symbol_independence) λ fourth. ok (
            some (
              summed_up (record {
                distinct_symbols = first;
                exclusion = second;
                contention = third;
                independence = fourth;
              })))

reported_lem :
    (scenario : FormalScenario) (last : Search)
    → (scenario.require_all_working ≡ true → last.all_working_reached ≡ true)
    → (scenario.require_cross_account_same_symbol_working ≡ true
        → last.cross_account_same_symbol_working_reached ≡ true)
    → (report : ScenarioReport) × (reported scenario (some last) ≡ ok (some report))
      × (report.all_three_working_reached ≡ last.all_working_reached)
      × (report.cross_account_same_symbol_working_reached
          ≡ last.cross_account_same_symbol_working_reached)
unfolding reported
reported_lem scenario last works crosses = elim (Bool-cases scenario.require_all_working) [
  | inl a ↦ elim (Bool-cases scenario.require_cross_account_same_symbol_working) [
    | inl b ↦ rw (works a, crosses b) (rw (a, b) (_, refl, refl, refl))
    | inr b ↦ rw (works a) (rw (a, b) (_, refl, refl, refl))
  ]
  | inr a ↦ elim (Bool-cases scenario.require_cross_account_same_symbol_working) [
    | inl b ↦ rw (crosses b) (rw (a, b) (_, refl, refl, refl))
    | inr b ↦ rw (a, b) (_, refl, refl, refl)
  ]
]

-- A scenario whose required runs exist is reported, with their flags set.
pub scenario_passes :
    (scenario : FormalScenario)
    → InRange scenario
    → (scenario.require_all_working ≡ true → IsReachedWith scenario is_all_working)
    → (scenario.require_cross_account_same_symbol_working ≡ true
        → IsReachedWith scenario (is_crossing scenario))
    → (report : ScenarioReport) × (verify_scenario (suc state_count) scenario ≡ ok (some report))
      × (scenario.require_all_working ≡ true → report.all_three_working_reached ≡ true)
      × (scenario.require_cross_account_same_symbol_working ≡ true
          → report.cross_account_same_symbol_working_reached ≡ true)
scenario_passes scenario range works crosses =
    let (last, _, h, _, w, x) = search_is_exact scenario range in
    let (report, r, a, b) =
      reported_lem scenario last (λ q. w.1 (works q)) (λ q. x.1 (crosses q)) in
    (report, h ∙ r, λ q. a ∙ w.1 (works q), λ q. b ∙ x.1 (crosses q))
