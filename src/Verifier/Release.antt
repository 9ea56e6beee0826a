-- ===== src/Verifier/Release.antt =====
-- `verify_release_model` of src/qmt_execution_core/verifier.py: the machine, the sources and the
-- three processes. The entry that is a constant is left out.
use qmt_execution_core.Common.{ℕ, suc, ◌≡◌, refl, inl, inr, true, Option, some, String}
use qmt_execution_core.Errors.{Result, ok, ◌>>=◌, Result-cases}
use qmt_execution_core.Formal.Terminates.{state_count}
use qmt_execution_core.Formal.Deployments.{
  CoordinationReport, with_report, verify_three_process_coordination,
}
use qmt_execution_core.Formal.Passes.{coordination_passes}
use qmt_execution_core.Surface.{Ast}
use qmt_execution_core.Surface.Refinement.{RefinementReport, verify_runtime_transition_refinement}
use qmt_execution_core.Verifier.Report.{StateMachineReport, SourceDigests, verify_state_machine}
use qmt_execution_core.Verifier.Verified.{report_of, check_is_hash}

pub record ReleaseReport : Type 0 where
  pub machine : StateMachineReport
  pub implementation_refinement : RefinementReport
  pub three_process_coordination : CoordinationReport

-- The passes of the loops of the machine's check, and those of each scenario's search.
unfoldable pub verify_release_model :
    (passes searches : ℕ)
    → SourceDigests
    → (parse : String → Result Ast) → Result (Option ReleaseReport)
verify_release_model passes searches digests parse =
    with_report (verify_state_machine passes digests) λ machine.
      verify_runtime_transition_refinement parse >>= λ refinement.
      with_report (verify_three_process_coordination searches) λ coordination. ok (
        some (record {
          machine = machine;
          implementation_refinement = refinement;
          three_process_coordination = coordination;
        }))

-- Whether the release gate passes depends on the sources alone: it raises what the hashing of the
-- sources raises, and else what the verification of their surface raises, and else returns the
-- report of the machine, that of the surface, and one of the three processes with both witnesses of
-- concurrency. The checks of the machine and of the three processes never fail, nor does the fuel.
pub release_gate :
    (digests : SourceDigests) (parse : String → Result Ast)
    → (coordination : CoordinationReport) × (coordination.cross_symbol_concurrency_witness ≡ true)
      × (coordination.cross_account_same_symbol_concurrency_witness ≡ true)
      × (verify_release_model 53 (suc state_count) digests parse ≡ (
          digests.sources >>= λ source. verify_runtime_transition_refinement parse >>= λ refinement.
          ok (
            some (record {
              machine = report_of digests.spec source;
              implementation_refinement = refinement;
              three_process_coordination = coordination;
            }))))
unfolding verify_release_model
release_gate digests parse =
    let (coordination, h, w, x) = coordination_passes in
    (
      coordination,
      w,
      x,
      elim (Result-cases digests.sources) [
        | inr (e, s) ↦ rw (check_is_hash digests, s) refl
        | inl (source, s) ↦ elim (Result-cases (verify_runtime_transition_refinement parse)) [
          | inr (e, r) ↦ rw (check_is_hash digests, s, r) refl
          | inl (refinement, r) ↦ rw (check_is_hash digests, s, r, h) refl
        ]
      ],
    )
