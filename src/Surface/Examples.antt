-- ===== src/Surface/Examples.antt =====
-- Sources whose surface passes, src/qmt_execution_core/formal.py.
use qmt_execution_core.Common.{
  suc, ◌≡◌, refl, true, some, String, str_eq, List, [], ◌∷◌, if◌then◌else◌,
}
use qmt_execution_core.Errors.{Result, ok, err, ◌>>=◌, runtime_error}
use qmt_execution_core.Formal.Terminates.{state_count}
use qmt_execution_core.Formal.Deployments.{CoordinationReport}
use qmt_execution_core.Verifier.Report.{all_states, SourceDigests}
use qmt_execution_core.Verifier.Verified.{report_of}
use qmt_execution_core.Verifier.Release.{verify_release_model, release_gate}
use qmt_execution_core.Formal.{declared_events}
use qmt_execution_core.Surface.Extract.{
  extract_source_surface, surface_of, calls_of, transition_calls, transition_call, event_refs_of,
  writes_of, state_writes, dotted, event_names, producer_name, state_write,
}
use qmt_execution_core.Surface.{
  walk, trade_event_name, any_contains_snapshot, Ast, Asts, name, attribute, call, function_def,
  assign, tuple, other, nil, cons,
}
use qmt_execution_core.Surface.Refinement.{
  RefinementReport, verify_surface, literal_events, dynamic_calls, writes_as_expected,
  verify_runtime_transition_refinement, declared_names,
}

abbrev the_snapshot : Ast
the_snapshot = attribute (name "self") "_snapshot"

-- `self._transition(event)`
abbrev transition_of : Ast → Ast
transition_of event = call 1 (attribute (name "self") "_transition") (cons event nil) nil

abbrev transitions_of : List String → Asts
transitions_of [] = nil
transitions_of (event ∷ events) =
    cons (transition_of (attribute (name "TradeEvent") event)) (transitions_of events)

-- `function` assigns what a call of `callee` returns
abbrev writer : (function : String) (target callee : Ast) → Ast
writer function target callee =
    function_def function (cons (assign 2 (cons target nil) (call 2 callee nil nil)) nil)

abbrev with_writes : Asts → Ast
with_writes more = other "Module" (
    cons (writer "__init__" the_snapshot (name "MachineSnapshot")) (
      cons (writer "_transition" the_snapshot (name "advance")) (
        cons
          (writer "open" (tuple (cons (attribute (name "self") "_data") (cons the_snapshot nil)))
            (attribute (attribute (name "self") "journal") "open"))
          (cons (function_def "submit" (transitions_of (declared_names all_states))) (
            cons (function_def "_apply_observation" (cons (transition_of (name "event")) nil))
              more)))))

abbrev parse : String → Result Ast
parse source = ok (if str_eq source "session.py" then with_writes nil else other "Module" nil)

abbrev refinement_report : RefinementReport
refinement_report = record {
  direct_transition_call_sites = 81;
  literal_runtime_events = 32;
  recovery_runtime_events = 0;
  dynamic_transition_call_sites = 1;
  runtime_state_write_sites = 3;
  observation_entry_states_ = 7;
  broker_order_statuses = 9;
  observations = record { legal = 51; ambiguous = 11; no_op = 1; illegal = 0 };
}

-- the write in `open`, which is one of two targets
abbrev opening : Ast
opening =
    writer "open" (tuple (cons (attribute (name "self") "_data") (cons the_snapshot nil)))
      (attribute (attribute (name "self") "journal") "open")

abbrev opening_write : Ast
opening_write =
    assign 2 (cons (tuple (cons (attribute (name "self") "_data") (cons the_snapshot nil))) nil)
      (call 2 (attribute (attribute (name "self") "journal") "open") nil nil)

-- one more write, in whatever function, is refused
abbrev with_hidden : String → Result Ast
with_hidden source = ok (
    if str_eq source "session.py"
    then with_writes (cons (writer "poll" the_snapshot (name "advance")) nil)
    else other "Module" nil)

hidden_write_raises : verify_runtime_transition_refinement with_hidden ≡ err runtime_error
unfolding verify_runtime_transition_refinement extract_source_surface surface_of verify_surface
    literal_events calls_of walk transition_calls transition_call declared_names declared_events
    trade_event_name event_refs_of dynamic_calls writes_as_expected writes_of state_writes
    event_names producer_name dotted state_write any_contains_snapshot
hidden_write_raises = refl

-- the release gate on these sources
abbrev hashed : SourceDigests
hashed = record { spec = "spec"; sources = ok "sources" }

release_gate_example :
    (coordination : CoordinationReport) × (coordination.cross_symbol_concurrency_witness ≡ true)
    × (coordination.cross_account_same_symbol_concurrency_witness ≡ true)
    × (verify_release_model 53 (suc state_count) hashed parse ≡ (
        hashed.sources >>= λ source. verify_runtime_transition_refinement parse >>= λ refinement.
        ok (
          some (record {
            machine = report_of hashed.spec source;
            implementation_refinement = refinement;
            three_process_coordination = coordination;
          }))))
release_gate_example = release_gate hashed parse
