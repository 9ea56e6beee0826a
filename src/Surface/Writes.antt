-- ===== src/Surface/Writes.antt =====
-- The writes that src/qmt_execution_core/formal.py finds in the sources.
use qmt_execution_core.Common.{
  ℕ, ◌≡◌, sym, subst, ◌⊎◌, true, not, String, List, [], IsIn, ◌∷◌, ◌++◌, not-false,
}
use qmt_execution_core.Errors.{Result, ok, bind_ok, ok_inj, raise_if, raise_if_ok, runtime_error}
use qmt_execution_core.Surface.{
  Ast, Asts, name, attribute, tuple, list_, cons, assign, ann_assign, aug_assign, as_function,
}
use qmt_execution_core.Surface.Extract.{
  RuntimeStateWrite, SourceSurface, producer_name, producer_of, extract_source_surface, surface_of,
}
use qmt_execution_core.Surface.Refinement.{
  RefinementReport, writes_as_expected, verify_surface, verify_runtime_transition_refinement,
  all_among, declared_names, literal_events, is_expected_dynamic, dynamic_calls,
}
use qmt_execution_core.Surface.Inside.{Inside}
use qmt_execution_core.Verifier.Report.{all_states}

abbrev pub IsFunction : String → Ast → Type 0
IsFunction function node = as_function node ≡ (function, node) ∷ []

pub data IsAmong (item : Ast) : Asts → Type 0 where
  at_first : {rest : Asts} → IsAmong item (cons item rest)
  at_later : {first : Ast} {rest : Asts} → IsAmong item rest → IsAmong item (cons first rest)

-- The target is the attribute `self._snapshot`, or a tuple or a list with such a target in it.
pub data Binds : Ast → Type 0 where
  alone : Binds (attribute (name "self") "_snapshot")
  in_tuple : {item : Ast} {elts : Asts} → IsAmong item elts → Binds item → Binds (tuple elts)
  in_list : {item : Ast} {elts : Asts} → IsAmong item elts → Binds item → Binds (list_ elts)

-- The assignment statement has `self._snapshot` among its targets, and gives it what the producer
-- gives.
pub data IsWrite : Ast → String → Type 0 where
  assigned :
      {lineno : ℕ} {target : Ast} {targets : Asts} {value : Ast}
      → IsAmong target targets
      → Binds target
      → IsWrite (assign lineno targets value) (producer_name value)
  annotated :
      {lineno : ℕ} {target annotation : Ast} {value : Asts}
      → Binds target
      → IsWrite (ann_assign lineno target annotation value) (producer_of value)
  changed :
      {lineno : ℕ} {target value : Ast}
      → Binds target
      → IsWrite (aug_assign lineno target value) (producer_name value)

-- the writes of a source say so
abbrev IsReported : (source function producer : String) → List RuntimeStateWrite → Type 0
IsReported source function producer writes =
    (line : ℕ) × IsIn
      (record { source = source; function = function; line = line; producer = producer }) writes

-- The three writes that the code may make.
abbrev pub IsExpected : (source function producer : String) → Type 0
IsExpected source function producer =
    (source ≡ "session.py")
    × (((function ≡ "__init__") × (producer ≡ "MachineSnapshot"))
        ⊎ (((function ≡ "open") × (producer ≡ "self.journal.open"))
            ⊎ ((function ≡ "_transition") × (producer ≡ "advance"))))

-- What the tests of the verification show of a surface.
pub record IsRefined (surface : SourceSurface) : Type 0 where
  pub all_declared :
      all_among (literal_events surface.calls ++ surface.event_refs) (declared_names all_states)
      ≡ true
  pub emitted :
      all_among (declared_names all_states) (literal_events surface.calls ++ surface.event_refs)
      ≡ true
  pub dynamic : is_expected_dynamic (dynamic_calls surface.calls) ≡ true
  pub written : writes_as_expected surface.writes ≡ true

surface-IsRefined :
    (surface : SourceSurface) (report : RefinementReport)
    → verify_surface surface ≡ ok report
    → IsRefined surface
unfolding verify_surface
surface-IsRefined surface report h =
    let runtime = literal_events surface.calls ++ surface.event_refs in
    let (_, a, h₁) =
      bind_ok (raise_if (not (all_among runtime (declared_names all_states))) runtime_error) _ h in
    let (_, b, h₂) =
      bind_ok (raise_if (not (all_among (declared_names all_states) runtime)) runtime_error) _ h₁ in
    let (_, c, h₃) =
      bind_ok (raise_if (not (is_expected_dynamic (dynamic_calls surface.calls))) runtime_error) _
        h₂ in
    let (_, d, h₄) =
      bind_ok (raise_if (not (writes_as_expected surface.writes)) runtime_error) _ h₃ in
    record {
      all_declared = not-false _ (raise_if_ok _ _ a);
      emitted = not-false _ (raise_if_ok _ _ b);
      dynamic = not-false _ (raise_if_ok _ _ c);
      written = not-false _ (raise_if_ok _ _ d);
    }

-- the three sources parse, and their surface is refined
pub sources-IsRefined :
    (parse : String → Result Ast) (report : RefinementReport)
    → verify_runtime_transition_refinement parse ≡ ok report
    → (session : Ast) × (recovery : Ast) × (coordinated : Ast) × (parse "session.py" ≡ ok session)
      × (parse "recovery.py" ≡ ok recovery)
      × (parse "coordinated_session.py" ≡ ok coordinated)
      × IsRefined (surface_of session recovery coordinated)
unfolding verify_runtime_transition_refinement extract_source_surface
sources-IsRefined parse report h =
    let (surface, found, h₁) = bind_ok (extract_source_surface parse) _ h in
    let (session, p, k₁) = bind_ok (parse "session.py") _ found in
    let (recovery, q, k₂) = bind_ok (parse "recovery.py") _ k₁ in
    let (coordinated, r, k₃) = bind_ok (parse "coordinated_session.py") _ k₂ in
    let same : surface ≡ surface_of session recovery coordinated = sym (ok_inj k₃) in
    (
      session,
      recovery,
      coordinated,
      p,
      q,
      r,
      subst IsRefined same (surface-IsRefined surface report h₁),
    )
