-- ===== src/Surface/Extract.antt =====
-- src/qmt_execution_core/formal.py, `_extract_source_surface`. Reading and parsing a source is a
-- parameter, which may raise.
use Prim.Native.String.{◌++◌ as ◌+++◌}
use qmt_execution_core.Common.{
  ℕ, ◌&&◌, String, str_eq, Option, none, some, List, [], ◌∷◌, ◌++◌, if◌then◌else◌,
}
use qmt_execution_core.Errors.{Result, ok, ◌>>=◌}
use qmt_execution_core.Surface.{
  Ast, Asts, name, attribute, call, assign, ann_assign, aug_assign, nil, cons, type_name, walk,
  iter_function_nodes, trade_event_name, any_contains_snapshot,
}

pub record RuntimeTransitionCall : Type 0 where
  pub source : String
  pub function : String
  pub line : ℕ
  pub event : Option String

pub record RuntimeStateWrite : Type 0 where
  pub source : String
  pub function : String
  pub line : ℕ
  pub producer : String

-- the loop over the parts of a dotted name, the last one first
unfoldable pub dotted : Ast → String → String
dotted (attribute value attr) suffix = dotted value (attr +++ ("." +++ suffix))
dotted (name id) suffix = id +++ ("." +++ suffix)
dotted _ suffix = suffix

abbrev pub called_name : Ast → String
called_name (name id) = id
called_name (attribute value attr) = dotted value attr
called_name func = type_name func

-- `_producer_name`
unfoldable pub producer_name : Ast → String
producer_name (call lineno func args keywords) = called_name func
producer_name node = type_name node

abbrev pub producer_of : Asts → String
producer_of nil = "None"
producer_of (cons value rest) = producer_name value

module _ (source function : String) where
  -- the call of `_transition` that a node is, if any
  unfoldable pub transition_call : Ast → List RuntimeTransitionCall
  transition_call (call lineno (attribute value attr) (cons first rest) keywords) =
      if str_eq attr "_transition"
      then record {
        source = source;
        function = function;
        line = lineno;
        event = trade_event_name first;
      }
        ∷ []
      else []
  transition_call _ = []

  abbrev pub write_at : (lineno : ℕ) (targets : Asts) (producer : String) → List RuntimeStateWrite
  write_at lineno targets producer =
      if any_contains_snapshot targets
      then record { source = source; function = function; line = lineno; producer = producer } ∷ []
      else []

  -- the write of `self._snapshot` that a node is, if any
  unfoldable pub state_write : Ast → List RuntimeStateWrite
  state_write (assign lineno targets value) = write_at lineno targets (producer_name value)
  state_write (ann_assign lineno target annotation value) =
      write_at lineno (cons target nil) (producer_of value)
  state_write (aug_assign lineno target value) =
      write_at lineno (cons target nil) (producer_name value)
  state_write _ = []

  unfoldable pub transition_calls : List Ast → List RuntimeTransitionCall
  transition_calls [] = []
  transition_calls (node ∷ rest) = transition_call node ++ transition_calls rest

  unfoldable pub state_writes : List Ast → List RuntimeStateWrite
  state_writes [] = []
  state_writes (node ∷ rest) = state_write node ++ state_writes rest

abbrev pub named : Option String → List String
named none = []
named (some event) = event ∷ []

unfoldable pub event_names : List Ast → List String
event_names [] = []
event_names (node ∷ rest) = named (trade_event_name node) ++ event_names rest

-- the events that the functions of a source mention
unfoldable pub event_refs_of : (source : String) → List (String × Ast) → List String
event_refs_of source [] = []
event_refs_of source ((function, node) ∷ rest) =
    let later = event_refs_of source rest in
    if str_eq source "recovery.py" && str_eq function "event_for_observation"
    then event_names (walk node) ++ later
    else later

unfoldable pub calls_of : (source : String) → List (String × Ast) → List RuntimeTransitionCall
calls_of source [] = []
calls_of source ((function, node) ∷ rest) =
    transition_calls source function (walk node) ++ calls_of source rest

unfoldable pub writes_of : (source : String) → List (String × Ast) → List RuntimeStateWrite
writes_of source [] = []
writes_of source ((function, node) ∷ rest) =
    state_writes source function (walk node) ++ writes_of source rest

pub record SourceSurface : Type 0 where
  pub calls : List RuntimeTransitionCall
  pub writes : List RuntimeStateWrite
  pub event_refs : List String

-- `_EVENT_SOURCE_FILES` are session.py and recovery.py, `_RUNTIME_SOURCE_FILES` session.py and
-- coordinated_session.py.
unfoldable pub surface_of : (session recovery coordinated : Ast) → SourceSurface
surface_of session recovery coordinated =
    let in_session = iter_function_nodes session in
    let in_recovery = iter_function_nodes recovery in
    record {
      calls = calls_of "session.py" in_session ++ calls_of "recovery.py" in_recovery;
      writes =
          writes_of "session.py" in_session
          ++ writes_of "coordinated_session.py" (iter_function_nodes coordinated);
      event_refs = event_refs_of "session.py" in_session ++ event_refs_of "recovery.py" in_recovery;
    }

unfoldable pub extract_source_surface : (parse : String → Result Ast) → Result SourceSurface
extract_source_surface parse = do
  session ← parse "session.py"
  recovery ← parse "recovery.py"
  coordinated ← parse "coordinated_session.py"
  ok (surface_of session recovery coordinated)
