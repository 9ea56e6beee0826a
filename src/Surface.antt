-- ===== src/Surface.antt =====
-- src/qmt_execution_core/formal.py: where the Python sources change an execution's snapshot. A
-- source is its syntax tree, as `ast` gives it, with the nodes apart that the code tells apart.
-- `ast.walk` goes breadth first, which is not told apart here: only sets and counts are read of it.
pub mod Extract
pub mod Refinement
pub mod Inside
pub mod Writes
pub mod Examples
use qmt_execution_core.Common.{
  ℕ, Bool, true, false, ◌&&◌, ◌||◌, String, str_eq, Option, none, some, List, [], ◌∷◌, ◌++◌,
}

mutual
  -- The value of an annotation's target is a list of at most one.
  pub data Ast : Type 0 where
    name : (id : String) → Ast
    attribute : (value : Ast) (attr : String) → Ast
    call : (lineno : ℕ) (func : Ast) (args keywords : Asts) → Ast
    tuple list_ : (elts : Asts) → Ast
    function_def async_function_def : (function : String) (parts : Asts) → Ast
    assign : (lineno : ℕ) (targets : Asts) (value : Ast) → Ast
    ann_assign : (lineno : ℕ) (target annotation : Ast) (value : Asts) → Ast
    aug_assign : (lineno : ℕ) (target value : Ast) → Ast
    other : (kind : String) (children : Asts) → Ast

  pub data Asts : Type 0 where
    nil : Asts
    cons : Ast → Asts → Asts

-- `type(node).__name__`
abbrev pub type_name : Ast → String
type_name (name id) = "Name"
type_name (attribute value attr) = "Attribute"
type_name (call lineno func args keywords) = "Call"
type_name (tuple elts) = "Tuple"
type_name (list_ elts) = "List"
type_name (function_def function parts) = "FunctionDef"
type_name (async_function_def function parts) = "AsyncFunctionDef"
type_name (assign lineno targets value) = "Assign"
type_name (ann_assign lineno target annotation value) = "AnnAssign"
type_name (aug_assign lineno target value) = "AugAssign"
type_name (other kind children) = kind

unfoldable mutual
  -- `ast.walk`
  pub walk : Ast → List Ast
  walk (name id) = name id ∷ []
  walk (attribute value attr) = attribute value attr ∷ walk value
  walk (call lineno func args keywords) =
      call lineno func args keywords ∷ walk func ++ (walk_all args ++ walk_all keywords)
  walk (tuple elts) = tuple elts ∷ walk_all elts
  walk (list_ elts) = list_ elts ∷ walk_all elts
  walk (function_def function parts) = function_def function parts ∷ walk_all parts
  walk (async_function_def function parts) = async_function_def function parts ∷ walk_all parts
  walk (assign lineno targets value) = assign lineno targets value ∷ walk_all targets ++ walk value
  walk (ann_assign lineno target annotation value) =
      ann_assign lineno target annotation value ∷ walk target ++ (walk annotation ++ walk_all value)
  walk (aug_assign lineno target value) = aug_assign lineno target value ∷ walk target ++ walk value
  walk (other kind children) = other kind children ∷ walk_all children

  pub walk_all : Asts → List Ast
  walk_all nil = []
  walk_all (cons node rest) = walk node ++ walk_all rest

-- the visitor's test of one node
abbrev pub as_function : Ast → List (String × Ast)
as_function (function_def function parts) = (function, function_def function parts) ∷ []
as_function (async_function_def function parts) = (function, async_function_def function parts) ∷ []
as_function _ = []

abbrev pub functions_among : List Ast → List (String × Ast)
functions_among [] = []
functions_among (node ∷ rest) = as_function node ++ functions_among rest

-- `_iter_function_nodes`: the visitor goes into every node
abbrev pub iter_function_nodes : Ast → List (String × Ast)
iter_function_nodes tree = functions_among (walk tree)

-- `_trade_event_name`
unfoldable pub trade_event_name : Ast → Option String
trade_event_name (attribute (name id) attr) = if_trade_event (str_eq id "TradeEvent") attr
  where
    if_trade_event : Bool → String → Option String
    if_trade_event true attr = some attr
    if_trade_event false attr = none
trade_event_name _ = none

unfoldable mutual
  -- `_target_contains_snapshot`
  pub target_contains_snapshot : Ast → Bool
  target_contains_snapshot (attribute (name id) attr) = str_eq id "self" && str_eq attr "_snapshot"
  target_contains_snapshot (tuple elts) = any_contains_snapshot elts
  target_contains_snapshot (list_ elts) = any_contains_snapshot elts
  target_contains_snapshot _ = false

  pub any_contains_snapshot : Asts → Bool
  any_contains_snapshot nil = false
  any_contains_snapshot (cons item rest) =
      target_contains_snapshot item || any_contains_snapshot rest
