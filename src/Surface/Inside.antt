-- ===== src/Surface/Inside.antt =====
-- The nodes of a syntax tree, and that src/qmt_execution_core/formal.py comes to each of them.
use qmt_execution_core.Common.{ℕ, refl, inl, inr, String, IsIn, IsIn-left, IsIn-right}
use qmt_execution_core.Surface.{
  Ast, Asts, name, attribute, call, tuple, list_, function_def, async_function_def, assign,
  ann_assign, aug_assign, other, cons, walk, walk_all,
}

-- The node stands in the tree, at any depth.
mutual
  pub data Inside (node : Ast) : Ast → Type 0 where
    here : Inside node node
    in_value :
        {value : Ast} {attr : String} → Inside node value → Inside node (attribute value attr)
    in_func :
        {lineno : ℕ} {func : Ast} {args keywords : Asts}
        → Inside node func
        → Inside node (call lineno func args keywords)
    in_args :
        {lineno : ℕ} {func : Ast} {args keywords : Asts}
        → InsideOne node args
        → Inside node (call lineno func args keywords)
    in_keywords :
        {lineno : ℕ} {func : Ast} {args keywords : Asts}
        → InsideOne node keywords
        → Inside node (call lineno func args keywords)
    in_tuple : {elts : Asts} → InsideOne node elts → Inside node (tuple elts)
    in_list : {elts : Asts} → InsideOne node elts → Inside node (list_ elts)
    in_function :
        {function : String} {parts : Asts}
        → InsideOne node parts
        → Inside node (function_def function parts)
    in_async_function :
        {function : String} {parts : Asts}
        → InsideOne node parts
        → Inside node (async_function_def function parts)
    in_targets :
        {lineno : ℕ} {targets : Asts} {value : Ast}
        → InsideOne node targets
        → Inside node (assign lineno targets value)
    in_assigned :
        {lineno : ℕ} {targets : Asts} {value : Ast}
        → Inside node value
        → Inside node (assign lineno targets value)
    in_target :
        {lineno : ℕ} {target annotation : Ast} {value : Asts}
        → Inside node target
        → Inside node (ann_assign lineno target annotation value)
    in_annotation :
        {lineno : ℕ} {target annotation : Ast} {value : Asts}
        → Inside node annotation
        → Inside node (ann_assign lineno target annotation value)
    in_annotated :
        {lineno : ℕ} {target annotation : Ast} {value : Asts}
        → InsideOne node value
        → Inside node (ann_assign lineno target annotation value)
    in_changed :
        {lineno : ℕ} {target value : Ast}
        → Inside node target
        → Inside node (aug_assign lineno target value)
    in_change :
        {lineno : ℕ} {target value : Ast}
        → Inside node value
        → Inside node (aug_assign lineno target value)
    in_child :
        {kind : String} {children : Asts}
        → InsideOne node children
        → Inside node (other kind children)

  pub data InsideOne (node : Ast) : Asts → Type 0 where
    first : {item : Ast} {rest : Asts} → Inside node item → InsideOne node (cons item rest)
    later : {item : Ast} {rest : Asts} → InsideOne node rest → InsideOne node (cons item rest)

root_first : (node : Ast) → IsIn node (walk node)
unfolding walk
root_first (name id) = inl refl
root_first _ = inl refl

mutual
  unfolding walk

  pub walk-finds : (node : Ast) {tree : Ast} → Inside node tree → IsIn node (walk tree)
  walk-finds node here = root_first node
  walk-finds node (in_value i) = inr (walk-finds node i)
  walk-finds node (in_func {func = f} {args = a} i) =
      inr (IsIn-left node (walk f) _ (walk-finds node i))
  walk-finds node (in_args {func = f} {args = a} i) =
      inr (IsIn-right node (walk f) _ (IsIn-left node (walk_all a) _ (walk_all-finds node i)))
  walk-finds node (in_keywords {func = f} {args = a} i) =
      inr (IsIn-right node (walk f) _ (IsIn-right node (walk_all a) _ (walk_all-finds node i)))
  walk-finds node (in_tuple i) = inr (walk_all-finds node i)
  walk-finds node (in_list i) = inr (walk_all-finds node i)
  walk-finds node (in_function i) = inr (walk_all-finds node i)
  walk-finds node (in_async_function i) = inr (walk_all-finds node i)
  walk-finds node (in_targets {targets = t} i) =
      inr (IsIn-left node (walk_all t) _ (walk_all-finds node i))
  walk-finds node (in_assigned {targets = t} i) =
      inr (IsIn-right node (walk_all t) _ (walk-finds node i))
  walk-finds node (in_target {target = t} {annotation = a} i) =
      inr (IsIn-left node (walk t) _ (walk-finds node i))
  walk-finds node (in_annotation {target = t} {annotation = a} i) =
      inr (IsIn-right node (walk t) _ (IsIn-left node (walk a) _ (walk-finds node i)))
  walk-finds node (in_annotated {target = t} {annotation = a} i) =
      inr (IsIn-right node (walk t) _ (IsIn-right node (walk a) _ (walk_all-finds node i)))
  walk-finds node (in_changed {target = t} i) = inr (IsIn-left node (walk t) _ (walk-finds node i))
  walk-finds node (in_change {target = t} i) = inr (IsIn-right node (walk t) _ (walk-finds node i))
  walk-finds node (in_child i) = inr (walk_all-finds node i)

  walk_all-finds : (node : Ast) {trees : Asts} → InsideOne node trees → IsIn node (walk_all trees)
  walk_all-finds node (first {item = t} i) = IsIn-left node (walk t) _ (walk-finds node i)
  walk_all-finds node (later {item = t} i) = IsIn-right node (walk t) _ (walk_all-finds node i)
