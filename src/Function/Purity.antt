-- ===== src/Function/Purity.antt =====
-- `Function::is_pure` of librumur/src/Function.cc.
use rumur.Prelude.{ℕ, Bool, true, false, if◌then◌else◌, not, ◌==◌, ◌&&◌}
use rumur.Prelude.Results.{Result, ok, abort, ◌>>=◌}
use rumur.Ast.{
  VarDecls, nil_vars, cons_vars, FunctionPtr, Stmt, property_stmt, assignment, clear, error_stmt,
  put, undefine,
}
use rumur.Expr.{is_global_ref, readonly}
use rumur.Function.{
  Tree, node, stmt, call, other, Forest, leaf, plant, Callee, null_callee, callee, function_callee,
}

-- `for (p : parameters) if (!p->is_readonly()) return false;`
unfoldable pub all_readonly : VarDecls → Bool
all_readonly nil_vars = true
all_readonly (cons_vars v vs) = readonly v && all_readonly vs

-- `pure &= !is_global_ref(target)`
abbrev pub and_not_global : Stmt → Bool → Result Bool
and_not_global (assignment lhs rhs) pure = do global ← is_global_ref lhs; ok (pure && not global)
and_not_global (clear rhs) pure = do global ← is_global_ref rhs; ok (pure && not global)
and_not_global (undefine rhs) pure = do global ← is_global_ref rhs; ok (pure && not global)
and_not_global _ pure = ok pure

-- The statements that `PurityDetector` takes for effects, and does not descend into.
abbrev pub is_effect : Stmt → Bool
is_effect (error_stmt message) = true
is_effect (property_stmt category e message) = true
is_effect (put message e) = true
is_effect _ = false

-- `if (n.function->unique_id != root->unique_id) pure &= n.function->is_pure();`
abbrev pub pure_call : Bool → Bool → Result Bool → Result Bool
pure_call true pure function_pure = ok pure
pure_call false pure function_pure = do pure' ← function_pure; ok (pure && pure')

-- `PurityDetector`, with the unique id of its `root`; the check of parameters is `is_pure`'s
unfoldable mutual
  pub pure_tree : ℕ → Tree → Bool → Result Bool
  pure_tree root (node (stmt s) children) pure =
      let rest = (do pure' ← and_not_global s pure; pure_forest root children pure') in
      if is_effect s then ok false else rest
  pure_tree root (node other children) pure = pure_forest root children pure
  pure_tree root (node (call null_callee) children) pure = abort
  pure_tree root (node (call (callee id parameters inside)) children) pure = do
    pure' ← pure_forest root children pure
    let function_pure = pure_forest id inside true
    pure_call (id == root) pure' (if all_readonly parameters then function_pure else ok false)

  pub pure_forest : ℕ → Forest → Bool → Result Bool
  pure_forest root leaf pure = ok pure
  pure_forest root (plant tree forest) pure = do
    pure' ← pure_tree root tree pure
    pure_forest root forest pure'

unfoldable pub callee_is_pure : Callee → Result Bool
callee_is_pure null_callee = abort
callee_is_pure (callee id parameters inside) =
    if all_readonly parameters then pure_forest id inside true else ok false

unfoldable pub is_pure : FunctionPtr → Result Bool
is_pure f = callee_is_pure (function_callee f)
