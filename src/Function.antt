-- ===== src/Function.antt =====
-- Traversals of librumur/src/Function.cc over the body of a function, and the order in which ConstTraversal
-- (librumur/src/traverse.cc) visits it.
pub mod Purity
pub mod Pure
pub mod Nodes
pub mod Effects
pub mod Recursion
use rumur.Prelude.{ℕ, Bool, true, false, if◌then◌else◌, not, ◌==◌, ◌&&◌}
use rumur.Prelude.Results.{Result, ok, err, abort, ◌>>=◌}
use rumur.Ast.{
  Expr, ternary, binary, unary, expr_id, field, element, function_call, exists, forall, is_member,
  number, ExprPtr, null_expr, ptr_expr, Exprs, nil_exprs, cons_exprs, Quantifier, quantifier,
  ExprDecl, alias_decl, const_decl, var_decl, VarDecl, var, VarDecls, nil_vars, cons_vars, Decls,
  nil_decls, cons_expr_decl, cons_type_decl, TypeExpr, range, scalarset, enum, record_type, array,
  type_expr_id, union, TypeExprPtr, null_type, ptr_type, TypeExprs, nil_types, cons_types,
  FunctionPtr, null_function, ptr_function, Stmt, alias_stmt, property_stmt, assignment, clear,
  error_stmt, for_stmt, if_stmt, procedure_call, put, return_stmt, switch, undefine, while_stmt,
  Stmts, nil_stmts, cons_stmts, IfClauses, nil_clauses, cons_clauses, SwitchCases, nil_cases,
  cons_cases,
}
use rumur.Expr.{is_global_ref, readonly}

-- What the traversals below may override the visit of: a statement, a call of a function, and any other
-- node; under it, the nodes that ConstTraversal visits from it, in its order.
mutual
  pub data Tree : Type 0 where
    node : Label → Forest → Tree

  pub data Label : Type 0 where
    stmt : Stmt → Label
    call : Callee → Label
    other : Label

  pub data Forest : Type 0 where
    leaf : Forest
    plant : Tree → Forest → Forest

  -- the unique id, the parameters, and what ConstTraversal visits from the function
  pub data Callee : Type 0 where
    null_callee : Callee
    callee : ℕ → VarDecls → Forest → Callee

abbrev pub join : Forest → Forest → Forest
join leaf forest = forest
join (plant tree forest) other_forest = plant tree (join forest other_forest)

abbrev pub one : Tree → Forest
one tree = plant tree leaf

-- ConstTraversal's methods, by the class of the node
unfoldable mutual
  pub expr_tree : Expr → Tree
  expr_tree (ternary cond lhs rhs) =
      node other (plant (expr_tree cond) (plant (expr_tree lhs) (one (expr_tree rhs))))
  expr_tree (binary op lhs rhs) = node other (plant (expr_tree lhs) (one (expr_tree rhs)))
  expr_tree (unary op rhs) = node other (one (expr_tree rhs))
  expr_tree (expr_id id value) = node other leaf
  expr_tree (field record_expr name) = node other (one (expr_tree record_expr))
  expr_tree (element array_expr index) =
      node other (plant (expr_tree array_expr) (one (expr_tree index)))
  expr_tree (function_call name function arguments within) =
      node (call (function_callee function)) (exprs_forest arguments)
  expr_tree (exists q e) = node other (plant (quantifier_tree q) (one (expr_tree e)))
  expr_tree (forall q e) = node other (plant (quantifier_tree q) (one (expr_tree e)))
  expr_tree (is_member peg hole) = node other (plant (expr_tree peg) (one (type_tree hole)))
  expr_tree (number value) = node other leaf

  pub expr_ptr_forest : ExprPtr → Forest
  expr_ptr_forest null_expr = leaf
  expr_ptr_forest (ptr_expr e) = one (expr_tree e)

  pub exprs_forest : Exprs → Forest
  exprs_forest nil_exprs = leaf
  exprs_forest (cons_exprs e es) = plant (expr_tree e) (exprs_forest es)

  pub quantifier_tree : Quantifier → Tree
  quantifier_tree (quantifier name type from to step decl) = node other (
      join (type_ptr_forest type)
        (join (expr_ptr_forest from) (join (expr_ptr_forest to) (expr_ptr_forest step))))

  pub type_tree : TypeExpr → Tree
  type_tree (range min max) = node other (plant (expr_tree min) (one (expr_tree max)))
  type_tree (scalarset bound) = node other (one (expr_tree bound))
  type_tree (enum members) = node other leaf
  type_tree (record_type fields) = node other (vars_forest fields)
  type_tree (array index_type element_type) =
      node other (plant (type_tree index_type) (one (type_tree element_type)))
  type_tree (type_expr_id name referent) = node other leaf
  type_tree (union members) = node other (types_forest members)

  pub type_ptr_forest : TypeExprPtr → Forest
  type_ptr_forest null_type = leaf
  type_ptr_forest (ptr_type t) = one (type_tree t)

  pub types_forest : TypeExprs → Forest
  types_forest nil_types = leaf
  types_forest (cons_types t ts) = plant (type_tree t) (types_forest ts)

  pub var_tree : VarDecl → Tree
  var_tree (var name type offset fixed) = node other (one (type_tree type))

  pub vars_forest : VarDecls → Forest
  vars_forest nil_vars = leaf
  vars_forest (cons_vars v vs) = plant (var_tree v) (vars_forest vs)

  pub decl_tree : ExprDecl → Tree
  decl_tree (alias_decl name value) = node other (one (expr_tree value))
  decl_tree (const_decl name value type) = node other (one (expr_tree value))
  decl_tree (var_decl v) = var_tree v

  pub decls_forest : Decls → Forest
  decls_forest nil_decls = leaf
  decls_forest (cons_expr_decl d ds) = plant (decl_tree d) (decls_forest ds)
  decls_forest (cons_type_decl name value ds) =
      plant (node other (one (type_tree value))) (decls_forest ds)

  pub function_callee : FunctionPtr → Callee
  function_callee null_function = null_callee
  function_callee (ptr_function id name parameters return_type decls body) = callee id parameters (
      join (vars_forest parameters)
        (join (type_ptr_forest return_type) (join (decls_forest decls) (stmts_forest body))))

  pub stmt_tree : Stmt → Tree
  stmt_tree (alias_stmt aliases body) =
      node (stmt (alias_stmt aliases body)) (join (decls_forest aliases) (stmts_forest body))
  stmt_tree (property_stmt category e message) =
      node (stmt (property_stmt category e message)) (one (expr_tree e))
  stmt_tree (assignment lhs rhs) =
      node (stmt (assignment lhs rhs)) (plant (expr_tree lhs) (one (expr_tree rhs)))
  stmt_tree (clear rhs) = node (stmt (clear rhs)) (one (expr_tree rhs))
  stmt_tree (error_stmt message) = node (stmt (error_stmt message)) leaf
  stmt_tree (for_stmt q body) =
      node (stmt (for_stmt q body)) (plant (quantifier_tree q) (stmts_forest body))
  stmt_tree (if_stmt clauses) = node (stmt (if_stmt clauses)) (clauses_forest clauses)
  stmt_tree (procedure_call e) = node (stmt (procedure_call e)) (one (expr_tree e))
  stmt_tree (put message e) = node (stmt (put message e)) (expr_ptr_forest e)
  stmt_tree (return_stmt e) = node (stmt (return_stmt e)) (expr_ptr_forest e)
  stmt_tree (switch e cases) =
      node (stmt (switch e cases)) (plant (expr_tree e) (cases_forest cases))
  stmt_tree (undefine rhs) = node (stmt (undefine rhs)) (one (expr_tree rhs))
  stmt_tree (while_stmt cond body) =
      node (stmt (while_stmt cond body)) (plant (expr_tree cond) (stmts_forest body))

  pub stmts_forest : Stmts → Forest
  stmts_forest nil_stmts = leaf
  stmts_forest (cons_stmts s ss) = plant (stmt_tree s) (stmts_forest ss)

  pub clauses_forest : IfClauses → Forest
  clauses_forest nil_clauses = leaf
  clauses_forest (cons_clauses cond body clauses) =
      plant (node other (join (expr_ptr_forest cond) (stmts_forest body))) (clauses_forest clauses)

  pub cases_forest : SwitchCases → Forest
  cases_forest nil_cases = leaf
  cases_forest (cons_cases matches body cases) =
      plant (node other (join (exprs_forest matches) (stmts_forest body))) (cases_forest cases)
