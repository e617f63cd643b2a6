-- ===== src/Function/Effects.antt =====
-- What `Function::is_pure` of librumur/src/Function.cc decides, said of the syntax tree.
use rumur.Prelude.{ℕ, ◌≡◌, ◌↔◌, refl, true, false, arith}
use rumur.Prelude.Products.{both, last, skip, under, never, same, flat3, flat4, flat5}
use rumur.Prelude.Results.{ok}
use rumur.Ast.{
  Expr, ternary, binary, unary, expr_id, field, element, function_call, exists, forall, is_member,
  number, ExprPtr, null_expr, ptr_expr, Exprs, nil_exprs, cons_exprs, Quantifier, quantifier,
  ExprDecl, alias_decl, const_decl, var_decl, null_decl, ptr_decl, var, VarDecls, nil_vars,
  cons_vars, Decls, nil_decls, cons_expr_decl, cons_type_decl, TypeExpr, range, scalarset, enum,
  record_type, array, type_expr_id, union, TypeExprPtr, null_type, ptr_type, TypeExprs, nil_types,
  cons_types, FunctionPtr, null_function, ptr_function, Stmt, alias_stmt, property_stmt, assignment,
  clear, error_stmt, for_stmt, if_stmt, procedure_call, put, return_stmt, switch, undefine,
  while_stmt, Stmts, nil_stmts, cons_stmts, IfClauses, nil_clauses, cons_clauses, SwitchCases,
  nil_cases, cons_cases,
}
use rumur.Expr.{is_global_ref, is_in_state}
use rumur.Function.{
  Forest, leaf, plant, join, function_callee, expr_tree, expr_ptr_forest, exprs_forest,
  quantifier_tree, type_tree, type_ptr_forest, types_forest, vars_forest, decls_forest, stmt_tree,
  stmts_forest, clauses_forest, cases_forest,
}
use rumur.Function.Purity.{all_readonly, is_pure}
use rumur.Function.Pure.{
  ByValue, Local, LocalDecl, PureExpr, PureExprPtr, PureExprs, PureQuantifier, PureType,
  PureTypePtr, PureTypes, PureVars, PureDecls, PureStmt, PureStmts, PureClauses, PureCases,
  PureFunction,
}
use rumur.Function.Nodes.{NoEffects, NoEffectsAt, HasNoEffects, callee_is_pure_iff}

NoEffects-join :
    (root : ℕ) (f g : Forest) → NoEffects root (join f g) ↔ (NoEffects root f × NoEffects root g)
NoEffects-join root leaf g = ((λ h. (tt, h)), λ h. h.1)
NoEffects-join root (plant tree f) g =
    let rest = NoEffects-join root f g in
    ((λ h. ((h.0, (rest.0 h.1).0), (rest.0 h.1).1)), λ h. (h.0.0, rest.1 (h.0.1, h.1)))

joined :
    {A B : Type 0} (root : ℕ) (f g : Forest)
    → NoEffects root f ↔ A
    → NoEffects root g ↔ B
    → NoEffects root (join f g) ↔ (A × B)
joined root f g a b =
    let whole = NoEffects-join root f g in
    ((λ h. (both a b).0 (whole.0 h)), λ h. whole.1 ((both a b).1 h))

all_readonly_iff : (vs : VarDecls) → (all_readonly vs ≡ true) ↔ ByValue vs
unfolding all_readonly
all_readonly_iff nil_vars = ((λ e. tt), λ h. refl)
all_readonly_iff (cons_vars (var _ _ _ false) vs) = ((λ e. cc), λ h. h.0)
all_readonly_iff (cons_vars (var _ _ _ true) vs) =
    let rest = all_readonly_iff vs in ((λ e. (refl, rest.0 e)), λ h. rest.1 h.1)

mutual
  unfolding is_global_ref is_in_state

  is_global_ref_iff : (e : Expr) → (is_global_ref e ≡ ok false) ↔ Local e
  is_global_ref_iff (expr_id _ null_decl) = ((λ e. cc), λ h. absurd h)
  is_global_ref_iff (expr_id _ (ptr_decl d)) = decl_is_global_ref_iff d
  is_global_ref_iff (field record_expr _) = is_global_ref_iff record_expr
  is_global_ref_iff (element array_expr _) = is_global_ref_iff array_expr
  is_global_ref_iff _ = ((λ e. tt), λ h. refl)

  decl_is_global_ref_iff :
      (d : ExprDecl) → (is_global_ref (expr_id "" (ptr_decl d)) ≡ ok false) ↔ LocalDecl d
  decl_is_global_ref_iff (alias_decl _ value) = is_global_ref_iff value
  decl_is_global_ref_iff (const_decl _ _ _) = ((λ e. tt), λ h. refl)
  decl_is_global_ref_iff (var_decl (var _ _ offset _)) = ((λ e. ground arith), λ h. ground arith)

function_body :
    {A B C D : Type 0} (id : ℕ) (parameters : VarDecls) (f1 f2 f3 f4 : Forest)
    → NoEffects id f1 ↔ A
    → NoEffects id f2 ↔ B
    → NoEffects id f3 ↔ C
    → NoEffects id f4 ↔ D
    → ((all_readonly parameters ≡ true) × NoEffects id (join f1 (join f2 (join f3 f4))))
      ↔ (ByValue parameters × A × B × C × D)
function_body id parameters f1 f2 f3 f4 a b c d = flat5 (
    both (all_readonly_iff parameters)
      (joined id f1 (join f2 (join f3 f4)) a (joined id f2 (join f3 f4) b (joined id f3 f4 c d))))

mutual
  unfolding function_callee

  expr_iff : (root : ℕ) (e : Expr) → NoEffectsAt root (expr_tree e) ↔ PureExpr root e
  expr_iff root (ternary cond lhs rhs) =
      flat3 (both (expr_iff root cond) (both (expr_iff root lhs) (last (expr_iff root rhs))))
  expr_iff root (binary _ lhs rhs) = both (expr_iff root lhs) (last (expr_iff root rhs))
  expr_iff root (unary _ rhs) = last (expr_iff root rhs)
  expr_iff root (expr_id _ _) = same
  expr_iff root (field record_expr _) = last (expr_iff root record_expr)
  expr_iff root (element array_expr index) =
      both (expr_iff root array_expr) (last (expr_iff root index))
  expr_iff root (function_call _ null_function arguments _) = same
  expr_iff root (function_call _ (ptr_function id _ parameters type decls body) arguments _) =
      both (exprs_iff root arguments) (
        under (
          function_body id parameters (vars_forest parameters) (type_ptr_forest type)
            (decls_forest decls) (stmts_forest body) (vars_iff id parameters) (type_ptr_iff id type)
            (decls_iff id decls) (stmts_iff id body)))
  expr_iff root (exists q e) = both (quantifier_iff root q) (last (expr_iff root e))
  expr_iff root (forall q e) = both (quantifier_iff root q) (last (expr_iff root e))
  expr_iff root (is_member peg hole) = both (expr_iff root peg) (last (type_iff root hole))
  expr_iff root (number _) = same

  expr_ptr_iff : (root : ℕ) (e : ExprPtr) → NoEffects root (expr_ptr_forest e) ↔ PureExprPtr root e
  expr_ptr_iff root null_expr = same
  expr_ptr_iff root (ptr_expr e) = last (expr_iff root e)

  exprs_iff : (root : ℕ) (es : Exprs) → NoEffects root (exprs_forest es) ↔ PureExprs root es
  exprs_iff root nil_exprs = same
  exprs_iff root (cons_exprs e es) = both (expr_iff root e) (exprs_iff root es)

  quantifier_iff :
      (root : ℕ) (q : Quantifier) → NoEffectsAt root (quantifier_tree q) ↔ PureQuantifier root q
  quantifier_iff root (quantifier _ type from to step _) = flat4 (
      joined root (type_ptr_forest type)
        (join (expr_ptr_forest from) (join (expr_ptr_forest to) (expr_ptr_forest step)))
        (type_ptr_iff root type)
        (joined root (expr_ptr_forest from) (join (expr_ptr_forest to) (expr_ptr_forest step))
          (expr_ptr_iff root from)
          (joined root (expr_ptr_forest to) (expr_ptr_forest step) (expr_ptr_iff root to)
            (expr_ptr_iff root step))))

  type_iff : (root : ℕ) (t : TypeExpr) → NoEffectsAt root (type_tree t) ↔ PureType root t
  type_iff root (range min max) = both (expr_iff root min) (last (expr_iff root max))
  type_iff root (scalarset bound) = last (expr_iff root bound)
  type_iff root (enum _) = same
  type_iff root (record_type fields) = vars_iff root fields
  type_iff root (array index_type element_type) =
      both (type_iff root index_type) (last (type_iff root element_type))
  type_iff root (type_expr_id _ _) = same
  type_iff root (union members) = types_iff root members

  type_ptr_iff :
      (root : ℕ) (t : TypeExprPtr) → NoEffects root (type_ptr_forest t) ↔ PureTypePtr root t
  type_ptr_iff root null_type = same
  type_ptr_iff root (ptr_type t) = last (type_iff root t)

  types_iff : (root : ℕ) (ts : TypeExprs) → NoEffects root (types_forest ts) ↔ PureTypes root ts
  types_iff root nil_types = same
  types_iff root (cons_types t ts) = both (type_iff root t) (types_iff root ts)

  vars_iff : (root : ℕ) (vs : VarDecls) → NoEffects root (vars_forest vs) ↔ PureVars root vs
  vars_iff root nil_vars = same
  vars_iff root (cons_vars (var _ type _ _) vs) =
      both (last (type_iff root type)) (vars_iff root vs)

  decls_iff : (root : ℕ) (ds : Decls) → NoEffects root (decls_forest ds) ↔ PureDecls root ds
  decls_iff root nil_decls = same
  decls_iff root (cons_expr_decl (alias_decl _ value) ds) =
      both (last (expr_iff root value)) (decls_iff root ds)
  decls_iff root (cons_expr_decl (const_decl _ value _) ds) =
      both (last (expr_iff root value)) (decls_iff root ds)
  decls_iff root (cons_expr_decl (var_decl (var _ type _ _)) ds) =
      both (last (type_iff root type)) (decls_iff root ds)
  decls_iff root (cons_type_decl _ value ds) = both (last (type_iff root value)) (decls_iff root ds)

  stmt_iff : (root : ℕ) (s : Stmt) → NoEffectsAt root (stmt_tree s) ↔ PureStmt root s
  stmt_iff root (alias_stmt aliases body) = skip (
      joined root (decls_forest aliases) (stmts_forest body) (decls_iff root aliases)
        (stmts_iff root body))
  stmt_iff root (property_stmt _ _ _) = never
  stmt_iff root (assignment lhs rhs) =
      flat3 (both (is_global_ref_iff lhs) (both (expr_iff root lhs) (last (expr_iff root rhs))))
  stmt_iff root (clear rhs) = both (is_global_ref_iff rhs) (last (expr_iff root rhs))
  stmt_iff root (error_stmt _) = never
  stmt_iff root (for_stmt q body) = skip (both (quantifier_iff root q) (stmts_iff root body))
  stmt_iff root (if_stmt clauses) = skip (clauses_iff root clauses)
  stmt_iff root (procedure_call e) = skip (last (expr_iff root e))
  stmt_iff root (put _ _) = never
  stmt_iff root (return_stmt e) = skip (expr_ptr_iff root e)
  stmt_iff root (switch e cases) = skip (both (expr_iff root e) (cases_iff root cases))
  stmt_iff root (undefine rhs) = both (is_global_ref_iff rhs) (last (expr_iff root rhs))
  stmt_iff root (while_stmt cond body) = skip (both (expr_iff root cond) (stmts_iff root body))

  stmts_iff : (root : ℕ) (ss : Stmts) → NoEffects root (stmts_forest ss) ↔ PureStmts root ss
  stmts_iff root nil_stmts = same
  stmts_iff root (cons_stmts s ss) = both (stmt_iff root s) (stmts_iff root ss)

  clauses_iff :
      (root : ℕ) (cs : IfClauses) → NoEffects root (clauses_forest cs) ↔ PureClauses root cs
  clauses_iff root nil_clauses = same
  clauses_iff root (cons_clauses cond body clauses) =
      both
        (joined root (expr_ptr_forest cond) (stmts_forest body) (expr_ptr_iff root cond)
          (stmts_iff root body))
        (clauses_iff root clauses)

  cases_iff : (root : ℕ) (cs : SwitchCases) → NoEffects root (cases_forest cs) ↔ PureCases root cs
  cases_iff root nil_cases = same
  cases_iff root (cons_cases matches body cases) =
      both
        (joined root (exprs_forest matches) (stmts_forest body) (exprs_iff root matches)
          (stmts_iff root body))
        (cases_iff root cases)

function_iff : (f : FunctionPtr) → HasNoEffects (function_callee f) ↔ PureFunction f
unfolding function_callee
function_iff null_function = same
function_iff (ptr_function id _ parameters type decls body) =
    function_body id parameters (vars_forest parameters) (type_ptr_forest type) (decls_forest decls)
      (stmts_forest body) (vars_iff id parameters) (type_ptr_iff id type) (decls_iff id decls)
      (stmts_iff id body)

-- is_pure of a function returns true exactly where the function takes no parameter by reference, no
-- statement in it writes a state variable, and none is an error, an assertion or other property, or a
-- put; and so in the functions that it calls, in theirs, and so on, calls of a function in itself
-- aside; and all these calls, and the names of the targets of its assignments, clears and undefines, are
-- resolved.
pub is_pure_iff : (f : FunctionPtr) → (is_pure f ≡ ok true) ↔ PureFunction f
unfolding is_pure
is_pure_iff f =
    let callee = callee_is_pure_iff (function_callee f) in
    ((λ returned. (function_iff f).0 (callee.0 returned)), λ h. callee.1 ((function_iff f).1 h))
