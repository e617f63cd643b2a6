-- ===== src/Function/Pure.antt =====
-- A function without effects, said of the syntax tree: what `Function::is_pure` of
-- librumur/src/Function.cc is to decide.
use rumur.Prelude.{ℕ, ◌≡◌, ◌≢◌, true}
use rumur.Prelude.Int.{pos, ◌<ℤ◌}
use rumur.Ast.{
  Expr, ternary, binary, unary, expr_id, field, element, function_call, exists, forall, is_member,
  number, ExprPtr, null_expr, ptr_expr, Exprs, nil_exprs, cons_exprs, Quantifier, quantifier,
  ExprDecl, alias_decl, const_decl, var_decl, null_decl, ptr_decl, var, VarDecls, nil_vars,
  cons_vars, Decls, nil_decls, cons_expr_decl, cons_type_decl, TypeExpr, range, scalarset, enum,
  record_type, array, type_expr_id, union, TypeExprPtr, null_type, ptr_type, TypeExprs, nil_types,
  cons_types, FunctionPtr, null_function, ptr_function, Stmt, alias_stmt, property_stmt, assignment,
  clear, error_stmt, for_stmt, if_stmt, procedure_call, put, return_stmt, switch, undefine,
  while_stmt, Stmts, nil_stmts, cons_stmts, IfClauses, nil_clauses, cons_clauses, SwitchCases,
  nil_cases, cons_cases,
}

-- No parameter is by reference.
abbrev pub ByValue : VarDecls → Type 0
ByValue nil_vars = Unit
ByValue (cons_vars (var _ _ _ fixed) vs) = (fixed ≡ true) × ByValue vs

-- The variable whose fields and elements are taken, through aliases, is not in the state, or there is
-- none.
abbrev mutual
  pub Local : Expr → Type 0
  Local (expr_id _ null_decl) = ⊥
  Local (expr_id _ (ptr_decl d)) = LocalDecl d
  Local (field record_expr _) = Local record_expr
  Local (element array_expr _) = Local array_expr
  Local _ = Unit

  pub LocalDecl : ExprDecl → Type 0
  LocalDecl (alias_decl _ value) = Local value
  LocalDecl (const_decl _ _ _) = Unit
  LocalDecl (var_decl (var _ _ offset _)) = offset <ℤ pos 0

-- Nothing below, in a function of that unique id, has an effect: every target of an assignment, a clear
-- or an undefine is local, nothing is reported, checked or printed, and every call is of a function
-- without effects, or of this one.
abbrev mutual
  pub PureExpr : ℕ → Expr → Type 0
  PureExpr root (ternary cond lhs rhs) = PureExpr root cond × PureExpr root lhs × PureExpr root rhs
  PureExpr root (binary _ lhs rhs) = PureExpr root lhs × PureExpr root rhs
  PureExpr root (unary _ rhs) = PureExpr root rhs
  PureExpr root (expr_id _ _) = Unit
  PureExpr root (field record_expr _) = PureExpr root record_expr
  PureExpr root (element array_expr index) = PureExpr root array_expr × PureExpr root index
  PureExpr root (function_call _ null_function arguments _) = ⊥
  PureExpr root (function_call _ (ptr_function id _ parameters type decls body) arguments _) =
      PureExprs root arguments
      × (id ≢ root
          → ByValue parameters
            × PureVars id parameters
            × PureTypePtr id type
            × PureDecls id decls
            × PureStmts id body)
  PureExpr root (exists q e) = PureQuantifier root q × PureExpr root e
  PureExpr root (forall q e) = PureQuantifier root q × PureExpr root e
  PureExpr root (is_member peg hole) = PureExpr root peg × PureType root hole
  PureExpr root (number _) = Unit

  pub PureExprPtr : ℕ → ExprPtr → Type 0
  PureExprPtr root null_expr = Unit
  PureExprPtr root (ptr_expr e) = PureExpr root e

  pub PureExprs : ℕ → Exprs → Type 0
  PureExprs root nil_exprs = Unit
  PureExprs root (cons_exprs e es) = PureExpr root e × PureExprs root es

  pub PureQuantifier : ℕ → Quantifier → Type 0
  PureQuantifier root (quantifier _ type from to step _) =
      PureTypePtr root type × PureExprPtr root from × PureExprPtr root to × PureExprPtr root step

  pub PureType : ℕ → TypeExpr → Type 0
  PureType root (range min max) = PureExpr root min × PureExpr root max
  PureType root (scalarset bound) = PureExpr root bound
  PureType root (enum _) = Unit
  PureType root (record_type fields) = PureVars root fields
  PureType root (array index_type element_type) =
      PureType root index_type × PureType root element_type
  PureType root (type_expr_id _ _) = Unit
  PureType root (union members) = PureTypes root members

  pub PureTypePtr : ℕ → TypeExprPtr → Type 0
  PureTypePtr root null_type = Unit
  PureTypePtr root (ptr_type t) = PureType root t

  pub PureTypes : ℕ → TypeExprs → Type 0
  PureTypes root nil_types = Unit
  PureTypes root (cons_types t ts) = PureType root t × PureTypes root ts

  pub PureVars : ℕ → VarDecls → Type 0
  PureVars root nil_vars = Unit
  PureVars root (cons_vars (var _ type _ _) vs) = PureType root type × PureVars root vs

  pub PureDecls : ℕ → Decls → Type 0
  PureDecls root nil_decls = Unit
  PureDecls root (cons_expr_decl (alias_decl _ value) ds) = PureExpr root value × PureDecls root ds
  PureDecls root (cons_expr_decl (const_decl _ value _) ds) =
      PureExpr root value × PureDecls root ds
  PureDecls root (cons_expr_decl (var_decl (var _ type _ _)) ds) =
      PureType root type × PureDecls root ds
  PureDecls root (cons_type_decl _ value ds) = PureType root value × PureDecls root ds

  pub PureStmt : ℕ → Stmt → Type 0
  PureStmt root (alias_stmt aliases body) = PureDecls root aliases × PureStmts root body
  PureStmt root (property_stmt _ _ _) = ⊥
  PureStmt root (assignment lhs rhs) = Local lhs × PureExpr root lhs × PureExpr root rhs
  PureStmt root (clear rhs) = Local rhs × PureExpr root rhs
  PureStmt root (error_stmt _) = ⊥
  PureStmt root (for_stmt q body) = PureQuantifier root q × PureStmts root body
  PureStmt root (if_stmt clauses) = PureClauses root clauses
  PureStmt root (procedure_call e) = PureExpr root e
  PureStmt root (put _ _) = ⊥
  PureStmt root (return_stmt e) = PureExprPtr root e
  PureStmt root (switch e cases) = PureExpr root e × PureCases root cases
  PureStmt root (undefine rhs) = Local rhs × PureExpr root rhs
  PureStmt root (while_stmt cond body) = PureExpr root cond × PureStmts root body

  pub PureStmts : ℕ → Stmts → Type 0
  PureStmts root nil_stmts = Unit
  PureStmts root (cons_stmts s ss) = PureStmt root s × PureStmts root ss

  pub PureClauses : ℕ → IfClauses → Type 0
  PureClauses root nil_clauses = Unit
  PureClauses root (cons_clauses cond body clauses) =
      (PureExprPtr root cond × PureStmts root body) × PureClauses root clauses

  pub PureCases : ℕ → SwitchCases → Type 0
  PureCases root nil_cases = Unit
  PureCases root (cons_cases matches body cases) =
      (PureExprs root matches × PureStmts root body) × PureCases root cases

abbrev pub PureFunction : FunctionPtr → Type 0
PureFunction null_function = ⊥
PureFunction (ptr_function id _ parameters type decls body) =
    ByValue parameters
    × PureVars id parameters
    × PureTypePtr id type
    × PureDecls id decls
    × PureStmts id body
