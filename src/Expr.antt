-- ===== src/Expr.antt =====
-- `is_lvalue` and `is_readonly` of expressions and declarations (librumur/src/Expr.cc, Decl.cc), and
-- `is_global_ref` of `Function::is_pure` (librumur/src/Function.cc).
pub mod Root
pub mod Typing
pub mod Access
use rumur.Prelude.{Bool, true, false, not}
use rumur.Prelude.Int.{ℤ, pos, leb_ℤ}
use rumur.Prelude.Results.{Result, ok, err, abort, unresolved_expression, ◌>>=◌}
use rumur.Ast.{
  Expr, expr_id, field, element, ExprDecl, alias_decl, const_decl, var_decl, null_decl, ptr_decl,
  VarDecl, var,
}

unfoldable mutual
  pub is_lvalue : Expr → Result Bool
  is_lvalue (expr_id id null_decl) = err (unresolved_expression id)
  is_lvalue (expr_id _ (ptr_decl d)) = decl_is_lvalue d
  is_lvalue (field record_expr _) = is_lvalue record_expr
  is_lvalue (element array _) = is_lvalue array
  is_lvalue _ = ok false

  pub decl_is_lvalue : ExprDecl → Result Bool
  decl_is_lvalue (alias_decl _ value) = is_lvalue value
  decl_is_lvalue (const_decl _ _ _) = ok false
  decl_is_lvalue (var_decl _) = ok true

abbrev pub readonly : VarDecl → Bool
readonly (var _ _ _ r) = r

unfoldable mutual
  unfolding is_lvalue

  pub is_readonly : Expr → Result Bool
  is_readonly (expr_id _ null_decl) = abort
  is_readonly (expr_id _ (ptr_decl d)) = decl_is_readonly d
  is_readonly (field record_expr _) = is_readonly record_expr
  is_readonly (element array _) = is_readonly array
  is_readonly e = do lvalue ← is_lvalue e; ok (not lvalue)

  pub decl_is_readonly : ExprDecl → Result Bool
  decl_is_readonly (alias_decl _ value) = is_readonly value
  decl_is_readonly (const_decl _ _ _) = ok true
  decl_is_readonly (var_decl v) = ok (readonly v)

unfoldable pub is_in_state : VarDecl → Bool
is_in_state (var _ _ offset _) = leb_ℤ (pos 0) offset

unfoldable mutual
  unfolding is_in_state

  pub is_global_ref : Expr → Result Bool
  is_global_ref (expr_id _ null_decl) = abort
  is_global_ref (expr_id _ (ptr_decl d)) = decl_is_global_ref d
  is_global_ref (field record_expr _) = is_global_ref record_expr
  is_global_ref (element array _) = is_global_ref array
  is_global_ref _ = ok false

  pub decl_is_global_ref : ExprDecl → Result Bool
  decl_is_global_ref (alias_decl _ value) = is_global_ref value
  decl_is_global_ref (var_decl v) = ok (is_in_state v)
  decl_is_global_ref _ = ok false
