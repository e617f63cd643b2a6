-- ===== src/Expr/Root.antt =====
-- An expression denotes the variable that it starts from, or none.
use rumur.Prelude.{◌≡◌, refl, Bool, true, false, Option, none, some}
use rumur.Prelude.Results.{ok}
use rumur.Ast.{
  Expr, expr_id, field, element, ExprDecl, alias_decl, const_decl, var_decl, null_decl, ptr_decl,
  VarDecl,
}
use rumur.Expr.{is_lvalue, readonly, is_readonly, is_in_state, is_global_ref}

-- The variable from which an expression's fields and elements are taken, through aliases.
mutual
  pub root : Expr → Option VarDecl
  root (expr_id _ (ptr_decl d)) = decl_root d
  root (field record_expr _) = root record_expr
  root (element array _) = root array
  root _ = none

  pub decl_root : ExprDecl → Option VarDecl
  decl_root (alias_decl _ value) = root value
  decl_root (const_decl _ _ _) = none
  decl_root (var_decl v) = some v

-- The names on the way to the root are resolved.
unfoldable mutual
  pub IsResolved : Expr → Type 0
  IsResolved (expr_id _ null_decl) = ⊥
  IsResolved (expr_id _ (ptr_decl d)) = DeclIsResolved d
  IsResolved (field record_expr _) = IsResolved record_expr
  IsResolved (element array _) = IsResolved array
  IsResolved _ = Unit

  pub DeclIsResolved : ExprDecl → Type 0
  DeclIsResolved (alias_decl _ value) = IsResolved value
  DeclIsResolved _ = Unit

-- `test` of the root, or `otherwise` where there is none
abbrev pub of_root : Bool → (VarDecl → Bool) → Option VarDecl → Bool
of_root otherwise test none = otherwise
of_root otherwise test (some v) = test v

-- Of an expression whose names are resolved down to its root: it is an lvalue where the root is a
-- variable, read-only unless the root is a variable that may be written, and a reference to the state
-- where the root is a state variable.
pub lvalue-root :
    (e : Expr)
    → IsResolved e
    → (is_lvalue e ≡ ok (of_root false (λ v. true) (root e)))
      × (is_readonly e ≡ ok (of_root true readonly (root e)))
      × (is_global_ref e ≡ ok (of_root false is_in_state (root e)))
unfolding is_lvalue is_readonly is_global_ref root IsResolved
lvalue-root (expr_id _ null_decl) h = elim h [ ]
lvalue-root (expr_id _ (ptr_decl (alias_decl _ value))) h = lvalue-root value h
lvalue-root (expr_id _ (ptr_decl (const_decl _ _ _))) h = (refl, refl, refl)
lvalue-root (expr_id _ (ptr_decl (var_decl v))) h = (refl, refl, refl)
lvalue-root (field record_expr _) h = lvalue-root record_expr h
lvalue-root (element array _) h = lvalue-root array h
lvalue-root _ h = (refl, refl, refl)
