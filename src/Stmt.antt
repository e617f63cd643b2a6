-- ===== src/Stmt.antt =====
-- `validate` of the statements (librumur/src/Stmt.cc), each without its children, which the validation
-- pass visits itself.
pub mod Target
pub mod Cases
use rumur.Prelude.{Bool, true, false, if◌then◌else◌, not, String}
use rumur.Prelude.Results.{Result, ok, err, invalid, throw_if, ◌>>=◌, ◌>>◌}
use rumur.Ast.{
  Expr, ExprPtr, null_expr, ptr_expr, Exprs, nil_exprs, cons_exprs, Stmt, Stmts, Category, liveness,
  property_stmt, assignment, clear, if_stmt, put, switch, undefine, while_stmt, IfClauses,
  nil_clauses, cons_clauses, SwitchCases, nil_cases, cons_cases,
}
use rumur.Gmp.{Gmp}
use rumur.TypeExpr.Bounds.{is_simple}
use rumur.Expr.{is_lvalue, is_readonly}
use rumur.Expr.Typing.{ExprType, declared, unbounded, type, expr_is_boolean, type_coerces_to}

-- `is_simple` of a type, where the range without bounds is simple
unfoldable pub type_is_simple : ExprType → Result Bool
unfolding is_simple
type_is_simple (declared t) = is_simple t
type_is_simple unbounded = ok true

unfoldable pub validate_property : Category → Result (Unit {0})
validate_property liveness = err (invalid "liveness property appearing as a statement")
validate_property _ = ok tt

-- the tests on the target of an assignment, a clear or an undefine, with their messages
unfoldable pub validate_target : String → String → Expr → Result (Unit {0})
unfolding is_lvalue is_readonly
validate_target non_lvalue read_only e = do
  lvalue ← is_lvalue e
  throw_if (not lvalue) (invalid non_lvalue)
  fixed ← is_readonly e
  throw_if fixed (invalid read_only)

unfoldable pub validate_clear : Expr → Result (Unit {0})
unfolding validate_target
validate_clear rhs =
    validate_target "invalid clear of non-lvalue expression" "invalid clear of read-only expression"
      rhs

unfoldable pub validate_undefine : Expr → Result (Unit {0})
unfolding validate_target
validate_undefine rhs =
    validate_target "invalid undefine of non-lvalue expression"
      "invalid undefine of read-only expression" rhs

-- of `IfClause` and of `While`
unfoldable pub validate_condition : String → Expr → Result (Unit {0})
unfolding expr_is_boolean
validate_condition message condition = do
  yes' ← expr_is_boolean condition
  throw_if (not yes') (invalid message)

unfoldable pub validate_clause : ExprPtr → Result (Unit {0})
unfolding validate_condition
validate_clause null_expr = ok tt
validate_clause (ptr_expr condition) =
    validate_condition "condition of if clause is not a boolean expression" condition

unfoldable pub validate_put : ExprPtr → Result (Unit {0})
unfolding is_lvalue type type_is_simple
validate_put null_expr = ok tt
validate_put (ptr_expr e) = do
  lvalue ← is_lvalue e
  simple ← (if lvalue then ok true else (do t ← type e; type_is_simple t))
  throw_if (not simple) (invalid "printing a complex non-lvalue is not supported")

module _ (g : Gmp) where
  unfoldable pub validate_assignment : Expr → Expr → Result (Unit {0})
  unfolding validate_target type type_coerces_to
  validate_assignment lhs rhs = do
    validate_target "non-lvalue expression cannot be assigned to"
        "read-only expression cannot be assigned to" lhs
    s ← type lhs
    t ← type rhs
    coerces ← type_coerces_to g s t
    throw_if (not coerces) (invalid "invalid assignment from incompatible type")

  -- the inner loop of `Switch::validate`, over the matches of one case
  unfoldable pub validate_matches : ExprType → Exprs → Result (Unit {0})
  unfolding type type_coerces_to
  validate_matches t nil_exprs = ok tt
  validate_matches t (cons_exprs e es) = do
    s ← type e
    coerces ← type_coerces_to g t s
    throw_if (not coerces) (invalid "expression in case cannot be compared to switch expression")
    validate_matches t es

  unfoldable pub validate_cases : ExprType → SwitchCases → Result (Unit {0})
  unfolding validate_matches
  validate_cases t nil_cases = ok tt
  validate_cases t (cons_cases es _ cs) = do validate_matches t es; validate_cases t cs

  unfoldable pub validate_switch : Expr → SwitchCases → Result (Unit {0})
  unfolding type type_is_simple validate_cases
  validate_switch e cs = do
    t ← type e
    simple ← type_is_simple t
    throw_if (not simple) (invalid "switch expression has complex type")
    validate_cases t cs

  -- the virtual dispatch: other statements have nothing to validate
  unfoldable pub validate_stmt : Stmt → Result (Unit {0})
  unfolding validate_property validate_assignment validate_clear validate_undefine validate_put
      validate_condition validate_switch
  validate_stmt (property_stmt category _ _) = validate_property category
  validate_stmt (assignment lhs rhs) = validate_assignment lhs rhs
  validate_stmt (clear rhs) = validate_clear rhs
  validate_stmt (put _ e) = validate_put e
  validate_stmt (switch e cs) = validate_switch e cs
  validate_stmt (undefine rhs) = validate_undefine rhs
  validate_stmt (while_stmt condition _) =
      validate_condition "condition in while loop is not a boolean expression" condition
  validate_stmt _ = ok tt
