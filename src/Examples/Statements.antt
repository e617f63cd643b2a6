-- ===== src/Examples/Statements.antt =====
-- Expressions that denote variables, and statements that write them.
use rumur.Prelude.{◌≡◌, ◌↔◌, refl, false}
use rumur.Prelude.Int.{pos}
use rumur.Prelude.Results.{ok}
use rumur.Ast.{
  Expr, expr_id, element, const_decl, ptr_type, number, ptr_decl, alias_decl, var_decl, VarDecl,
  var, cons_exprs, nil_exprs, SwitchCases, nil_cases, cons_cases, nil_stmts,
}
use rumur.Expr.Access.{validate_element}
use rumur.Expr.Root.{IsResolved}
use rumur.Stmt.{validate_assignment}
use rumur.Stmt.Target.{IsWritable, IsCompatible, validate_assignment_iff}
use rumur.TypeExpr.Equal.{equal}
use rumur.Examples.Gmp.{gmp}
use rumur.Examples.Types.{table1, player, ab}

abbrev scores : VarDecl
scores = var "scores" table1 (pos 0) false

-- `board`, an alias of the table, and one of its elements
abbrev board : Expr
board =
    expr_id "board" (ptr_decl (alias_decl "board" (expr_id "scores" (ptr_decl (var_decl scores)))))

abbrev score : Expr
score = element board (number (pos 0))

score-IsResolved : IsResolved score
unfolding IsResolved
score-IsResolved = tt

validate_assignment_iff_example :
    (validate_assignment gmp score (number (pos 7)) ≡ ok tt)
    ↔ (IsWritable score × IsCompatible gmp score (number (pos 7)))
validate_assignment_iff_example =
    validate_assignment_iff gmp score (number (pos 7)) score-IsResolved

abbrev cases : SwitchCases
cases =
    cons_cases (cons_exprs (number (pos 1)) (cons_exprs (number (pos 2)) nil_exprs)) nil_stmts
      nil_cases

-- The assignment is accepted.
score-assigned : validate_assignment gmp score (number (pos 7)) ≡ ok tt
unfolding validate_assignment
score-assigned = refl

abbrev player_var : Expr
player_var = expr_id "p" (ptr_decl (var_decl (var "p" player (pos 0) false)))

score-validated :
    validate_element gmp board
      (expr_id "a" (ptr_decl (const_decl "a" (number (pos 0)) (ptr_type ab))))
    ≡ ok tt
unfolding validate_element equal
score-validated = refl
