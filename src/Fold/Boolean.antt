-- ===== src/Fold/Boolean.antt =====
-- `constant` and `constant_fold` of the classes with boolean results, and of Ternary. `lhs` and `rhs`
-- stand for the operands' own `constant` and `constant_fold`.
use rumur.Prelude.{Bool, if◌then◌else◌, ◌&&◌, ◌||◌, not, true, false}
use rumur.Prelude.Int.{ℤ, ltb_ℤ, leb_ℤ, ◌==ℤ◌}
use rumur.Prelude.Results.{Result, ok, ◌>>=◌}
use rumur.Ast.{ComparisonBinaryExpr, lt, leq, gt, geq, EquatableBinaryExpr, eq, neq}
use rumur.Fold.Operand.{Operand, folds_to, is_zero, non_zero, of_bool}

unfoldable pub ternary_constant : Operand → Operand → Operand → Bool
ternary_constant cond lhs rhs = cond.constant && elim cond.fold [
  | ok condition ↦ if non_zero condition then lhs.constant else rhs.constant
  | _ ↦ false
]

unfoldable pub ternary_constant_fold : Operand → Operand → Operand → Result ℤ
ternary_constant_fold cond lhs rhs = do
  condition ← cond.fold
  if non_zero condition then lhs.fold else rhs.fold

-- `BinaryExpr::constant`
abbrev pub binary_constant : Operand → Operand → Bool
binary_constant lhs rhs = lhs.constant && rhs.constant

unfoldable pub implication_constant : Operand → Operand → Bool
unfolding folds_to
implication_constant lhs rhs =
    binary_constant lhs rhs || folds_to is_zero lhs || folds_to non_zero rhs

unfoldable pub implication_constant_fold : Operand → Operand → Result ℤ
unfolding folds_to
implication_constant_fold lhs rhs =
    if folds_to is_zero lhs
    then ok (of_bool true)
    else if folds_to non_zero rhs
    then ok (of_bool true)
    else do
      left ← lhs.fold
      if is_zero left then ok (of_bool true) else do right ← rhs.fold; ok (of_bool (non_zero right))

unfoldable pub or_constant : Operand → Operand → Bool
unfolding folds_to
or_constant lhs rhs = binary_constant lhs rhs || folds_to non_zero lhs || folds_to non_zero rhs

unfoldable pub or_constant_fold : Operand → Operand → Result ℤ
unfolding folds_to
or_constant_fold lhs rhs =
    if folds_to non_zero lhs
    then ok (of_bool true)
    else if folds_to non_zero rhs
    then ok (of_bool true)
    else do
      left ← lhs.fold
      if non_zero left
          then ok (of_bool true)
          else do right ← rhs.fold; ok (of_bool (non_zero right))

unfoldable pub and_constant : Operand → Operand → Bool
unfolding folds_to
and_constant lhs rhs = binary_constant lhs rhs || folds_to is_zero lhs || folds_to is_zero rhs

unfoldable pub and_constant_fold : Operand → Operand → Result ℤ
unfolding folds_to
and_constant_fold lhs rhs =
    if folds_to is_zero lhs
    then ok (of_bool false)
    else if folds_to is_zero rhs
    then ok (of_bool false)
    else do
      left ← lhs.fold
      if is_zero left
          then ok (of_bool false)
          else do right ← rhs.fold; ok (of_bool (non_zero right))

unfoldable pub not_constant_fold : Operand → Result ℤ
not_constant_fold rhs = do right ← rhs.fold; ok (of_bool (is_zero right))

unfoldable pub comparison_constant_fold : ComparisonBinaryExpr → Operand → Operand → Result ℤ
comparison_constant_fold lt lhs rhs = do ok (of_bool (ltb_ℤ (← lhs.fold) (← rhs.fold)))
comparison_constant_fold leq lhs rhs = do ok (of_bool (leb_ℤ (← lhs.fold) (← rhs.fold)))
comparison_constant_fold gt lhs rhs = do a ← lhs.fold; b ← rhs.fold; ok (of_bool (ltb_ℤ b a))
comparison_constant_fold geq lhs rhs = do a ← lhs.fold; b ← rhs.fold; ok (of_bool (leb_ℤ b a))

unfoldable pub equatable_constant_fold : EquatableBinaryExpr → Operand → Operand → Result ℤ
equatable_constant_fold eq lhs rhs = do ok (of_bool ((← lhs.fold) ==ℤ (← rhs.fold)))
equatable_constant_fold neq lhs rhs = do ok (of_bool (not ((← lhs.fold) ==ℤ (← rhs.fold))))
