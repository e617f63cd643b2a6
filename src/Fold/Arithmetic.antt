-- ===== src/Fold/Arithmetic.antt =====
-- `constant` and `constant_fold` of the arithmetic classes and of Negative and Bnot.
use rumur.Prelude.{Bool, if◌then◌else◌, ◌||◌}
use rumur.Prelude.Int.{ℤ, pos, ◌+ℤ◌, ◌-ℤ◌, ◌*ℤ◌, neg}
use rumur.Prelude.Results.{Result, ok, err, division_by_zero, mod_by_zero, ◌>>=◌}
use rumur.Gmp.{Gmp}
use rumur.Fold.Operand.{Operand, folds_to, is_zero}
use rumur.Fold.Boolean.{binary_constant}
use rumur.Fold.Shift.{lshift, rshift}

unfoldable pub add_constant_fold : Operand → Operand → Result ℤ
add_constant_fold lhs rhs = do ok ((← lhs.fold) +ℤ (← rhs.fold))

unfoldable pub sub_constant_fold : Operand → Operand → Result ℤ
sub_constant_fold lhs rhs = do ok ((← lhs.fold) -ℤ (← rhs.fold))

unfoldable pub negative_constant_fold : Operand → Result ℤ
negative_constant_fold rhs = do ok (neg (← rhs.fold))

unfoldable pub mul_constant : Operand → Operand → Bool
unfolding folds_to
mul_constant lhs rhs = binary_constant lhs rhs || folds_to is_zero lhs || folds_to is_zero rhs

unfoldable pub mul_constant_fold : Operand → Operand → Result ℤ
unfolding folds_to
mul_constant_fold lhs rhs =
    if folds_to is_zero lhs
    then ok (pos 0)
    else if folds_to is_zero rhs
    then ok (pos 0)
    else do ok ((← lhs.fold) *ℤ (← rhs.fold))

unfoldable pub div_constant : Operand → Operand → Bool
unfolding folds_to
div_constant lhs rhs = binary_constant lhs rhs || folds_to is_zero lhs

unfoldable pub div_constant_fold : Gmp → Operand → Operand → Result ℤ
unfolding folds_to
div_constant_fold g lhs rhs = if folds_to is_zero lhs then ok (pos 0) else do
  a ← lhs.fold
  b ← rhs.fold
  if is_zero b then err (division_by_zero a b) else ok (g.tdiv_q a b)

unfoldable pub mod_constant : Operand → Operand → Bool
unfolding folds_to
mod_constant lhs rhs = binary_constant lhs rhs || folds_to is_zero lhs

unfoldable pub mod_constant_fold : Gmp → Operand → Operand → Result ℤ
unfolding folds_to
mod_constant_fold g lhs rhs = if folds_to is_zero lhs then ok (pos 0) else do
  a ← lhs.fold
  b ← rhs.fold
  if is_zero b then err (mod_by_zero a b) else ok (g.tdiv_r a b)

unfoldable pub lsh_constant : Operand → Operand → Bool
unfolding folds_to
lsh_constant lhs rhs = binary_constant lhs rhs || folds_to is_zero lhs

unfoldable pub lsh_constant_fold : Gmp → Operand → Operand → Result ℤ
unfolding folds_to
lsh_constant_fold g lhs rhs =
    if folds_to is_zero lhs then ok (pos 0) else do a ← lhs.fold; b ← rhs.fold; ok (lshift g a b)

unfoldable pub rsh_constant : Operand → Operand → Bool
unfolding folds_to
rsh_constant lhs rhs = binary_constant lhs rhs || folds_to is_zero lhs

unfoldable pub rsh_constant_fold : Gmp → Operand → Operand → Result ℤ
unfolding folds_to
rsh_constant_fold g lhs rhs =
    if folds_to is_zero lhs then ok (pos 0) else do a ← lhs.fold; b ← rhs.fold; ok (rshift g a b)

unfoldable pub band_constant : Operand → Operand → Bool
unfolding folds_to
band_constant lhs rhs = binary_constant lhs rhs || folds_to is_zero lhs || folds_to is_zero rhs

unfoldable pub band_constant_fold : Gmp → Operand → Operand → Result ℤ
unfolding folds_to
band_constant_fold g lhs rhs =
    if folds_to is_zero lhs
    then ok (pos 0)
    else if folds_to is_zero rhs
    then ok (pos 0)
    else do ok (g.and (← lhs.fold) (← rhs.fold))

unfoldable pub bor_constant_fold : Gmp → Operand → Operand → Result ℤ
bor_constant_fold g lhs rhs = do ok (g.ior (← lhs.fold) (← rhs.fold))

unfoldable pub xor_constant_fold : Gmp → Operand → Operand → Result ℤ
xor_constant_fold g lhs rhs = do ok (g.xor (← lhs.fold) (← rhs.fold))

unfoldable pub bnot_constant_fold : Gmp → Operand → Result ℤ
bnot_constant_fold g rhs = do ok (g.complement (← rhs.fold))
