-- ===== src/Examples/Expressions.antt =====
-- Constant expressions.
use rumur.Prelude.{suc, ◌^◌, ◌≡◌, refl, true, false, dec_le}
use rumur.Prelude.Int.{pos, negsuc, neg, ◌*ℤ◌}
use rumur.Prelude.Results.{ok}
use rumur.Ast.{
  Expr, binary, unary, number, arithmetic, mul, add, lsh, div, negative, expr_id, ptr_decl,
  const_decl, null_type, field, null_decl,
}
use rumur.Fold.Shift.{lshift, rshift}
use rumur.Fold.Shift.Laws.{shift_lem, IsFloor}
use rumur.Fold.Dispatch.{constant, class_constant, constant_fold}
use rumur.Fold.Strict.{strict_fold, operator, unary_operator, constant_fold-strict_fold}
use rumur.Fold.Settled.{is_settled, constant_fold-of-constant}
use rumur.Fold.Throws.{is_err, constant_fold-of-not_constant}
use rumur.Examples.Gmp.{gmp, gmp-IsGmp}

-- (3 << 10) / N, where N is the constant -2
abbrev shifted : Expr
shifted =
    binary (arithmetic div) (binary (arithmetic lsh) (number (pos 3)) (number (pos 10)))
      (expr_id "N" (ptr_decl (const_decl "N" (unary negative (number (pos 2))) null_type)))

shifted_value : strict_fold gmp shifted ≡ ok (negsuc 1535)
unfolding strict_fold operator unary_operator neg lshift dec_le ◌*ℤ◌
shifted_value = refl

constant_fold-strict_fold_example : constant_fold gmp shifted ≡ ok (negsuc 1535)
constant_fold-strict_fold_example =
    constant_fold-strict_fold gmp gmp-IsGmp shifted (negsuc 1535) shifted_value

-- 0 * r.f, where only the zero is constant
abbrev absorbed : Expr
absorbed = binary (arithmetic mul) (number (pos 0)) (field (expr_id "r" null_decl) "f")

absorbed_constant : constant gmp absorbed ≡ true
unfolding constant class_constant
absorbed_constant = refl

constant_fold-of-constant_example : is_settled (constant_fold gmp absorbed) ≡ true
constant_fold-of-constant_example =
    constant_fold-of-constant gmp absorbed (tt, tt, tt) absorbed_constant

-- 1 + r.f
abbrev unknown : Expr
unknown = binary (arithmetic add) (number (pos 1)) (field (expr_id "r" null_decl) "f")

unknown_constant : constant gmp unknown ≡ false
unfolding constant class_constant
unknown_constant = refl

constant_fold-of-not_constant_example : is_err (constant_fold gmp unknown) ≡ true
constant_fold-of-not_constant_example = constant_fold-of-not_constant gmp unknown unknown_constant

shift_lem_example :
    (lshift gmp (negsuc 4) (pos 9) ≡ negsuc 4 *ℤ pos (2 ^ 9))
    × (rshift gmp (negsuc 4) (negsuc 9) ≡ negsuc 4 *ℤ pos (2 ^ suc 9))
    × IsFloor (rshift gmp (negsuc 4) (pos 9)) (negsuc 4) (2 ^ 9)
    × IsFloor (lshift gmp (negsuc 4) (negsuc 9)) (negsuc 4) (2 ^ suc 9)
shift_lem_example = shift_lem gmp gmp-IsGmp (negsuc 4) 9
