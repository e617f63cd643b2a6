-- ===== src/Fold/Dispatch.antt =====
-- `Expr::constant` and `Expr::constant_fold` over the whole tree: the virtual dispatch.
use rumur.Prelude.{Bool, true, false}
use rumur.Prelude.Int.{ℤ}
use rumur.Prelude.Results.{
  Result, ok, err, unresolved_ampersand, unresolved_pipe, not_a_constant, field_in_constant,
  element_in_constant, call_in_constant, quantified_in_constant, ismember_in_constant,
  isundefined_in_constant,
}
use rumur.Ast.{
  BinaryExpr, boolean, implication, or, and, comparison, equatable, arithmetic, ambiguous_amp,
  ambiguous_pipe, add, sub, mul, div, modulo, lsh, rsh, band, bor, xor, UnaryExpr, negative, bnot,
  is_undefined, Expr, ternary, binary, unary, expr_id, field, element, function_call, exists,
  forall, is_member, number, ptr_decl, alias_decl, const_decl, var_decl, null_decl,
}
use rumur.Gmp.{Gmp}
use rumur.Fold.Operand.{Operand}
use rumur.Fold.Boolean.{
  binary_constant, ternary_constant, ternary_constant_fold, implication_constant,
  implication_constant_fold, or_constant, or_constant_fold, and_constant, and_constant_fold,
  not_constant_fold, comparison_constant_fold, equatable_constant_fold,
}
use rumur.Fold.Arithmetic.{
  add_constant_fold, sub_constant_fold, negative_constant_fold, mul_constant, mul_constant_fold,
  div_constant, div_constant_fold, mod_constant, mod_constant_fold, lsh_constant, lsh_constant_fold,
  rsh_constant, rsh_constant_fold, band_constant, band_constant_fold, bor_constant_fold,
  xor_constant_fold, bnot_constant_fold,
}

-- `constant` of the classes below `BinaryExpr`; a class that does not override it has that of
-- `BinaryExpr`.
unfoldable pub class_constant : BinaryExpr → Operand → Operand → Bool
unfolding implication_constant or_constant and_constant mul_constant div_constant mod_constant
    lsh_constant rsh_constant band_constant
class_constant (boolean implication) l r = implication_constant l r
class_constant (boolean or) l r = or_constant l r
class_constant (boolean and) l r = and_constant l r
class_constant (arithmetic mul) l r = mul_constant l r
class_constant (arithmetic div) l r = div_constant l r
class_constant (arithmetic modulo) l r = mod_constant l r
class_constant (arithmetic lsh) l r = lsh_constant l r
class_constant (arithmetic rsh) l r = rsh_constant l r
class_constant (arithmetic band) l r = band_constant l r
class_constant _ l r = binary_constant l r

unfoldable pub class_constant_fold : Gmp → BinaryExpr → Operand → Operand → Result ℤ
unfolding implication_constant_fold or_constant_fold and_constant_fold comparison_constant_fold
    equatable_constant_fold add_constant_fold sub_constant_fold mul_constant_fold div_constant_fold
    mod_constant_fold lsh_constant_fold rsh_constant_fold band_constant_fold bor_constant_fold
    xor_constant_fold
class_constant_fold g (boolean implication) l r = implication_constant_fold l r
class_constant_fold g (boolean or) l r = or_constant_fold l r
class_constant_fold g (boolean and) l r = and_constant_fold l r
class_constant_fold g (comparison c) l r = comparison_constant_fold c l r
class_constant_fold g (equatable c) l r = equatable_constant_fold c l r
class_constant_fold g (arithmetic add) l r = add_constant_fold l r
class_constant_fold g (arithmetic sub) l r = sub_constant_fold l r
class_constant_fold g (arithmetic mul) l r = mul_constant_fold l r
class_constant_fold g (arithmetic div) l r = div_constant_fold g l r
class_constant_fold g (arithmetic modulo) l r = mod_constant_fold g l r
class_constant_fold g (arithmetic lsh) l r = lsh_constant_fold g l r
class_constant_fold g (arithmetic rsh) l r = rsh_constant_fold g l r
class_constant_fold g (arithmetic band) l r = band_constant_fold g l r
class_constant_fold g (arithmetic bor) l r = bor_constant_fold g l r
class_constant_fold g (arithmetic xor) l r = xor_constant_fold g l r
class_constant_fold g ambiguous_amp l r = err unresolved_ampersand
class_constant_fold g ambiguous_pipe l r = err unresolved_pipe

module _ (g : Gmp) where
  unfoldable mutual
    pub constant : Expr → Bool
    constant (ternary c l r) =
        ternary_constant (record { constant = constant c; fold = constant_fold c })
          (record { constant = constant l; fold = constant_fold l })
          (record { constant = constant r; fold = constant_fold r })
    constant (binary op l r) =
        class_constant op (record { constant = constant l; fold = constant_fold l })
          (record { constant = constant r; fold = constant_fold r })
    constant (unary is_undefined e) = false
    constant (unary _ e) = constant e
    constant (expr_id id (ptr_decl (const_decl _ v _))) = true
    constant (expr_id id (ptr_decl (alias_decl _ v))) = constant v
    constant (exists _ e) = constant e
    constant (forall _ e) = constant e
    constant (number _) = true
    constant _ = false

    pub constant_fold : Expr → Result ℤ
    constant_fold (ternary c l r) =
        ternary_constant_fold (record { constant = constant c; fold = constant_fold c })
          (record { constant = constant l; fold = constant_fold l })
          (record { constant = constant r; fold = constant_fold r })
    constant_fold (binary op l r) =
        class_constant_fold g op (record { constant = constant l; fold = constant_fold l })
          (record { constant = constant r; fold = constant_fold r })
    constant_fold (unary UnaryExpr.not e) =
        not_constant_fold (record { constant = constant e; fold = constant_fold e })
    constant_fold (unary negative e) =
        negative_constant_fold (record { constant = constant e; fold = constant_fold e })
    constant_fold (unary bnot e) =
        bnot_constant_fold g (record { constant = constant e; fold = constant_fold e })
    constant_fold (unary is_undefined e) = err isundefined_in_constant
    constant_fold (expr_id id (ptr_decl (const_decl _ v _))) = constant_fold v
    constant_fold (expr_id id (ptr_decl (alias_decl _ v))) = constant_fold v
    constant_fold (expr_id id (ptr_decl (var_decl _))) = err (not_a_constant id)
    constant_fold (expr_id id null_decl) = err (not_a_constant id)
    constant_fold (field _ _) = err field_in_constant
    constant_fold (element _ _) = err element_in_constant
    constant_fold (function_call _ _ _ _) = err call_in_constant
    constant_fold (exists _ _) = err quantified_in_constant
    constant_fold (forall _ _) = err quantified_in_constant
    constant_fold (is_member _ _) = err ismember_in_constant
    constant_fold (number v) = ok v
