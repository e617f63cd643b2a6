-- ===== src/Fold/Throws.antt =====
-- What `constant_fold` does where `constant` is not true.
use rumur.Prelude.{Bool, true, false, ◌≡◌, refl, arith}
use rumur.Prelude.Int.{ℤ}
use rumur.Prelude.Results.{Result, err, abort}
use rumur.Ast.{
  BinaryExpr, comparison, lt, equatable, eq, UnaryExpr, negative, bnot, is_undefined, Expr, ternary,
  binary, unary, expr_id, exists, forall, number, ptr_decl, alias_decl, const_decl, var_decl,
  null_decl,
}
use rumur.Gmp.{Gmp}
use rumur.Fold.Operand.{Operand}
use rumur.Fold.Boolean.{ternary_constant, ternary_constant_fold, not_constant_fold}
use rumur.Fold.Arithmetic.{negative_constant_fold, bnot_constant_fold}
use rumur.Fold.Dispatch.{class_constant, class_constant_fold, constant, constant_fold}

abbrev pub is_err : Result ℤ → Bool
is_err (err e) = true
is_err _ = false

abbrev is_abort : Result ℤ → Bool
is_abort abort = true
is_abort _ = false

-- A fold never aborts, and throws where the operand is not constant.
abbrev Throws : Operand → Type 0
Throws e = (is_abort e.fold ≡ false) × (e.constant ≡ false → is_err e.fold ≡ true)

abbrev operand : Gmp → Expr → Operand
operand g e = record { constant = constant g e; fold = constant_fold g e }

module _ (g : Gmp) where
  class-Throws :
      (op : BinaryExpr) (l r : Operand)
      → Throws l
      → Throws r
      → (is_abort (class_constant_fold g op l r) ≡ false)
        × (class_constant op l r ≡ false → is_err (class_constant_fold g op l r) ≡ true)
  unfolding class_constant class_constant_fold
  class-Throws (comparison lt) l r hl hr = (ground arith, λ h. ground arith)
  class-Throws (equatable eq) l r hl hr = (ground arith, λ h. ground arith)
  class-Throws op l r hl hr = (ground arith, λ h. ground arith)

  ternary-Throws :
      (c l r : Operand)
      → Throws c
      → Throws l
      → Throws r
      → (is_abort (ternary_constant_fold c l r) ≡ false)
        × (ternary_constant c l r ≡ false → is_err (ternary_constant_fold c l r) ≡ true)
  unfolding ternary_constant ternary_constant_fold
  ternary-Throws c l r hc hl hr = (ground arith, λ h. ground arith)

  not-Throws : (e : Operand) → Throws e → Throws (record e { fold = not_constant_fold e })
  unfolding not_constant_fold
  not-Throws e h = (ground arith, λ c. ground arith)

  negative-Throws : (e : Operand) → Throws e → Throws (record e { fold = negative_constant_fold e })
  unfolding negative_constant_fold
  negative-Throws e h = (ground arith, λ c. ground arith)

  bnot-Throws : (e : Operand) → Throws e → Throws (record e { fold = bnot_constant_fold g e })
  unfolding bnot_constant_fold
  bnot-Throws e h = (ground arith, λ c. ground arith)

  operand-Throws : (e : Expr) → Throws (operand g e)
  unfolding constant
  operand-Throws (ternary c l r) =
      ternary-Throws (operand g c) (operand g l) (operand g r) (operand-Throws c) (operand-Throws l)
        (operand-Throws r)
  operand-Throws (binary op l r) =
      class-Throws op (operand g l) (operand g r) (operand-Throws l) (operand-Throws r)
  operand-Throws (unary UnaryExpr.not e) = not-Throws (operand g e) (operand-Throws e)
  operand-Throws (unary negative e) = negative-Throws (operand g e) (operand-Throws e)
  operand-Throws (unary bnot e) = bnot-Throws (operand g e) (operand-Throws e)
  operand-Throws (unary is_undefined e) = (refl, λ h. refl)
  operand-Throws (expr_id _ (ptr_decl (const_decl _ v _))) = ((operand-Throws v).0, λ h. cc)
  operand-Throws (expr_id _ (ptr_decl (alias_decl _ v))) = operand-Throws v
  operand-Throws (expr_id _ (ptr_decl (var_decl _))) = (refl, λ h. refl)
  operand-Throws (expr_id _ null_decl) = (refl, λ h. refl)
  operand-Throws (number _) = (refl, λ h. cc)
  operand-Throws (exists _ e) = (refl, λ h. refl)
  operand-Throws (forall _ e) = (refl, λ h. refl)
  operand-Throws _ = (refl, λ h. refl)

  -- Of an expression that `constant` does not accept, `constant_fold` throws an error: it returns
  -- no value and does not abort.
  pub constant_fold-of-not_constant :
      (e : Expr) → constant g e ≡ false → is_err (constant_fold g e) ≡ true
  constant_fold-of-not_constant e h = (operand-Throws e).1 h
