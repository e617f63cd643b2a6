-- ===== src/Fold/Settled.antt =====
-- What `constant` promises of `constant_fold`.
use rumur.Prelude.{Bool, true, false, ◌≡◌, refl, arith}
use rumur.Prelude.Int.{ℤ}
use rumur.Prelude.Results.{Result, ok, err, division_by_zero, mod_by_zero}
use rumur.Ast.{
  BinaryExpr, comparison, lt, ambiguous_amp, ambiguous_pipe, UnaryExpr, negative, bnot, Expr,
  ternary, binary, unary, expr_id, exists, forall, number, ptr_decl, alias_decl, const_decl,
}
use rumur.Gmp.{Gmp}
use rumur.Fold.Operand.{Operand}
use rumur.Fold.Boolean.{ternary_constant, ternary_constant_fold, not_constant_fold}
use rumur.Fold.Arithmetic.{negative_constant_fold, bnot_constant_fold}
use rumur.Fold.Dispatch.{class_constant, class_constant_fold, constant, constant_fold}

-- A value, or the error of a division or a remainder by zero.
abbrev pub is_settled : Result ℤ → Bool
is_settled (ok v) = true
is_settled (err (division_by_zero a b)) = true
is_settled (err (mod_by_zero a b)) = true
is_settled _ = false

abbrev IsResolved : BinaryExpr → Type 0
IsResolved ambiguous_amp = ⊥
IsResolved ambiguous_pipe = ⊥
IsResolved _ = Unit

-- No quantified expression, no unresolved `&` or `|`, and constants whose values are constant (which
-- `ConstDecl::validate` checks).
abbrev pub IsFoldable : Gmp → Expr → Type 0
IsFoldable g (ternary c l r) = IsFoldable g c × IsFoldable g l × IsFoldable g r
IsFoldable g (binary op l r) = IsResolved op × IsFoldable g l × IsFoldable g r
IsFoldable g (unary op e) = IsFoldable g e
IsFoldable g (expr_id id (ptr_decl (const_decl _ v _))) = (constant g v ≡ true) × IsFoldable g v
IsFoldable g (expr_id id (ptr_decl (alias_decl _ v))) = IsFoldable g v
IsFoldable g (exists _ _) = ⊥
IsFoldable g (forall _ _) = ⊥
IsFoldable g _ = Unit

abbrev operand : Gmp → Expr → Operand
operand g e = record { constant = constant g e; fold = constant_fold g e }

abbrev Settles : Operand → Type 0
Settles e = e.constant ≡ true → is_settled e.fold ≡ true

module _ (g : Gmp) where
  class_settled :
      (op : BinaryExpr) (l r : Operand)
      → IsResolved op
      → Settles l
      → Settles r
      → class_constant op l r ≡ true
      → is_settled (class_constant_fold g op l r) ≡ true
  unfolding class_constant class_constant_fold
  class_settled (comparison lt) l r i hl hr h = ground arith
  class_settled op l r i hl hr h = ground arith

  ternary_settled :
      (c l r : Operand)
      → Settles c
      → Settles l
      → Settles r
      → ternary_constant c l r ≡ true
      → is_settled (ternary_constant_fold c l r) ≡ true
  unfolding ternary_constant ternary_constant_fold
  ternary_settled c l r hc hl hr h = ground arith

  not_settled :
      (e : Operand)
      → is_settled e.fold ≡ true
      → (is_settled (not_constant_fold e) ≡ true)
        × (is_settled (negative_constant_fold e) ≡ true)
        × (is_settled (bnot_constant_fold g e) ≡ true)
  unfolding not_constant_fold negative_constant_fold bnot_constant_fold
  not_settled e h = (ground arith, ground arith, ground arith)

  -- Of a foldable expression that `constant` accepts, `constant_fold` returns the value, unless it
  -- throws the error of a division or a remainder by zero.
  pub constant_fold-of-constant :
      (e : Expr) → IsFoldable g e → constant g e ≡ true → is_settled (constant_fold g e) ≡ true
  unfolding constant
  constant_fold-of-constant (ternary c l r) (fc, fl, fr) h =
      ternary_settled _ _ _ (constant_fold-of-constant c fc) (constant_fold-of-constant l fl)
        (constant_fold-of-constant r fr) h
  constant_fold-of-constant (binary op l r) (i, fl, fr) h =
      class_settled op _ _ i (constant_fold-of-constant l fl) (constant_fold-of-constant r fr) h
  constant_fold-of-constant (unary UnaryExpr.not e) f h =
      (not_settled (operand g e) (constant_fold-of-constant e f h)).0
  constant_fold-of-constant (unary negative e) f h =
      (not_settled (operand g e) (constant_fold-of-constant e f h)).1
  constant_fold-of-constant (unary bnot e) f h =
      (not_settled (operand g e) (constant_fold-of-constant e f h)).2
  constant_fold-of-constant (expr_id id (ptr_decl (const_decl _ v _))) (c, f) h =
      constant_fold-of-constant v f c
  constant_fold-of-constant (expr_id id (ptr_decl (alias_decl _ v))) f h =
      constant_fold-of-constant v f h
  constant_fold-of-constant (number _) f h = refl
  constant_fold-of-constant (exists _ e) f h = absurd f
  constant_fold-of-constant (forall _ e) f h = absurd f
  constant_fold-of-constant _ f h = h
