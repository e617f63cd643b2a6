-- ===== src/Fold/Strict.antt =====
-- The meaning of a constant expression with no short cuts, and that the folder agrees with it.
use rumur.Prelude.{Bool, true, false, if◌then◌else◌, not, ◌≡◌, arith}
use rumur.Prelude.Int.{ℤ, pos, ◌+ℤ◌, ◌-ℤ◌, ◌*ℤ◌, neg, ltb_ℤ, leb_ℤ, ◌==ℤ◌}
use rumur.Prelude.Results.{
  Result, ok, err, ◌>>=◌, >>=-eq-ok, division_by_zero, mod_by_zero, unresolved_ampersand,
  unresolved_pipe, not_a_constant,
}
use rumur.Ast.{
  BinaryExpr, boolean, implication, or, and, comparison, lt, leq, gt, geq, equatable, eq, neq,
  arithmetic, ambiguous_amp, ambiguous_pipe, add, sub, mul, div, modulo, lsh, rsh, band, bor, xor,
  UnaryExpr, negative, bnot, is_undefined, Expr, ternary, binary, unary, expr_id, number, ptr_decl,
  alias_decl, const_decl,
}
use rumur.Gmp.{Gmp, IsGmp}
use rumur.Fold.Operand.{Operand, is_zero, non_zero, of_bool}
use rumur.Fold.Shift.{lshift, rshift}
use rumur.Fold.Shift.Laws.{shift_zero}
use rumur.Fold.Boolean.{ternary_constant_fold, not_constant_fold}
use rumur.Fold.Arithmetic.{negative_constant_fold, bnot_constant_fold}
use rumur.Fold.Dispatch.{class_constant_fold, constant, constant_fold}

-- The operator of a class, on two values.
unfoldable pub operator : Gmp → BinaryExpr → ℤ → ℤ → Result ℤ
operator g (boolean implication) a b = ok (of_bool (if is_zero a then true else non_zero b))
operator g (boolean or) a b = ok (of_bool (if non_zero a then true else non_zero b))
operator g (boolean and) a b = ok (of_bool (if is_zero a then false else non_zero b))
operator g (comparison lt) a b = ok (of_bool (ltb_ℤ a b))
operator g (comparison leq) a b = ok (of_bool (leb_ℤ a b))
operator g (comparison gt) a b = ok (of_bool (ltb_ℤ b a))
operator g (comparison geq) a b = ok (of_bool (leb_ℤ b a))
operator g (equatable eq) a b = ok (of_bool (a ==ℤ b))
operator g (equatable neq) a b = ok (of_bool (not (a ==ℤ b)))
operator g (arithmetic add) a b = ok (a +ℤ b)
operator g (arithmetic sub) a b = ok (a -ℤ b)
operator g (arithmetic mul) a b = ok (a *ℤ b)
operator g (arithmetic div) a b =
    if is_zero b then err (division_by_zero a b) else ok (g.tdiv_q a b)
operator g (arithmetic modulo) a b = if is_zero b then err (mod_by_zero a b) else ok (g.tdiv_r a b)
operator g (arithmetic lsh) a b = ok (lshift g a b)
operator g (arithmetic rsh) a b = ok (rshift g a b)
operator g (arithmetic band) a b = ok (g.and a b)
operator g (arithmetic bor) a b = ok (g.ior a b)
operator g (arithmetic xor) a b = ok (g.xor a b)
operator g ambiguous_amp a b = err unresolved_ampersand
operator g ambiguous_pipe a b = err unresolved_pipe

unfoldable pub unary_operator : Gmp → UnaryExpr → ℤ → Result ℤ
unary_operator g UnaryExpr.not a = ok (of_bool (is_zero a))
unary_operator g negative a = ok (neg a)
unary_operator g bnot a = ok (g.complement a)
unary_operator g is_undefined a = err (not_a_constant "")

-- Every operand is evaluated, but for the branch of a conditional that is not taken.
unfoldable pub strict_fold : Gmp → Expr → Result ℤ
strict_fold g (ternary c l r) = do
  v ← strict_fold g c
  if non_zero v then strict_fold g l else strict_fold g r
strict_fold g (binary op l r) = do operator g op (← strict_fold g l) (← strict_fold g r)
strict_fold g (unary op e) = do unary_operator g op (← strict_fold g e)
strict_fold g (expr_id id (ptr_decl (const_decl _ v _))) = strict_fold g v
strict_fold g (expr_id id (ptr_decl (alias_decl _ v))) = strict_fold g v
strict_fold g (number v) = ok v
strict_fold g _ = err (not_a_constant "")

*ℤ_zero_left : (b : ℤ) → pos 0 *ℤ b ≡ pos 0
unfolding ◌*ℤ◌
*ℤ_zero_left b = ground arith

*ℤ_zero_right : (a : ℤ) → a *ℤ pos 0 ≡ pos 0
unfolding ◌*ℤ◌
*ℤ_zero_right a = ground arith

if_agree :
    {x y x' y' : Result ℤ} {v : ℤ} (b : Bool)
    → (x ≡ ok v → x' ≡ ok v)
    → (y ≡ ok v → y' ≡ ok v)
    → (if b then x else y) ≡ ok v
    → (if b then x' else y') ≡ ok v
if_agree true f g h = f h
if_agree false f g h = g h

module _ (g : Gmp) (laws : IsGmp g) where
  -- On operands that have values, a class computes its operator.
  class_constant_fold-operator :
      (op : BinaryExpr) (l r : Operand) (a b v : ℤ)
      → l.fold ≡ ok a
      → r.fold ≡ ok b
      → operator g op a b ≡ ok v
      → class_constant_fold g op l r ≡ ok v
  unfolding class_constant_fold operator
  class_constant_fold-operator (arithmetic mul) l r a b v hl hr h =
      ground (arith, *ℤ_zero_left b, *ℤ_zero_right a)
  class_constant_fold-operator (arithmetic div) l r a b v hl hr h =
      ground (arith, laws.tdiv_q_zero b)
  class_constant_fold-operator (arithmetic modulo) l r a b v hl hr h =
      ground (arith, laws.tdiv_r_zero b)
  class_constant_fold-operator (arithmetic lsh) l r a b v hl hr h =
      ground (arith, shift_zero g laws b)
  class_constant_fold-operator (arithmetic rsh) l r a b v hl hr h =
      ground (arith, shift_zero g laws b)
  class_constant_fold-operator (arithmetic band) l r a b v hl hr h =
      ground (arith, laws.and_zero_left b, laws.and_zero_right a)
  class_constant_fold-operator op l r a b v hl hr h = ground arith

  -- Where the expression has a value without short cuts, the folder returns that value.
  pub constant_fold-strict_fold :
      (e : Expr) (v : ℤ) → strict_fold g e ≡ ok v → constant_fold g e ≡ ok v
  unfolding constant strict_fold ternary_constant_fold not_constant_fold negative_constant_fold
      bnot_constant_fold unary_operator
  constant_fold-strict_fold (ternary c l r) v h =
      let (a, p, q) = >>=-eq-ok (strict_fold g c) _ h in
      rw (constant_fold-strict_fold c a p)
        (if_agree (non_zero a) (constant_fold-strict_fold l v) (constant_fold-strict_fold r v) q)
  constant_fold-strict_fold (binary op l r) v h =
      let (a, p, q) = >>=-eq-ok (strict_fold g l) _ h in
      let (b, p', q') = >>=-eq-ok (strict_fold g r) _ q in
      class_constant_fold-operator op _ _ a b v (constant_fold-strict_fold l a p)
        (constant_fold-strict_fold r b p') q'
  constant_fold-strict_fold (unary UnaryExpr.not e) v h =
      let (a, p, q) = >>=-eq-ok (strict_fold g e) _ h in rw (constant_fold-strict_fold e a p) q
  constant_fold-strict_fold (unary negative e) v h =
      let (a, p, q) = >>=-eq-ok (strict_fold g e) _ h in rw (constant_fold-strict_fold e a p) q
  constant_fold-strict_fold (unary bnot e) v h =
      let (a, p, q) = >>=-eq-ok (strict_fold g e) _ h in rw (constant_fold-strict_fold e a p) q
  constant_fold-strict_fold (unary is_undefined e) v h =
      let (a, p, q) = >>=-eq-ok (strict_fold g e) _ h in cc
  constant_fold-strict_fold (expr_id id (ptr_decl (const_decl _ e _))) v h =
      constant_fold-strict_fold e v h
  constant_fold-strict_fold (expr_id id (ptr_decl (alias_decl _ e))) v h =
      constant_fold-strict_fold e v h
  constant_fold-strict_fold (number _) v h = h
  constant_fold-strict_fold _ v h = cc
