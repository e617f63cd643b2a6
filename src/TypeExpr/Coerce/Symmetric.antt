-- ===== src/TypeExpr/Coerce/Symmetric.antt =====
-- Whether two types coerce does not depend on which comes first.
use mathlib.Core.Path.{fun_ext}
use rumur.Prelude.{Bool, false, ◌||◌, ◌≡◌, refl, sym, ◌∙◌, ap, ap₂, arith}
use rumur.Prelude.Results.{ok}
use rumur.Ast.{TypeExpr}
use rumur.Gmp.{Gmp}
use rumur.TypeExpr.Equal.Shape.{
  Shape, choice, Shapes, no_shapes, shape_cons, shape, shape_equal_iff,
}
use rumur.TypeExpr.Coerce.{coerces_to}
use rumur.TypeExpr.Coerce.Leaves.{agree, any_leaf, any_leaves, shape_coerces, coerces_to-shape}

agree_comm : (a b : Shape) → agree a b ≡ agree b a
unfolding agree
agree_comm a b = ground (arith, shape_equal_iff a b, shape_equal_iff b a)

mutual
  unfolding any_leaf

  any_leaf-false : (s : Shape) → any_leaf (λ _. false) s ≡ false
  any_leaf-false (choice ss) = any_leaves-false ss
  any_leaf-false s = refl

  any_leaves-false : (ss : Shapes) → any_leaves (λ _. false) ss ≡ false
  any_leaves-false no_shapes = refl
  any_leaves-false (shape_cons s ss) = rw (any_leaf-false s) (any_leaves-false ss)

or_interchange : (a b c d : Bool) → ((a || b) || (c || d)) ≡ ((a || c) || (b || d))
or_interchange a b c d = ground arith

module _ (p q : Shape → Bool) where
  mutual
    unfolding any_leaf

    any_leaf-or : (s : Shape) → any_leaf (λ a. p a || q a) s ≡ (any_leaf p s || any_leaf q s)
    any_leaf-or (choice ss) = any_leaves-or ss
    any_leaf-or s = refl

    any_leaves-or :
        (ss : Shapes) → any_leaves (λ a. p a || q a) ss ≡ (any_leaves p ss || any_leaves q ss)
    any_leaves-or no_shapes = refl
    any_leaves-or (shape_cons s ss) =
        ap₂ ◌||◌ (any_leaf-or s) (any_leaves-or ss)
        ∙ or_interchange (any_leaf p s) (any_leaf q s) (any_leaves p ss) (any_leaves q ss)

module _ (f : Shape → Shape → Bool) where
  mutual
    unfolding any_leaf

    any_leaf-exchange :
        (s1 s2 : Shape)
        → any_leaf (λ b. any_leaf (λ a. f a b) s1) s2 ≡ any_leaf (λ a. any_leaf (λ b. f a b) s2) s1
    any_leaf-exchange s1 (choice ss) = any_leaves-exchange s1 ss
    any_leaf-exchange s1 s2 = refl

    any_leaves-exchange :
        (s1 : Shape) (ss : Shapes)
        → any_leaves (λ b. any_leaf (λ a. f a b) s1) ss
          ≡ any_leaf (λ a. any_leaves (λ b. f a b) ss) s1
    any_leaves-exchange s1 no_shapes = sym (any_leaf-false s1)
    any_leaves-exchange s1 (shape_cons s ss) =
        ap₂ ◌||◌ (any_leaf-exchange s1 s) (any_leaves-exchange s1 ss)
        ∙ sym (any_leaf-or (λ a. any_leaf (λ b. f a b) s) (λ a. any_leaves (λ b. f a b) ss) s1)

shape_coerces_comm : (s1 s2 : Shape) → shape_coerces s1 s2 ≡ shape_coerces s2 s1
unfolding shape_coerces
shape_coerces_comm s1 s2 =
    any_leaf-exchange agree s1 s2
    ∙ ap (λ f. any_leaf (λ a. any_leaf (λ b. f a b) s2) s1)
        (fun_ext λ a. fun_ext λ b. agree_comm a b)

-- Of two types whose names resolve and whose bounds fold, the first coerces to the second exactly
-- when the second coerces to the first.
pub coerces_to_comm :
    (g : Gmp) (t1 t2 : TypeExpr) (s1 s2 : Shape)
    → shape g t1 ≡ ok s1
    → shape g t2 ≡ ok s2
    → coerces_to g t1 t2 ≡ coerces_to g t2 t1
coerces_to_comm g t1 t2 s1 s2 h1 h2 =
    coerces_to-shape g t1 t2 s1 s2 h1 h2
    ∙ ap ok (shape_coerces_comm s1 s2)
    ∙ sym (coerces_to-shape g t2 t1 s2 s1 h2 h1)
