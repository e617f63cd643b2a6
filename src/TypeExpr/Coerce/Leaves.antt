-- ===== src/TypeExpr/Coerce/Leaves.antt =====
-- `coerces_to` in terms of shapes: some alternative of one type agrees with some of the other.
use rumur.Prelude.{
  Bool, true, false, if◌then◌else◌, ◌&&◌, ◌||◌, ◌≡◌, refl, sym, ◌∙◌, ap, subst, arith,
}
use rumur.Prelude.Results.{Result, ok, ◌>>=◌, >>=-eq-ok}
use rumur.Ast.{
  TypeExpr, range, type_expr_id, union, null_type_decl, ptr_type_decl, TypeExprs, nil_types,
  cons_types,
}
use rumur.Gmp.{Gmp}
use rumur.TypeExpr.Resolve.{resolve, is_range}
use rumur.TypeExpr.Equal.{equal}
use rumur.TypeExpr.Equal.Shape.{
  Shape, interval, choice, Shapes, no_shapes, shape_cons, shape, union_shape, shape_equal,
}
use rumur.TypeExpr.Equal.Refines.{equal-shape, shape-Leads, ok_injective}
use rumur.TypeExpr.Coerce.{coerces_from, any_coerces, coerces_onto, coerces_to_any, coerces_to}

abbrev is_interval : Shape → Bool
is_interval (interval _ _) = true
is_interval _ = false

-- Two ranges agree whatever their bounds; other shapes agree if they are equal.
unfoldable pub agree : Shape → Shape → Bool
agree a b = if is_interval a && is_interval b then true else shape_equal a b

-- whether some alternative of a shape, through nested unions, passes a test
unfoldable mutual
  pub any_leaf : (Shape → Bool) → Shape → Bool
  any_leaf p (choice ss) = any_leaves p ss
  any_leaf p (interval a b) = p (interval a b)
  any_leaf p s = p s

  pub any_leaves : (Shape → Bool) → Shapes → Bool
  any_leaves p no_shapes = false
  any_leaves p (shape_cons s ss) = any_leaf p s || any_leaves p ss

unfoldable pub shape_coerces : Shape → Shape → Bool
unfolding any_leaf
shape_coerces s1 s2 = any_leaf (λ b. any_leaf (λ a. agree a b) s1) s2

-- neither a name nor a union
abbrev is_plain : TypeExpr → Bool
is_plain (type_expr_id _ _) = false
is_plain (union _) = false
is_plain _ = true

ok_if : (b c : Bool) → (if b then ok true else ok c) ≡ ok (if b then true else c)
ok_if true c = refl
ok_if false c = refl

-- a short-circuiting search, one step
or_step :
    {x r : Result Bool} {b c : Bool}
    → x ≡ ok b
    → r ≡ ok c
    → (x >>= λ y. if y then ok true else r) ≡ ok (b || c)
or_step p q = ground arith

module _ (g : Gmp) where
  resolve_plain : (t : TypeExpr) → is_plain t ≡ true → resolve t ≡ ok t
  unfolding resolve
  resolve_plain (type_expr_id _ _) h = cc
  resolve_plain (range _ _) h = refl
  resolve_plain t h = refl

  is_range-shape :
      (t : TypeExpr) (s : Shape) → is_plain t ≡ true → shape g t ≡ ok s → is_range t ≡ is_interval s
  is_range-shape t (interval a b) k h = ground (arith, shape-Leads g t _ h, resolve_plain t k)
  is_range-shape t s k h = ground (arith, shape-Leads g t s h, resolve_plain t k)

  any_leaf-plain :
      (p : Shape → Bool) (t : TypeExpr) (s : Shape)
      → is_plain t ≡ true
      → shape g t ≡ ok s
      → any_leaf p s ≡ p s
  unfolding any_leaf
  any_leaf-plain p t (choice ss) k h = ground (arith, shape-Leads g t _ h, resolve_plain t k)
  any_leaf-plain p t (interval _ _) k h = refl
  any_leaf-plain p t _ k h = refl

  equal-agree :
      (t1 t2 : TypeExpr) (s1 s2 : Shape)
      → is_plain t1 ≡ true
      → is_plain t2 ≡ true
      → shape g t1 ≡ ok s1
      → shape g t2 ≡ ok s2
      → (if is_range t1 && is_range t2 then ok true else equal g t1 t2)
        ≡ ok (any_leaf (λ a. agree a s2) s1)
  unfolding agree
  equal-agree t1 t2 s1 s2 k1 k2 h1 h2 =
      rw
        (
          any_leaf-plain (λ a. agree a s2) t1 s1 k1 h1,
          is_range-shape t1 s1 k1 h1,
          is_range-shape t2 s2 k2 h2,
          equal-shape g t1 t2 s1 s2 h1 h2,
        )
        (ok_if (is_interval s1 && is_interval s2) (shape_equal s1 s2))

  mutual
    unfolding coerces_from shape any_leaf

    coerces_from-shape :
        (t1 t2 : TypeExpr) (s1 s2 : Shape)
        → is_plain t2 ≡ true
        → shape g t1 ≡ ok s1
        → shape g t2 ≡ ok s2
        → coerces_from g t1 t2 ≡ ok (any_leaf (λ a. agree a s2) s1)
    coerces_from-shape (range min max) t2 s1 s2 k h1 h2 =
        equal-agree (range min max) t2 s1 s2 refl k h1 h2
    coerces_from-shape (type_expr_id _ (ptr_type_decl _ t)) t2 s1 s2 k h1 h2 =
        coerces_from-shape t t2 s1 s2 k h1 h2
    coerces_from-shape (type_expr_id _ null_type_decl) t2 s1 s2 k h1 h2 = cc
    coerces_from-shape (union ms) t2 s1 s2 k h1 h2 =
        let (ss, p, e) = >>=-eq-ok (union_shape g ms) _ h1 in
        subst (λ s. coerces_from g (union ms) t2 ≡ ok (any_leaf (λ a. agree a s2) s))
          (ok_injective e) (any_coerces-shape ms t2 ss s2 k p h2)
    coerces_from-shape t1 t2 s1 s2 k h1 h2 = equal-agree t1 t2 s1 s2 refl k h1 h2

    any_coerces-shape :
        (ms : TypeExprs) (t2 : TypeExpr) (ss : Shapes) (s2 : Shape)
        → is_plain t2 ≡ true
        → union_shape g ms ≡ ok ss
        → shape g t2 ≡ ok s2
        → any_coerces g ms t2 ≡ ok (any_leaves (λ a. agree a s2) ss)
    any_coerces-shape nil_types t2 ss s2 k h1 h2 = ground arith
    any_coerces-shape (cons_types m ms) t2 ss s2 k h1 h2 =
        let (x, p, r) = >>=-eq-ok (shape g m) _ h1 in
        let (xs, q, e) = >>=-eq-ok (union_shape g ms) _ r in
        subst (λ s. any_coerces g (cons_types m ms) t2 ≡ ok (any_leaves (λ a. agree a s2) s))
          (ok_injective e)
          (or_step (coerces_from-shape m t2 x s2 k p h2) (any_coerces-shape ms t2 xs s2 k q h2))

  mutual
    unfolding coerces_onto shape shape_coerces

    coerces_onto-shape :
        (t1 t2 : TypeExpr) (s1 s2 : Shape)
        → shape g t1 ≡ ok s1
        → shape g t2 ≡ ok s2
        → coerces_onto g t1 t2 ≡ ok (shape_coerces s1 s2)
    coerces_onto-shape t1 (type_expr_id _ (ptr_type_decl _ t)) s1 s2 h1 h2 =
        coerces_onto-shape t1 t s1 s2 h1 h2
    coerces_onto-shape t1 (type_expr_id _ null_type_decl) s1 s2 h1 h2 = cc
    coerces_onto-shape t1 (union ms) s1 s2 h1 h2 =
        let (ss, p, e) = >>=-eq-ok (union_shape g ms) _ h2 in
        subst (λ s. coerces_onto g t1 (union ms) ≡ ok (shape_coerces s1 s)) (ok_injective e)
          (coerces_to_any-shape t1 ms s1 ss h1 p)
    coerces_onto-shape t1 t2 s1 s2 h1 h2 =
        coerces_from-shape t1 t2 s1 s2 refl h1 h2
        ∙ ap ok (sym (any_leaf-plain (λ b. any_leaf (λ a. agree a b) s1) t2 s2 refl h2))

    coerces_to_any-shape :
        (t1 : TypeExpr) (ms : TypeExprs) (s1 : Shape) (ss : Shapes)
        → shape g t1 ≡ ok s1
        → union_shape g ms ≡ ok ss
        → coerces_to_any g t1 ms ≡ ok (any_leaves (λ b. any_leaf (λ a. agree a b) s1) ss)
    coerces_to_any-shape t1 nil_types s1 ss h1 h2 = ground arith
    coerces_to_any-shape t1 (cons_types m ms) s1 ss h1 h2 =
        let (x, p, r) = >>=-eq-ok (shape g m) _ h2 in
        let (xs, q, e) = >>=-eq-ok (union_shape g ms) _ r in
        subst
          (λ s.
            coerces_to_any g t1 (cons_types m ms)
            ≡ ok (any_leaves (λ b. any_leaf (λ a. agree a b) s1) s))
          (ok_injective e)
          (or_step (coerces_onto-shape t1 m s1 x h1 p) (coerces_to_any-shape t1 ms s1 xs h1 q))

  resolve-shape :
      (t : TypeExpr) (s : Shape)
      → shape g t ≡ ok s
      → (u : TypeExpr) × (resolve t ≡ ok u) × (shape g u ≡ ok s)
  unfolding resolve shape
  resolve-shape (type_expr_id _ (ptr_type_decl _ t)) s h = resolve-shape t s h
  resolve-shape (type_expr_id _ null_type_decl) s h = cc
  resolve-shape t s h = (t, refl, h)

  -- On types whose names resolve and whose bounds fold, `coerces_to` returns, and its result is
  -- whether some alternative of the one and some of the other are both ranges or have one shape.
  pub coerces_to-shape :
      (t1 t2 : TypeExpr) (s1 s2 : Shape)
      → shape g t1 ≡ ok s1
      → shape g t2 ≡ ok s2
      → coerces_to g t1 t2 ≡ ok (shape_coerces s1 s2)
  unfolding coerces_to
  coerces_to-shape t1 t2 s1 s2 h1 h2 =
      let (u, e, h) = resolve-shape t1 s1 h1 in rw e (coerces_onto-shape u t2 s1 s2 h h2)
