-- ===== src/Expr/Typing/Unbounded.antt =====
-- The range without bounds behaves as every other range does.
use rumur.Prelude.{◌≡◌, refl, sym}
use rumur.Ast.{
  Expr, TypeExpr, range, scalarset, enum, record_type, array, type_expr_id, union, null_type_decl,
  ptr_type_decl, TypeExprs, nil_types, cons_types,
}
use rumur.Gmp.{Gmp}
use rumur.TypeExpr.Resolve.{resolve}
use rumur.TypeExpr.Equal.{equal}
use rumur.TypeExpr.Coerce.{coerces_from, any_coerces, coerces_onto, coerces_to_any, coerces_to}
use rumur.Expr.Typing.{has_range, any_has_range, type_coerces_to, declared, unbounded}

module _ (g : Gmp) (min max : Expr) where
  mutual
    unfolding coerces_from equal resolve has_range

    from-range : (t : TypeExpr) → coerces_from g t (range min max) ≡ has_range t
    from-range (type_expr_id name null_type_decl) = refl
    from-range (type_expr_id name (ptr_type_decl _ t)) = from-range t
    from-range (union ms) = any-range ms
    from-range (range _ _) = refl
    from-range (scalarset _) = refl
    from-range (enum _) = refl
    from-range (record_type _) = refl
    from-range (array _ _) = refl

    any-range : (ms : TypeExprs) → any_coerces g ms (range min max) ≡ any_has_range ms
    any-range nil_types = refl
    any-range (cons_types m ms) = rw (from-range m, any-range ms) refl

  mutual
    unfolding coerces_onto coerces_from equal resolve has_range

    onto-range : (t : TypeExpr) → coerces_onto g (range min max) t ≡ has_range t
    onto-range (type_expr_id name null_type_decl) = refl
    onto-range (type_expr_id name (ptr_type_decl _ t)) = onto-range t
    onto-range (union ms) = to_any-range ms
    onto-range (range _ _) = refl
    onto-range (scalarset _) = refl
    onto-range (enum _) = refl
    onto-range (record_type _) = refl
    onto-range (array _ _) = refl

    to_any-range : (ms : TypeExprs) → coerces_to_any g (range min max) ms ≡ any_has_range ms
    to_any-range nil_types = refl
    to_any-range (cons_types m ms) = rw (onto-range m, to_any-range ms) refl

  resolved-range : (t : TypeExpr) → coerces_to g t (range min max) ≡ has_range t
  unfolding coerces_to resolve has_range coerces_from coerces_onto
  resolved-range (type_expr_id name null_type_decl) = refl
  resolved-range (type_expr_id name (ptr_type_decl _ t)) = resolved-range t
  resolved-range (union ms) = from-range (union ms)
  resolved-range t = from-range t

  -- The type of a number or of an arithmetic expression coerces to a type, and a type to it, with the
  -- same result, an error included, as any range with bounds does.
  pub unbounded-range :
      (t : TypeExpr)
      → (type_coerces_to g (declared t) unbounded
          ≡ type_coerces_to g (declared t) (declared (range min max)))
        × (type_coerces_to g unbounded (declared t)
            ≡ type_coerces_to g (declared (range min max)) (declared t))
  unfolding type_coerces_to coerces_to resolve
  unbounded-range t = (sym (resolved-range t), sym (onto-range t))
