-- ===== src/TypeExpr/Coerce.antt =====
-- `TypeExpr::coerces_to` of librumur/src/TypeExpr.cc. A name is resolved where the walk meets it, which
-- is where the source's nested call starts.
pub mod Leaves
pub mod Symmetric
use rumur.Prelude.{Bool, true, false, if◌then◌else◌}
use rumur.Prelude.Results.{Result, ok, err, unresolved_type, ◌>>=◌}
use rumur.Ast.{
  TypeExpr, range, type_expr_id, union, null_type_decl, ptr_type_decl, TypeExprs, nil_types,
  cons_types,
}
use rumur.Gmp.{Gmp}
use rumur.TypeExpr.Resolve.{resolve, is_range}
use rumur.TypeExpr.Equal.{equal}

module _ (g : Gmp) where
  -- the case where the second type is no union
  unfoldable mutual
    unfolding resolve

    pub coerces_from : TypeExpr → TypeExpr → Result Bool
    coerces_from (type_expr_id name null_type_decl) t2 = err (unresolved_type name)
    coerces_from (type_expr_id name (ptr_type_decl _ t)) t2 = coerces_from t t2
    coerces_from (union members) t2 = any_coerces members t2
    coerces_from (range min max) t2 = if is_range t2 then ok true else equal g (range min max) t2
    coerces_from t1 t2 = equal g t1 t2

    pub any_coerces : TypeExprs → TypeExpr → Result Bool
    any_coerces nil_types t2 = ok false
    any_coerces (cons_types m ms) t2 = do
      yes' ← coerces_from m t2
      if yes' then ok true else any_coerces ms t2

  unfoldable mutual
    unfolding resolve coerces_from

    pub coerces_onto : TypeExpr → TypeExpr → Result Bool
    coerces_onto t1 (type_expr_id name null_type_decl) = err (unresolved_type name)
    coerces_onto t1 (type_expr_id name (ptr_type_decl _ t)) = coerces_onto t1 t
    coerces_onto t1 (union members) = coerces_to_any t1 members
    coerces_onto t1 t2 = coerces_from t1 t2

    pub coerces_to_any : TypeExpr → TypeExprs → Result Bool
    coerces_to_any t1 nil_types = ok false
    coerces_to_any t1 (cons_types m ms) = do
      yes' ← coerces_onto t1 m
      if yes' then ok true else coerces_to_any t1 ms

  unfoldable pub coerces_to : TypeExpr → TypeExpr → Result Bool
  unfolding resolve coerces_from coerces_onto
  coerces_to t1 t2 = do t ← resolve t1; coerces_onto t t2
