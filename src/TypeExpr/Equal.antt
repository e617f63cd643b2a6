-- ===== src/TypeExpr/Equal.antt =====
-- `equal` and `TypeExpr::coerces_to` of librumur/src/TypeExpr.cc.
pub mod Shape
pub mod Refines
use rumur.Prelude.{
  Bool, true, false, if◌then◌else◌, ◌&&◌, List, [], ◌∷◌, String, str_eq, ◌==◌, Option, none, some,
}
use rumur.Prelude.Int.{ℤ, ◌==ℤ◌}
use rumur.Prelude.Results.{Result, ok, err, abort, unresolved_type, ◌>>=◌}
use rumur.Ast.{
  Expr, TypeExpr, range, scalarset, enum, record_type, array, type_expr_id, union, null_type_decl,
  ptr_type_decl, TypeExprs, nil_types, cons_types, VarDecls, nil_vars, cons_vars, var,
}
use rumur.Gmp.{Gmp}
use rumur.Fold.Dispatch.{constant_fold}
use rumur.TypeExpr.Resolve.{
  resolve, as_range, as_scalarset, as_enum, as_record, as_array, as_union, is_range,
}

-- the loop over the two lists of members
unfoldable pub enum_equal : List String → List String → Bool
enum_equal [] [] = true
enum_equal [] (_ ∷ _) = false
enum_equal (_ ∷ _) [] = false
enum_equal (a ∷ as') (b ∷ bs) = str_eq a b && enum_equal as' bs

-- `a->constant_fold() == b->constant_fold()`
unfoldable pub folds_equal : Gmp → Expr → Expr → Result Bool
folds_equal g a b = do ok ((← constant_fold g a) ==ℤ (← constant_fold g b))

unfoldable pub range_equal : Gmp → Expr × Expr → Expr × Expr → Result Bool
unfolding folds_equal
range_equal g (min, max) (min', max') = do
  same ← folds_equal g min min'
  if same then folds_equal g max max' else ok false

unfoldable pub same_size : TypeExprs → TypeExprs → Bool
same_size nil_types nil_types = true
same_size (cons_types _ ms) (cons_types _ ns) = same_size ms ns
same_size _ _ = false

-- `if (auto c = dynamic_cast<…>(t)) test(c) else false`
abbrev pub if_cast {ℓ} : {A : Type ℓ} → Option A → (A → Result Bool) → Result Bool
if_cast none f = ok false
if_cast (some c) f = f c

module _ (g : Gmp) where
  -- The visitor `Equater` on the second type, with the first resolved.
  unfoldable mutual
    unfolding resolve enum_equal range_equal folds_equal same_size

    pub equal : TypeExpr → TypeExpr → Result Bool
    equal t1 (range min max) = do
      t ← resolve t1
      if_cast (as_range t) λ r. range_equal g r (min, max)
    equal t1 (scalarset bound) = do
      t ← resolve t1
      if_cast (as_scalarset t) λ s. folds_equal g s bound
    equal t1 (enum members) = do t ← resolve t1; if_cast (as_enum t) λ e. ok (enum_equal e members)
    equal t1 (record_type fields) = do
      t ← resolve t1
      if_cast (as_record t) λ r. record_equal r fields
    equal t1 (array index element) = do
      t ← resolve t1
      if_cast (as_array t) λ (i, e). do
        same_index ← equal i index
        same_element ← equal e element
        ok (same_index && same_element)
    equal t1 (type_expr_id _ null_type_decl) = do t ← resolve t1; abort
    equal t1 (type_expr_id _ (ptr_type_decl _ t2)) = equal t1 t2
    equal t1 (union members) = do
      t ← resolve t1
      if_cast (as_union t) λ u. if same_size u members then union_equal u members else ok false

    pub record_equal : VarDecls → VarDecls → Result Bool
    record_equal nil_vars nil_vars = ok true
    record_equal (cons_vars _ _) nil_vars = ok false
    record_equal nil_vars (cons_vars _ _) = ok false
    record_equal (cons_vars (var a s _ _) vs) (cons_vars (var b t _ _) ws) = do
      same ← (if str_eq a b then equal s t else ok false)
      rest ← record_equal vs ws
      ok (same && rest)

    pub union_equal : TypeExprs → TypeExprs → Result Bool
    union_equal _ nil_types = ok true
    union_equal nil_types (cons_types _ _) = ok true
    union_equal (cons_types s ms) (cons_types t ns) = do
      same ← equal s t
      rest ← union_equal ms ns
      ok (same && rest)
