-- ===== src/TypeExpr/Bounds.antt =====
-- `is_simple`, `constant`, `lower_bound` and `upper_bound` of the types.
pub mod Laws
use rumur.Prelude.{Bool, true, false, if◌then◌else◌, not, length, ◌&&◌, Option, none, some}
use rumur.Prelude.Int.{ℤ, pos, ◌-ℤ◌, ltb_ℤ}
use rumur.Prelude.Results.{
  Result, ok, err, unresolved_type, complex_type, no_lower_bound, no_upper_bound, non_simple_union,
  throw_if, ◌>>=◌, ◌>>◌,
}
use rumur.Ast.{
  TypeExpr, range, scalarset, enum, record_type, array, type_expr_id, union, null_type_decl,
  ptr_type_decl, TypeExprs, nil_types, cons_types,
}
use rumur.Gmp.{Gmp}
use rumur.Fold.Dispatch.{constant, constant_fold}

unfoldable mutual
  pub is_simple : TypeExpr → Result Bool
  is_simple (range _ _) = ok true
  is_simple (scalarset _) = ok true
  is_simple (enum _) = ok true
  is_simple (type_expr_id name null_type_decl) = err (unresolved_type name)
  is_simple (type_expr_id name (ptr_type_decl _ t)) = is_simple t
  is_simple (union members) = union_is_simple members
  is_simple (record_type _) = ok false
  is_simple (array _ _) = ok false

  pub union_is_simple : TypeExprs → Result Bool
  union_is_simple nil_types = ok true
  union_is_simple (cons_types m ms) = do
    simple ← is_simple m
    if simple then union_is_simple ms else ok false

-- `!set || b < bound`, of the bound that is set, if one is
abbrev pub lower : Option ℤ → ℤ → ℤ
lower none b = b
lower (some bound) b = if ltb_ℤ b bound then b else bound

abbrev pub upper : Option ℤ → ℤ → ℤ
upper none b = b
upper (some bound) b = if ltb_ℤ bound b then b else bound

-- `if (!set) bound = 0;`
abbrev pub or_zero : Option ℤ → ℤ
or_zero none = pos 0
or_zero (some bound) = bound

module _ (g : Gmp) where
  unfoldable mutual
    pub constant_type : TypeExpr → Result Bool
    constant_type (range min max) = ok (constant g min && constant g max)
    constant_type (scalarset bound) = ok (constant g bound)
    constant_type (enum _) = ok true
    constant_type (type_expr_id name null_type_decl) = err (unresolved_type name)
    constant_type (type_expr_id name (ptr_type_decl _ t)) = constant_type t
    constant_type (union members) = union_constant members
    constant_type (record_type _) = err complex_type
    constant_type (array _ _) = err complex_type

    pub union_constant : TypeExprs → Result Bool
    union_constant nil_types = ok true
    union_constant (cons_types m ms) = do
      simple ← is_simple m
      known ← (if simple then constant_type m else ok false)
      if known then union_constant ms else ok false

  unfoldable mutual
    pub lower_bound : TypeExpr → Result ℤ
    lower_bound (range min _) = constant_fold g min
    lower_bound (scalarset _) = ok (pos 0)
    lower_bound (enum _) = ok (pos 0)
    lower_bound (type_expr_id name null_type_decl) = err (unresolved_type name)
    lower_bound (type_expr_id name (ptr_type_decl _ t)) = lower_bound t
    lower_bound (union members) = do
      simple ← union_is_simple members
      throw_if (not simple) non_simple_union
      union_lower_bound members none
    lower_bound (record_type _) = err no_lower_bound
    lower_bound (array _ _) = err no_lower_bound

    pub union_lower_bound : TypeExprs → Option ℤ → Result ℤ
    union_lower_bound nil_types bound = ok (or_zero bound)
    union_lower_bound (cons_types m ms) bound = do
      b ← lower_bound m
      union_lower_bound ms (some (lower bound b))

  unfoldable mutual
    pub upper_bound : TypeExpr → Result ℤ
    upper_bound (range _ max) = constant_fold g max
    upper_bound (scalarset bound) = do b ← constant_fold g bound; ok (b -ℤ pos 1)
    upper_bound (enum members) =
        let size = pos (length members) in ok (if ltb_ℤ (pos 0) size then size -ℤ pos 1 else size)
    upper_bound (type_expr_id name null_type_decl) = err (unresolved_type name)
    upper_bound (type_expr_id name (ptr_type_decl _ t)) = upper_bound t
    upper_bound (union members) = do
      simple ← union_is_simple members
      throw_if (not simple) non_simple_union
      union_upper_bound members none
    upper_bound (record_type _) = err no_upper_bound
    upper_bound (array _ _) = err no_upper_bound

    pub union_upper_bound : TypeExprs → Option ℤ → Result ℤ
    union_upper_bound nil_types bound = ok (or_zero bound)
    union_upper_bound (cons_types m ms) bound = do
      b ← upper_bound m
      union_upper_bound ms (some (upper bound b))
