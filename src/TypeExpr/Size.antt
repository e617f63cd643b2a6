-- ===== src/TypeExpr/Size.antt =====
-- `count`, the number of values of a type with the undefined one, and `width`, its bits.
pub mod Bits
pub mod Fits
use mathlib.Core.WellFounded.{Acc}
use rumur.Prelude.{
  ℕ, zero, suc, ◌+◌, ◌/◌, ◌<◌, Bool, if◌then◌else◌, not, length, dite, dec_lt, arith, ltb, ◌==◌,
}
use rumur.Prelude.Int.{ℤ, pos, pos_part, ◌+ℤ◌, ◌-ℤ◌, ◌*ℤ◌, ltb_ℤ, leb_ℤ, ◌==ℤ◌}
use rumur.Prelude.Order.{lt_wf}
use rumur.Prelude.Results.{Result, ok, err, abort, unresolved_type, ◌>>=◌}
use rumur.Ast.{
  TypeExpr, range, scalarset, enum, record_type, array, type_expr_id, union, null_type_decl,
  ptr_type_decl, VarDecls, nil_vars, cons_vars, var, TypeExprs, nil_types, cons_types,
}
use rumur.Gmp.{Gmp}
use rumur.Fold.Dispatch.{constant_fold}

-- `for (mpz_class j = 0; j < i; ++j) s *= e;`
unfoldable pub power_loop : ℕ → ℤ → ℤ → ℤ
power_loop zero e s = s
power_loop (suc i) e s = power_loop i e (s *ℤ e)

-- `while (largest != 0) { bits++; largest >>= 1; }`
pub bits_loop : (largest : ℕ) → Acc ◌<◌ largest → ℕ → ℕ
bits_loop largest (Acc.intro _ smaller) bits =
    dite (dec_lt 0 largest)
      (λ h. bits_loop (largest / 2) (smaller (largest / 2) (omega arith)) (bits + 1)) (λ _. bits)

-- the bits of the largest value
unfoldable pub bits_of : ℕ → ℕ
unfolding bits_loop lt_wf
bits_of largest = bits_loop largest (lt_wf.apply largest) 0

-- `TypeExpr::width`, which the simple types inherit, from the type's count
unfoldable pub simple_width : ℤ → ℤ
simple_width c = if leb_ℤ c (pos 1) then pos 0 else pos (bits_of (pos_part (c -ℤ pos 1)))

unfoldable pub range_count : ℤ → ℤ → ℤ
range_count lb ub = ub -ℤ lb +ℤ pos 2

unfoldable pub scalarset_count : ℤ → Result ℤ
scalarset_count b = if ltb_ℤ (pos 0) b then ok (b +ℤ pos 1) else abort

-- `Array::count` of the index type's count and the element type's
unfoldable pub array_count : ℤ → ℤ → Result ℤ
unfolding power_loop
array_count i e =
    if leb_ℤ (pos 1) i
    then (let n = pos_part (i -ℤ pos 1) in ok (if n == 0 then pos 0 else power_loop n e (pos 1)))
    else abort

-- `Array::width` of the index type's count and the element type's width
unfoldable pub array_width : ℤ → ℤ → Result ℤ
array_width i e = if leb_ℤ (pos 1) i then ok ((i -ℤ pos 1) *ℤ e) else abort

module _ (g : Gmp) where
  unfoldable mutual
    pub count : TypeExpr → Result ℤ
    count (range min max) = do
      lb ← constant_fold g min
      ub ← constant_fold g max
      ok (range_count lb ub)
    count (scalarset bound) = do b ← constant_fold g bound; scalarset_count b
    count (enum members) = ok (pos (length members) +ℤ pos 1)
    count (record_type fields) = record_count fields (pos 1)
    count (array index element) = do i ← count index; e ← count element; array_count i e
    count (type_expr_id name null_type_decl) = err (unresolved_type name)
    count (type_expr_id name (ptr_type_decl _ t)) = count t
    count (union members) = union_count members (pos 1)

    -- `for (v : fields) s *= v->type->count();`
    pub record_count : VarDecls → ℤ → Result ℤ
    record_count nil_vars s = ok s
    record_count (cons_vars (var _ t _ _) vs) s = do c ← count t; record_count vs (s *ℤ c)

    -- `for (m : members) c += m->count();`
    pub union_count : TypeExprs → ℤ → Result ℤ
    union_count nil_types c = ok c
    union_count (cons_types m ms) c = do n ← count m; union_count ms (c +ℤ n)

  unfoldable mutual
    unfolding count

    pub width : TypeExpr → Result ℤ
    width (record_type fields) = record_width fields (pos 0)
    width (array index element) = do i ← count index; e ← width element; array_width i e
    width (type_expr_id name null_type_decl) = err (unresolved_type name)
    width (type_expr_id name (ptr_type_decl _ t)) = width t
    width (union members) = union_width members (pos 0)
    width t = do c ← count t; ok (simple_width c)

    -- `for (v : fields) s += v->type->width();`
    pub record_width : VarDecls → ℤ → Result ℤ
    record_width nil_vars s = ok s
    record_width (cons_vars (var _ t _ _) vs) s = do w ← width t; record_width vs (s +ℤ w)

    -- the greatest of the members' widths
    pub union_width : TypeExprs → ℤ → Result ℤ
    union_width nil_types s = ok s
    union_width (cons_types m ms) s = do w ← width m; union_width ms (if ltb_ℤ s w then w else s)
