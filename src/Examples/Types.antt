-- ===== src/Examples/Types.antt =====
-- Types.
use rumur.Prelude.{ℕ, ◌^◌, ◌≤◌, ◌≡◌, ◌↔◌, refl, true, Bool, [], ◌∷◌, arith}
use rumur.Prelude.Int.{ℤ, pos, ◌+ℤ◌, ◌-ℤ◌, ◌≤ℤ◌, ◌<ℤ◌}
use rumur.Prelude.Results.{ok}
use rumur.Ast.{
  TypeExpr, range, scalarset, enum, record_type, array, type_expr_id, union, ptr_type_decl,
  nil_types, cons_types, TypeExprs, nil_vars, cons_vars, var, number,
}
use rumur.Fold.Dispatch.{constant_fold}
use rumur.TypeExpr.Bounds.{is_simple, lower_bound, upper_bound}
use rumur.TypeExpr.Equal.{equal}
use rumur.TypeExpr.Equal.Shape.{
  Shape, interval, set_of, names, table, choice, shape_cons, no_shapes, shape,
}
use rumur.TypeExpr.Equal.Refines.{equal_iff}
use rumur.TypeExpr.Coerce.{coerces_to}
use rumur.TypeExpr.Coerce.Leaves.{shape_coerces, coerces_to-shape}
use rumur.TypeExpr.Size.{range_count, count, width}
use rumur.TypeExpr.Size.Bits.{width-least}
use rumur.TypeExpr.Size.Fits.{IsSized, count-le-width}
use rumur.Examples.Gmp.{gmp}

abbrev pub digits : TypeExpr
digits = range (number (pos 0)) (number (pos 9))

-- a name for `digits`
abbrev pub digit_name : TypeExpr
digit_name = type_expr_id "digit_t" (ptr_type_decl "digit_t" digits)

abbrev pub ab : TypeExpr
ab = enum ("a" ∷ "b" ∷ [])

abbrev pub table1 : TypeExpr
table1 = array ab digit_name

abbrev table2 : TypeExpr
table2 = array (enum ("a" ∷ "b" ∷ [])) digits

abbrev table_shape : Shape
table_shape = table (names ("a" ∷ "b" ∷ [])) (interval (pos 0) (pos 9))

table1-shape : shape gmp table1 ≡ ok table_shape
unfolding shape constant_fold
table1-shape = refl

table2-shape : shape gmp table2 ≡ ok table_shape
unfolding shape constant_fold
table2-shape = refl

equal_iff_example :
    (b : Bool) × (equal gmp table1 table2 ≡ ok b) × ((b ≡ true) ↔ (table_shape ≡ table_shape))
equal_iff_example = equal_iff gmp table1 table2 table_shape table_shape table1-shape table2-shape

abbrev pub members : TypeExprs
members = cons_types (scalarset (number (pos 4))) (cons_types digits nil_types)

abbrev pub mixed : TypeExpr
mixed = union members

abbrev mixed_shape : Shape
mixed_shape = choice (shape_cons (set_of (pos 4)) (shape_cons (interval (pos 0) (pos 9)) no_shapes))

mixed-shape : shape gmp mixed ≡ ok mixed_shape
unfolding shape constant_fold
mixed-shape = refl

digit_name-shape : shape gmp digit_name ≡ ok (interval (pos 0) (pos 9))
unfolding shape constant_fold
digit_name-shape = refl

coerces_to-shape_example :
    coerces_to gmp mixed digit_name ≡ ok (shape_coerces mixed_shape (interval (pos 0) (pos 9)))
coerces_to-shape_example =
    coerces_to-shape gmp mixed digit_name mixed_shape (interval (pos 0) (pos 9)) mixed-shape
      digit_name-shape

digits-count : count gmp digits ≡ ok (pos 11)
unfolding count constant_fold range_count ◌+ℤ◌ ◌-ℤ◌
digits-count = refl

width-least_example :
    (k : ℕ) × (width gmp digits ≡ ok (pos k)) × (11 ≤ 2 ^ k) × ((j : ℕ) → 11 ≤ 2 ^ j → k ≤ j)
width-least_example = width-least gmp digits 11 tt digits-count

abbrev pub player : TypeExpr
player = record_type (
    cons_vars (var "scores" table1 (pos 0) true)
      (cons_vars (var "seat" (scalarset (number (pos 4))) (pos 0) true) nil_vars))

digit_bounds :
    (lb : ℤ) × (ub : ℤ) × (constant_fold gmp (number (pos 0)) ≡ ok lb)
    × (constant_fold gmp (number (pos 9)) ≡ ok ub)
    × (lb ≤ℤ ub)
unfolding constant_fold
digit_bounds = (pos 0, pos 9, refl, refl, omega arith)

seat_bound : (b : ℤ) × (constant_fold gmp (number (pos 4)) ≡ ok b) × (pos 0 <ℤ b)
unfolding constant_fold
seat_bound = (pos 4, refl, omega arith)

player-IsSized : IsSized gmp player
unfolding IsSized is_simple
player-IsSized = ((tt, refl, digit_bounds), (seat_bound, tt))

digit_name-IsSized : IsSized gmp digit_name
unfolding IsSized
digit_name-IsSized = digit_bounds

digit_name-is_simple : is_simple digit_name ≡ ok true
unfolding is_simple
digit_name-is_simple = refl

count-le-width_example :
    (n : ℕ) × (k : ℕ) × (count gmp player ≡ ok (pos n))
    × (width gmp player ≡ ok (pos k))
    × (n ≤ 2 ^ k)
count-le-width_example = count-le-width gmp player player-IsSized

mixed_lower : lower_bound gmp mixed ≡ ok (pos 0)
unfolding lower_bound is_simple constant_fold
mixed_lower = refl

mixed_upper : upper_bound gmp mixed ≡ ok (pos 9)
unfolding upper_bound is_simple constant_fold ◌-ℤ◌
mixed_upper = refl
