-- ===== src/TypeExpr/Equal/Shape.antt =====
-- The shape of a type: names followed, bounds folded. `equal` compares shapes.
use rumur.Prelude.{
  Bool, true, false, ◌&&◌, List, [], ◌∷◌, String, str_eq, str_eq_iff, ◌≡◌, ◌↔◌, arith,
}
use rumur.Prelude.Int.{ℤ, ◌==ℤ◌, ==ℤ_iff}
use rumur.Prelude.Results.{Result, ok, err, unresolved_type, ◌>>=◌}
use rumur.Ast.{
  TypeExpr, range, scalarset, enum, record_type, array, type_expr_id, union, null_type_decl,
  ptr_type_decl, TypeExprs, nil_types, cons_types, VarDecls, nil_vars, cons_vars, var,
}
use rumur.Gmp.{Gmp}
use rumur.Fold.Dispatch.{constant_fold}

mutual
  pub data Shape : Type 0 where
    interval : ℤ → ℤ → Shape
    set_of : ℤ → Shape
    names : List String → Shape
    fields : FieldShapes → Shape
    table : Shape → Shape → Shape
    choice : Shapes → Shape

  pub data FieldShapes : Type 0 where
    no_fields : FieldShapes
    field_shape : String → Shape → FieldShapes → FieldShapes

  pub data Shapes : Type 0 where
    no_shapes : Shapes
    shape_cons : Shape → Shapes → Shapes

module _ (g : Gmp) where
  unfoldable mutual
    pub shape : TypeExpr → Result Shape
    shape (range min max) = do ok (interval (← constant_fold g min) (← constant_fold g max))
    shape (scalarset bound) = do ok (set_of (← constant_fold g bound))
    shape (enum members) = ok (names members)
    shape (record_type vs) = do ok (fields (← record_shape vs))
    shape (array index element) = do ok (table (← shape index) (← shape element))
    shape (type_expr_id name null_type_decl) = err (unresolved_type name)
    shape (type_expr_id name (ptr_type_decl _ t)) = shape t
    shape (union members) = do ok (choice (← union_shape members))

    pub record_shape : VarDecls → Result FieldShapes
    record_shape nil_vars = ok no_fields
    record_shape (cons_vars (var name t _ _) vs) = do
      ok (field_shape name (← shape t) (← record_shape vs))

    pub union_shape : TypeExprs → Result Shapes
    union_shape nil_types = ok no_shapes
    union_shape (cons_types m ms) = do ok (shape_cons (← shape m) (← union_shape ms))

unfoldable pub names_equal : List String → List String → Bool
names_equal [] [] = true
names_equal (a ∷ as') (b ∷ bs) = str_eq a b && names_equal as' bs
names_equal _ _ = false

-- A Boolean test of equality on shapes.
unfoldable mutual
  pub shape_equal : Shape → Shape → Bool
  shape_equal (interval a b) (interval c d) = (a ==ℤ c) && (b ==ℤ d)
  shape_equal (set_of a) (set_of b) = a ==ℤ b
  shape_equal (names as') (names bs) = names_equal as' bs
  shape_equal (fields fs) (fields gs) = fields_equal fs gs
  shape_equal (table a b) (table c d) = shape_equal a c && shape_equal b d
  shape_equal (choice as') (choice bs) = shapes_equal as' bs
  shape_equal _ _ = false

  pub fields_equal : FieldShapes → FieldShapes → Bool
  fields_equal no_fields no_fields = true
  fields_equal (field_shape a s fs) (field_shape b t gs) =
      (str_eq a b && shape_equal s t) && fields_equal fs gs
  fields_equal _ _ = false

  pub shapes_equal : Shapes → Shapes → Bool
  shapes_equal no_shapes no_shapes = true
  shapes_equal (shape_cons a as') (shape_cons b bs) = shape_equal a b && shapes_equal as' bs
  shapes_equal _ _ = false

pub names_equal_iff : (a b : List String) → (names_equal a b ≡ true) ↔ (a ≡ b)
unfolding names_equal
names_equal_iff [] [] = ground arith
names_equal_iff (a ∷ as') (b ∷ bs) = ground (arith, str_eq_iff a b, names_equal_iff as' bs)
names_equal_iff [] (_ ∷ _) = ground arith
names_equal_iff (_ ∷ _) [] = ground arith

mutual
  unfolding shape_equal

  pub shape_equal_iff : (a b : Shape) → (shape_equal a b ≡ true) ↔ (a ≡ b)
  shape_equal_iff (interval a b) (interval c d) = ground (arith, ==ℤ_iff a c, ==ℤ_iff b d)
  shape_equal_iff (set_of a) (set_of b) = ground (arith, ==ℤ_iff a b)
  shape_equal_iff (names a) (names b) = ground (arith, names_equal_iff a b)
  shape_equal_iff (fields a) (fields b) = ground (arith, fields_equal_iff a b)
  shape_equal_iff (table a b) (table c d) = ground (arith, shape_equal_iff a c, shape_equal_iff b d)
  shape_equal_iff (choice a) (choice b) = ground (arith, shapes_equal_iff a b)
  shape_equal_iff _ _ = ground arith

  fields_equal_iff : (a b : FieldShapes) → (fields_equal a b ≡ true) ↔ (a ≡ b)
  fields_equal_iff no_fields no_fields = ground arith
  fields_equal_iff (field_shape a s fs) (field_shape b t gs) =
      ground (arith, str_eq_iff a b, shape_equal_iff s t, fields_equal_iff fs gs)
  fields_equal_iff _ _ = ground arith

  shapes_equal_iff : (a b : Shapes) → (shapes_equal a b ≡ true) ↔ (a ≡ b)
  shapes_equal_iff no_shapes no_shapes = ground arith
  shapes_equal_iff (shape_cons a as') (shape_cons b bs) =
      ground (arith, shape_equal_iff a b, shapes_equal_iff as' bs)
  shapes_equal_iff _ _ = ground arith
