-- ===== src/TypeExpr/Equal/Refines.antt =====
-- `equal` decides whether two types have one shape.
use rumur.Prelude.{
  Bool, true, false, List, [], ◌∷◌, String, ◌≡◌, ◌↔◌, refl, subst, arith, Bool-cases, inl, inr,
}
use rumur.Prelude.Results.{ok, >>=-eq-ok}
use rumur.Ast.{
  Expr, TypeExpr, range, scalarset, enum, record_type, array, type_expr_id, union, null_type_decl,
  ptr_type_decl, TypeExprs, nil_types, cons_types, VarDecls, nil_vars, cons_vars, var,
}
use rumur.Gmp.{Gmp}
use rumur.Fold.Dispatch.{constant_fold}
use rumur.TypeExpr.Resolve.{resolve}
use rumur.TypeExpr.Equal.{
  equal, record_equal, union_equal, enum_equal, folds_equal, range_equal, same_size,
}
use rumur.TypeExpr.Equal.Shape.{
  Shape, interval, set_of, names, fields, table, choice, FieldShapes, Shapes, shape, record_shape,
  union_shape, names_equal, shape_equal, fields_equal, shapes_equal, shape_equal_iff,
}

enum_equal-names : (a b : List String) → enum_equal a b ≡ names_equal a b
unfolding enum_equal names_equal
enum_equal-names [] [] = refl
enum_equal-names [] (_ ∷ _) = refl
enum_equal-names (_ ∷ _) [] = refl
enum_equal-names (a ∷ as') (b ∷ bs) = rw (enum_equal-names as' bs)

pub ok_injective {ℓ} : {A : Type ℓ} {a b : A} → ok a ≡ ok b → a ≡ b
ok_injective h = cc

module _ (g : Gmp) where
  -- A type that has a shape leads to a type of that shape's class.
  abbrev pub Leads : TypeExpr → Shape → Type 0
  Leads t (interval a b) =
      (min : Expr) × (max : Expr) × (resolve t ≡ ok (range min max))
      × (constant_fold g min ≡ ok a)
      × (constant_fold g max ≡ ok b)
  Leads t (set_of a) =
      (bound : Expr) × (resolve t ≡ ok (scalarset bound)) × (constant_fold g bound ≡ ok a)
  Leads t (names ms) = resolve t ≡ ok (enum ms)
  Leads t (fields fs) =
      (vs : VarDecls) × (resolve t ≡ ok (record_type vs)) × (record_shape g vs ≡ ok fs)
  Leads t (table a b) =
      (i : TypeExpr) × (e : TypeExpr) × (resolve t ≡ ok (array i e))
      × (shape g i ≡ ok a)
      × (shape g e ≡ ok b)
  Leads t (choice ss) = (ms : TypeExprs) × (resolve t ≡ ok (union ms)) × (union_shape g ms ≡ ok ss)

  Leads-alias :
      (t : TypeExpr) (n m : String) (s : Shape)
      → Leads t s
      → Leads (type_expr_id n (ptr_type_decl m t)) s
  unfolding resolve
  Leads-alias t n m (interval _ _) h = h
  Leads-alias t n m _ h = h

  pub shape-Leads : (t : TypeExpr) (s : Shape) → shape g t ≡ ok s → Leads t s
  unfolding shape resolve
  shape-Leads (range min max) s h =
      let (a, p, r) = >>=-eq-ok (constant_fold g min) _ h in
      let (b, q, e) = >>=-eq-ok (constant_fold g max) _ r in
      subst (Leads (range min max)) (ok_injective e) (min, max, refl, p, q)
  shape-Leads (scalarset bound) s h =
      let (a, p, e) = >>=-eq-ok (constant_fold g bound) _ h in
      subst (Leads (scalarset bound)) (ok_injective e) (bound, refl, p)
  shape-Leads (enum ms) s h = subst (Leads (enum ms)) (ok_injective h) refl
  shape-Leads (record_type vs) s h =
      let (a, p, e) = >>=-eq-ok (record_shape g vs) _ h in
      subst (Leads (record_type vs)) (ok_injective e) (vs, refl, p)
  shape-Leads (array i e) s h =
      let (a, p, r) = >>=-eq-ok (shape g i) _ h in
      let (b, q, k) = >>=-eq-ok (shape g e) _ r in
      subst (Leads (array i e)) (ok_injective k) (i, e, refl, p, q)
  shape-Leads (type_expr_id n (ptr_type_decl m t)) s h = Leads-alias t n m s (shape-Leads t s h)
  shape-Leads (type_expr_id _ null_type_decl) s h = cc
  shape-Leads (union ms) s h =
      let (a, p, e) = >>=-eq-ok (union_shape g ms) _ h in
      subst (Leads (union ms)) (ok_injective e) (ms, refl, p)

  same_size-shape :
      (ms ns : TypeExprs) (ss ts : Shapes)
      → union_shape g ms ≡ ok ss
      → union_shape g ns ≡ ok ts
      → same_size ms ns ≡ false
      → shapes_equal ss ts ≡ false
  unfolding same_size shape shape_equal
  same_size-shape nil_types nil_types ss ts h1 h2 k = cc
  same_size-shape (cons_types s ms) (cons_types t ns) ss ts h1 h2 size =
      let (x, p, k) = >>=-eq-ok (shape g s) _ h1 in
      let (xs, p', k') = >>=-eq-ok (union_shape g ms) _ k in
      let (y, q, l) = >>=-eq-ok (shape g t) _ h2 in
      let (ys, q', l') = >>=-eq-ok (union_shape g ns) _ l in
      ground (arith, same_size-shape ms ns xs ys p' q' size)
  same_size-shape nil_types (cons_types t ns) ss ts h1 h2 size =
      let (y, q, l) = >>=-eq-ok (shape g t) _ h2 in
      let (ys, q', l') = >>=-eq-ok (union_shape g ns) _ l in ground arith
  same_size-shape (cons_types s ms) nil_types ss ts h1 h2 size =
      let (x, p, k) = >>=-eq-ok (shape g s) _ h1 in
      let (xs, p', k') = >>=-eq-ok (union_shape g ms) _ k in ground arith

  mutual
    unfolding equal shape shape_equal range_equal folds_equal same_size

    pub equal-shape :
        (t1 t2 : TypeExpr) (s1 s2 : Shape)
        → shape g t1 ≡ ok s1
        → shape g t2 ≡ ok s2
        → equal g t1 t2 ≡ ok (shape_equal s1 s2)
    equal-shape t1 (range min max) (interval a b) s2 h1 h2 =
        let (m, n, e, p, q) = shape-Leads t1 _ h1 in ground arith
    equal-shape t1 (range min max) s1 s2 h1 h2 =
        let (c, u, k) = >>=-eq-ok (constant_fold g min) _ h2 in
        let (d, v, k') = >>=-eq-ok (constant_fold g max) _ k in
        subst (λ s. equal g t1 (range min max) ≡ ok (shape_equal s1 s)) (ok_injective k')
          (ground (arith, shape-Leads t1 s1 h1))
    equal-shape t1 (scalarset bound) (set_of a) s2 h1 h2 =
        let (m, e, p) = shape-Leads t1 _ h1 in ground arith
    equal-shape t1 (scalarset bound) s1 s2 h1 h2 =
        let (c, u, k) = >>=-eq-ok (constant_fold g bound) _ h2 in
        subst (λ s. equal g t1 (scalarset bound) ≡ ok (shape_equal s1 s)) (ok_injective k)
          (ground (arith, shape-Leads t1 s1 h1))
    equal-shape t1 (enum ms) (names ns) s2 h1 h2 =
        ground (arith, shape-Leads t1 _ h1, enum_equal-names ns ms)
    equal-shape t1 (enum ms) s1 s2 h1 h2 = ground (arith, shape-Leads t1 s1 h1)
    equal-shape t1 (record_type ws) (fields fs) s2 h1 h2 =
        let (vs, e, p) = shape-Leads t1 _ h1 in
        let (gs, q, k) = >>=-eq-ok (record_shape g ws) _ h2 in
        ground (arith, record_equal-shape vs ws fs gs p q)
    equal-shape t1 (record_type ws) s1 s2 h1 h2 =
        let (gs, q, k) = >>=-eq-ok (record_shape g ws) _ h2 in ground (arith, shape-Leads t1 s1 h1)
    equal-shape t1 (array j f) (table a b) s2 h1 h2 =
        let (i, e, r, p, q) = shape-Leads t1 _ h1 in
        let (c, u, k) = >>=-eq-ok (shape g j) _ h2 in
        let (d, v, k') = >>=-eq-ok (shape g f) _ k in
        ground (arith, equal-shape i j a c p u, equal-shape e f b d q v)
    equal-shape t1 (array j f) s1 s2 h1 h2 =
        let (c, u, k) = >>=-eq-ok (shape g j) _ h2 in
        let (d, v, k') = >>=-eq-ok (shape g f) _ k in ground (arith, shape-Leads t1 s1 h1)
    equal-shape t1 (type_expr_id _ (ptr_type_decl _ t2)) s1 s2 h1 h2 = equal-shape t1 t2 s1 s2 h1 h2
    equal-shape t1 (type_expr_id _ null_type_decl) s1 s2 h1 h2 = cc
    equal-shape t1 (union ns) (choice ss) s2 h1 h2 =
        let (ms, e, p) = shape-Leads t1 _ h1 in
        let (ts, q, k) = >>=-eq-ok (union_shape g ns) _ h2 in
        subst (λ s. equal g t1 (union ns) ≡ ok (shape_equal (choice ss) s)) (ok_injective k)
          (rw e (elim (Bool-cases (same_size ms ns)) [
            | inl same ↦ rw same (union_equal-shape ms ns ss ts p q same)
            | inr differ ↦ rw (differ, same_size-shape ms ns ss ts p q differ)
          ]))
    equal-shape t1 (union ns) s1 s2 h1 h2 =
        let (ts, q, k) = >>=-eq-ok (union_shape g ns) _ h2 in
        subst (λ s. equal g t1 (union ns) ≡ ok (shape_equal s1 s)) (ok_injective k)
          (ground (arith, shape-Leads t1 s1 h1))

    record_equal-shape :
        (vs ws : VarDecls) (fs gs : FieldShapes)
        → record_shape g vs ≡ ok fs
        → record_shape g ws ≡ ok gs
        → record_equal g vs ws ≡ ok (fields_equal fs gs)
    record_equal-shape nil_vars nil_vars fs gs h1 h2 = ground arith
    record_equal-shape (cons_vars (var a s _ _) vs) (cons_vars (var b t _ _) ws) fs gs h1 h2 =
        let (x, p, k) = >>=-eq-ok (shape g s) _ h1 in
        let (xs, p', k') = >>=-eq-ok (record_shape g vs) _ k in
        let (y, q, l) = >>=-eq-ok (shape g t) _ h2 in
        let (ys, q', l') = >>=-eq-ok (record_shape g ws) _ l in
        ground (arith, equal-shape s t x y p q, record_equal-shape vs ws xs ys p' q')
    record_equal-shape nil_vars (cons_vars (var b t _ _) ws) fs gs h1 h2 =
        let (y, q, l) = >>=-eq-ok (shape g t) _ h2 in
        let (ys, q', l') = >>=-eq-ok (record_shape g ws) _ l in ground arith
    record_equal-shape (cons_vars (var a s _ _) vs) nil_vars fs gs h1 h2 =
        let (x, p, k) = >>=-eq-ok (shape g s) _ h1 in
        let (xs, p', k') = >>=-eq-ok (record_shape g vs) _ k in ground arith

    -- once the sizes are known to be the same
    union_equal-shape :
        (ms ns : TypeExprs) (ss ts : Shapes)
        → union_shape g ms ≡ ok ss
        → union_shape g ns ≡ ok ts
        → same_size ms ns ≡ true
        → union_equal g ms ns ≡ ok (shapes_equal ss ts)
    union_equal-shape nil_types nil_types ss ts h1 h2 k = ground arith
    union_equal-shape (cons_types s ms) (cons_types t ns) ss ts h1 h2 size =
        let (x, p, k) = >>=-eq-ok (shape g s) _ h1 in
        let (xs, p', k') = >>=-eq-ok (union_shape g ms) _ k in
        let (y, q, l) = >>=-eq-ok (shape g t) _ h2 in
        let (ys, q', l') = >>=-eq-ok (union_shape g ns) _ l in
        ground (arith, equal-shape s t x y p q, union_equal-shape ms ns xs ys p' q' size)
    union_equal-shape nil_types (cons_types _ _) ss ts h1 h2 k = cc
    union_equal-shape (cons_types _ _) nil_types ss ts h1 h2 k = cc

  -- On types whose names resolve and whose bounds fold, `equal` returns, and its result is whether
  -- the two have one shape.
  pub equal_iff :
      (t1 t2 : TypeExpr) (s1 s2 : Shape)
      → shape g t1 ≡ ok s1
      → shape g t2 ≡ ok s2
      → (b : Bool) × (equal g t1 t2 ≡ ok b) × ((b ≡ true) ↔ (s1 ≡ s2))
  equal_iff t1 t2 s1 s2 h1 h2 =
      (shape_equal s1 s2, equal-shape t1 t2 s1 s2 h1 h2, shape_equal_iff s1 s2)
