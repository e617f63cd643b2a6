-- ===== src/TypeExpr/Size/Fits.antt =====
-- The values of a type fit into its width.
use native.Mathlib.Nat.{
  zero-mul, one-mul, zero-add, add_assoc, mul_assoc, pow-suc, pow-zero, mul-le-mul, pow-le-pow_left,
}
use mathlib.Core.Path.{subst₂}
use rumur.Prelude.{
  ℕ, zero, suc, ◌+◌, ◌*◌, ◌^◌, ◌<◌, ◌≤◌, ◌≡◌, true, arith, refl, ap, ◌∙◌, length, sym, subst, ◌-◌,
  ◌==◌, if◌then◌else◌,
}
use rumur.Prelude.Int.{ℤ, pos, pos_part, ◌+ℤ◌, ◌-ℤ◌, ◌≤ℤ◌, ◌<ℤ◌, *ℤ_pos, +ℤ_pos}
use rumur.Prelude.Results.{ok}
use rumur.Ast.{
  TypeExpr, range, scalarset, enum, record_type, array, type_expr_id, union, null_type_decl,
  ptr_type_decl, VarDecls, nil_vars, cons_vars, var,
}
use rumur.Gmp.{Gmp}
use rumur.Fold.Dispatch.{constant_fold}
use rumur.Prelude.Bits.{pow-add}
use rumur.TypeExpr.Bounds.{is_simple}
use rumur.TypeExpr.Size.{
  power_loop, range_count, scalarset_count, array_count, array_width, simple_width, count,
  record_count, width, record_width,
}
use rumur.TypeExpr.Size.Bits.{pos_part-pred, simple_width-least}

power_loop-pow : (i e s : ℕ) → power_loop i (pos e) (pos s) ≡ pos (s * e ^ i)
unfolding power_loop
power_loop-pow zero e s = ap pos (rw pow-zero (omega arith))
power_loop-pow (suc i) e s =
    rw *ℤ_pos (power_loop-pow i e (s * e) ∙ ap pos (rw pow-suc (omega arith)))

-- (2 ^ w) ^ i is 2 ^ (i * w).
pow-mul : (w i : ℕ) → (2 ^ w) ^ i ≡ 2 ^ (i * w)
pow-mul w zero = rw (pow-zero, zero-mul)
pow-mul w (suc i) = rw (pow-suc, pow-mul w i, ← pow-add) (ap (λ n. 2 ^ n) (omega arith))

range_count-pos :
    (lb ub : ℤ)
    → lb ≤ℤ ub
    → (range_count lb ub ≡ pos (pos_part (range_count lb ub))) × (0 < pos_part (range_count lb ub))
unfolding range_count ◌+ℤ◌ ◌-ℤ◌
range_count-pos lb ub h = (ground arith, ground arith)

scalarset_count-pos : (b : ℤ) → pos 0 <ℤ b → scalarset_count b ≡ ok (pos (pos_part b + 1))
unfolding scalarset_count ◌+ℤ◌
scalarset_count-pos b h = ground arith

pow-le : (e w i : ℕ) → e ≤ 2 ^ w → e ^ i ≤ 2 ^ (i * w)
pow-le e w i h = subst (λ n. e ^ i ≤ n) (pow-mul w i) (pow-le-pow_left h i)

array_count-pos :
    (i e : ℕ)
    → 0 < i
    → array_count (pos i) (pos e) ≡ ok (pos (if (i - 1) == 0 then 0 else 1 * e ^ (i - 1)))
unfolding array_count
array_count-pos i e h = ground (arith, pos_part-pred i, power_loop-pow (i - 1) e 1)

pos-pred : (i : ℕ) → 0 < i → pos i -ℤ pos 1 ≡ pos (i - 1)
unfolding ◌-ℤ◌
pos-pred i h = ground arith

array_width-pos : (i e : ℕ) → 0 < i → array_width (pos i) (pos e) ≡ ok (pos ((i - 1) * e))
unfolding array_width
array_width-pos i e h = ground (arith, pos-pred i, *ℤ_pos (i - 1) e)

array_fits :
    (i e w : ℕ) → e ≤ 2 ^ w → (if (i - 1) == 0 then 0 else 1 * e ^ (i - 1)) ≤ 2 ^ ((i - 1) * w)
array_fits i e w h = ground (arith, pow-le e w (i - 1))

module _ (g : Gmp) where
  -- What `validate` checks of ranges, scalarsets and arrays, of types with no union.
  unfoldable mutual
    pub IsSized : TypeExpr → Type 0
    IsSized (range min max) =
        (lb : ℤ) × (ub : ℤ) × (constant_fold g min ≡ ok lb)
        × (constant_fold g max ≡ ok ub)
        × (lb ≤ℤ ub)
    IsSized (scalarset bound) = (b : ℤ) × (constant_fold g bound ≡ ok b) × (pos 0 <ℤ b)
    IsSized (enum _) = Unit
    IsSized (record_type vs) = AreSized vs
    IsSized (array i e) = IsSized i × (is_simple i ≡ ok true) × IsSized e
    IsSized (type_expr_id _ null_type_decl) = ⊥
    IsSized (type_expr_id _ (ptr_type_decl _ t)) = IsSized t
    IsSized (union _) = ⊥

    pub AreSized : VarDecls → Type 0
    AreSized nil_vars = Unit
    AreSized (cons_vars (var _ t _ _) vs) = IsSized t × AreSized vs

  -- Count and width of a type.
  abbrev pub Fits : TypeExpr → Type 0
  Fits t =
      (n : ℕ) × (k : ℕ) × (count g t ≡ ok (pos n))
      × (width g t ≡ ok (pos k))
      × (n ≤ 2 ^ k)
      × (is_simple t ≡ ok true → 0 < n)

  simple-Fits :
      (n : ℕ) (t : TypeExpr)
      → 0 < n
      → count g t ≡ ok (pos n)
      → width g t ≡ ok (simple_width (pos n))
      → Fits t
  simple-Fits n t h p q =
      let (k, e, le, _) = simple_width-least n in (n, k, p, q ∙ ap ok e, le, λ _. h)

  mutual
    unfolding count width is_simple IsSized

    fits : (t : TypeExpr) → IsSized t → Fits t
    fits (range min max) (lb, ub, p, q, le) =
        let (e, n) = range_count-pos lb ub le in
        simple-Fits _ (range min max) n (rw (p, q) (ap ok e))
          (rw (p, q) (ap (λ c. ok (simple_width c)) e))
    fits (scalarset bound) (b, p, lt) =
        let e = scalarset_count-pos b lt in
        simple-Fits (pos_part b + 1) (scalarset bound) (omega arith) (rw p e) (rw (p, e) refl)
    fits (enum ms) h =
        let e = +ℤ_pos (length ms) 1 in
        simple-Fits (length ms + 1) (enum ms) (omega arith) (ap ok e)
          (ap (λ c. ok (simple_width c)) e)
    fits (record_type vs) h =
        let (n, k, p, q, le) = fits_fields vs h 1 0 in
        (
          1 * n,
          0 + k,
          p,
          q,
          subst₂ ◌≤◌ (sym (one-mul n)) (ap (λ x. 2 ^ x) (sym (zero-add k))) le,
          λ e. cc,
        )
    fits (array i e) (hi, simple, he) =
        let (ni, ki, pi, qi, li, pos_i) = fits i hi in
        let (ne, ke, pe, qe, le, _) = fits e he in
        let ni_pos = pos_i simple in
        (
          if (ni - 1) == 0 then 0 else 1 * ne ^ (ni - 1),
          (ni - 1) * ke,
          rw (pi, pe) (array_count-pos ni ne ni_pos),
          rw (pi, qe) (array_width-pos ni ke ni_pos),
          array_fits ni ne ke le,
          λ e. cc,
        )
    fits (type_expr_id _ null_type_decl) h = absurd h
    fits (type_expr_id _ (ptr_type_decl _ t)) h = fits t h
    fits (union _) h = absurd h

    fits_fields :
        (vs : VarDecls)
        → AreSized vs
        → (s w : ℕ)
        → (n : ℕ) × (k : ℕ) × (record_count g vs (pos s) ≡ ok (pos (s * n)))
          × (record_width g vs (pos w) ≡ ok (pos (w + k)))
          × (n ≤ 2 ^ k)
    fits_fields nil_vars h s w =
        (1, 0, ap (λ x. ok (pos x)) (omega arith), ap (λ x. ok (pos x)) (omega arith), omega arith)
    fits_fields (cons_vars (var _ t _ _) vs) (h, hs) s w =
        let (n, k, p, q, le, _) = fits t h in
        let (m, j, p', q', le') = fits_fields vs hs (s * n) (w + k) in
        (
          n * m,
          k + j,
          rw (p, *ℤ_pos s n) (p' ∙ ap (λ x. ok (pos x)) (mul_assoc s n m)),
          rw (q, +ℤ_pos w k) (q' ∙ ap (λ x. ok (pos x)) (add_assoc w k j)),
          subst (λ x. n * m ≤ x) (sym (pow-add k j)) (mul-le-mul le le'),
        )

  -- A type with no union, whose names resolve, whose ranges are not reversed, whose scalarsets are
  -- not empty and whose arrays have simple indices, has a count and a width, and has no more values
  -- than bit patterns of that width.
  pub count-le-width :
      (t : TypeExpr)
      → IsSized t
      → (n : ℕ) × (k : ℕ) × (count g t ≡ ok (pos n)) × (width g t ≡ ok (pos k)) × (n ≤ 2 ^ k)
  count-le-width t h = let (n, k, p, q, le, _) = fits t h in (n, k, p, q, le)
