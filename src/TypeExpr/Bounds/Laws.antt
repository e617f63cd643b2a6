-- ===== src/TypeExpr/Bounds/Laws.antt =====
-- The bounds of a simple type, against its count and, for a union, against its members' bounds.
use rumur.Prelude.{
  ℕ, suc, ◌≡◌, refl, if◌then◌else◌, ap, Bool, true, false, not, Option, none, some, length, arith,
  [], ◌∷◌,
}
use rumur.Prelude.Int.{ℤ, pos, ◌+ℤ◌, ◌-ℤ◌, ◌≤ℤ◌, ◌<ℤ◌, ltb_ℤ, eq_of_parts, int_laws}
use rumur.Prelude.Results.{
  Result, ok, err, abort, >>=-eq-ok, ◌>>=◌, ◌>>◌, throw_if, non_simple_union,
}
use rumur.Ast.{
  TypeExpr, range, scalarset, enum, record_type, array, type_expr_id, union, null_type_decl,
  ptr_type_decl, TypeExprs, nil_types, cons_types,
}
use rumur.Gmp.{Gmp}
use rumur.TypeExpr.Bounds.{
  is_simple, union_is_simple, lower, upper, lower_bound, union_lower_bound, upper_bound,
  union_upper_bound,
}
use rumur.TypeExpr.Size.{count, range_count, scalarset_count}
use rumur.TypeExpr.Size.Fits.{IsSized}

≤ℤ_trans : (a b c : ℤ) → a ≤ℤ b → b ≤ℤ c → a ≤ℤ c
≤ℤ_trans a b c h k = omega arith

lower_le : (bound : Option ℤ) (b : ℤ) → lower bound b ≤ℤ b
lower_le none b = omega arith
lower_le (some a) b = ground arith

lower_le_set : (a b : ℤ) → lower (some a) b ≤ℤ a
lower_le_set a b = ground arith

upper_le : (bound : Option ℤ) (b : ℤ) → b ≤ℤ upper bound b
upper_le none b = omega arith
upper_le (some a) b = ground arith

upper_le_set : (a b : ℤ) → a ≤ℤ upper (some a) b
upper_le_set a b = ground arith

simple_then {ℓ} :
    {A : Type ℓ} (simple : Result Bool) (rest : Result A) {a : A}
    → (simple >>= λ s. throw_if (not s) non_simple_union >> rest) ≡ ok a
    → rest ≡ ok a
simple_then (ok true) rest h = h
simple_then (ok false) rest h = cc
simple_then (err e) rest h = cc
simple_then abort rest h = cc

-- not the empty enumeration
abbrev pub HasValue : TypeExpr → Type 0
HasValue (enum []) = ⊥
HasValue (type_expr_id _ (ptr_type_decl _ t)) = HasValue t
HasValue _ = Unit

range_count_lem : (lo hi : ℤ) → range_count lo hi ≡ hi -ℤ lo +ℤ pos 2
unfolding range_count
range_count_lem lo hi = refl

scalarset_count_lem : (b : ℤ) → pos 0 <ℤ b → scalarset_count b ≡ ok (b -ℤ pos 1 -ℤ pos 0 +ℤ pos 2)
unfolding scalarset_count
scalarset_count_lem b h =
    ground (arith, eq_of_parts (b +ℤ pos 1) (b -ℤ pos 1 -ℤ pos 0 +ℤ pos 2) (omega int_laws))

enum_last :
    (n : ℕ)
    → (let size = pos (suc n) in if ltb_ℤ (pos 0) size then size -ℤ pos 1 else size)
      ≡ pos (suc n) -ℤ pos 1
enum_last n = ground arith

module _ (g : Gmp) where
  -- the members' own bounds lie at or above, or below, a value
  abbrev pub AllAbove : ℤ → TypeExprs → Type 0
  AllAbove lo nil_types = Unit
  AllAbove lo (cons_types m ms) = ((b : ℤ) × (lower_bound g m ≡ ok b) × (lo ≤ℤ b)) × AllAbove lo ms

  abbrev pub AllBelow : ℤ → TypeExprs → Type 0
  AllBelow hi nil_types = Unit
  AllBelow hi (cons_types m ms) = ((b : ℤ) × (upper_bound g m ≡ ok b) × (b ≤ℤ hi)) × AllBelow hi ms

  union_lower_bound-set :
      (ms : TypeExprs) (a lo : ℤ)
      → union_lower_bound g ms (some a) ≡ ok lo
      → (lo ≤ℤ a) × AllAbove lo ms
  unfolding lower_bound
  union_lower_bound-set nil_types a lo h = (ground arith, tt)
  union_lower_bound-set (cons_types m ms) a lo h =
      let (b, p, k) = >>=-eq-ok (lower_bound g m) _ h in
      let (le, rest) = union_lower_bound-set ms (lower (some a) b) lo k in
      (
        ≤ℤ_trans lo (lower (some a) b) a le (lower_le_set a b),
        ((b, p, ≤ℤ_trans lo (lower (some a) b) b le (lower_le (some a) b)), rest),
      )

  union_upper_bound-set :
      (ms : TypeExprs) (a hi : ℤ)
      → union_upper_bound g ms (some a) ≡ ok hi
      → (a ≤ℤ hi) × AllBelow hi ms
  unfolding upper_bound
  union_upper_bound-set nil_types a hi h = (ground arith, tt)
  union_upper_bound-set (cons_types m ms) a hi h =
      let (b, p, k) = >>=-eq-ok (upper_bound g m) _ h in
      let (le, rest) = union_upper_bound-set ms (upper (some a) b) hi k in
      (
        ≤ℤ_trans a (upper (some a) b) hi (upper_le_set a b) le,
        ((b, p, ≤ℤ_trans b (upper (some a) b) hi (upper_le (some a) b) le), rest),
      )

  union_lower_bound-none :
      (ms : TypeExprs) (lo : ℤ) → union_lower_bound g ms none ≡ ok lo → AllAbove lo ms
  unfolding lower_bound
  union_lower_bound-none nil_types lo h = tt
  union_lower_bound-none (cons_types m ms) lo h =
      let (b, p, k) = >>=-eq-ok (lower_bound g m) _ h in
      let (le, rest) = union_lower_bound-set ms b lo k in ((b, p, le), rest)

  union_upper_bound-none :
      (ms : TypeExprs) (hi : ℤ) → union_upper_bound g ms none ≡ ok hi → AllBelow hi ms
  unfolding upper_bound
  union_upper_bound-none nil_types hi h = tt
  union_upper_bound-none (cons_types m ms) hi h =
      let (b, p, k) = >>=-eq-ok (upper_bound g m) _ h in
      let (le, rest) = union_upper_bound-set ms b hi k in ((b, p, le), rest)

  -- Where a union has bounds, every member has bounds, and they lie between the union's.
  pub union_bounds :
      (ms : TypeExprs) (lo hi : ℤ)
      → lower_bound g (union ms) ≡ ok lo
      → upper_bound g (union ms) ≡ ok hi
      → AllAbove lo ms × AllBelow hi ms
  unfolding lower_bound upper_bound
  union_bounds ms lo hi h k = (
    union_lower_bound-none ms lo (simple_then (union_is_simple ms) (union_lower_bound g ms none) h),
    union_upper_bound-none ms hi (simple_then (union_is_simple ms) (union_upper_bound g ms none) k),
  )

  -- A simple type that is no union and no empty enumeration has a lower and an upper bound, in this
  -- order, and its count is the number of values from the one to the other and the undefined value.
  pub count-bounds :
      (t : TypeExpr)
      → IsSized g t
      → is_simple t ≡ ok true
      → HasValue t
      → (lo : ℤ) × (hi : ℤ) × (lower_bound g t ≡ ok lo)
        × (upper_bound g t ≡ ok hi)
        × (lo ≤ℤ hi)
        × (count g t ≡ ok (hi -ℤ lo +ℤ pos 2))
  unfolding IsSized is_simple lower_bound upper_bound count
  count-bounds (range min max) (lb, ub, p, q, le) s v =
      (lb, ub, p, q, le, rw (p, q) (ap ok (range_count_lem lb ub)))
  count-bounds (scalarset bound) (b, p, lt) s v =
      (pos 0, b -ℤ pos 1, refl, rw p refl, omega int_laws, rw p (scalarset_count_lem b lt))
  count-bounds (enum []) h s v = absurd v
  count-bounds (enum (m ∷ ms)) h s v = (
    pos 0,
    pos (suc (length ms)) -ℤ pos 1,
    refl,
    ap ok (enum_last (length ms)),
    omega int_laws,
    ap ok (eq_of_parts _ _ (omega int_laws)),
  )
  count-bounds (record_type _) h s v = cc
  count-bounds (array _ _) h s v = cc
  count-bounds (type_expr_id _ null_type_decl) h s v = absurd h
  count-bounds (type_expr_id _ (ptr_type_decl _ t)) h s v = count-bounds t h s v
  count-bounds (union _) h s v = absurd h
