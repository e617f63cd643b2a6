-- ===== src/Layout/Places.antt =====
-- The offsets that `Reorderer::visit_model` assigns: the variables fill the state and do not overlap.
use mathlib.Core.List.{Permᴰ}
use rumur.Prelude.{
  ℕ, ◌+◌, ◌≤◌, ◌<◌, ◌≡◌, refl, ◌∙◌, ap, ap₂, false, Bool, List, [], ◌∷◌, String, str_eq, str_eq_iff,
  All, ◌⊎◌, inl, arith,
}
use rumur.Prelude.Int.{ℤ, pos, pos_part, ◌<ℤ◌, +ℤ_pos}
use rumur.Prelude.Permutations.{Pairwise, All-imp}
use rumur.Prelude.Results.{Result, ok}
use rumur.Ast.{VarDecl}
use rumur.Gmp.{Gmp}
use rumur.TypeExpr.Size.{width}
use rumur.Layout.{name_of, type_of, Offsets, at, sum_widths, precedes, comp, assign_offsets}
use rumur.Layout.Names.{Differ, differ}
use rumur.Layout.Order.{IsStrictWeak, precedes-IsStrictWeak}

abbrev pub value_or_zero : Result ℤ → ℕ
value_or_zero (ok w) = pos_part w
value_or_zero _ = 0

module _ (g : Gmp) where
  abbrev pub width_of : VarDecl → ℕ
  width_of v = value_or_zero (width g (type_of v))

  -- A variable has a width, and it is not 0.
  abbrev pub HasWidth : VarDecl → Type 0
  HasWidth v = (k : ℕ) × (width g (type_of v) ≡ ok (pos k)) × (0 < k)

  abbrev pub total : List VarDecl → ℕ
  total [] = 0
  total (v ∷ vs) = width_of v + total vs

  -- A variable lies between two bits of the state; two variables do not overlap.
  abbrev pub LiesWithin : ℕ → ℕ → ℤ → VarDecl → Type 0
  LiesWithin low high offset v = (k : ℕ) × (offset ≡ pos k) × (low ≤ k) × (k + width_of v ≤ high)

  abbrev pub Apart : (VarDecl → ℤ) → VarDecl → VarDecl → Type 0
  Apart f a b =
      (pos_part (f a) + width_of a ≤ pos_part (f b))
      ⊎ (pos_part (f b) + width_of b ≤ pos_part (f a))

  pub width_lem : (v : VarDecl) → HasWidth v → width g (type_of v) ≡ ok (pos (width_of v))
  width_lem v (k, h, _) = rw h refl

  -- The offsets that the loop assigns from bit `n` on.
  unfoldable pub places : List VarDecl → ℕ → Offsets → Offsets
  places [] n os = os
  places (v ∷ vs) n os = places vs (n + width_of v) ((name_of v, pos n) ∷ os)

  pub assign_offsets-places :
      (vs : List VarDecl) (n : ℕ) (os : Offsets)
      → All HasWidth vs
      → assign_offsets g vs (pos n) os ≡ ok (places vs n os)
  unfolding assign_offsets places
  assign_offsets-places [] n os h = refl
  assign_offsets-places (v ∷ vs) n os (h, hs) =
      rw (width_lem v h, +ℤ_pos) (assign_offsets-places vs (n + width_of v) _ hs)

  at-places :
      (name : String) (vs : List VarDecl) (n : ℕ) (os : Offsets)
      → All (λ v. str_eq name (name_of v) ≡ false) vs
      → at name (places vs n os) ≡ at name os
  unfolding places at
  at-places name [] n os h = refl
  at-places name (v ∷ vs) n os (h, hs) = at-places name vs (n + width_of v) _ hs ∙ rw h refl

  -- what the map of the offsets has for a variable
  abbrev pub placed : List VarDecl → ℕ → Offsets → VarDecl → ℤ
  placed vs n os v = at (name_of v) (places vs n os)

  placed-first :
      (v : VarDecl) (vs : List VarDecl) (n : ℕ) (os : Offsets)
      → All (Differ v) vs
      → placed (v ∷ vs) n os v ≡ pos n
  unfolding places at
  placed-first v vs n os h =
      at-places (name_of v) vs (n + width_of v) _
        (All-imp (λ u. differ (name_of v) (name_of u)) vs h)
      ∙ rw ((str_eq_iff (name_of v) (name_of v)).1 refl) refl

  pub places-Apart :
      (vs : List VarDecl) (n : ℕ) (os : Offsets)
      → Pairwise Differ vs
      → All (λ v. LiesWithin n (n + total vs) (placed vs n os v) v) vs
        × Pairwise (Apart (placed vs n os)) vs
  unfolding places
  places-Apart [] n os h = (tt, tt)
  places-Apart (v ∷ vs) n os (h, hs) =
      let (within, apart) = places-Apart vs (n + width_of v) ((name_of v, pos n) ∷ os) hs in
      let here = placed-first v vs n os h in
      (
        (
          (n, here, omega arith, omega arith),
          All-imp (λ u (k, e, low, high). (k, e, omega arith, omega arith)) vs within,
        ),
        (All-imp (λ u (k, e, low, high). inl (rw (here, e) low)) vs within, apart),
      )

  pub sum_widths-total :
      (vs : List VarDecl) (n : ℕ)
      → All HasWidth vs
      → sum_widths g vs (pos n) ≡ ok (pos (n + total vs))
  unfolding sum_widths
  sum_widths-total [] n h = ap (λ k. ok (pos k)) (omega arith)
  sum_widths-total (v ∷ vs) n (h, hs) =
      rw (width_lem v h, +ℤ_pos)
        (sum_widths-total vs (n + width_of v) hs ∙ ap (λ k. ok (pos k)) (omega arith))

  pub total-perm : {xs ys : List VarDecl} → Permᴰ xs ys → total xs ≡ total ys
  total-perm Permᴰ.nil = refl
  total-perm (Permᴰ.cons e p) = ap₂ (λ a n. width_of a + n) e (total-perm p)
  total-perm (Permᴰ.swap e f) = rw (e, f) (omega arith)
  total-perm (Permᴰ.trans p q) = total-perm p ∙ total-perm q

  -- the order of comp on variables that have a width
  abbrev pub before : VarDecl → VarDecl → Bool
  before a b = precedes g (pos (width_of a)) (pos (width_of b))

  positive : (v : VarDecl) → HasWidth v → pos 0 <ℤ pos (width_of v)
  positive v (k, h, p) = rw h (omega arith)

  pub before-IsStrictWeak : IsStrictWeak HasWidth before
  before-IsStrictWeak =
      let order = precedes-IsStrictWeak g in
      record {
        irreflexive = λ a h. order.irreflexive _ (positive a h);
        transitive =
            λ a b c h k l. order.transitive _ _ _ (positive a h) (positive b k) (positive c l);
        incomparable =
            λ a b c h k l. order.incomparable _ _ _ (positive a h) (positive b k) (positive c l);
      }

  pub comp-before : (a b : VarDecl) → HasWidth a → HasWidth b → comp g a b ≡ ok (before a b)
  unfolding comp
  comp-before a b h k = rw (width_lem a h, width_lem b k) refl
