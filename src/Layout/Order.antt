-- ===== src/Layout/Order.antt =====
-- The order of `comp`: what `std::sort` requires of it.
use mathlib.Core.List.{Permᴰ}
use rumur.Prelude.{List, All, ◌≡◌, refl, sym, true, false, Bool, arith, ◌∙◌}
use rumur.Prelude.Int.{ℤ, pos, ◌<ℤ◌}
use rumur.Prelude.Results.{Result, ok}
use rumur.Ast.{VarDecl}
use rumur.Gmp.{Gmp}
use rumur.TypeExpr.Size.{width}
use rumur.Layout.{precedes, is_onehot, comp, type_of, Sort}

-- A strict weak order on the items with `P`.
pub record IsStrictWeak {ℓ κ} {A : Type ℓ} (P : A → Type κ) (less : A → A → Bool)
    : Type (ℓ ⊔ κ) where
  pub irreflexive : (a : A) → P a → less a a ≡ false
  pub transitive :
      (a b c : A) → P a → P b → P c → less a b ≡ true → less b c ≡ true → less a c ≡ true
  pub incomparable :
      (a b c : A)
      → P a
      → P b
      → P c
      → less a b ≡ false
      → less b a ≡ false
      → less b c ≡ false
      → less c b ≡ false
      → (less a c ≡ false) × (less c a ≡ false)

-- The behaviour of `std::sort` that the theorems rely on: for a strict weak order, the vector is
-- permuted.
pub record IsSort (sort : Sort) : Type 1 where
  pub permutes :
      (cmp : VarDecl → VarDecl → Result Bool) (P : VarDecl → Type 0)
      (less : VarDecl → VarDecl → Bool)
      → IsStrictWeak P less
      → ((a b : VarDecl) → P a → P b → cmp a b ≡ ok (less a b))
      → (vs : List VarDecl) → All P vs
      → (sorted : List VarDecl) × (sort cmp vs ≡ ok sorted) × Permᴰ vs sorted

module _ (g : Gmp) where
  abbrev pub IsPositive : ℤ → Type 0
  IsPositive w = pos 0 <ℤ w

  -- On widths above 0, comp is a strict weak order.
  pub precedes-IsStrictWeak : IsStrictWeak IsPositive (precedes g)
  unfolding precedes is_onehot
  precedes-IsStrictWeak = record {
    irreflexive = λ a p. ground arith;
    transitive = λ a b c p q r h k. ground arith;
    incomparable = λ a b c p q r h k l m. ground arith;
  }

  comp-zero : (v : VarDecl) → width g (type_of v) ≡ ok (pos 0) → comp g v v ≡ ok true
  unfolding comp precedes
  comp-zero v h = rw h refl

  -- Where one of the variables has width 0, no strict weak order agrees with comp.
  pub comp-not-IsStrictWeak :
      (v : VarDecl) (P : VarDecl → Type 0) (less : VarDecl → VarDecl → Bool)
      → width g (type_of v) ≡ ok (pos 0)
      → P v
      → ((a b : VarDecl) → P a → P b → comp g a b ≡ ok (less a b))
      → ¬ IsStrictWeak P less
  comp-not-IsStrictWeak v P less h p agree order =
      let e = sym (comp-zero v h) ∙ agree v v p p in let f = order.irreflexive v p in cc
