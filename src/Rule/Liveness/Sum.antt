-- ===== src/Rule/Liveness/Sum.antt =====
-- `liveness_count` against the flattened rules.
use native.Mathlib.Nat.{mul_assoc}
use rumur.Prelude.{ℕ, ◌+◌, ◌*◌, ◌≡◌, refl, sym, ap₂, List, [], ◌∷◌, ◌++◌, map, arith}
use rumur.Ast.{Quantifier, liveness}
use rumur.Rule.{Rule, rule, property_rule, Alias}
use rumur.Rule.Flatten.{add_aliases, add_quantifiers}

-- how many values each quantifier has
module _ (size : Quantifier → ℕ) where
  unfoldable pub product : List Quantifier → ℕ
  product [] = 1
  product (q ∷ qs) = size q * product qs

  -- the copies that are made of a rule, if it is a liveness property
  unfoldable pub copies : Rule → ℕ
  copies (rule _ qs _ (property_rule liveness _)) = product qs
  copies _ = 0

  unfoldable pub total : List Rule → ℕ
  total [] = 0
  total (r ∷ rs) = copies r + total rs

  pub product-append : (ps qs : List Quantifier) → product (ps ++ qs) ≡ product ps * product qs
  unfolding product
  product-append [] qs = omega arith
  product-append (p ∷ ps) qs = rw (product-append ps qs) (sym (mul_assoc (size p) _ _))

  pub total-append : (rs ss : List Rule) → total (rs ++ ss) ≡ total rs + total ss
  unfolding total
  total-append [] ss = omega arith
  total-append (r ∷ rs) ss = omega (arith, total-append rs ss)

  copies-add_aliases : (as' : List Alias) (r : Rule) → copies (add_aliases as' r) ≡ copies r
  unfolding copies
  copies-add_aliases as' (rule _ _ _ (property_rule liveness _)) = refl
  copies-add_aliases as' (rule _ _ _ (property_rule _ _)) = refl
  copies-add_aliases as' (rule _ _ _ _) = refl

  copies-add_quantifiers :
      (qs : List Quantifier) (r : Rule) → copies (add_quantifiers qs r) ≡ copies r * product qs
  unfolding copies
  copies-add_quantifiers qs (rule _ ps _ (property_rule liveness _)) = product-append ps qs
  copies-add_quantifiers qs (rule _ _ _ (property_rule _ _)) = omega arith
  copies-add_quantifiers qs (rule _ _ _ _) = omega arith

  pub total-add_aliases :
      (as' : List Alias) (rs : List Rule) → total (map (add_aliases as') rs) ≡ total rs
  unfolding total
  total-add_aliases as' [] = refl
  total-add_aliases as' (r ∷ rs) = ap₂ ◌+◌ (copies-add_aliases as' r) (total-add_aliases as' rs)

  pub total-add_quantifiers :
      (qs : List Quantifier) (rs : List Rule)
      → total (map (add_quantifiers qs) rs) ≡ total rs * product qs
  unfolding total
  total-add_quantifiers qs [] = omega arith
  total-add_quantifiers qs (r ∷ rs) =
      omega (arith, copies-add_quantifiers qs r, total-add_quantifiers qs rs)
