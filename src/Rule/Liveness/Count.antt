-- ===== src/Rule/Liveness/Count.antt =====
-- The visitor `LivenessCounter` returns, and where it traps.
use native.Mathlib.Nat.{mul_assoc}
use rumur.Prelude.{
  ℕ, ◌+◌, ◌*◌, ◌<◌, ◌≡◌, ◌≢◌, sym, ap, ◌∙◌, true, false, String, List, [], ◌∷◌, ◌++◌, All, some,
  arith,
}
use rumur.Prelude.Int.{pos, ◌*ℤ◌, *ℤ_pos, +ℤ_pos}
use rumur.Prelude.Results.{ok, abort}
use rumur.Prelude.Runs.{done}
use rumur.Ast.{Quantifier, liveness}
use rumur.Gmp.{Gmp, IsGmp}
use rumur.Fold.Operand.{is_zero}
use rumur.Quantifier.{quantifier_constant, quantifier_count}
use rumur.Rule.{
  Rule, rule, simple_rule, start_state, property_rule, alias_rule, rule_set, Rules, nil_rules,
  cons_rules, Alias, Model, expr_child, type_child, function_child, rule_child,
}
use rumur.Rule.Flatten.{flatten, flatten_all}
use rumur.Rule.Liveness.{
  LivenessCounter, visit_property, enter, leave, visit_rule, visit_rules, visit_model,
  liveness_count,
}
use rumur.Rule.Liveness.Sum.{
  product, copies, total, total-append, total-add_aliases, total-add_quantifiers,
}

abbrev pub state : ℕ → ℕ → LivenessCounter
state c m = record { count = pos c; multiplier = pos m }

-- the rules of a model's children, flattened
unfoldable pub flatten_model : Model → List Rule
unfolding flatten
flatten_model [] = []
flatten_model (rule_child r ∷ cs) = flatten r ++ flatten_model cs
flatten_model (expr_child _ ∷ cs) = flatten_model cs
flatten_model (type_child _ _ ∷ cs) = flatten_model cs
flatten_model (function_child _ ∷ cs) = flatten_model cs

pos_not_zero : (n : ℕ) → 0 < n → (is_zero (pos n) ≡ false) × (pos n ≢ pos 0)
pos_not_zero n h = (ground arith, λ e. ground arith)

spread : (c m a b t : ℕ) → t ≡ a + b → c + m * a + m * b ≡ c + m * t
spread c m a b t e = rw e (omega arith)

module _ (g : Gmp) (fuel : ℕ) (size : Quantifier → ℕ) where
  -- A quantifier is constant, and its `count` returns its size, which is not 0.
  abbrev pub Counts : Quantifier → Type 0
  Counts q =
      (quantifier_constant g q ≡ ok true)
      × (quantifier_count g fuel q ≡ ok (some (pos (size q))))
      × (0 < size q)

  -- The quantifiers of the rulesets have sizes, and property rules have none of their own.
  unfoldable mutual
    pub HasCounts : Rule → Type 0
    HasCounts (rule _ qs _ (rule_set rs)) = All Counts qs × HaveCounts rs
    HasCounts (rule _ _ _ (alias_rule rs)) = HaveCounts rs
    HasCounts (rule _ qs _ (property_rule _ _)) = qs ≡ []
    HasCounts (rule _ _ _ (simple_rule _ _ _)) = Unit
    HasCounts (rule _ _ _ (start_state _ _)) = Unit

    pub HaveCounts : Rules → Type 0
    HaveCounts nil_rules = Unit
    HaveCounts (cons_rules r rs) = HasCounts r × HaveCounts rs

  abbrev pub ModelHasCounts : Model → Type 0
  ModelHasCounts [] = Unit
  ModelHasCounts (rule_child r ∷ cs) = HasCounts r × ModelHasCounts cs
  ModelHasCounts (_ ∷ cs) = ModelHasCounts cs

  enter-product :
      (qs : List Quantifier) (m : ℕ)
      → All Counts qs
      → enter g fuel qs (pos m) ≡ done (pos (m * product size qs))
  unfolding enter product
  enter-product [] m h = ap (λ n. done (pos n)) (omega arith)
  enter-product (q ∷ qs) m ((k, e, _), hs) =
      rw (k, e, *ℤ_pos m (size q))
        (enter-product qs (m * size q) hs ∙ ap (λ n. done (pos n)) (mul_assoc m (size q) _))

  module _ (laws : IsGmp g) where
    exact :
        (m n : ℕ)
        → 0 < n
        → (g.tdiv_q (pos (m * n)) (pos n) ≡ pos m) × (g.tdiv_r (pos (m * n)) (pos n) ≡ pos 0)
    exact m n h = (
      rw (← *ℤ_pos m n) (laws.tdiv_q_mul (pos m) (pos n) (pos_not_zero n h).1),
      rw (← *ℤ_pos m n) (laws.tdiv_r_mul (pos m) (pos n) (pos_not_zero n h).1),
    )

    leave-product :
        (qs : List Quantifier) (m : ℕ)
        → All Counts qs
        → leave g fuel qs (pos (m * product size qs)) ≡ done (pos m)
    unfolding leave product
    leave-product [] m h = ap (λ n. done (pos n)) (omega arith)
    leave-product (q ∷ qs) m ((k, e, p), hs) =
        let turn : m * (size q * product size qs) ≡ m * product size qs * size q = grind arith in
        rw
          (
            e,
            (pos_not_zero (size q) p).0,
            turn,
            (exact (m * product size qs) (size q) p).1,
            (exact (m * product size qs) (size q) p).0,
          )
          (leave-product qs m hs)

    mutual
      unfolding visit_rule visit_property flatten total copies product HasCounts

      visit-total :
          (r : Rule) (c m : ℕ)
          → HasCounts r
          → visit_rule g fuel r (state c m) ≡ done (state (c + m * total size (flatten r)) m)
      visit-total (rule _ qs _ (rule_set rs)) c m (hq, hr) =
          let turn : c + m * product size qs * total size (flatten_all rs)
              ≡ c + m * (total size (flatten_all rs) * product size qs) =
            grind arith in
          rw
            (
              enter-product qs m hq,
              visits-total rs c (m * product size qs) hr,
              leave-product qs m hq,
              total-add_quantifiers size qs (flatten_all rs),
            )
            (ap (λ n. done (state n m)) turn)
      visit-total (rule _ _ as' (alias_rule rs)) c m h =
          visits-total rs c m h
          ∙ ap (λ n. done (state (c + m * n) m)) (sym (total-add_aliases size as' (flatten_all rs)))
      visit-total (rule _ qs _ (property_rule liveness _)) c m h =
          rw (h, +ℤ_pos c m) (ap (λ n. done (state n m)) (omega arith))
      visit-total (rule _ qs _ (property_rule _ _)) c m h = ap (λ n. done (state n m)) (omega arith)
      visit-total (rule _ _ _ (simple_rule _ _ _)) c m h = ap (λ n. done (state n m)) (omega arith)
      visit-total (rule _ _ _ (start_state _ _)) c m h = ap (λ n. done (state n m)) (omega arith)

      visits-total :
          (rs : Rules) (c m : ℕ)
          → HaveCounts rs
          → visit_rules g fuel rs (state c m) ≡ done (state (c + m * total size (flatten_all rs)) m)
      visits-total nil_rules c m h = ap (λ n. done (state n m)) (omega arith)
      visits-total (cons_rules r rs) c m (hr, hs) = rw (visit-total r c m hr) (
          visits-total rs (c + m * total size (flatten r)) m hs
          ∙ ap (λ n. done (state n m))
              (spread c m _ _ _ (total-append size (flatten r) (flatten_all rs))))

    visit_model-total :
        (cs : Model) (c m : ℕ)
        → ModelHasCounts cs
        → visit_model g fuel cs (state c m) ≡ done (state (c + m * total size (flatten_model cs)) m)
    unfolding visit_model flatten_model total
    visit_model-total [] c m h = ap (λ n. done (state n m)) (omega arith)
    visit_model-total (rule_child r ∷ cs) c m (hr, hs) = rw (visit-total r c m hr) (
        visit_model-total cs (c + m * total size (flatten r)) m hs
        ∙ ap (λ n. done (state n m))
            (spread c m _ _ _ (total-append size (flatten r) (flatten_model cs))))
    visit_model-total (expr_child _ ∷ cs) c m h = visit_model-total cs c m h
    visit_model-total (type_child _ _ ∷ cs) c m h = visit_model-total cs c m h
    visit_model-total (function_child _ ∷ cs) c m h = visit_model-total cs c m h

    -- Where the quantifiers of every ruleset are constant and count at least one value each, the
    -- visitor returns, and the result is the number of copies of liveness properties among the
    -- flattened rules, a copy for each choice of values for the quantifiers of the property.
    pub liveness_count-total :
        (m : Model)
        → ModelHasCounts m
        → liveness_count g fuel m ≡ done (pos (total size (flatten_model m)))
    unfolding liveness_count
    liveness_count-total m h = rw (visit_model-total m 0 1 h) (ap (λ n. done (pos n)) (omega arith))

module _ (g : Gmp) (fuel : ℕ) where
  -- A ruleset over a constant quantifier that counts no value makes `liveness_count` abort: its
  -- visitor divides by zero, whatever rules stand in the ruleset, if it returns from them.
  pub liveness_count-empty :
      (name : String) (q : Quantifier) (as' : List Alias) (rs : Rules) (m : Model)
      (s : LivenessCounter)
      → quantifier_constant g q ≡ ok true
      → quantifier_count g fuel q ≡ ok (some (pos 0))
      → visit_rules g fuel rs (state 0 0) ≡ done s
      → liveness_count g fuel (rule_child (rule name (q ∷ []) as' (rule_set rs)) ∷ m) ≡ abort
  unfolding liveness_count visit_model visit_rule enter leave ◌*ℤ◌
  liveness_count-empty name q as' rs m s known none' returns =
      rw (known, none', returns) (ground arith)
