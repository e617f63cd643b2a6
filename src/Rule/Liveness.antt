-- ===== src/Rule/Liveness.antt =====
-- `Model::liveness_count` (librumur/src/Model.cc): the visitor `LivenessCounter`.
pub mod Sum
pub mod Count
use rumur.Prelude.{ℕ, Bool, not, List, [], ◌∷◌}
use rumur.Prelude.Int.{ℤ, pos, ◌+ℤ◌, ◌*ℤ◌}
use rumur.Prelude.Results.{Result}
use rumur.Prelude.Runs.{Run, done, lift, require, ◌>>=◌, ◌>>◌}
use rumur.Ast.{Quantifier, Category, liveness}
use rumur.Gmp.{Gmp}
use rumur.Fold.Operand.{is_zero}
use rumur.Quantifier.{quantifier_constant, quantifier_count}
use rumur.Rule.{
  Rule, rule, simple_rule, start_state, property_rule, alias_rule, rule_set, Rules, nil_rules,
  cons_rules, Model, expr_child, type_child, function_child, rule_child,
}

-- The members of the visitor. An `mpz_class`, as the quantifiers' counts, has any size.
pub record LivenessCounter : Type 0 where
  pub count : ℤ
  pub multiplier : ℤ

unfoldable pub visit_property : Category → LivenessCounter → LivenessCounter
visit_property liveness s = record s { count = s.count +ℤ s.multiplier }
visit_property _ s = s

module _ (g : Gmp) (fuel : ℕ) where
  -- `for (q : quantifiers) { assert(q.constant()); multiplier *= q.count(); }`
  unfoldable pub enter : List Quantifier → ℤ → Run ℤ
  enter [] m = done m
  enter (q ∷ qs) m = do
    known ← lift (quantifier_constant g q)
    require known
    c ← quantifier_count g fuel q
    enter qs (m *ℤ c)

  -- `for (q : quantifiers) { assert(multiplier % q.count() == 0); multiplier /= q.count(); }`, where
  -- GMP traps a division by zero
  unfoldable pub leave : List Quantifier → ℤ → Run ℤ
  leave [] m = done m
  leave (q ∷ qs) m = do
    c ← quantifier_count g fuel q
    require (not (is_zero c))
    require (is_zero (g.tdiv_r m c))
    leave qs (g.tdiv_q m c)

  unfoldable mutual
    unfolding enter leave visit_property

    pub visit_rule : Rule → LivenessCounter → Run LivenessCounter
    visit_rule (rule _ qs _ (rule_set rs)) s = do
      m ← enter qs s.multiplier
      s' ← visit_rules rs (record s { multiplier = m })
      m' ← leave qs s'.multiplier
      done (record s' { multiplier = m' })
    visit_rule (rule _ _ _ (alias_rule rs)) s = visit_rules rs s
    visit_rule (rule _ _ _ (property_rule category _)) s = done (visit_property category s)
    visit_rule (rule _ _ _ (simple_rule _ _ _)) s = done s
    visit_rule (rule _ _ _ (start_state _ _)) s = done s

    pub visit_rules : Rules → LivenessCounter → Run LivenessCounter
    visit_rules nil_rules s = done s
    visit_rules (cons_rules r rs) s = do s' ← visit_rule r s; visit_rules rs s'

  unfoldable pub visit_model : Model → LivenessCounter → Run LivenessCounter
  unfolding visit_rule
  visit_model [] s = done s
  visit_model (rule_child r ∷ cs) s = do s' ← visit_rule r s; visit_model cs s'
  visit_model (expr_child _ ∷ cs) s = visit_model cs s
  visit_model (type_child _ _ ∷ cs) s = visit_model cs s
  visit_model (function_child _ ∷ cs) s = visit_model cs s

  unfoldable pub liveness_count : Model → Run ℤ
  unfolding visit_model
  liveness_count m = do
    s ← visit_model m (record { count = pos 0; multiplier = pos 1 })
    done s.count
