-- ===== src/Examples/Names.antt =====
-- A model whose rules have no name, or names that clash.
use native.Mathlib.Omega.{arith}
use rumur.Prelude.{◌≡◌, refl, [], ◌∷◌, some, All}
use rumur.Ast.{null_expr, nil_decls, nil_stmts}
use rumur.Rule.{Model, rule, simple_rule, rule_set, start_state, nil_rules, cons_rules, rule_child}
use rumur.Rule.Names.{
  sanitise_rule_names, visit_model, visit_child, visit_rule, name_rule, fresh, contains, next_index,
  replace, is_symbol, underscores,
}
use rumur.Rule.Names.Decimal.{to_string, digits, digit}
use rumur.Rule.Names.Symbols.{IsName}
use rumur.Rule.Names.Trees.{model_names, nameless_model}
use rumur.Rule.Names.Distinct.{Differ}
use rumur.Rule.Names.Visits.{sanitise_rule_names_lem}

abbrev clashing : Model
clashing =
    rule_child (rule "" [] [] (start_state nil_decls nil_stmts))
    ∷ rule_child (
        rule "a b" [] [] (
          rule_set
            (cons_rules (rule "a_b" [] [] (simple_rule null_expr nil_decls nil_stmts)) nil_rules)))
    ∷ []

clashing_names :
    (model' : Model) × (sanitise_rule_names clashing ≡ some model')
    × (model_names model' ≡ "startstate0" ∷ "a_b" ∷ "a_b1" ∷ [])
unfolding sanitise_rule_names visit_model visit_child visit_rule name_rule fresh contains next_index
    replace is_symbol underscores to_string digits digit
clashing_names = (_, refl, refl)

sanitise_rule_names_lem_example :
    (model' : Model) × (sanitise_rule_names clashing ≡ some model')
    × (nameless_model model' ≡ nameless_model clashing)
    × Differ (model_names model')
    × All IsName (model_names model')
sanitise_rule_names_lem_example = sanitise_rule_names_lem clashing (omega arith)
