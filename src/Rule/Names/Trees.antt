-- ===== src/Rule/Names/Trees.antt =====
-- The names of a tree of rules, and the tree without them.
use rumur.Prelude.{List, [], ◌∷◌, ◌++◌, String}
use rumur.Rule.{
  Rule, rule, RuleKind, simple_rule, start_state, property_rule, alias_rule, rule_set, Rules,
  nil_rules, cons_rules, Child, expr_child, type_child, function_child, rule_child, Model,
}

-- The names of the rules of a tree, a rule before those within it.
abbrev mutual
  pub names : Rule → List String
  names (rule name quantifiers aliases kind) = name ∷ kind_names kind

  pub kind_names : RuleKind → List String
  kind_names (alias_rule rules) = rules_names rules
  kind_names (rule_set rules) = rules_names rules
  kind_names (simple_rule guard decls body) = []
  kind_names (start_state decls body) = []
  kind_names (property_rule category expr) = []

  pub rules_names : Rules → List String
  rules_names nil_rules = []
  rules_names (cons_rules r rules) = names r ++ rules_names rules

-- The tree without its names.
abbrev mutual
  pub nameless : Rule → Rule
  nameless (rule name quantifiers aliases kind) = rule "" quantifiers aliases (nameless_kind kind)

  pub nameless_kind : RuleKind → RuleKind
  nameless_kind (alias_rule rules) = alias_rule (nameless_rules rules)
  nameless_kind (rule_set rules) = rule_set (nameless_rules rules)
  nameless_kind (simple_rule guard decls body) = simple_rule guard decls body
  nameless_kind (start_state decls body) = start_state decls body
  nameless_kind (property_rule category expr) = property_rule category expr

  pub nameless_rules : Rules → Rules
  nameless_rules nil_rules = nil_rules
  nameless_rules (cons_rules r rules) = cons_rules (nameless r) (nameless_rules rules)

abbrev pub child_names : Child → List String
child_names (rule_child r) = names r
child_names (expr_child e) = []
child_names (type_child n t) = []
child_names (function_child f) = []

abbrev pub model_names : Model → List String
model_names [] = []
model_names (child ∷ model) = child_names child ++ model_names model

abbrev pub nameless_child : Child → Child
nameless_child (rule_child r) = rule_child (nameless r)
nameless_child (expr_child e) = expr_child e
nameless_child (type_child n t) = type_child n t
nameless_child (function_child f) = function_child f

abbrev pub nameless_model : Model → Model
nameless_model [] = []
nameless_model (child ∷ model) = nameless_child child ∷ nameless_model model
