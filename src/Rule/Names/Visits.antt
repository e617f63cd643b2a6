-- ===== src/Rule/Names/Visits.antt =====
-- The visits of librumur/src/sanitise_rule_names.cc return, and give the rules of a tree new names.
use rumur.Prelude.{
  ◌^◌, ◌<◌, ◌≡◌, refl, subst, ap, ap₂, [], ◌∷◌, String, some, length, length-append, arith, All,
}
use rumur.Rule.{
  Rule, rule, RuleKind, simple_rule, start_state, property_rule, alias_rule, rule_set, Rules,
  nil_rules, cons_rules, Child, expr_child, type_child, function_child, rule_child, Model,
}
use rumur.Rule.Names.{
  RuleNamer, name_rule, prefix_of, visit_rule, visit_kind, visit_rules, visit_child, visit_model,
  sanitise_rule_names,
}
use rumur.Rule.Names.Trees.{
  names, kind_names, rules_names, nameless, nameless_kind, nameless_rules, child_names, model_names,
  nameless_child, nameless_model,
}
use rumur.Rule.Names.Symbols.{IsName, name_rule_lem}
use rumur.Rule.Names.Distinct.{push, contains-All, push-Differ, Differ}
use rumur.Rule.Names.Parts.{Sanitised, HasRoom, Sanitised-join, Sanitised-wrap, Sanitised-leaf}

name-Sanitised :
    (namer : RuleNamer) (prefix name : String)
    → HasRoom namer (name ∷ [])
    → Sanitised (λ n. n ∷ []) (λ n. "") namer name (name_rule namer prefix name)
unfolding push
name-Sanitised namer prefix name room =
    let (name', index', returned, (free, symbols, small)) =
      name_rule_lem namer prefix name room.0 (omega (arith, room)) in
    record {
      after = name';
      state = record { index = index'; used = name' ∷ namer.used };
      returned = returned;
      pushes = refl;
      small = small;
      same = refl;
      kept = refl;
      symbols = (symbols, tt);
      different = λ h. (contains-All namer.used name' free, h);
    }

mutual
  unfolding visit_rule

  rule-Sanitised :
      (r : Rule) (namer : RuleNamer)
      → HasRoom namer (names r)
      → Sanitised names nameless namer r (visit_rule namer r)
  rule-Sanitised (rule name qs as' kind) namer room =
      Sanitised-join (λ n. n ∷ []) kind_names names (λ n. "") nameless_kind nameless
        (λ n k. rule n qs as' k) (λ n k. refl) (λ n n' k k' e f. ap (rule "" qs as') f) namer name
        kind (name_rule namer (prefix_of kind) name) (λ namer'. visit_kind namer' kind)
        (name-Sanitised namer (prefix_of kind) name (room.0, omega (arith, room)))
        (λ namer' room'. kind-Sanitised kind namer' room') room.1

  kind-Sanitised :
      (kind : RuleKind) (namer : RuleNamer)
      → HasRoom namer (kind_names kind)
      → Sanitised kind_names nameless_kind namer kind (visit_kind namer kind)
  kind-Sanitised (alias_rule rules) namer room =
      Sanitised-wrap rules_names kind_names nameless_rules nameless_kind alias_rule (λ p. refl)
        (λ p p' e. ap alias_rule e) namer rules (visit_rules namer rules)
        (rules-Sanitised rules namer room)
  kind-Sanitised (rule_set rules) namer room =
      Sanitised-wrap rules_names kind_names nameless_rules nameless_kind rule_set (λ p. refl)
        (λ p p' e. ap rule_set e) namer rules (visit_rules namer rules)
        (rules-Sanitised rules namer room)
  kind-Sanitised (simple_rule guard decls body) namer room =
      Sanitised-leaf kind_names nameless_kind namer _ refl room.0
  kind-Sanitised (start_state decls body) namer room =
      Sanitised-leaf kind_names nameless_kind namer _ refl room.0
  kind-Sanitised (property_rule category expr) namer room =
      Sanitised-leaf kind_names nameless_kind namer _ refl room.0

  rules-Sanitised :
      (rules : Rules) (namer : RuleNamer)
      → HasRoom namer (rules_names rules)
      → Sanitised rules_names nameless_rules namer rules (visit_rules namer rules)
  rules-Sanitised nil_rules namer room =
      Sanitised-leaf rules_names nameless_rules namer nil_rules refl room.0
  rules-Sanitised (cons_rules r rules) namer room =
      Sanitised-join names rules_names rules_names nameless nameless_rules nameless_rules cons_rules
        (λ a b. refl) (λ a a' b b' e f. ap₂ cons_rules e f) namer r rules (visit_rule namer r)
        (λ namer'. visit_rules namer' rules)
        (rule-Sanitised r namer
          (room.0, omega (arith, room, length-append (names r) (rules_names rules))))
        (λ namer' room'. rules-Sanitised rules namer' room') room.1

child-Sanitised :
    (child : Child) (namer : RuleNamer)
    → HasRoom namer (child_names child)
    → Sanitised child_names nameless_child namer child (visit_child namer child)
unfolding visit_child
child-Sanitised (rule_child r) namer room =
    Sanitised-wrap names child_names nameless nameless_child rule_child (λ p. refl)
      (λ p p' e. ap rule_child e) namer r (visit_rule namer r) (rule-Sanitised r namer room)
child-Sanitised (expr_child e) namer room =
    Sanitised-leaf child_names nameless_child namer _ refl room.0
child-Sanitised (type_child n t) namer room =
    Sanitised-leaf child_names nameless_child namer _ refl room.0
child-Sanitised (function_child f) namer room =
    Sanitised-leaf child_names nameless_child namer _ refl room.0

model-Sanitised :
    (model : Model) (namer : RuleNamer)
    → HasRoom namer (model_names model)
    → Sanitised model_names nameless_model namer model (visit_model namer model)
unfolding visit_model
model-Sanitised [] namer room = Sanitised-leaf model_names nameless_model namer [] refl room.0
model-Sanitised (child ∷ model) namer room =
    Sanitised-join child_names model_names model_names nameless_child nameless_model nameless_model
      ◌∷◌ (λ a b. refl) (λ a a' b b' e f. ap₂ ◌∷◌ e f) namer child model (visit_child namer child)
      (λ namer'. visit_model namer' model)
      (child-Sanitised child namer
        (room.0, omega (arith, room, length-append (child_names child) (model_names model))))
      (λ namer' room'. model-Sanitised model namer' room') room.1

-- Of a model with fewer than 2^64 rules, sanitise_rule_names returns the model with other names of
-- rules only: no two rules have one name, and every name is of letters, digits and underscores.
pub sanitise_rule_names_lem :
    (model : Model)
    → length (model_names model) < 2 ^ 64
    → (model' : Model) × (sanitise_rule_names model ≡ some model')
      × (nameless_model model' ≡ nameless_model model)
      × Differ (model_names model')
      × All IsName (model_names model')
unfolding sanitise_rule_names
sanitise_rule_names_lem model few = (
  done.after,
  (rw done.returned refl),
  done.same,
  (push-Differ (model_names done.after) [] (subst Differ done.pushes (done.different tt))).0,
  done.symbols,
)
  where
    done :
        Sanitised model_names nameless_model
          (record { index = 0; used = [] })
          model
          (visit_model (record { index = 0; used = [] }) model)
    done = model-Sanitised model (record { index = 0; used = [] }) (omega arith, omega (arith, few))
