-- ===== src/Rule/Names.antt =====
-- `sanitise_rule_names` (librumur/src/sanitise_rule_names.cc), which names rules. A name is the text that its bytes encode; `std::to_string` is in Decimal.
pub mod Decimal
pub mod Fresh
pub mod Symbols
pub mod Trees
pub mod Distinct
pub mod Parts
pub mod Visits
use Prim.Native.Char.{Char, code}
use Prim.Native.String.{◌++◌}
use Prim.Native.String as Text
use rumur.Prelude.{
  ℕ, zero, suc, ◌+◌, ◌*◌, ◌%◌, ◌^◌, Bool, false, if◌then◌else◌, ltb, leb, ◌&&◌, ◌||◌, List, [], ◌∷◌,
  String, str_eq, Option, none, some, length,
}
use rumur.Rule.{
  Rule, rule, RuleKind, simple_rule, start_state, property_rule, alias_rule, rule_set, Rules,
  nil_rules, cons_rules, Child, rule_child, Model,
}
use rumur.Rule.Names.Decimal.{to_string}

infixl 5 ◌>>=◌
abbrev pub ◌>>=◌ : {A B : Type 0} → Option A → (A → Option B) → Option B
none >>= rest = none
some a >>= rest = rest a

-- `RuleNamer`
pub record RuleNamer : Type 0 where
  pub index : ℕ
  pub used : List String

unfoldable pub next_index : ℕ → ℕ
next_index index = (index + 1) % 2 ^ 64

unfoldable pub contains : List String → String → Bool
contains [] name = false
contains (taken ∷ used) name = str_eq taken name || contains used name

unfoldable pub is_symbol : ℕ → Bool
is_symbol c =
    (leb b'a' c && leb c b'z') || ((leb b'A' c && leb c b'Z') || (leb b'0' c && leb c b'9'))

-- one underscore for each byte of a character that is no symbol
unfoldable pub underscores : ℕ → String
underscores c =
    if ltb c 0x80
    then "_"
    else if ltb c 0x800
    then "__"
    else if ltb c 0x10000
    then "___"
    else "____"

unfoldable pub replace : String → String
replace Text.[] = Text.[]
replace (Text.◌∷◌ c name) =
    if is_symbol (code c) then Text.◌∷◌ c (replace name) else underscores (code c) ++ replace name

-- `while (!used.insert(candidate).second)`, with the number of rounds that are left
unfoldable pub fresh : List String → String → ℕ → String → ℕ → Option (String × ℕ)
fresh used replacement zero candidate index = none
fresh used replacement (suc rounds) candidate index =
    let rest = fresh used replacement rounds (replacement ++ to_string index) (next_index index) in
    if contains used candidate then rest else some (candidate, index)

-- The name and the index that `RuleNamer::name` starts from.
abbrev pub unnamed : RuleNamer → String → String → String × ℕ
unnamed namer prefix Text.[] = (prefix ++ to_string namer.index, next_index namer.index)
unnamed namer prefix name = (name, namer.index)

-- `RuleNamer::name`, with one round more than names are taken
unfoldable pub name_rule : RuleNamer → String → String → Option (String × RuleNamer)
name_rule namer prefix name = do
  let (chosen, index) = unnamed namer prefix name
  let replacement = replace chosen
  (candidate, index') ← fresh namer.used replacement (suc (length namer.used)) replacement index
  some (candidate, record { index = index'; used = candidate ∷ namer.used })

abbrev pub prefix_of : RuleKind → String
prefix_of (simple_rule guard decls body) = "rule"
prefix_of (start_state decls body) = "startstate"
prefix_of (property_rule category expr) = "property"
prefix_of (alias_rule rules) = "alias"
prefix_of (rule_set rules) = "ruleset"

-- the methods `visit_aliasrule` to `visit_startstate`
unfoldable mutual
  pub visit_rule : RuleNamer → Rule → Option (Rule × RuleNamer)
  visit_rule namer (rule name quantifiers aliases kind) = do
    (name', namer') ← name_rule namer (prefix_of kind) name
    (kind', namer'') ← visit_kind namer' kind
    some (rule name' quantifiers aliases kind', namer'')

  pub visit_kind : RuleNamer → RuleKind → Option (RuleKind × RuleNamer)
  visit_kind namer (alias_rule rules) = do
    (rules', namer') ← visit_rules namer rules
    some (alias_rule rules', namer')
  visit_kind namer (rule_set rules) = do
    (rules', namer') ← visit_rules namer rules
    some (rule_set rules', namer')
  visit_kind namer (simple_rule guard decls body) = some (simple_rule guard decls body, namer)
  visit_kind namer (start_state decls body) = some (start_state decls body, namer)
  visit_kind namer (property_rule category expr) = some (property_rule category expr, namer)

  pub visit_rules : RuleNamer → Rules → Option (Rules × RuleNamer)
  visit_rules namer nil_rules = some (nil_rules, namer)
  visit_rules namer (cons_rules r rules) = do
    (r', namer') ← visit_rule namer r
    (rules', namer'') ← visit_rules namer' rules
    some (cons_rules r' rules', namer'')

-- A child that is no rule has none below it.
unfoldable pub visit_child : RuleNamer → Child → Option (Child × RuleNamer)
visit_child namer (rule_child r) = do
  (r', namer') ← visit_rule namer r
  some (rule_child r', namer')
visit_child namer child = some (child, namer)

unfoldable pub visit_model : RuleNamer → Model → Option (Model × RuleNamer)
visit_model namer [] = some ([], namer)
visit_model namer (child ∷ model) = do
  (child', namer') ← visit_child namer child
  (model', namer'') ← visit_model namer' model
  some (child' ∷ model', namer'')

unfoldable pub sanitise_rule_names : Model → Option Model
sanitise_rule_names model = do
  (model', _) ← visit_model (record { index = 0; used = [] }) model
  some model'
