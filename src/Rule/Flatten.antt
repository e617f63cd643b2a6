-- ===== src/Rule/Flatten.antt =====
-- `Rule::flatten` (librumur/src/Rule.cc): the simple rules, start states and property rules of a
-- tree of rules, each with the quantifiers and aliases of the rules round it.
use mathlib.Core.List.{append-nil, append_assoc, map-append}
use rumur.Prelude.{◌≡◌, refl, sym, ap, ap₂, ◌∙◌, List, [], ◌∷◌, ◌++◌, map}
use rumur.Ast.{Quantifier}
use rumur.Rule.{
  Rule, rule, simple_rule, start_state, property_rule, alias_rule, rule_set, Rules, nil_rules,
  cons_rules, Alias,
}

-- `f->aliases.insert(f->aliases.begin(), aliases.begin(), aliases.end())`
abbrev pub add_aliases : List Alias → Rule → Rule
add_aliases as' (rule name qs bs kind) = rule name qs (as' ++ bs) kind

-- `for (q : quantifiers) f->quantifiers.push_back(q)`
abbrev pub add_quantifiers : List Quantifier → Rule → Rule
add_quantifiers qs (rule name ps bs kind) = rule name (ps ++ qs) bs kind

unfoldable mutual
  pub flatten : Rule → List Rule
  flatten (rule _ _ as' (alias_rule rs)) = map (add_aliases as') (flatten_all rs)
  flatten (rule _ qs _ (rule_set rs)) = map (add_quantifiers qs) (flatten_all rs)
  flatten (rule name qs as' (simple_rule guard ds body)) =
      rule name qs as' (simple_rule guard ds body) ∷ []
  flatten (rule name qs as' (start_state ds body)) = rule name qs as' (start_state ds body) ∷ []
  flatten (rule name qs as' (property_rule c e)) = rule name qs as' (property_rule c e) ∷ []

  -- the rules that the loops over `rules` push, before the members of this rule are added
  pub flatten_all : Rules → List Rule
  flatten_all nil_rules = []
  flatten_all (cons_rules r rs) = flatten r ++ flatten_all rs

-- From the root down, with the aliases and the quantifiers of the rules passed on the way: aliases
-- from the outermost in, quantifiers from the innermost out.
unfoldable mutual
  pub expand : List Alias → List Quantifier → Rule → List Rule
  expand bs ps (rule _ _ as' (alias_rule rs)) = expand_all (bs ++ as') ps rs
  expand bs ps (rule _ qs _ (rule_set rs)) = expand_all bs (qs ++ ps) rs
  expand bs ps (rule name qs as' kind) = rule name (qs ++ ps) (bs ++ as') kind ∷ []

  pub expand_all : List Alias → List Quantifier → Rules → List Rule
  expand_all bs ps nil_rules = []
  expand_all bs ps (cons_rules r rs) = expand bs ps r ++ expand_all bs ps rs

abbrev wrap : List Alias → List Quantifier → Rule → Rule
wrap bs ps (rule name qs as' kind) = rule name (qs ++ ps) (bs ++ as') kind

wrap-add_aliases :
    (bs as' : List Alias) (ps : List Quantifier) (rs : List Rule)
    → map (wrap bs ps) (map (add_aliases as') rs) ≡ map (wrap (bs ++ as') ps) rs
wrap-add_aliases bs as' ps [] = refl
wrap-add_aliases bs as' ps (rule n qs cs k ∷ rs) =
    ap₂ ◌∷◌ (ap (λ l. rule n (qs ++ ps) l k) (sym (append_assoc bs as' cs)))
      (wrap-add_aliases bs as' ps rs)

wrap-add_quantifiers :
    (bs : List Alias) (qs ps : List Quantifier) (rs : List Rule)
    → map (wrap bs ps) (map (add_quantifiers qs) rs) ≡ map (wrap bs (qs ++ ps)) rs
wrap-add_quantifiers bs qs ps [] = refl
wrap-add_quantifiers bs qs ps (rule n os cs k ∷ rs) =
    ap₂ ◌∷◌ (ap (λ l. rule n l (bs ++ cs) k) (append_assoc os qs ps))
      (wrap-add_quantifiers bs qs ps rs)

mutual
  unfolding flatten expand

  wrap-flatten :
      (bs : List Alias) (ps : List Quantifier) (r : Rule)
      → map (wrap bs ps) (flatten r) ≡ expand bs ps r
  wrap-flatten bs ps (rule n qs as' (alias_rule rs)) =
      wrap-add_aliases bs as' ps (flatten_all rs) ∙ wrap-flatten_all (bs ++ as') ps rs
  wrap-flatten bs ps (rule n qs as' (rule_set rs)) =
      wrap-add_quantifiers bs qs ps (flatten_all rs) ∙ wrap-flatten_all bs (qs ++ ps) rs
  wrap-flatten bs ps (rule n qs as' (simple_rule g ds body)) = refl
  wrap-flatten bs ps (rule n qs as' (start_state ds body)) = refl
  wrap-flatten bs ps (rule n qs as' (property_rule c e)) = refl

  wrap-flatten_all :
      (bs : List Alias) (ps : List Quantifier) (rs : Rules)
      → map (wrap bs ps) (flatten_all rs) ≡ expand_all bs ps rs
  wrap-flatten_all bs ps nil_rules = refl
  wrap-flatten_all bs ps (cons_rules r rs) =
      map-append (wrap bs ps) (flatten r) (flatten_all rs)
      ∙ ap₂ ◌++◌ (wrap-flatten bs ps r) (wrap-flatten_all bs ps rs)

wrap_nothing : (rs : List Rule) → map (wrap [] []) rs ≡ rs
wrap_nothing [] = refl
wrap_nothing (rule n qs as' k ∷ rs) =
    ap₂ ◌∷◌ (ap (λ l. rule n l as' k) (append-nil qs)) (wrap_nothing rs)

-- `flatten` gives the simple rules, start states and property rules of the tree in order, each with
-- the aliases of the alias rules round it, outermost first, before its own, and its own quantifiers
-- before those of the rulesets round it, innermost first.
pub flatten-expand : (r : Rule) → flatten r ≡ expand [] [] r
flatten-expand r = sym (wrap_nothing (flatten r)) ∙ wrap-flatten [] [] r
