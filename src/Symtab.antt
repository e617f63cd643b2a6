-- ===== src/Symtab.antt =====
-- The symbol table of librumur/include/rumur/Symtab.h. The scopes stand innermost first, where the
-- vector has the innermost one at its back. What a name refers to is any type of node.
pub mod Scopes
use rumur.Prelude.{
  Bool, true, false, if◌then◌else◌, List, [], ◌∷◌, String, str_eq, Option, none, some,
}
use rumur.Prelude.Results.{Result, ok, err, abort, previously_declared, unknown_symbol, ◌>>=◌}

-- `std::unordered_map<std::string, const Node *>`
abbrev pub Scope {ℓ} : Type ℓ → Type ℓ
Scope Node = List (String × Node)

abbrev pub Symtab {ℓ} : Type ℓ → Type ℓ
Symtab Node = List (Scope Node)

-- `it->find(name)`
unfoldable pub find_name {ℓ} : {Node : Type ℓ} → String → Scope Node → Option Node
find_name name [] = none
find_name name ((key, value) ∷ entries) =
    if str_eq name key then some value else find_name name entries

unfoldable pub open_scope {ℓ} : {Node : Type ℓ} → Symtab Node → Symtab Node
open_scope scopes = [] ∷ scopes

unfoldable pub close_scope {ℓ} : {Node : Type ℓ} → Symtab Node → Result (Symtab Node)
close_scope [] = abort
close_scope (_ ∷ scopes) = ok scopes

-- `count(name) > 0`
abbrev pub is_found {ℓ} : {Node : Type ℓ} → Option Node → Bool
is_found none = false
is_found (some _) = true

-- A declared node is never null here.
unfoldable pub declare {ℓ} : {Node : Type ℓ} → String → Node → Symtab Node → Result (Symtab Node)
unfolding find_name
declare name value [] = abort
declare name value (scope ∷ scopes) =
    if is_found (find_name name scope)
    then err (previously_declared name)
    else ok (((name, value) ∷ scope) ∷ scopes)

-- `cast` is the dynamic_cast to the class that is looked up.
unfoldable pub lookup {ℓ κ} :
    {Node : Type ℓ} {U : Type κ} → (Node → Option U) → String → Symtab Node → Result U
unfolding find_name
lookup cast name [] = err (unknown_symbol name)
lookup cast name (scope ∷ scopes) =
    let outer = lookup cast name scopes in
    elim (find_name name scope) [
      | some value ↦ elim (cast value) [ some u ↦ ok u | none ↦ err (unknown_symbol name) ]
      | none ↦ outer
    ]
