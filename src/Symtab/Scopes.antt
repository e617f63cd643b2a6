-- ===== src/Symtab/Scopes.antt =====
-- Declarations, shadowing and scopes.
use rumur.Prelude.{
  ◌≡◌, if◌then◌else◌, [], ◌∷◌, String, str_eq, Option, none, some, arith, Bool-cases, inl, inr,
}
use rumur.Prelude.Results.{Result, ok, err, unknown_symbol}
use rumur.Symtab.{Scope, Symtab, find_name, is_found, declare, lookup}

-- the result of a cast, or the error of a failed lookup
abbrev pub of_cast {ℓ} : {U : Type ℓ} → String → Option U → Result U
of_cast name none = err (unknown_symbol name)
of_cast name (some u) = ok u

module _ {ℓ} {Node : Type ℓ} where
  declare-ok :
      (name : String) (value : Node) (scope : Scope Node) (outer scopes : Symtab Node)
      → declare name value (scope ∷ outer) ≡ ok scopes
      → scopes ≡ ((name, value) ∷ scope) ∷ outer
  unfolding declare
  declare-ok name value scope outer scopes h = elim (Bool-cases (is_found (find_name name scope))) [
    | inl old ↦ ground arith
    | inr new ↦ ground arith
  ]

module _ {ℓ κ} {Node : Type ℓ} {U : Type κ} (cast : Node → Option U) where
  lookup-front :
      (name key : String) (value : Node) (scope : Scope Node) (scopes : Symtab Node)
      → lookup cast name (((key, value) ∷ scope) ∷ scopes)
        ≡ (if str_eq name key then of_cast name (cast value) else lookup cast name (scope ∷ scopes))
  unfolding lookup find_name
  lookup-front name key value scope scopes = elim (Bool-cases (str_eq name key)) [
    | inl same ↦ ground arith
    | inr other ↦ ground arith
  ]

  -- After a declaration that throws nothing, a lookup of the name gives the declared node, if it is of
  -- the class looked up, and a lookup of another name gives what it gave before.
  pub lookup-declare :
      (name key : String) (value : Node) (scopes scopes' : Symtab Node)
      → declare key value scopes ≡ ok scopes'
      → lookup cast name scopes'
        ≡ (if str_eq name key then of_cast name (cast value) else lookup cast name scopes)
  unfolding declare
  lookup-declare name key value [] scopes' h = cc
  lookup-declare name key value (scope ∷ scopes) scopes' h =
      rw (declare-ok key value scope scopes scopes' h) (lookup-front name key value scope scopes)
