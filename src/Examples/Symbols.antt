-- ===== src/Examples/Symbols.antt =====
-- A symbol table whose nodes are numbers, of which the even ones are of the class looked up.
use rumur.Prelude.{ℕ, ◌%◌, ◌==◌, ◌≡◌, refl, if◌then◌else◌, [], ◌∷◌, Option, none, some, str_eq}
use rumur.Prelude.Results.{ok}
use rumur.Symtab.{Symtab, declare, lookup}
use rumur.Symtab.Scopes.{of_cast, lookup-declare}

abbrev even : ℕ → Option ℕ
even n = if n % 2 == 0 then some n else none

-- `x` is declared in an outer scope, and again in the inner one.
abbrev inner : Symtab ℕ
inner = [] ∷ (("x", 4) ∷ []) ∷ []

abbrev shadowed : Symtab ℕ
shadowed = (("x", 6) ∷ []) ∷ (("x", 4) ∷ []) ∷ []

x-declared : declare "x" 6 inner ≡ ok shadowed
unfolding declare
x-declared = refl

lookup-declare_example :
    lookup even "x" shadowed
    ≡ (if str_eq "x" "x" then of_cast "x" (even 6) else lookup even "x" inner)
lookup-declare_example = lookup-declare even "x" "x" 6 inner shadowed x-declared
