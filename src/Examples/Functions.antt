-- ===== src/Examples/Functions.antt =====
-- A function that clears a local variable and calls itself, and one that calls itself in an argument.
use rumur.Prelude.{◌≡◌, ◌↔◌, refl, true, false, [], ◌∷◌}
use rumur.Prelude.Int.{negsuc}
use rumur.Prelude.Results.{ok}
use rumur.Ast.{
  expr_id, function_call, nil_exprs, cons_exprs, Exprs, ptr_decl, var_decl, var, nil_vars,
  cons_vars, enum, null_type, ptr_type, VarDecls, nil_decls, FunctionPtr, ptr_function, clear,
  procedure_call, nil_stmts, cons_stmts,
}
use rumur.Function.{Forest, leaf, function_callee, exprs_forest, vars_forest, type_ptr_forest}
use rumur.Function.Purity.{is_pure}
use rumur.Function.Pure.{PureFunction}
use rumur.Function.Effects.{is_pure_iff}
use rumur.Function.Recursion.{
  Calls, here, below, beside, CallsItself, is_recursive, return_call, is_recursive-misses,
}

-- the copy of the function that a call of itself refers to
abbrev itself : FunctionPtr
itself = ptr_function 7 "f" nil_vars null_type nil_decls nil_stmts

abbrev clears_local : FunctionPtr
clears_local = ptr_function 7 "f" nil_vars null_type nil_decls (
    cons_stmts (clear (expr_id "x" (ptr_decl (var_decl (var "x" (enum []) (negsuc 0) false)))))
      (cons_stmts (procedure_call (function_call "f" itself nil_exprs true)) nil_stmts))

is_pure_iff_example : (is_pure clears_local ≡ ok true) ↔ PureFunction clears_local
is_pure_iff_example = is_pure_iff clears_local

abbrev another : FunctionPtr
another = ptr_function 3 "g" nil_vars null_type nil_decls nil_stmts

abbrev own_call : Exprs
own_call = cons_exprs (function_call "f" itself nil_exprs false) nil_exprs

no_calls : ¬ Calls 7 leaf
no_calls calls = no_call_of leaf refl calls
  where
    no_call_of : (forest : Forest) → forest ≡ leaf → ¬ Calls 7 forest
    no_call_of forest e here = cc
    no_call_of forest e (below calls) = cc
    no_call_of forest e (beside calls) = cc

own_call-Calls : Calls 7 (exprs_forest own_call)
unfolding exprs_forest
own_call-Calls = here

-- one parameter, and an enumeration returned
abbrev one_parameter : VarDecls
one_parameter = cons_vars (var "x" (enum ("a" ∷ [])) (negsuc 0) true) nil_vars

one_parameter-none : ¬ Calls 7 (vars_forest one_parameter)
unfolding vars_forest
one_parameter-none (below (below calls)) = no_calls calls
one_parameter-none (below (beside calls)) = no_calls calls
one_parameter-none (beside calls) = no_calls calls

returned-none : ¬ Calls 7 (type_ptr_forest (ptr_type (enum ("a" ∷ []))))
unfolding type_ptr_forest
returned-none (below calls) = no_calls calls
returned-none (beside calls) = no_calls calls

is_recursive-misses_example :
    (f : FunctionPtr) × (f
      ≡ ptr_function 7 "f" one_parameter
          (ptr_type (enum ("a" ∷ [])))
          nil_decls
          (return_call "g" another own_call))
    × CallsItself (function_callee f)
    × (is_recursive f ≡ false)
unfolding function_callee
is_recursive-misses_example =
    is_recursive-misses 7 "f" one_parameter (ptr_type (enum ("a" ∷ []))) nil_decls "g" another
      own_call one_parameter-none returned-none no_calls refl own_call-Calls
