-- ===== src/Function/Recursion.antt =====
-- `Function::is_recursive` of librumur/src/Function.cc.
use rumur.Prelude.{
  ℕ, ◌≡◌, ◌⊎◌, inl, inr, refl, sym, subst, Bool, true, false, if◌then◌else◌, ◌==◌, Bool-cases,
  ==_iff, String,
}
use rumur.Ast.{
  function_call, Exprs, TypeExprPtr, Decls, FunctionPtr, ptr_function, return_stmt, ptr_expr, Stmts,
  cons_stmts, nil_stmts, VarDecls,
}
use rumur.Function.{
  Tree, node, Label, stmt, call, other, Forest, leaf, plant, Callee, null_callee, callee,
  function_callee, exprs_forest, vars_forest, type_ptr_forest, decls_forest, stmts_forest, join,
}

-- `n.function != nullptr && n.function->unique_id == needle->unique_id`
abbrev pub is_needle : ℕ → Callee → Bool
is_needle needle null_callee = false
is_needle needle (callee id parameters inside) = id == needle

-- `CallFinder`: nothing is visited below a call
unfoldable mutual
  pub find_call : ℕ → Tree → Bool → Bool
  find_call needle (node (call f) children) found = if is_needle needle f then true else found
  find_call needle (node (stmt s) children) found = find_call_in needle children found
  find_call needle (node other children) found = find_call_in needle children found

  pub find_call_in : ℕ → Forest → Bool → Bool
  find_call_in needle leaf found = found
  find_call_in needle (plant tree forest) found =
      find_call_in needle forest (find_call needle tree found)

unfoldable pub callee_is_recursive : Callee → Bool
callee_is_recursive null_callee = false
callee_is_recursive (callee id parameters inside) = find_call_in id inside false

unfoldable pub is_recursive : FunctionPtr → Bool
is_recursive f = callee_is_recursive (function_callee f)

-- A call of a function below some nodes, at any depth.
pub data Calls (needle : ℕ) : Forest → Type 0 where
  here :
      {parameters : VarDecls} {inside children forest : Forest}
      → Calls needle (plant (node (call (callee needle parameters inside)) children) forest)
  below :
      {label : Label} {children forest : Forest}
      → Calls needle children
      → Calls needle (plant (node label children) forest)
  beside : {tree : Tree} {forest : Forest} → Calls needle forest → Calls needle (plant tree forest)

mutual
  unfolding find_call

  find_call_in-Calls :
      (needle : ℕ) (forest : Forest) (found : Bool)
      → find_call_in needle forest found ≡ true
      → (found ≡ true) ⊎ Calls needle forest
  find_call_in-Calls needle leaf found h = inl h
  find_call_in-Calls needle (plant tree forest) found h =
      elim (find_call_in-Calls needle forest (find_call needle tree found) h) [
        | inl before ↦ find_call-Calls needle tree forest found before
        | inr after ↦ inr (beside after)
      ]

  find_call-Calls :
      (needle : ℕ) (tree : Tree) (forest : Forest) (found : Bool)
      → find_call needle tree found ≡ true
      → (found ≡ true) ⊎ Calls needle (plant tree forest)
  find_call-Calls needle (node (stmt s) children) forest found h =
      elim (find_call_in-Calls needle children found h) [
        | inl before ↦ inl before
        | inr within ↦ inr (below within)
      ]
  find_call-Calls needle (node other children) forest found h =
      elim (find_call_in-Calls needle children found h) [
        | inl before ↦ inl before
        | inr within ↦ inr (below within)
      ]
  find_call-Calls needle (node (call null_callee) children) forest found h = inl h
  find_call-Calls needle (node (call (callee id parameters inside)) children) forest found h =
      elim (Bool-cases (id == needle)) [
        | inl own ↦ inr (
            subst
              (λ n. Calls needle (plant (node (call (callee n parameters inside)) children) forest))
              (sym ((==_iff id needle).0 own)) here)
        | inr strange ↦ inl (rw strange at h)
      ]

abbrev pub CallsItself : Callee → Type 0
CallsItself null_callee = ⊥
CallsItself (callee id parameters inside) = Calls id inside

callee_is_recursive-Calls : (f : Callee) → callee_is_recursive f ≡ true → CallsItself f
unfolding callee_is_recursive
callee_is_recursive-Calls null_callee h = cc
callee_is_recursive-Calls (callee id parameters inside) h =
    elim (find_call_in-Calls id inside false h) [ inl never ↦ cc | inr calls ↦ calls ]

-- A function of which is_recursive returns true calls itself.
pub is_recursive-CallsItself :
    (f : FunctionPtr) → is_recursive f ≡ true → CallsItself (function_callee f)
unfolding is_recursive
is_recursive-CallsItself f h = callee_is_recursive-Calls (function_callee f) h

find_call_in-join :
    (needle : ℕ) (first second : Forest) (found : Bool)
    → find_call_in needle (join first second) found
      ≡ find_call_in needle second (find_call_in needle first found)
unfolding find_call
find_call_in-join needle leaf second found = refl
find_call_in-join needle (plant tree forest) second found =
    find_call_in-join needle forest second (find_call needle tree found)

Calls-join :
    (needle : ℕ) (first second : Forest) → Calls needle second → Calls needle (join first second)
Calls-join needle leaf second calls = calls
Calls-join needle (plant tree forest) second calls = beside (Calls-join needle forest second calls)

find_call_in-none :
    (needle : ℕ) (forest : Forest)
    → ¬ Calls needle forest
    → find_call_in needle forest false ≡ false
find_call_in-none needle forest none = elim (Bool-cases (find_call_in needle forest false)) [
  | inl found ↦ elim (find_call_in-Calls needle forest false found) [
    | inl never ↦ cc
    | inr calls ↦ absurd (none calls)
  ]
  | inr missed ↦ missed
]

-- `return other(..., f(...), ...)`
abbrev pub return_call : String → FunctionPtr → Exprs → Stmts
return_call called function arguments =
    cons_stmts (return_stmt (ptr_expr (function_call called function arguments false))) nil_stmts

-- A function whose body is a return of a call of another function, with a call of the function
-- itself somewhere in the arguments, calls itself, and is_recursive of it returns false, where its
-- parameters, its return type and its declarations hold no call of it.
pub is_recursive-misses :
    (id : ℕ) (name : String) (parameters : VarDecls) (return_type : TypeExprPtr) (decls : Decls)
    (called : String) (function : FunctionPtr) (arguments : Exprs)
    → ¬ Calls id (vars_forest parameters)
    → ¬ Calls id (type_ptr_forest return_type)
    → ¬ Calls id (decls_forest decls)
    → is_needle id (function_callee function) ≡ false
    → Calls id (exprs_forest arguments)
    → (f : FunctionPtr) × (f
        ≡ ptr_function id name parameters return_type decls (return_call called function arguments))
      × CallsItself (function_callee f)
      × (is_recursive f ≡ false)
unfolding is_recursive callee_is_recursive find_call function_callee
is_recursive-misses id name parameters return_type decls called function arguments in_parameters
      in_type in_decls strange within =
    let body = stmts_forest (return_call called function arguments) in
    let after_type = join (decls_forest decls) body in
    let after_parameters = join (type_ptr_forest return_type) after_type in
    (
      _,
      refl,
      Calls-join id (vars_forest parameters) after_parameters (
          Calls-join id (type_ptr_forest return_type) after_type
            (Calls-join id (decls_forest decls) body (below (below within)))),
      (rw
          (
            find_call_in-join id (vars_forest parameters) after_parameters false,
            find_call_in-none id (vars_forest parameters) in_parameters,
            find_call_in-join id (type_ptr_forest return_type) after_type false,
            find_call_in-none id (type_ptr_forest return_type) in_type,
            find_call_in-join id (decls_forest decls) body false,
            find_call_in-none id (decls_forest decls) in_decls,
            strange,
          )
          refl),
    )
