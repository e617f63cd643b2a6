-- ===== src/Rule.antt =====
-- Rules and models (librumur/include/rumur/Rule.h, Model.h).
pub mod Flatten
pub mod Liveness
pub mod Names
use rumur.Prelude.{ℕ, String, List}
use rumur.Ast.{Expr, ExprPtr, Quantifier, Decls, Stmts, Category, FunctionPtr, ExprDecl, TypeExpr}

-- the name and the value of an `AliasDecl`
abbrev pub Alias : Type 0
Alias = String × Expr

-- Every rule has a name, quantifiers and aliases; the rest depends on its class.
mutual
  pub data Rule : Type 0 where
    rule : String → List Quantifier → List Alias → RuleKind → Rule

  pub data RuleKind : Type 0 where
    simple_rule : ExprPtr → Decls → Stmts → RuleKind
    start_state : Decls → Stmts → RuleKind
    property_rule : Category → Expr → RuleKind
    alias_rule : Rules → RuleKind
    rule_set : Rules → RuleKind

  pub data Rules : Type 0 where
    nil_rules : Rules
    cons_rules : Rule → Rules → Rules

-- The children of a model.
pub data Child : Type 0 where
  expr_child : ExprDecl → Child
  type_child : String → TypeExpr → Child
  function_child : FunctionPtr → Child
  rule_child : Rule → Child

abbrev pub Model : Type 0
Model = List Child
