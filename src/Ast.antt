-- ===== src/Ast.antt =====
-- The syntax tree of a Murphi model after symbol resolution (librumur/include/rumur).
use rumur.Prelude.{ℕ, Bool, String, List}
use rumur.Prelude.Int.{ℤ}

-- The classes below `BooleanBinaryExpr`.
pub data BooleanBinaryExpr : Type 0 where
  implication or and : BooleanBinaryExpr

-- The classes below `ComparisonBinaryExpr`.
pub data ComparisonBinaryExpr : Type 0 where
  lt leq gt geq : ComparisonBinaryExpr

-- The classes below `EquatableBinaryExpr`.
pub data EquatableBinaryExpr : Type 0 where
  eq neq : EquatableBinaryExpr

-- The classes below `ArithmeticBinaryExpr`.
pub data ArithmeticBinaryExpr : Type 0 where
  add sub mul div modulo lsh rsh band bor xor : ArithmeticBinaryExpr

-- The classes below `BinaryExpr`.
pub data BinaryExpr : Type 0 where
  boolean : BooleanBinaryExpr → BinaryExpr
  comparison : ComparisonBinaryExpr → BinaryExpr
  equatable : EquatableBinaryExpr → BinaryExpr
  arithmetic : ArithmeticBinaryExpr → BinaryExpr
  ambiguous_amp ambiguous_pipe : BinaryExpr

-- The classes below `UnaryExpr`.
pub data UnaryExpr : Type 0 where
  not negative bnot is_undefined : UnaryExpr

pub data Category : Type 0 where
  assertion assumption cover liveness : Category

-- A `Ptr` copies what it points to, so a tree of `Ptr`s is a finite tree, the referents of names
-- included.
mutual
  pub data Expr : Type 0 where
    ternary : Expr → Expr → Expr → Expr
    binary : BinaryExpr → Expr → Expr → Expr
    unary : UnaryExpr → Expr → Expr
    expr_id : String → ExprDeclPtr → Expr
    field : Expr → String → Expr
    element : Expr → Expr → Expr
    -- name, referent, arguments, `within_procedure_call`
    function_call : String → FunctionPtr → Exprs → Bool → Expr
    exists : Quantifier → Expr → Expr
    forall : Quantifier → Expr → Expr
    is_member : Expr → TypeExpr → Expr
    number : ℤ → Expr

  pub data ExprPtr : Type 0 where
    null_expr : ExprPtr
    ptr_expr : Expr → ExprPtr

  pub data Exprs : Type 0 where
    nil_exprs : Exprs
    cons_exprs : Expr → Exprs → Exprs

  -- name, type, from, to, step and the declaration of the variable
  pub data Quantifier : Type 0 where
    quantifier : String → TypeExprPtr → ExprPtr → ExprPtr → ExprPtr → VarDecl → Quantifier

  pub data ExprDecl : Type 0 where
    alias_decl : String → Expr → ExprDecl
    const_decl : String → Expr → TypeExprPtr → ExprDecl
    var_decl : VarDecl → ExprDecl

  pub data ExprDeclPtr : Type 0 where
    null_decl : ExprDeclPtr
    ptr_decl : ExprDecl → ExprDeclPtr

  -- name, type, offset in the state, `readonly`
  pub data VarDecl : Type 0 where
    var : String → TypeExpr → ℤ → Bool → VarDecl

  pub data VarDecls : Type 0 where
    nil_vars : VarDecls
    cons_vars : VarDecl → VarDecls → VarDecls

  pub data TypeDeclPtr : Type 0 where
    null_type_decl : TypeDeclPtr
    ptr_type_decl : String → TypeExpr → TypeDeclPtr

  pub data Decls : Type 0 where
    nil_decls : Decls
    cons_expr_decl : ExprDecl → Decls → Decls
    cons_type_decl : String → TypeExpr → Decls → Decls

  pub data TypeExpr : Type 0 where
    range : Expr → Expr → TypeExpr
    scalarset : Expr → TypeExpr
    enum : List String → TypeExpr
    record_type : VarDecls → TypeExpr
    array : TypeExpr → TypeExpr → TypeExpr
    type_expr_id : String → TypeDeclPtr → TypeExpr
    union : TypeExprs → TypeExpr

  pub data TypeExprPtr : Type 0 where
    null_type : TypeExprPtr
    ptr_type : TypeExpr → TypeExprPtr

  pub data TypeExprs : Type 0 where
    nil_types : TypeExprs
    cons_types : TypeExpr → TypeExprs → TypeExprs

  -- unique id, name, parameters, return type, declarations, body
  pub data FunctionPtr : Type 0 where
    null_function : FunctionPtr
    ptr_function : ℕ → String → VarDecls → TypeExprPtr → Decls → Stmts → FunctionPtr

  pub data Stmt : Type 0 where
    alias_stmt : Decls → Stmts → Stmt
    property_stmt : Category → Expr → String → Stmt
    assignment : Expr → Expr → Stmt
    clear : Expr → Stmt
    error_stmt : String → Stmt
    for_stmt : Quantifier → Stmts → Stmt
    if_stmt : IfClauses → Stmt
    -- the call is always a `function_call`
    procedure_call : Expr → Stmt
    put : String → ExprPtr → Stmt
    return_stmt : ExprPtr → Stmt
    switch : Expr → SwitchCases → Stmt
    undefine : Expr → Stmt
    while_stmt : Expr → Stmts → Stmt

  pub data Stmts : Type 0 where
    nil_stmts : Stmts
    cons_stmts : Stmt → Stmts → Stmts

  -- `else` has a null condition
  pub data IfClauses : Type 0 where
    nil_clauses : IfClauses
    cons_clauses : ExprPtr → Stmts → IfClauses → IfClauses

  pub data SwitchCases : Type 0 where
    nil_cases : SwitchCases
    cons_cases : Exprs → Stmts → SwitchCases → SwitchCases
