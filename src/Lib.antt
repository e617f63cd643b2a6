-- ===== src/Lib.antt =====
-- Rumur: a model checker for the Murphi language. librumur parses a model into a syntax tree, resolves
-- its names, checks it and answers questions about it (constant values, sizes of types, the
-- flattened rules); rumur prints a checker in C from the tree.
--
-- The files, and the code that they model (paths from the repository's root):
-- - Prelude: shared names; integers of any size (the values of mpz_class), the outcomes of a C++ call
--   (a value, a thrown rumur::Error, an abort), and those of a call with fuel.
-- - Ast: librumur/include/rumur/{Expr,TypeExpr,Decl,Stmt,Function,Property}.h, one constructor for
--   each class. A Ptr owns a copy of what it points to, so the referents of names are part of the
--   tree. The class hierarchy's virtual methods become functions by clauses.
-- - Gmp: the operations of GMP that the program calls beyond sums, products and comparisons. They
--   are a parameter; IsGmp is their documented behaviour.
-- - Fold: Expr::constant and Expr::constant_fold of librumur/src/Expr.cc and Number.cc. Operand and
--   Boolean, Arithmetic and Shift have the classes' methods, Dispatch the walk over the tree.
-- - TypeExpr: librumur/src/TypeExpr.cc. Resolve has TypeExprID::resolve, Bounds the bounds, Size
--   count and width, Equal and Coerce the comparisons of types.
-- - Expr: is_lvalue, is_readonly and type of librumur/src/Expr.cc, Decl.cc and Number.cc, and
--   is_global_ref of librumur/src/Function.cc; Access has validate of fields and elements.
--   Range(nullptr, nullptr), the type of numbers, is a constructor of its own.
-- - Stmt: the validate methods of librumur/src/Stmt.cc.
-- - Quantifier: Quantifier::validate, constant and count of librumur/src/Expr.cc.
-- - Function: is_pure and is_recursive of librumur/src/Function.cc, and what ConstTraversal of
--   librumur/src/traverse.cc visits from the nodes of a function.
-- - Rule: librumur/src/Rule.cc (Flatten) and Model::liveness_count of librumur/src/Model.cc
--   (Liveness). Names has librumur/src/sanitise_rule_names.cc.
-- - Comment: parse_comments of librumur/src/Comment.cc. position, which is generated, is a parameter.
-- - Symtab: librumur/include/rumur/Symtab.h.
-- - Layout: Model::validate and Model::size_bits of librumur/src/Model.cc, and the order and the offsets
--   of the variables of rumur/src/optimise-field-ordering.cc. std::sort is a parameter.
-- - ValueType: rumur/src/ValueType.h and ValueType.cc, the choice of the checker's value types for a
--   model's bounds. BoundsFinder, which gathers the bounds, is not modelled.
-- - Checker: rumur/resources/header.c, the C code that every checker contains. Memory has the bytes of
--   states and copy_out64, copy_in64 and their 128-bit kin, Handle read_raw and write_raw, Region
--   handle_zero, handle_copy and handle_eq, Value handle_read and handle_write, and Place
--   state_handle, handle_narrow and handle_index, with the call that rumur/src/generate-decl.cc makes
--   for a state variable. Slot has slot_t, Seen set_find and the probing loop of set_insert, and
--   Migrate the loops of set_migrate, as one thread runs them, where a bucket is the memory from its
--   first slot on; Arith has add, sub, mul, divide, mod and
--   negate; States has the equality and the hash of states, which are parameters
--   with the law that equal states have one hash. A failed ASSERT aborts, and size_t has 64 bits.
--   Rendezvous has the threads' rendezvous, each call as one step under its mutex, and
--   Liveness mark_liveness, unknown_liveness and learn_liveness.
--   Prelude/Bits describes the bits of the words that a read combines.
-- - Examples: inputs on which the theorems are applied, with instances of Gmp and std::sort.
--
-- Fuel: Quantifier::count takes fuel, and so do the loops of set_migrate. A step of a quantifier
-- that is positive ends the count within one round more than there are numbers between the bounds;
-- a step that is not positive may never end it. A slot's move ends within one round more than the
-- distance to the first empty slot after its place, mark_liveness within one call more than the
-- state's rank on its way, and parse_comments within one round more than there are bytes. The loops
-- of TypeExpr::width and of the shifts recur on an accessible number, all others on the tree or on a
-- list.
--
-- Not modelled: locations, messages' texts, printing, the parser, the C code that rumur prints for
-- a model, the resolution of symbols, the indexer, and of the checker's own code all but handles,
-- arithmetic, the set of states between two expansions, the rendezvous of threads and the marks of
-- liveness properties.
-- Operands whose order of evaluation C++ leaves open are evaluated from left to right.
pub mod Prelude
pub mod Ast
pub mod Gmp
pub mod Fold
pub mod TypeExpr
pub mod Expr
pub mod Stmt
pub mod Quantifier
pub mod Function
pub mod Rule
pub mod Comment
pub mod Symtab
pub mod Layout
pub mod ValueType
pub mod Checker
pub mod Examples
