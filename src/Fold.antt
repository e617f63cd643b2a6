-- ===== src/Fold.antt =====
-- `Expr::constant` and `Expr::constant_fold` (librumur/src/Expr.cc, Number.cc).
pub mod Operand
pub mod Shift
pub mod Boolean
pub mod Arithmetic
pub mod Dispatch
pub mod Strict
pub mod Settled
pub mod Throws
