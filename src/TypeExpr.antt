-- ===== src/TypeExpr.antt =====
-- The types of a model (librumur/src/TypeExpr.cc).
pub mod Resolve
pub mod Size
pub mod Bounds
pub mod Equal
pub mod Coerce
