-- ===== src/Examples.antt =====
-- Inputs on which the theorems are applied.
mod Division
mod Gmp
mod Expressions
mod Types
mod Values
mod Layout
mod Statements
mod Symbols
mod Iterations
mod Handles
mod Seen
mod Names
mod Liveness
mod Comments
mod Functions
mod Rendezvous
