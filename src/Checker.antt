-- ===== src/Checker.antt =====
-- The checker that rumur's output contains: rumur/resources/header.c.
pub mod Faults
pub mod Memory
pub mod Handle
pub mod Region
pub mod Value
pub mod Place
pub mod Slot
pub mod Seen
pub mod Migrate
pub mod Arith
pub mod Rendezvous
pub mod Liveness
