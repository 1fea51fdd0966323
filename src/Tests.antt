-- ===== src/Tests.antt =====
-- A small table, and runs of the code on it.
pub mod Data
mod Table
mod Policy
mod Movepart
mod Resume
mod Journal
mod Undo
mod Parse
mod Transaction
