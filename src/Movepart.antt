-- ===== src/Movepart.antt =====
-- src/movepart: moving partitions to the right so that one before them can grow.
pub mod Types
pub mod Plan
pub mod Layout
pub mod Checkpoint
pub mod Resume
pub mod Execute
pub mod LvmFacts
pub mod Parse
pub mod Serialize
