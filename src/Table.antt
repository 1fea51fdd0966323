-- ===== src/Table.antt =====
-- The partition-table layer (src/table): the entry-array geometry, GUID layouts, and the facts that
-- the GPT parser hands to the layers above.
pub mod EntryArray
pub mod Guid
pub mod Gpt
