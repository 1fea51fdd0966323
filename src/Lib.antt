-- ===== src/Lib.antt =====
-- DiskEdit: partition-table editing and partition relocation.
--
-- The program treats disks and disk images as byte stores and edits their partition tables. A
-- command parses the table (table/), decides which repair is due and builds the one geometry that
-- it works on (gpt_policy.rs, geometry.rs), edits the entries of that geometry, and moves the data
-- of partitions that stand in the way (movepart/). What it ends with is an outcome with an exit
-- code (outcome.rs). All paths below are under src/.
--
-- Files and what they model:
--   Outcome           outcome.rs and FsError of fsops/error.rs: Outcome, Fail, PostWrite
--   Table.EntryArray  table/entry_array.rs: EntryArrayGeometry
--   Table.Guid        the type GUIDs of table/create.rs
--   Table.Gpt         table/gpt_parse.rs: RawGpt and the checks on header and entries
--   Geometry          geometry.rs: ValidatedGeometry, `new` as geometry_new, update_entry,
--                     find_overlap; Geometry.Check has check_entries
--   Policy            gpt_policy.rs: classify_repair, resolve_geometry, selectors, byte ranges
--   Journal           dev/journal.rs: records, their coding and the credential of the disk;
--                     Journal.Header, Journal.Scan (scan_entries), Journal.Slot
--                     (classify_journal, adopt) and Journal.Session (the writes of
--                     dev/source.rs that the journal records)
--   Undo              cmd/undo.rs: verify_replay_plan and the replay of cmd_undo
--   Undo.Command      cmd/undo.rs: the gates, the choice of the journal and the end of cmd_undo
--   Transaction       transaction.rs: active_recovery_records, busy and begin_or_resume
--   Bytes, Memory     little-endian numbers, slices, and the bytes of a target by position
--   Identity          dev/identity.rs: scene_mismatch and the evidence it compares
--   Movepart.Types    the plan of movepart/plan.rs
--   Movepart.Plan     movepart/plan.rs: plan_tail_packed, shift_plan_from, grow_end_for
--   Movepart.Layout   move_chunk_layout of movepart/plan.rs and the copy loop of
--                     movepart/shift.rs `execute_apply`
--   Movepart.Checkpoint  movepart/checkpoint.rs: its records, batch sizes and removal rule
--   Movepart.Execute  the loop of `execute_apply` over the moves, as far as it moves data
--   Movepart.Parse    movepart/checkpoint.rs: Checkpoint::parse
--   Movepart.Serialize  movepart/checkpoint.rs: Checkpoint::serialize
--   Movepart.LvmFacts  the encoding of the LVM facts in movepart/checkpoint.rs
--   Movepart.Resume   the entries of movepart/plan.rs that take up a recorded job
--   Prelude           checked u64 arithmetic, Result, lists and the stable sort
--   Tests             a small table and runs on it
-- The modules below each of these hold its proofs.
--
-- How the code is read. A number is a natural number; checked operations answer as in Rust, and a
-- plain subtraction is written where the guards before it keep it from wrapping. A `&mut self`
-- method takes a geometry and answers a new one or an error. What another part reads from the disk
-- (`load_gpt`, the size of the container, `read_checkpoint`) is an argument. An I/O error is its
-- message, and a message is a template with its numbers. The entry record stands for that of the
-- crate gptman, with the fields that the source uses.
--
-- Bounds. `chunks_from_tail` runs for as many rounds as there are bytes, and each round takes at
-- least one. The copy loop reads and writes a function from positions to bytes; an interrupted
-- write may leave anything in the range that it was to fill, and I/O errors and the flushing of
-- caches are not modelled. The scan of a journal has as much fuel as the file has bytes, and each
-- round takes at least one. The rollback reads and writes through a device that may fail at any
-- call; a write of the tool that was cut short leaves the first part of its bytes. `crc32` is that
-- of the crate crc, and the file system around a journal is a parameter; so is what `cmd_undo` finds
-- around the target. The table commits between the moves, the writing of the checkpoint file and the
-- later correction of an NTFS boot sector are not part of these models.
--
-- Not modelled: system calls, external tools, printing, and the parts of the program that are not
-- named above.
pub mod Prelude
pub mod Outcome
pub mod Bytes
pub mod Memory
pub mod Table
pub mod Geometry
pub mod Policy
pub mod Identity
pub mod Movepart
pub mod Journal
pub mod Undo
pub mod Transaction
pub mod Tests
