-- ===== src/Movepart/Execute.antt =====
-- The loop of `execute_apply` in src/movepart/shift.rs over the moves of a plan, as far as it moves
-- the data of partitions: from the first move on, in a run in which every swap is recreated.
-- `recreate` is what the external mkswap does to the bytes. The table commits, the checkpoints and
-- the later correction of the sector count in an NTFS boot sector are left out.
pub mod Data
use disk_edit.Prelude.{
  ℕ, ◌+◌, ◌-◌, ◌*◌, Bool, true, false, Option, none, some, List, [], ◌∷◌, ◌==◌, if◌then◌else◌,
  Result, ok, err, ◌>>=◌, ok_or, checked_add, checked_sub, checked_mul,
}
use disk_edit.Outcome.{Message, plain}
use disk_edit.Movepart.Types.{PlanEntry}
use disk_edit.Memory.{Memory}
use disk_edit.Movepart.Layout.{move_chunk_layout, chunks_from_tail, copy_chunks}

abbrev offset_overflow : Message
offset_overflow = plain "relocation byte offset overflows - refusing"

abbrev lba_overflow : Message
lba_overflow = plain "relocation target LBA overflows - refusing"

-- The copy of one entry to its new start.
unfoldable pub copy_entry : ℕ → ℕ → PlanEntry → ℕ → Memory → Result Message Memory
copy_entry ss chunk_len m new_first mem = do
  src_off ← ok_or (checked_mul m.first_lba ss) offset_overflow
  dst_off ← ok_or (checked_mul new_first ss) offset_overflow
  total ← ok_or (checked_mul m.len_lba ss) offset_overflow
  (entry_chunk, _) ←
      ok_or (move_chunk_layout m.len_lba ss m.delta_lba m.len_lba chunk_len) offset_overflow
  copy_chunks src_off dst_off 0 0 (chunks_from_tail total entry_chunk total) mem

unfoldable pub move_entry :
    (PlanEntry → Memory → Memory) → ℕ → ℕ → PlanEntry → Memory → Result Message Memory
move_entry recreate ss chunk_len m mem = do
  new_first ← ok_or (checked_add m.first_lba m.delta_lba) lba_overflow
  len ← ok_or (checked_sub m.len_lba 1) lba_overflow
  _ ← ok_or (checked_add new_first len) lba_overflow
  if m.is_swap then ok (recreate m mem) else copy_entry ss chunk_len m new_first mem

-- An entry that stands where it should is skipped.
unfoldable pub relocate_entry :
    (PlanEntry → Memory → Memory) → ℕ → ℕ → PlanEntry → Memory → Result Message Memory
relocate_entry recreate ss chunk_len m mem =
    if m.delta_lba == 0 then ok mem else move_entry recreate ss chunk_len m mem

unfoldable pub relocate_all :
    (PlanEntry → Memory → Memory) → ℕ → ℕ → List PlanEntry → Memory → Result Message Memory
relocate_all recreate ss chunk_len [] mem = ok mem
relocate_all recreate ss chunk_len (m ∷ ms) mem =
    relocate_entry recreate ss chunk_len m mem >>= relocate_all recreate ss chunk_len ms
