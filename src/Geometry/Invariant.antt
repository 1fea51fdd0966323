-- ===== src/Geometry/Invariant.antt =====
-- The invariant of a validated geometry: what the code that holds one need not ask again.
use disk_edit.Prelude.{ℕ, ◌+◌, ◌≤◌, ◌≡◌, false, All, Pairs, length}
use disk_edit.Table.EntryArray.{lba_span}
use disk_edit.Table.EntryArray.Size.{IsPlausible}
use disk_edit.Table.Gpt.{GptPartitionEntry, is_unused}
use disk_edit.Geometry.{ValidatedGeometry}
use disk_edit.Geometry.Overlap.{Clear}

-- A defined entry is not inverted and lies between two bounds.
abbrev pub IsWithin : ℕ → ℕ → GptPartitionEntry → Type 0
IsWithin first last e =
    is_unused e ≡ false
    → (e.starting_lba ≤ e.ending_lba) × (first ≤ e.starting_lba) × (e.ending_lba ≤ last)

pub record IsValid (g : ValidatedGeometry) : Type 0 where
  pub plausible : IsPlausible g.entry_geometry
  pub counted : length g.entries ≡ g.entry_geometry.entry_count
  pub decided_counted : length g.decided_entries ≡ g.entry_geometry.entry_count
  pub within : All (IsWithin g.header.first_usable_lba g.header.last_usable_lba) g.entries
  pub clear : Pairs Clear g.entries
  pub ordered : g.header.first_usable_lba ≤ g.header.last_usable_lba
  pub room : g.header.last_usable_lba + lba_span g.entry_geometry + 1 ≤ g.file_last_lba
  pub backup_last : g.header.backup_lba ≡ g.file_last_lba
