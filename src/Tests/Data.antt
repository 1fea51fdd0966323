-- ===== src/Tests/Data.antt =====
-- A container of 1003 sectors with a table of four slots, of which three are used.
use disk_edit.Prelude.{ℕ, ◌≡◌, refl, List, [], ◌∷◌, some, ok}
use disk_edit.Table.EntryArray.{EntryArrayGeometry, entry_array_new, entry_size_ok, lba_span}
use disk_edit.Table.Guid.{linux_fs_type_guid, swap_type_guid}
use disk_edit.Table.Gpt.{
  GptPartitionEntry, RawHeader, RawGpt, GptState, HeaderIssue, PmbrSize, validate_entries,
}
use disk_edit.Geometry.{
  ValidatedGeometry, geometry_new, adopted, adopt_checked, check_last_usable, find_overlap,
  unwrap_or,
}
use disk_edit.Geometry.Invariant.{IsValid}
use disk_edit.Geometry.Build.{geometry_new-IsValid}

abbrev pub entry_at : ℕ → ℕ → GptPartitionEntry
entry_at first last = record {
  partition_type_guid = linux_fs_type_guid;
  unique_partition_guid = swap_type_guid;
  starting_lba = first;
  ending_lba = last;
  attribute_bits = 0;
  partition_name = "data";
}

abbrev pub slots : List GptPartitionEntry
slots = entry_at 40 99 ∷ entry_at 150 159 ∷ entry_at 110 149 ∷ entry_at 0 0 ∷ []

abbrev pub test_header : RawHeader
test_header = record {
  revision = 0x10000;
  primary_lba = 1;
  backup_lba = 1002;
  first_usable_lba = 34;
  last_usable_lba = 900;
  disk_guid = linux_fs_type_guid;
  partition_entry_lba = 2;
  number_of_partition_entries = 4;
  size_of_partition_entry = 128;
  header_size = 92;
}

-- The backup header stands where a smaller container ended.
abbrev pub grown_table : RawGpt
grown_table = record {
  ss = 512;
  header = test_header;
  entries = slots;
  state = GptState.needs_repair (HeaderIssue.backup_lba_stale 902 1002);
  pmbr = PmbrSize.normal;
}

abbrev pub array_geometry : EntryArrayGeometry
array_geometry = record { sector_size = 512; entry_size = 128; entry_count = 4 }

abbrev pub test_geometry : ValidatedGeometry
test_geometry = adopted grown_table array_geometry 1002 1000

pub slots-checked : validate_entries slots test_header ≡ ok tt
unfolding validate_entries
slots-checked = refl

pub test_geometry-built : geometry_new grown_table 1002 (some 1000) ≡ ok test_geometry
unfolding geometry_new adopt_checked check_last_usable find_overlap entry_array_new entry_size_ok
    lba_span unwrap_or
test_geometry-built = refl

pub test_geometry-IsValid : IsValid test_geometry
test_geometry-IsValid =
    (geometry_new-IsValid grown_table 1002 (some 1000) slots-checked test_geometry-built).0
