-- ===== src/Tests/Policy.antt =====
-- Runs of src/gpt_policy.rs on the test table.
use disk_edit.Prelude.{ℕ, ◌+◌, ◌≤◌, ◌≡◌, ◌≢◌, refl, ◌⊎◌, some, ok, All, get_elem?, suc, arith}
use disk_edit.Table.EntryArray.{entry_array_new, entry_size_ok, lba_span}
use disk_edit.Table.Gpt.{GptPartitionEntry, GptState, HeaderIssue}
use disk_edit.Geometry.{
  find_overlap, geometry_new, adopt_checked, check_last_usable, unwrap_or, max_end,
}
use disk_edit.Geometry.Invariant.{IsValid}
use disk_edit.Policy.{
  relocate_backup, classify_repair, classify_state, relocated_last_usable, repaired_last_usable,
  new_last_usable, resolve_geometry, live_index, resolve_part_in, gpt, last_one, last_used_gpt,
  partition_bytes_in, live_entry_in, entry_bytes,
}
use disk_edit.Policy.Repair.{classify_repair-bound, resolve_geometry-IsValid}
use disk_edit.Policy.Lookup.{resolve_part_in-last_one}
use disk_edit.Policy.Bytes.{partition_bytes_in-disjoint}
use disk_edit.Tests.Data.{slots, grown_table, test_geometry, slots-checked}

grown_table-repair : classify_repair grown_table 1002 ≡ ok (relocate_backup 1002 1000)
unfolding classify_repair classify_state relocated_last_usable repaired_last_usable entry_array_new
    entry_size_ok lba_span max_end
grown_table-repair = refl

slots-below : max_end slots ≤ 900
unfolding max_end
slots-below = omega arith

moved_bound : new_last_usable (relocate_backup 1002 1000) ≡ some 1000
unfolding new_last_usable
moved_bound = refl

classify_repair-bound_example :
    (max_end slots ≤ 1000)
    × (grown_table.state ≡ GptState.needs_repair HeaderIssue.primary_unreadable → 1000 ≤ 900)
    × (grown_table.state ≡ GptState.needs_repair HeaderIssue.backup_unreadable
        → ◌≡◌ {A = ℕ} 1000 900)
    × (grown_table.state ≢ GptState.valid)
classify_repair-bound_example =
    classify_repair-bound grown_table 1002 (relocate_backup 1002 1000) 1000 slots-below
      grown_table-repair moved_bound

abbrev container : ℕ → ℕ
container ss = 1002

resolved :
    resolve_geometry (ok (some grown_table)) container
    ≡ ok (some (test_geometry, relocate_backup 1002 1000))
unfolding resolve_geometry classify_repair classify_state relocated_last_usable repaired_last_usable
    entry_array_new entry_size_ok lba_span geometry_new adopt_checked check_last_usable find_overlap
    unwrap_or new_last_usable
resolved = refl

resolve_geometry-IsValid_example :
    IsValid test_geometry
    × (test_geometry.entries ≡ slots)
    × (test_geometry.file_last_lba ≡ container 512)
    × (test_geometry.header.last_usable_lba
        ≡ unwrap_or (new_last_usable (relocate_backup 1002 1000)) 900)
resolve_geometry-IsValid_example =
    resolve_geometry-IsValid grown_table container test_geometry (relocate_backup 1002 1000)
      slots-checked resolved

last_of_slots : resolve_part_in (gpt slots 512) last_one ≡ ok 2
unfolding resolve_part_in last_used_gpt
last_of_slots = refl

resolve_part_in-last_one_example :
    (i : ℕ) × (e : GptPartitionEntry) × (2 ≡ suc i)
    × (live_index slots 2 ≡ ok i)
    × (get_elem? slots i ≡ some e)
    × All (λ x. x.ending_lba ≤ e.ending_lba) slots
resolve_part_in-last_one_example = resolve_part_in-last_one slots 512 2 last_of_slots

first_bytes : partition_bytes_in (gpt slots 512) 1 512 ≡ ok (20480, 30720)
unfolding partition_bytes_in live_entry_in live_index entry_bytes find_overlap
first_bytes = refl

third_bytes : partition_bytes_in (gpt slots 512) 3 512 ≡ ok (56320, 20480)
unfolding partition_bytes_in live_entry_in live_index entry_bytes find_overlap
third_bytes = refl

partition_bytes_in-disjoint_example : (20480 + 30720 ≤ 56320) ⊎ (56320 + 20480 ≤ 20480)
partition_bytes_in-disjoint_example =
    partition_bytes_in-disjoint slots 512 1 3 512 20480 30720 56320 20480
      (λ _. omega arith, (λ _. omega arith, (λ _. omega arith, (λ _. omega arith, tt))))
      (omega arith) first_bytes third_bytes
