-- ===== src/Tests/Table.antt =====
-- Runs of src/outcome.rs, src/table and src/geometry.rs on the test table.
use disk_edit.Prelude.{
  ◌↔◌, ℕ, ◌+◌, ◌*◌, ◌≤◌, ◌<◌, ◌≡◌, ◌≢◌, refl, List, [], ◌∷◌, none, some, ok, Result, true, false,
  Pairs, get_elem?, suc, arith, length, any, ◌==◌, Option,
}
use disk_edit.Outcome.{Message, plain, Fail, Pending, PendingKind}
use disk_edit.Table.EntryArray.{byte_len, lba_span}
use disk_edit.Table.EntryArray.Size.{lba_span_tight}
use disk_edit.Table.Guid.{guid_eq}
use disk_edit.Table.Gpt.{GptPartitionEntry, RawGpt, is_unused, entry_eq}
use disk_edit.Geometry.{
  ValidatedGeometry, find_overlap, geometry_new, update_entry, check_draft, intersects, unwrap_or,
}
use disk_edit.Geometry.Check.{check_entries, check_slots, foreign_field, stands_at}
use disk_edit.Geometry.Overlap.{Clear, find_overlap-none}
use disk_edit.Geometry.Overlap.Report.{find_overlap-some}
use disk_edit.Geometry.Invariant.{IsValid}
use disk_edit.Geometry.Build.{geometry_new-IsValid}
use disk_edit.Geometry.Accept.{IsAcceptable, geometry_new-IsAcceptable_iff}
use disk_edit.Geometry.Edit.{update_entry-IsValid, update_entry-frame}
use disk_edit.Geometry.Recheck.{check_entries_sound, HeaderKept, SlotKept}
use disk_edit.Tests.Data.{
  entry_at, slots, test_header, grown_table, array_geometry, test_geometry, slots-checked,
  test_geometry-built, test_geometry-IsValid,
}

abbrev swap_step : Pending
swap_step = record {
  part = 2;
  kind = PendingKind.swap;
  detail = plain "mkswap";
  hint = plain "mkswap";
}

lba_span_tight_example :
    (byte_len array_geometry ≤ lba_span array_geometry * 512)
    × (lba_span array_geometry * 512 < byte_len array_geometry + 512)
    × (0 < lba_span array_geometry)
    × (lba_span array_geometry ≤ 32768)
lba_span_tight_example = lba_span_tight array_geometry (test_geometry-IsValid.plausible)

find_overlap-none_example : Pairs Clear slots
unfolding find_overlap
find_overlap-none_example =
    find_overlap-none slots
      (λ _. omega arith, (λ _. omega arith, (λ _. omega arith, (λ _. omega arith, tt)))) refl

abbrev meeting : List GptPartitionEntry
meeting = entry_at 140 159 ∷ entry_at 40 99 ∷ entry_at 110 149 ∷ []

find_overlap-some_example :
    (i : ℕ) × (j : ℕ) × (x : GptPartitionEntry) × (y : GptPartitionEntry) × (3 ≡ suc i)
    × (1 ≡ suc j)
    × (i ≢ j)
    × (get_elem? meeting i ≡ some x)
    × (get_elem? meeting j ≡ some y)
    × (is_unused x ≡ false)
    × (is_unused y ≡ false)
    × (intersects x y ≡ true)
unfolding find_overlap
find_overlap-some_example =
    find_overlap-some meeting 3 1 (λ _. omega arith, (λ _. omega arith, (λ _. omega arith, tt)))
      refl

geometry_new-IsValid_example :
    IsValid test_geometry
    × (test_geometry.entries ≡ slots)
    × (test_geometry.header.last_usable_lba ≡ unwrap_or (some 1000) 900)
    × (test_geometry.header.first_usable_lba ≡ 34)
    × (test_geometry.file_last_lba ≡ 1002)
geometry_new-IsValid_example =
    geometry_new-IsValid grown_table 1002 (some 1000) slots-checked test_geometry-built

geometry_new-IsAcceptable_iff_example :
    (((vg : ValidatedGeometry) × (geometry_new grown_table 1002 (some 1000) ≡ ok vg))
      ↔ IsAcceptable grown_table 1002 1000)
    × (IsAcceptable grown_table 1002 1000
        → geometry_new grown_table 1002 (some 1000) ≡ ok test_geometry)
unfolding unwrap_or
geometry_new-IsAcceptable_iff_example =
    geometry_new-IsAcceptable_iff grown_table 1002 (some 1000) slots-checked

-- The second entry moves to 160.
abbrev moved : GptPartitionEntry → GptPartitionEntry
moved e = record e { starting_lba = 160; ending_lba = 169 }

abbrev edited : ValidatedGeometry
edited = record test_geometry {
  entries = entry_at 40 99 ∷ moved (entry_at 150 159) ∷ entry_at 110 149 ∷ entry_at 0 0 ∷ [];
  dirty = 1 ∷ [];
}

edited-made : update_entry test_geometry 1 moved ≡ ok edited
unfolding update_entry check_draft
edited-made = refl

update_entry-IsValid_example : IsValid edited
update_entry-IsValid_example =
    update_entry-IsValid test_geometry 1 moved test_geometry-IsValid edited-made

update_entry-frame_example :
    ((cur : GptPartitionEntry) × (get_elem? slots 1 ≡ some cur)
      × (get_elem? edited.entries 1 ≡ some (moved cur)))
    × (any (λ i. i == 1) edited.dirty ≡ true)
    × ((j : ℕ) → 1 ≢ j → get_elem? edited.entries j ≡ get_elem? slots j)
    × (edited.header ≡ test_geometry.header)
    × (edited.decided_entries ≡ test_geometry.decided_entries)
    × (edited.decided_header ≡ test_geometry.decided_header)
update_entry-frame_example = update_entry-frame test_geometry 1 moved edited-made

grown_table-same : check_entries edited (ok (some grown_table)) ≡ ok tt
unfolding check_entries check_slots foreign_field stands_at guid_eq entry_eq
grown_table-same = refl

abbrev loaded : Result Message (Option RawGpt)
loaded = ok (some grown_table)

check_entries_sound_example :
    (disk : RawGpt) × (loaded ≡ ok (some disk))
    × (length disk.entries ≡ 4)
    × HeaderKept test_header disk.header edited.header
    × ((i : ℕ) (e : GptPartitionEntry) → get_elem? disk.entries i ≡ some e → SlotKept edited i e)
check_entries_sound_example = check_entries_sound edited (ok (some grown_table)) grown_table-same

abbrev vanished : Result Message (Option RawGpt)
vanished = ok none

abbrev vanished_fail : Fail
vanished_fail = Fail.refused (plain "GPT vanished before the table write")
