-- ===== src/Geometry/Check.antt =====
-- `check_entries` of src/geometry.rs: comparing the disk with what was validated, before a write.
use disk_edit.Prelude.{
  ℕ, suc, Bool, false, not, ◌&&◌, Option, none, some, List, [], ◌∷◌, ◌==◌, if◌then◌else◌, length,
  get_elem?, any, Result, ok, err, ◌>>◌, ◌>>=◌, refuse_if, ok_or, map_err, String,
}
use disk_edit.Outcome.{Message, plain, note, Fail}
use disk_edit.Table.Guid.{Guid, guid_eq}
use disk_edit.Table.Gpt.{GptPartitionEntry, RawHeader, RawGpt, entry_eq}
use disk_edit.Geometry.{ValidatedGeometry}

-- Why a table is not the one that was validated: changed (a refusal), or not readable (infra).
pub data TableCheck : Type 0 where
  changed unreadable : Message → TableCheck

unfoldable pub message_of_check : TableCheck → Message
message_of_check (changed m) = m
message_of_check (unreadable m) = m

-- `TableCheck::into_fail`
unfoldable pub fail_of_check : TableCheck → Fail
fail_of_check (changed m) = Fail.refused m
fail_of_check (unreadable m) = Fail.infra m

-- A header field is foreign when it is neither what was read nor what is to be written.
abbrev pub foreign_number : ℕ → ℕ → ℕ → Bool
foreign_number was is want = not (is == was) && not (is == want)

abbrev pub foreign_guid : Guid → Guid → Guid → Bool
foreign_guid was is want = not (guid_eq is was) && not (guid_eq is want)

-- The first foreign field of the array in `check_entries`, in its order.
unfoldable pub foreign_field : RawHeader → RawHeader → RawHeader → Option String
foreign_field d now target =
    if foreign_number d.revision now.revision target.revision
    then some "revision"
    else if foreign_number d.backup_lba now.backup_lba target.backup_lba
    then some "backup_lba"
    else if foreign_number d.first_usable_lba now.first_usable_lba target.first_usable_lba
    then some "first_usable_lba"
    else if foreign_number d.last_usable_lba now.last_usable_lba target.last_usable_lba
    then some "last_usable_lba"
    else if foreign_guid d.disk_guid now.disk_guid target.disk_guid
    then some "disk_guid"
    else if foreign_number d.number_of_partition_entries now.number_of_partition_entries
        target.number_of_partition_entries
    then some "number_of_partition_entries"
    else if foreign_number d.size_of_partition_entry now.size_of_partition_entry
        target.size_of_partition_entry
    then some "size_of_partition_entry"
    else if foreign_number d.header_size now.header_size target.header_size
    then some "header_size"
    else none

-- `entries[i] == entry`; the lengths agree, so the index is in range.
unfoldable pub stands_at : List GptPartitionEntry → ℕ → GptPartitionEntry → Bool
stands_at es i e = elim (get_elem? es i) [ none ↦ false | some x ↦ entry_eq e x ]

-- The loop over the slots, at the index `i` of the next one.
unfoldable pub check_slots :
    ValidatedGeometry → ℕ → List GptPartitionEntry → Result TableCheck (Unit {0})
check_slots g i [] = ok tt
check_slots g i (e ∷ es) =
    let rest = check_slots g (suc i) es in
    if stands_at g.decided_entries i e
    then rest
    else if any (λ j. j == i) g.dirty && stands_at g.entries i e
    then rest
    else err (changed (note "partition entry #{} changed outside this tool" (suc i ∷ [])))

no_foreign_field : Option String → Result TableCheck (Unit {0})
no_foreign_field none = ok tt
no_foreign_field (some field) = err (changed (plain field))

unfoldable pub check_table : ValidatedGeometry → RawGpt → Result TableCheck (Unit {0})
unfolding no_foreign_field
check_table g disk = do
  refuse_if (not (length disk.entries == length g.decided_entries)) (
      changed (
        note "GPT entry array holds {} entries but {} were validated"
          (length disk.entries ∷ length g.decided_entries ∷ [])))
  no_foreign_field (foreign_field g.decided_header disk.header g.header)
  check_slots g 0 disk.entries

-- `check_entries`, on what `load_gpt` answers for the disk.
unfoldable pub check_entries :
    ValidatedGeometry → Result Message (Option RawGpt) → Result TableCheck (Unit {0})
unfolding check_table
check_entries g loaded = do
  found ← map_err loaded unreadable
  disk ← ok_or found (changed (plain "GPT vanished before the table write"))
  check_table g disk

-- `ensure_entries_unchanged`, whose error is an I/O error, and `ensure_entries_unchanged_fail`.
unfoldable pub ensure_entries_unchanged :
    ValidatedGeometry → Result Message (Option RawGpt) → Result Message (Unit {0})
unfolding check_entries
ensure_entries_unchanged g loaded = map_err (check_entries g loaded) message_of_check

unfoldable pub ensure_entries_unchanged_fail :
    ValidatedGeometry → Result Message (Option RawGpt) → Result Fail (Unit {0})
unfolding check_entries
ensure_entries_unchanged_fail g loaded = map_err (check_entries g loaded) fail_of_check
