-- ===== src/Tests/Transaction.antt =====
-- The start of transactions on a target with a relocation of partition 1 that was left half done.
use disk_edit.Prelude.{
  ℕ, ◌≡◌, ◌↔◌, refl, ◌++◌, arith, length, false, some, List, [], ◌∷◌, Result, ok,
}
use disk_edit.Outcome.{Message, Fail}
use disk_edit.Policy.{PartSelector, number}
use disk_edit.Journal.{JournalRecord, partition_table, pre_image}
use disk_edit.Journal.Slot.{
  RecoveryEntry, JournalCandidate, complete, truncated_tail, Adopted, adopt,
}
use disk_edit.Movepart.Checkpoint.{CheckpointSlot}
use disk_edit.Movepart.Resume.{relocation_ownership, resume_outcome, outcome_of_slot}
use disk_edit.Transaction.{
  way_out, WayOut, active_recovery_records, claimed, own_relocation, ResumeKind, preserved,
  credential_of, refuse_unidentifiable, begin_or_resume, journal_records, checkpoint_records,
}
use disk_edit.Table.Guid.{esp_type_guid}
use disk_edit.Journal.Header.{header}
use disk_edit.Journal.Scan.{frames}
use disk_edit.Journal.Scan.Cut.{whole, left}
use disk_edit.Journal.Slot.Adopt.{cut_journal, adopt-cut}
use disk_edit.Transaction.Gate.{CanUndo, way_out-CanUndo_iff}
use disk_edit.Transaction.Begin.{HasBegun, begin_or_resume-HasBegun}
use disk_edit.Tests.Parse.{half_moved}
use disk_edit.Tests.Journal.{
  checksum, checksum-word, scene, disk_guid, archive, two_records, two_records-fit, cut_at,
  none_follows, written,
}

abbrev one_record : JournalRecord
one_record = record { mutation = partition_table; recovery = pre_image 8 (1 ∷ []) (2 ∷ []) }

way_out-CanUndo_iff_example :
    (way_out (
        active_recovery_records
          (JournalCandidate.records (complete (one_record ∷ [])))
          (ok RecoveryEntry.absent))
      ≡ WayOut.undo_or_abandon)
    ↔ CanUndo (JournalCandidate.records (complete (one_record ∷ []))) (ok RecoveryEntry.absent)
way_out-CanUndo_iff_example =
    way_out-CanUndo_iff (JournalCandidate.records (complete (one_record ∷ [])))
      (ok RecoveryEntry.absent)

abbrev named : PartSelector → Result Fail ℕ
named part = ok 1

abbrev held : Result Fail CheckpointSlot
held = ok (CheckpointSlot.relocation half_moved)

-- The journal of the target stands beside the checkpoint, and its second record is cut short.
abbrev torn_journal : List ℕ
torn_journal = cut_journal checksum checksum-word scene disk_guid two_records cut_at

abbrev taken_up : Adopted
taken_up = record {
  file =
      some (header checksum scene disk_guid ++ frames checksum (whole checksum cut_at two_records));
  cut = left checksum cut_at two_records;
}

torn_journal-adopted : adopt checksum scene disk_guid archive (some torn_journal) ≡ ok taken_up
torn_journal-adopted =
    adopt-cut checksum checksum-word scene disk_guid archive two_records cut_at
      (omega arith, omega arith, omega arith, omega arith) (omega arith, omega arith) refl
      (λ e. cc e) two_records-fit none_follows refl

abbrev candidate : JournalCandidate
candidate =
    JournalCandidate.records
      (truncated_tail (written ∷ []) (length (left checksum cut_at two_records)))

abbrev at : Result Message RecoveryEntry
at = ok (RecoveryEntry.file 200)

resumed :
    begin_or_resume checksum archive scene named held
      (active_recovery_records candidate at)
      false
      (ok (some esp_type_guid))
      (some torn_journal)
      (own_relocation (number 1))
      preserved
    ≡ ok (ResumeKind.relocation, taken_up)
unfolding begin_or_resume refuse_unidentifiable claimed credential_of relocation_ownership
    resume_outcome outcome_of_slot active_recovery_records journal_records checkpoint_records
resumed = rw torn_journal-adopted refl

begin_or_resume-HasBegun_example :
    HasBegun checksum archive scene named held candidate at false
      (ok (some esp_type_guid))
      (some torn_journal)
      (own_relocation (number 1))
      preserved
      ResumeKind.relocation
      taken_up
begin_or_resume-HasBegun_example =
    begin_or_resume-HasBegun checksum archive scene named held candidate at false
      (ok (some esp_type_guid)) (some torn_journal) (own_relocation (number 1)) preserved
      ResumeKind.relocation taken_up resumed
