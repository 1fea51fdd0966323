-- ===== src/Tests/Journal.antt =====
-- Runs of src/dev/journal.rs on two records, with a checksum in the place of the CRC.
use disk_edit.Prelude.{
  ℕ, ◌+◌, ◌%◌, ◌<◌, ◌≡◌, refl, false, Option, none, some, List, [], ◌∷◌, ◌++◌, length, take, Result,
  ok, arith, u32_mod, All,
}
use native.Mathlib.Nat.{mod-lt}
use disk_edit.Bytes.{to_le, from_le, drop, number_at}
use disk_edit.Outcome.{Message}
use disk_edit.Table.Guid.{esp_type_guid}
use disk_edit.Identity.{TargetFingerprint, inode, live, LiveScene}
use disk_edit.Journal.{
  partition_table, relocate_partition, pre_image, barrier, JournalRecord, JournalError,
  mutation_tag, write_meta, encode_recovery, encode_record, decode_record, DiskGuidState, present,
  header_len,
}
use disk_edit.Journal.Coding.{decode-encode_record}
use disk_edit.Journal.Header.{JournalHeader, header, parse_header}
use disk_edit.Journal.Header.RoundTrip.{parse_header-header, header-length}
use disk_edit.Journal.Scan.{
  record_crc, frame, frames, complete_at, later_complete_record, scan_entries,
}
use disk_edit.Journal.Scan.Frame.{FrameFits}
use disk_edit.Journal.Scan.Ends.{scan_entries-ends}
use disk_edit.Journal.Scan.Cut.{cut_result, whole, left, scan_entries-cut}
use disk_edit.Journal.Slot.{file, contents, adopt, classify_journal}
use disk_edit.Journal.Slot.Adopt.{cut_journal, adopt-cut}
use disk_edit.Journal.Slot.Classify.{taken_for, classify_journal-cut}

unfoldable pub checksum : List ℕ → ℕ
unfolding from_le
checksum b = from_le b % u32_mod

pub checksum-word : (b : List ℕ) → checksum b < u32_mod
unfolding checksum
checksum-word b = mod-lt (from_le b) (omega arith)

abbrev pub written : JournalRecord
written = record { mutation = partition_table; recovery = pre_image 512 (1 ∷ 2 ∷ []) (3 ∷ 4 ∷ []) }

abbrev moved : JournalRecord
moved = record { mutation = relocate_partition 2 2048 4096; recovery = barrier }

abbrev pub two_records : List JournalRecord
two_records = written ∷ moved ∷ []

pub two_records-fit : All FrameFits two_records
unfolding encode_record encode_recovery write_meta mutation_tag to_le
two_records-fit = (
  ((tt, (omega arith, omega arith)), omega arith),
  ((((omega arith, omega arith, omega arith), tt), omega arith), tt),
)

decode-encode_record_example : decode_record (encode_record moved) ≡ ok moved
decode-encode_record_example =
    decode-encode_record moved ((omega arith, omega arith, omega arith), tt)

abbrev image : TargetFingerprint
image = record { dev = 2049; ino = 77; size = 524288; id = 0 }

abbrev pub scene : LiveScene
scene = record { fp = image; map = some (512, 0); proof = inode }

abbrev pub disk_guid : DiskGuidState
disk_guid = present esp_type_guid

abbrev scene_header : JournalHeader
scene_header = record {
  scene = record { fp = image; map = some (512, 0); proof = live inode };
  credential = disk_guid;
}

parse_header-header_example :
    parse_header checksum (header checksum scene disk_guid ++ 9 ∷ []) ≡ ok scene_header
parse_header-header_example =
    parse_header-header checksum checksum-word scene disk_guid (9 ∷ [])
      (omega arith, omega arith, omega arith, omega arith) (omega arith, omega arith) refl

-- The second record is cut short.
abbrev pub cut_at : ℕ
cut_at = 40

scan_entries-cut_example :
    scan_entries checksum
      (header checksum scene disk_guid ++ take cut_at (frames checksum two_records))
    ≡ cut_result
        (later_complete_record checksum (drop 8 (left checksum cut_at two_records)))
        (whole checksum cut_at two_records)
        (header_len + length (frames checksum (whole checksum cut_at two_records)))
scan_entries-cut_example =
    scan_entries-cut checksum checksum-word (header checksum scene disk_guid) two_records cut_at
      (header-length checksum checksum-word scene disk_guid refl) two_records-fit

one_left : whole checksum cut_at two_records ≡ written ∷ []
unfolding whole frame encode_record encode_recovery write_meta mutation_tag to_le
one_left = refl

scan_entries-ends_example :
    (r : Result JournalError (List JournalRecord × ℕ)) × (scan_entries checksum
        (header checksum scene disk_guid)
      ≡ some r)
scan_entries-ends_example = scan_entries-ends checksum (header checksum scene disk_guid)

pub none_follows :
    later_complete_record checksum (drop 8 (left checksum cut_at two_records)) ≡ false
unfolding later_complete_record complete_at left frame encode_record encode_recovery write_meta
    mutation_tag to_le drop number_at record_crc checksum from_le
none_follows = refl

abbrev pub archive : List ℕ → Option Message
archive tail = none

adopt-cut_example :
    adopt checksum scene disk_guid archive
      (some (cut_journal checksum checksum-word scene disk_guid two_records cut_at))
    ≡ ok (record {
      file =
          some (
            header checksum scene disk_guid ++ frames checksum (whole checksum cut_at two_records));
      cut = left checksum cut_at two_records;
    })
adopt-cut_example =
    adopt-cut checksum checksum-word scene disk_guid archive two_records cut_at
      (omega arith, omega arith, omega arith, omega arith) (omega arith, omega arith) refl
      (λ e. cc e) two_records-fit none_follows refl

classify_journal-cut_example :
    classify_journal checksum
      (ok (file (length (cut_journal checksum checksum-word scene disk_guid two_records cut_at))))
      (contents (cut_journal checksum checksum-word scene disk_guid two_records cut_at))
    ≡ taken_for (whole checksum cut_at two_records) (length (left checksum cut_at two_records))
classify_journal-cut_example =
    classify_journal-cut checksum checksum-word scene disk_guid two_records cut_at
      (omega arith, omega arith, omega arith, omega arith) (omega arith, omega arith) refl
      two_records-fit none_follows
