-- ===== src/Journal/Slot.antt =====
-- The place of a journal: `RecoveryFile::at` of src/dev/target.rs as far as it tells the cases
-- apart, and `read_entries`, `classify_journal` and `Journal::adopt` of src/dev/journal.rs on the
-- bytes of the file. The file system is a parameter: what stands at the place, what a read of it
-- gives, and whether the archive of a torn tail can be written.
pub mod Adopt
pub mod Classify
pub mod Owner
use disk_edit.Prelude.{
  ℕ, ◌+◌, ◌-◌, Bool, true, false, not, ◌||◌, ◌&&◌, Option, none, some, List, [], ◌∷◌, ltb, ◌==◌,
  if◌then◌else◌, length, take, Result, ok, err, ◌>>=◌, ◌>>◌, refuse_if, map_err,
}
use disk_edit.Bytes.{drop}
use disk_edit.Outcome.{Message, plain, note, is_empty}
use disk_edit.Table.Guid.{guid_eq}
use disk_edit.Identity.{LiveScene, scene_mismatch, or_else}
use disk_edit.Journal.{
  JournalRecord, JournalError, invalid_data, old_format_error, DiskGuidState, unavailable,
  generated_this_operation, present, disk_identity_mismatch, magic_len, header_len,
}
use disk_edit.Journal.Header.{JournalHeader, magic, header, parse_header, truncated_header_error}
use disk_edit.Journal.Scan.{scan_result}

-- A regular file of so many bytes, or something else.
pub data RecoveryEntry : Type 0 where
  absent : RecoveryEntry
  file : ℕ → RecoveryEntry
  not_a_recovery_file : Message → RecoveryEntry

-- What a read of the whole file gives: it may have gone since.
pub data FileRead : Type 0 where
  not_found : FileRead
  unreadable : Message → FileRead
  contents : List ℕ → FileRead

pub data JournalRead : Type 0 where
  complete : List JournalRecord → JournalRead
  truncated_tail : (records : List JournalRecord) (cut : ℕ) → JournalRead

pub data JournalCandidate : Type 0 where
  absent shell : JournalCandidate
  old_format not_a_recovery_file damaged : Message → JournalCandidate
  records : JournalRead → JournalCandidate

-- The journal that a run goes on with: the bytes of its file, if there is one, and the tail that
-- was cut off and archived.
pub record Adopted : Type 0 where
  pub file : Option (List ℕ)
  pub cut : List ℕ

abbrev error_message : JournalError → Message
error_message (invalid_data m) = m
error_message (old_format_error version) =
    note "journal format v{} is older than this build" (version ∷ [])

unfoldable pub is_generated : DiskGuidState → Bool
is_generated generated_this_operation = true
is_generated _ = false

-- The bytes of the file start the magic: `MAGIC.starts_with(&head)`.
unfoldable pub starts_magic : List ℕ → Bool
starts_magic head = guid_eq (take (length head) magic) head

module _ (crc32 : List ℕ → ℕ) where
  -- `read_entries` on the bytes of the file.
  unfoldable pub read_entries : List ℕ → Result JournalError JournalRead
  read_entries bytes = do
    _ ← parse_header crc32 bytes
    (found, end) ← scan_result crc32 bytes
    ok (
        if length bytes - end == 0
        then complete found
        else truncated_tail found (length bytes - end))

  -- The arms of `classify_journal` on what `read_entries` says.
  unfoldable pub candidate_of : Result JournalError JournalRead → JournalCandidate
  candidate_of (ok (complete [])) = shell
  candidate_of (ok (complete (r ∷ rs))) = records (complete (r ∷ rs))
  candidate_of (ok (truncated_tail [] cut)) =
      damaged (note "the header is followed by {} byte(s) that form no complete record" (cut ∷ []))
  candidate_of (ok (truncated_tail (r ∷ rs) cut)) = records (truncated_tail (r ∷ rs) cut)
  candidate_of (err (old_format_error version)) =
      old_format (error_message (old_format_error version))
  candidate_of (err (invalid_data m)) = damaged m

  unfoldable pub classify_journal : Result Message RecoveryEntry → FileRead → JournalCandidate
  classify_journal (err e) read = damaged e
  classify_journal (ok absent) read = absent
  classify_journal (ok (not_a_recovery_file m)) read = not_a_recovery_file m
  classify_journal (ok (file len)) read = elim (len == 0) [
    | true ↦ absent
    | false ↦ elim read [
      | not_found ↦ absent
      | unreadable m ↦ damaged m
      | contents bytes ↦ candidate_of (read_entries bytes)
    ]
  ]

  -- The header of a file that is not empty.
  unfoldable pub recorded_header : List ℕ → Result JournalError JournalHeader
  recorded_header bytes =
      if not (ltb (length bytes) magic_len)
      then parse_header crc32 (take header_len bytes)
      else if starts_magic bytes
      then err (truncated_header_error (length bytes))
      else err (invalid_data (plain "existing file is not a diskedit journal (magic mismatch)"))

  -- Nothing at all follows the header.
  unfoldable pub no_records : List ℕ → Bool
  no_records bytes = elim (scan_result crc32 bytes) [
    | ok (rs, end) ↦ is_empty rs && end == length bytes
    | err e ↦ false
  ]

  unfoldable pub mismatch : JournalHeader → LiveScene → DiskGuidState → Option Message
  mismatch recorded identity credential =
      or_else (scene_mismatch recorded.scene identity)
        (disk_identity_mismatch recorded.credential credential)

  abbrev not_adopted : Option Message → JournalError
  not_adopted (some why) = invalid_data why
  not_adopted none =
      invalid_data (plain "the current operation rewrites the whole table, but records are held")

  abbrev is_some {ℓ} : {A : Type ℓ} → Option A → Bool
  is_some none = false
  is_some (some _) = true

  module _ (identity : LiveScene) (credential : DiskGuidState)
      (archive : List ℕ → Option Message) where
    abbrev fresh_header : Adopted
    fresh_header = record { file = some (header crc32 identity credential); cut = [] }

    -- The torn tail is archived, then cut off.
    unfoldable pub cut_tail : List ℕ → ℕ → Result JournalError Adopted
    cut_tail bytes end =
        if length bytes - end == 0
        then ok (record { file = some bytes; cut = [] })
        else elim (archive (drop end bytes)) [
          | none ↦ ok (record { file = some (take end bytes); cut = drop end bytes })
          | some e ↦ err (invalid_data e)
        ]

    -- `adopt` on the bytes of a file that is not empty.
    unfoldable pub adopt_file : List ℕ → Result JournalError Adopted
    adopt_file bytes = do
      recorded ← recorded_header bytes
      let why = mismatch recorded identity credential
      let produced_now = is_generated credential && not (is_generated recorded.credential)
      if is_some why || produced_now
          then (if no_records bytes then ok fresh_header else err (not_adopted why))
          else (scan_result crc32 bytes >>= λ (_, end). cut_tail bytes end)

    unfoldable pub adopt : Option (List ℕ) → Result JournalError Adopted
    adopt none = ok (record { file = none; cut = [] })
    adopt (some []) = ok fresh_header
    adopt (some (b ∷ bs)) = adopt_file (b ∷ bs)
