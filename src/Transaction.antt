-- ===== src/Transaction.antt =====
-- src/transaction.rs: what stands unfinished on a target, who may go on with it, and how a write
-- transaction starts. What stands at the two places of the recovery files is a parameter, and so
-- are the partition that a selector names and what `read_checkpoint` answers.
pub mod Gate
pub mod Begin
use disk_edit.Prelude.{
  ℕ, Bool, true, false, not, Option, none, some, List, [], ◌∷◌, ◌++◌, any, if◌then◌else◌, Result,
  ok, err, ◌>>=◌, ◌>>◌, refuse_if, map_err,
}
use disk_edit.Outcome.{Message, plain, within, Fail}
use disk_edit.Table.Guid.{Guid}
use disk_edit.Policy.{PartSelector}
use disk_edit.Identity.{LiveScene, LiveProof}
use disk_edit.Journal.{JournalRecord, RecoveryData, DiskGuidState, JournalError}
use disk_edit.Journal.Slot.{
  RecoveryEntry, JournalRead, complete, truncated_tail, JournalCandidate, Adopted, adopt,
}
use disk_edit.Movepart.Checkpoint.{CheckpointSlot}
use disk_edit.Movepart.Resume.{relocation_ownership, partition_resize_ownership}

pub data RecoveryRecord : Type 0 where
  journal : Option (List JournalRecord) → RecoveryRecord
  checkpoint : RecoveryRecord
  journal_old_format not_a_recovery_file : Message → RecoveryRecord

abbrev pub entries_of : JournalRead → List JournalRecord
entries_of (complete rs) = rs
entries_of (truncated_tail rs cut) = rs

unfoldable pub journal_records : JournalCandidate → List RecoveryRecord
journal_records JournalCandidate.absent = []
journal_records JournalCandidate.shell = []
journal_records (JournalCandidate.damaged m) = journal none ∷ []
journal_records (JournalCandidate.old_format m) = journal_old_format m ∷ []
journal_records (JournalCandidate.not_a_recovery_file m) = not_a_recovery_file m ∷ []
journal_records (JournalCandidate.records read) = journal (some (entries_of read)) ∷ []

unfoldable pub checkpoint_records : Result Message RecoveryEntry → List RecoveryRecord
checkpoint_records (err e) = checkpoint ∷ []
checkpoint_records (ok RecoveryEntry.absent) = []
checkpoint_records (ok (RecoveryEntry.file len)) = checkpoint ∷ []
checkpoint_records (ok (RecoveryEntry.not_a_recovery_file m)) = not_a_recovery_file m ∷ []

unfoldable pub active_recovery_records :
    JournalCandidate → Result Message RecoveryEntry → List RecoveryRecord
active_recovery_records candidate at = journal_records candidate ++ checkpoint_records at

-- The advice of `busy`, by its branches.
pub data WayOut : Type 0 where
  free_by_hand : Message → WayOut
  continue_or_abandon undo_or_abandon : WayOut
  abandon_old_format : Message → WayOut
  abandon_only : WayOut

abbrev is_checkpoint : RecoveryRecord → Bool
is_checkpoint checkpoint = true
is_checkpoint (journal _) = false
is_checkpoint (journal_old_format _) = false
is_checkpoint (not_a_recovery_file _) = false

-- `find_map` over the records, for each of the three kinds that `busy` looks for.
unfoldable pub recorded : List RecoveryRecord → Option (List JournalRecord)
recorded [] = none
recorded (journal (some v) ∷ rs) = some v
recorded (journal none ∷ rs) = recorded rs
recorded (checkpoint ∷ rs) = recorded rs
recorded (journal_old_format _ ∷ rs) = recorded rs
recorded (not_a_recovery_file _ ∷ rs) = recorded rs

unfoldable pub old_format : List RecoveryRecord → Option Message
old_format [] = none
old_format (journal_old_format m ∷ rs) = some m
old_format (journal _ ∷ rs) = old_format rs
old_format (checkpoint ∷ rs) = old_format rs
old_format (not_a_recovery_file _ ∷ rs) = old_format rs

unfoldable pub foreign : List RecoveryRecord → Option Message
foreign [] = none
foreign (not_a_recovery_file m ∷ rs) = some m
foreign (journal _ ∷ rs) = foreign rs
foreign (checkpoint ∷ rs) = foreign rs
foreign (journal_old_format _ ∷ rs) = foreign rs

abbrev pub is_barrier : JournalRecord → Bool
is_barrier r = elim r.recovery [
  | RecoveryData.barrier ↦ true
  | RecoveryData.pre_image off bytes after ↦ false
]

unfoldable pub rollbackable : List RecoveryRecord → Bool
rollbackable active = elim (recorded active) [ none ↦ false | some v ↦ not (any is_barrier v) ]

unfoldable pub way_out : List RecoveryRecord → WayOut
way_out active = elim (foreign active) [
  | some what ↦ free_by_hand what
  | none ↦
      if any is_checkpoint active
      then continue_or_abandon
      else if rollbackable active
      then undo_or_abandon
      else elim (old_format active) [
        | some version ↦ abandon_old_format version
        | none ↦ abandon_only
      ]
]

abbrev advice : WayOut → Message
advice (free_by_hand what) = within "which is not a recovery file written by this tool" what
advice continue_or_abandon = plain "re-run the command that started it, or release it"
advice undo_or_abandon = plain "roll it back with `diskedit undo`, or release it"
advice (abandon_old_format v) = within "the journal there is in an older format" v
advice abandon_only = plain "it is already past the point of rolling back"

abbrev pub busy : List RecoveryRecord → Fail
busy active =
    Fail.infra (within "an unfinished operation still owns this target" (advice (way_out active)))

pub data ResumeClaim : Type 0 where
  fresh_only any_checkpoint : ResumeClaim
  own_relocation resize_or_relocation : PartSelector → ResumeClaim

pub data TableIdentity : Type 0 where
  preserved produced : TableIdentity

pub data ResumeKind : Type 0 where
  fresh relocation partition_resize checkpointed : ResumeKind

-- The classification of `begin_or_resume`.
unfoldable pub claimed :
    (PartSelector → Result Fail ℕ)
    → Result Fail CheckpointSlot
    → List RecoveryRecord
    → ResumeClaim
    → Result Fail ResumeKind
claimed resolve slot [] claim = ok fresh
claimed resolve slot (r ∷ rs) fresh_only = err (busy (r ∷ rs))
claimed resolve slot (r ∷ rs) any_checkpoint =
    if any is_checkpoint (r ∷ rs) then ok checkpointed else err (busy (r ∷ rs))
claimed resolve slot (r ∷ rs) (own_relocation part) = do
  grow_part ← resolve part
  own ← relocation_ownership slot grow_part
  if own then ok relocation else err (busy (r ∷ rs))
claimed resolve slot (r ∷ rs) (resize_or_relocation part) = do
  grow_part ← resolve part
  own ← relocation_ownership slot grow_part
  if own
      then ok relocation
      else (partition_resize_ownership slot grow_part >>= λ resize.
          if resize then ok partition_resize else err (busy (r ∷ rs)))

-- The credential of `attach_journal`; `now` is what `disk_guid_of` reads.
unfoldable pub credential_of :
    TableIdentity → Result Message (Option Guid) → Result Fail DiskGuidState
credential_of produced now = ok DiskGuidState.generated_this_operation
credential_of preserved (ok (some g)) = ok (DiskGuidState.present g)
credential_of preserved (ok none) = ok DiskGuidState.unavailable
credential_of preserved (err e) =
    err (Fail.infra (within "the target's GPT disk identity cannot be read" e))

abbrev is_unavailable : LiveProof → Bool
is_unavailable LiveProof.unavailable = true
is_unavailable LiveProof.device_id = false
is_unavailable LiveProof.inode = false

unfoldable pub refuse_unidentifiable : LiveScene → Result Fail (Unit {0})
refuse_unidentifiable scene =
    refuse_if (is_unavailable scene.proof)
      (Fail.refused (plain "this target exposes no stable identity"))

abbrev open_failed : JournalError → Fail
open_failed (JournalError.invalid_data m) = Fail.infra (within "journal open failed" m)
open_failed (JournalError.old_format_error v) = Fail.infra (plain "journal open failed")

-- `begin_or_resume` on a target that was opened and locked. The journal of the place has the bytes
-- `file`, and `slot_held` says whether this process has a transaction already.
module _ (crc32 : List ℕ → ℕ) (archive : List ℕ → Option Message) where
  unfoldable pub begin_or_resume :
      LiveScene
      → (PartSelector → Result Fail ℕ)
      → Result Fail CheckpointSlot
      → List RecoveryRecord
      → Bool
      → Result Message (Option Guid)
      → Option (List ℕ)
      → ResumeClaim
      → TableIdentity
      → Result Fail (ResumeKind × Adopted)
  begin_or_resume scene resolve slot active slot_held guid file claim table = do
    refuse_unidentifiable scene
    resumed ← claimed resolve slot active claim
    refuse_if slot_held (Fail.infra (plain "the session slot is already held"))
    credential ← credential_of table guid
    adopted ← map_err (adopt crc32 scene credential archive file) open_failed
    ok (resumed, adopted)
