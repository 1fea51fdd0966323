-- ===== src/Undo/Command.antt =====
-- The command of src/cmd/undo.rs around the replay: what it refuses, which journal it picks, and
-- how it ends. What stands around the target is a parameter: the gates, the checkpoint slot, the
-- journal, the scene and the disk GUID, and whether the recovery files could be removed.
pub mod Ends
use disk_edit.Prelude.{
  ℕ, Bool, true, false, not, ◌&&◌, Option, none, some, List, [], ◌∷◌, if◌then◌else◌, max, Result,
  ok, err, ◌>>=◌, ◌>>◌, refuse_if,
}
use disk_edit.Memory.{Memory}
use disk_edit.Outcome.{Message, plain, note, within, Fail, exit_partial}
use disk_edit.Table.Guid.{Guid}
use disk_edit.Identity.{LiveScene, scene_mismatch}
use disk_edit.Journal.{
  JournalRecord, DiskGuidState, unavailable, generated_this_operation, present,
  disk_identity_mismatch,
}
use disk_edit.Journal.Header.{JournalHeader}
use disk_edit.Journal.Slot.{
  JournalRead, complete, truncated_tail, JournalCandidate, absent, shell, old_format,
  not_a_recovery_file, damaged, records,
}
use disk_edit.Undo.{Device, undo_entries}

pub data PickedJournal : Type 0 where
  none_there empty_shell : PickedJournal
  replayable : JournalRead → PickedJournal

-- `pick_journal`, with the class of failure that `cmd_undo` gives each of its errors.
unfoldable pub pick_journal : JournalCandidate → Result Fail PickedJournal
pick_journal absent = ok none_there
pick_journal shell = ok empty_shell
pick_journal (damaged detail) =
    err (Fail.infra (within "the undo journal exists but is unreadable" detail))
pick_journal (old_format m) = err (Fail.refused m)
pick_journal (not_a_recovery_file m) = err (Fail.refused m)
pick_journal (records read) = ok (replayable read)

pub data CheckpointSlot : Type 0 where
  vacant : CheckpointSlot
  present_at foreign_entry : Message → CheckpointSlot

unfoldable pub stale_checkpoint_note : CheckpointSlot → Result Fail (Option Message)
stale_checkpoint_note vacant = ok none
stale_checkpoint_note (present_at path) = ok (some path)
stale_checkpoint_note (foreign_entry m) = err (Fail.refused m)

-- What `disk_guid_of` reads, as a state.
abbrev current_state : Option Guid → DiskGuidState
current_state none = unavailable
current_state (some g) = present g

abbrev refuse_mismatch : Option Message → Result Fail (Unit {0})
refuse_mismatch none = ok tt
refuse_mismatch (some why) = err (Fail.refused why)

unfoldable pub verify_disk_identity :
    DiskGuidState → Result Message (Option Guid) → Result Fail (Unit {0})
verify_disk_identity (present g) (err e) =
    err (Fail.infra (within "the target's GPT disk identity cannot be read" e))
verify_disk_identity (present g) (ok now) =
    refuse_mismatch (disk_identity_mismatch (present g) (current_state now))
verify_disk_identity unavailable now = ok tt
verify_disk_identity generated_this_operation now = ok tt

-- The world around the command, at the time of the call.
pub record World : Type 0 where
  pub part : Option ℕ
  pub node_refusal : Option Fail
  pub yes : Bool
  pub open_failure : Option Fail
  pub busy : Option Fail
  pub checkpoint : CheckpointSlot
  pub candidate : JournalCandidate
  pub header : Result Message JournalHeader
  pub scene : LiveScene
  pub disk_guid : Result Message (Option Guid)
  pub has_any_evidence : Bool
  pub shell_removed : Bool
  pub journal_cleared : Bool
  pub checkpoint_removed : Bool
  pub done_code : ℕ  -- of `table_write_done`

abbrev stop_on : Option Fail → Result Fail (Unit {0})
stop_on none = ok tt
stop_on (some f) = err f

abbrev readable : World → Result Fail JournalHeader
readable w = elim w.header [
  | ok h ↦ ok h
  | err e ↦ err (Fail.infra (within "journal identity header is unreadable" e))
]

-- The journal was written for this target.
unfoldable pub check_identity : World → Result Fail (Unit {0})
check_identity w = do
  h ← readable w
  refuse_mismatch (scene_mismatch h.scene w.scene)
  verify_disk_identity h.credential w.disk_guid

-- `remove_empty_shell`, which ends the command.
unfoldable pub remove_empty_shell : World → Fail
remove_empty_shell w = elim (stale_checkpoint_note w.checkpoint) [
  | err f ↦ f
  | ok (some stale) ↦ Fail.refused (within "the undo journal is empty" stale)
  | ok none ↦ elim (check_identity w) [
    | err f ↦ f
    | ok _ ↦ Fail.refused (
        if w.shell_removed
        then plain "nothing to undo (the empty journal shell was removed)"
        else plain "nothing to undo, but the empty journal shell could not be removed")
  ]
]

unfoldable pub nothing_there : World → Fail
nothing_there w = elim (stale_checkpoint_note w.checkpoint) [
  | err f ↦ f
  | ok (some stale) ↦ Fail.refused (within "no undo journal, but an unfinished checkpoint" stale)
  | ok none ↦ Fail.refused (plain "no undo journal on this target")
]

-- The tests before the journal is looked at.
unfoldable pub gates : World → Result Fail (Unit {0})
gates w = do
  elim w.part [
    | none ↦ ok tt
    | some n ↦
        err (Fail.refused (note "`undo` replays the whole target's journal - drop :{}" (n ∷ [])))
  ]
  stop_on w.node_refusal
  refuse_if (not w.yes) (Fail.refused (plain "`undo` overwrites current bytes; pass --yes"))
  stop_on w.open_failure
  stop_on w.busy
  stale_checkpoint_note w.checkpoint >>= λ _. ok tt

-- The records to replay, and whether the tail is incomplete.
unfoldable pub picked_entries : World → Result Fail (List JournalRecord × Bool)
picked_entries w = do
  gates w
  picked ← pick_journal w.candidate
  elim picked [
    | none_there ↦ err (nothing_there w)
    | empty_shell ↦ err (remove_empty_shell w)
    | replayable (complete rs) ↦ ok (rs, false)
    | replayable (truncated_tail rs cut) ↦ ok (rs, true)
  ]

abbrev raised : Bool → ℕ → ℕ
raised true code = max code exit_partial
raised false code = code

-- The exit code of a rollback that was completed.
unfoldable pub undo_code : World → Bool → ℕ
undo_code w tail_incomplete =
    raised (not (w.journal_cleared && w.checkpoint_removed)) (raised tail_incomplete w.done_code)

-- What stands on the disk at the end, and the failure or the exit code.
unfoldable pub cmd_undo : Device → World → Memory → Memory × Result Fail ℕ
cmd_undo dev w mem = elim (picked_entries w) [
  | err f ↦ (mem, err f)
  | ok (entries, tail_incomplete) ↦ elim (check_identity w) [
    | err f ↦ (mem, err f)
    | ok _ ↦ (
      (undo_entries dev mem w.has_any_evidence entries).0,
      (undo_entries dev mem w.has_any_evidence entries).1 >>= λ _. ok (undo_code w tail_incomplete),
    )
  ]
]
