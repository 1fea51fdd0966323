-- ===== src/Movepart/Resume.antt =====
-- src/movepart/plan.rs: the plans that take up the job which a checkpoint records, and whom a
-- checkpoint belongs to. `slot` is what `read_checkpoint` answers.
pub mod Ownership
use disk_edit.Prelude.{
  ℕ, ◌+◌, Bool, true, false, ◌&&◌, Option, none, some, List, [], ◌∷◌, ◌==◌, if◌then◌else◌, Result,
  ok, err, ◌>>=◌, ◌>>◌, refuse_if, ok_or, ok_part, checked_add, not,
}
use disk_edit.Outcome.{Message, plain, Fail}
use disk_edit.Geometry.{ValidatedGeometry}
use disk_edit.Table.Gpt.{GptPartitionEntry}
use disk_edit.Policy.{RepairAction, nothing, live_entry}
use disk_edit.Movepart.Types.{PlanEntry, PlanKind, tail_packed, Plan}
use disk_edit.Movepart.Plan.{plan_tail_packed, shift_plan_from, grow_end_for}
use disk_edit.Movepart.Checkpoint.{
  Checkpoint, RsCheckpoint, LvmPostFacts, CheckpointSlot, empty, relocation,
}

pub data ShiftIntent : Type 0 where
  grow : ℕ → ShiftIntent
  no_op shrink : ShiftIntent

pub data ResumeOutcome : Type 0 where
  no_job : ResumeOutcome
  belongs : Plan → ResumeOutcome
  occupied : ResumeOutcome
  foreign_resize : ℕ → Bool → ResumeOutcome

abbrev pub foreign_checkpoint_refusal : Fail
foreign_checkpoint_refusal =
    Fail.refused
      (plain "an unfinished relocation job for a different partition occupies the checkpoint slot")

abbrev pub foreign_resize_refusal : Fail
foreign_resize_refusal =
    Fail.refused (plain "an unfinished single-partition resize job occupies the checkpoint slot")

abbrev pub plan_job_owns_target : PlanKind → Bool → Fail
plan_job_owns_target tail_packed true =
    Fail.refused (plain "an unfinished `resize grow` job owns this target for a different size")
plan_job_owns_target tail_packed false =
    Fail.refused (plain "an unfinished `resize grow` job owns this target")
plan_job_owns_target PlanKind.shift true =
    Fail.refused
      (plain "an unfinished `resize SIZE --allow-move` job owns this target for a different size")
plan_job_owns_target PlanKind.shift false =
    Fail.refused (plain "an unfinished `resize SIZE --allow-move` job owns this target")

unfoldable pub plan_requested_end : Plan → ℕ → Option ℕ
plan_requested_end plan target_start = elim plan.kind [
  | tail_packed ↦ none
  | PlanKind.shift ↦ ok_part (grow_end_for plan target_start)
]

-- The plan that a checkpoint records. Its repair has been carried out.
abbrev pub recorded_plan : Checkpoint → Plan
recorded_plan c = record {
  ss = c.ss;
  last_usable_lba = c.last_usable_lba;
  grow_part = c.grow_part;
  moves = c.moves;
  kind = c.kind;
  repair = nothing;
}

abbrev is_some {ℓ} : {A : Type ℓ} → Option A → Bool
is_some none = false
is_some (some _) = true

unfoldable pub outcome_of_slot : CheckpointSlot → ℕ → ResumeOutcome
outcome_of_slot (relocation c) grow_part =
    if c.grow_part == grow_part then belongs (recorded_plan c) else occupied
outcome_of_slot empty grow_part = no_job
outcome_of_slot (CheckpointSlot.resize c) grow_part = foreign_resize c.part (is_some c.lvm)

unfoldable pub resume_outcome : Result Fail CheckpointSlot → ℕ → Result Fail ResumeOutcome
resume_outcome slot grow_part = do found ← slot; ok (outcome_of_slot found grow_part)

unfoldable pub tail_resumed :
    ValidatedGeometry → RepairAction → ℕ → ResumeOutcome → Result Fail Plan
tail_resumed g repair grow_part (belongs p) = elim p.kind [
  | tail_packed ↦ ok p
  | PlanKind.shift ↦ err (plan_job_owns_target p.kind false)
]
tail_resumed g repair grow_part occupied = err foreign_checkpoint_refusal
tail_resumed g repair grow_part (foreign_resize _ _) = err foreign_resize_refusal
tail_resumed g repair grow_part no_job = plan_tail_packed g repair grow_part

unfoldable pub make_plan_resuming :
    Result Fail CheckpointSlot → ValidatedGeometry → RepairAction → ℕ → Result Fail Plan
make_plan_resuming slot g repair grow_part = do
  found ← resume_outcome slot grow_part
  tail_resumed g repair grow_part found

abbrev pub same_end : Option ℕ → ℕ → Bool
same_end none want = false
same_end (some end) want = end == want

abbrev pub is_shift : PlanKind → Bool
is_shift tail_packed = false
is_shift PlanKind.shift = true

-- The arms of `make_plan_shift_resuming` for a job of the target, at its entry.
unfoldable pub own_job : Plan → GptPartitionEntry → ShiftIntent → Result Fail Plan
own_job p e shrink = err (plan_job_owns_target p.kind false)
own_job p e no_op =
    if is_shift p.kind && same_end (plan_requested_end p e.starting_lba) e.ending_lba
    then ok p
    else err (plan_job_owns_target p.kind false)
own_job p e (grow shift) = do
  refuse_if (not (is_shift p.kind)) (plan_job_owns_target p.kind false)
  want_end ←
      ok_or (checked_add e.ending_lba shift)
        (Fail.refused (plain "requested size overflows the LBA range"))
  refuse_if (not (same_end (plan_requested_end p e.starting_lba) want_end))
      (plan_job_owns_target p.kind true)
  ok p

unfoldable pub shift_resumed :
    ValidatedGeometry → RepairAction → ℕ → ShiftIntent → ResumeOutcome → Result Fail Plan
shift_resumed g repair grow_part intent (belongs p) = do
  e ← live_entry g grow_part
  own_job p e intent
shift_resumed g repair grow_part intent occupied = err foreign_checkpoint_refusal
shift_resumed g repair grow_part intent (foreign_resize _ _) = err foreign_resize_refusal
shift_resumed g repair grow_part (grow shift) no_job = shift_plan_from g repair grow_part shift
shift_resumed g repair grow_part no_op no_job =
    err (Fail.refused (plain "shrink does not relocate partitions"))
shift_resumed g repair grow_part shrink no_job =
    err (Fail.refused (plain "shrink does not relocate partitions"))

unfoldable pub make_plan_shift_resuming :
    Result Fail CheckpointSlot
    → ValidatedGeometry
    → RepairAction
    → ℕ
    → ShiftIntent
    → Result Fail Plan
make_plan_shift_resuming slot g repair grow_part intent = do
  found ← resume_outcome slot grow_part
  shift_resumed g repair grow_part intent found

abbrev is_own : ResumeOutcome → Bool
is_own (belongs _) = true
is_own _ = false

unfoldable pub has_pending_relocation : Result Fail CheckpointSlot → ℕ → Result Fail Bool
has_pending_relocation slot grow_part = do found ← resume_outcome slot grow_part; ok (is_own found)

abbrev relocation_owned : ResumeOutcome → Result Fail Bool
relocation_owned (belongs _) = ok true
relocation_owned no_job = ok false
relocation_owned (foreign_resize _ _) = ok false
relocation_owned occupied = err foreign_checkpoint_refusal

-- `relocation_ownership` and `partition_resize_ownership`. Both resolve the geometry themselves; when
-- that fails, its error stands for `slot`.
unfoldable pub relocation_ownership : Result Fail CheckpointSlot → ℕ → Result Fail Bool
relocation_ownership slot grow_part = do
  found ← resume_outcome slot grow_part
  relocation_owned found

abbrev resize_owned : ℕ → ResumeOutcome → Bool
resize_owned part (foreign_resize p lvm_pending) = lvm_pending && p == part
resize_owned part _ = false

unfoldable pub partition_resize_ownership : Result Fail CheckpointSlot → ℕ → Result Fail Bool
partition_resize_ownership slot part = do
  found ← resume_outcome slot part
  ok (resize_owned part found)
