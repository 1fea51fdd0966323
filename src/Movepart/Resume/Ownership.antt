-- ===== src/Movepart/Resume/Ownership.antt =====
-- The jobs that src/movepart/plan.rs takes up again, and those that it refuses.
use disk_edit.Prelude.{
  ℕ, ◌+◌, ◌≡◌, refl, true, ok, err, arith, >>=-eq_ok, Result, ◌⊎◌, inl, inr, ok_part, Bool-cases,
  Option-cases, ◌==◌, ◌>>=◌, some,
}
use disk_edit.Outcome.{Message, Fail}
use disk_edit.Table.Gpt.{GptPartitionEntry}
use disk_edit.Geometry.{ValidatedGeometry}
use disk_edit.Policy.{RepairAction, live_entry}
use disk_edit.Movepart.Types.{PlanKind, tail_packed, Plan}
use disk_edit.Movepart.Plan.{plan_tail_packed, shift_plan_from, grow_end_for}
use disk_edit.Movepart.Checkpoint.{
  Checkpoint, RsCheckpoint, LvmPostFacts, CheckpointSlot, empty, relocation,
}
use disk_edit.Movepart.Resume.{
  ShiftIntent, grow, no_op, shrink, outcome_of_slot, resume_outcome, recorded_plan, tail_resumed,
  make_plan_resuming, own_job, shift_resumed, make_plan_shift_resuming, plan_requested_end,
  is_shift, same_end, relocation_ownership, partition_resize_ownership,
}

-- The slot records a job of the partition, of a kind, with a plan.
pub record IsJob (s : CheckpointSlot) (part : ℕ) (kind : PlanKind) (p : Plan) : Type 0 where
  pub checkpoint : Checkpoint
  pub stored : s ≡ relocation checkpoint
  pub owner : checkpoint.grow_part ≡ part
  pub kind_kept : checkpoint.kind ≡ kind
  pub plan_kept : p ≡ recorded_plan checkpoint

tail_resumed-own :
    (g : ValidatedGeometry) (repair : RepairAction) (part : ℕ) (c : Checkpoint) (p : Plan)
    → tail_resumed g repair part (outcome_of_slot (relocation c) part) ≡ ok p
    → IsJob (relocation c) part tail_packed p
unfolding tail_resumed outcome_of_slot
tail_resumed-own g repair part c p h = elim (Bool-cases (c.grow_part == part)) [
  | inl mine ↦ record {
    checkpoint = c;
    stored = refl;
    owner = ground arith;
    kind_kept = ground arith;
    plan_kept = ground arith;
  }
  | inr other ↦ absurd (cc (rw other at h))
]

-- What `plan` and `apply` work on: a plan made afresh when no job is recorded, and otherwise the
-- recorded plan of a tail-packing job of the same partition. Every other slot is refused.
pub make_plan_resuming_lem :
    (s : CheckpointSlot) (g : ValidatedGeometry) (repair : RepairAction) (part : ℕ) (p : Plan)
    → make_plan_resuming (ok s) g repair part ≡ ok p
    → ((s ≡ empty) × (plan_tail_packed g repair part ≡ ok p)) ⊎ IsJob s part tail_packed p
unfolding make_plan_resuming resume_outcome tail_resumed outcome_of_slot
make_plan_resuming_lem empty g repair part p h = inl (refl, h)
make_plan_resuming_lem (relocation c) g repair part p h = inr (tail_resumed-own g repair part c p h)
make_plan_resuming_lem (CheckpointSlot.resize c) g repair part p h = cc

is_shift-eq_true : (k : PlanKind) → is_shift k ≡ true → k ≡ PlanKind.shift
is_shift-eq_true tail_packed h = cc
is_shift-eq_true PlanKind.shift h = refl

same_end-ok_part :
    (r : Result Message ℕ) (want : ℕ) → same_end (ok_part r) want ≡ true → r ≡ ok want
same_end-ok_part (ok n) want h = ground arith
same_end-ok_part (err m) want h = cc

plan_requested_end-same :
    (p : Plan) (start want : ℕ)
    → p.kind ≡ PlanKind.shift
    → same_end (plan_requested_end p start) want ≡ true
    → grow_end_for p start ≡ ok want
unfolding plan_requested_end
plan_requested_end-same p start want k h =
    same_end-ok_part (grow_end_for p start) want (rw (plan_requested_end, k) at h)

-- The request asks for the end that the recorded plan has.
unfoldable pub AsksFor : Plan → GptPartitionEntry → ShiftIntent → Type 0
AsksFor p e (grow shift) = grow_end_for p e.starting_lba ≡ ok (e.ending_lba + shift)
AsksFor p e no_op = grow_end_for p e.starting_lba ≡ ok e.ending_lba
AsksFor p e shrink = ⊥

own_job-eq_ok :
    (p q : Plan) (e : GptPartitionEntry) (intent : ShiftIntent)
    → own_job p e intent ≡ ok q
    → (q ≡ p) × (p.kind ≡ PlanKind.shift) × AsksFor p e intent
unfolding own_job AsksFor
own_job-eq_ok p q e shrink h = cc
own_job-eq_ok p q e no_op h =
    let k : is_shift p.kind ≡ true = ground arith in
    let k' = is_shift-eq_true p.kind k in
    let same : same_end (plan_requested_end p e.starting_lba) e.ending_lba ≡ true = ground arith in
    (ground arith, k', plan_requested_end-same p e.starting_lba e.ending_lba k' same)
own_job-eq_ok p q e (grow shift) h =
    let k : is_shift p.kind ≡ true = ground arith in
    let k' = is_shift-eq_true p.kind k in
    let same : same_end (plan_requested_end p e.starting_lba) (e.ending_lba + shift) ≡ true =
      ground arith in
    (ground arith, k', plan_requested_end-same p e.starting_lba (e.ending_lba + shift) k' same)

shift_resumed-own :
    (g : ValidatedGeometry) (repair : RepairAction) (part : ℕ) (intent : ShiftIntent)
    (c : Checkpoint) (p : Plan)
    → shift_resumed g repair part intent (outcome_of_slot (relocation c) part) ≡ ok p
    → IsJob (relocation c) part PlanKind.shift p
      × ((e : GptPartitionEntry) × (live_entry g part ≡ ok e) × AsksFor p e intent)
unfolding shift_resumed outcome_of_slot
shift_resumed-own g repair part intent c p h = elim (Bool-cases (c.grow_part == part)) [
  | inl mine ↦
      let h' : (live_entry g part >>= λ e. own_job (recorded_plan c) e intent) ≡ ok p =
        rw mine at h in
      let (e, live, made) =
        >>=-eq_ok (live_entry g part) (λ e. own_job (recorded_plan c) e intent) h' in
      let (same, kind, asks) = own_job-eq_ok (recorded_plan c) p e intent made in
      (
        record {
          checkpoint = c;
          stored = refl;
          owner = ground (arith, mine);
          kind_kept = kind;
          plan_kept = same;
        },
        (e, live, rw same asks),
      )
  | inr other ↦ absurd (cc (rw other at h))
]

-- What `resize SIZE --allow-move` works on: a plan made afresh for a growth when no job is
-- recorded, and otherwise the recorded plan of a shifting job of the same partition that ends
-- exactly where the request does. Every other slot is refused, and so is every shrink.
pub make_plan_shift_resuming_lem :
    (s : CheckpointSlot) (g : ValidatedGeometry) (repair : RepairAction) (part : ℕ)
    (intent : ShiftIntent) (p : Plan)
    → make_plan_shift_resuming (ok s) g repair part intent ≡ ok p
    → ((shift : ℕ) × (s ≡ empty)
        × (intent ≡ grow shift)
        × (shift_plan_from g repair part shift ≡ ok p))
      ⊎ (IsJob s part PlanKind.shift p
          × ((e : GptPartitionEntry) × (live_entry g part ≡ ok e) × AsksFor p e intent))
unfolding make_plan_shift_resuming resume_outcome shift_resumed outcome_of_slot
make_plan_shift_resuming_lem empty g repair part (grow n) p h = inl (n, refl, refl, h)
make_plan_shift_resuming_lem empty g repair part no_op p h = cc
make_plan_shift_resuming_lem empty g repair part shrink p h = cc
make_plan_shift_resuming_lem (relocation c) g repair part intent p h =
    inr (shift_resumed-own g repair part intent c p h)
make_plan_shift_resuming_lem (CheckpointSlot.resize c) g repair part intent p h = cc

-- The transaction gate lets a relocation through only when the slot records one of the partition.
pub relocation_ownership_sound :
    (slot : Result Fail CheckpointSlot) (n : ℕ)
    → relocation_ownership slot n ≡ ok true
    → (c : Checkpoint) × (slot ≡ ok (relocation c)) × (c.grow_part ≡ n)
unfolding relocation_ownership resume_outcome outcome_of_slot
relocation_ownership_sound (err f) n h = absurd (cc h)
relocation_ownership_sound (ok empty) n h = absurd (cc h)
relocation_ownership_sound (ok (CheckpointSlot.resize c)) n h = absurd (cc h)
relocation_ownership_sound (ok (relocation c)) n h = elim (Bool-cases (c.grow_part == n)) [
  | inl mine ↦ (c, refl, ground (arith, mine))
  | inr other ↦ absurd (cc (rw other at h))
]

-- And a resize only when the slot records one of the partition that still has LVM steps.
pub partition_resize_ownership_sound :
    (slot : Result Fail CheckpointSlot) (n : ℕ)
    → partition_resize_ownership slot n ≡ ok true
    → (c : RsCheckpoint) × (facts : LvmPostFacts) × (slot ≡ ok (CheckpointSlot.resize c))
      × (c.part ≡ n)
      × (c.lvm ≡ some facts)
unfolding partition_resize_ownership resume_outcome outcome_of_slot
partition_resize_ownership_sound (err f) n h = absurd (cc h)
partition_resize_ownership_sound (ok empty) n h = absurd (cc h)
partition_resize_ownership_sound (ok (relocation c)) n h = elim (Bool-cases (c.grow_part == n)) [
  | inl mine ↦ absurd (cc (rw mine at h))
  | inr other ↦ absurd (cc (rw other at h))
]
partition_resize_ownership_sound (ok (CheckpointSlot.resize c)) n h = elim (Option-cases c.lvm) [
  | inl gone ↦ absurd (cc (rw gone at h))
  | inr (facts, there) ↦ (c, facts, refl, ground (arith, rw there at h), there)
]
