-- ===== src/Movepart/Checkpoint.antt =====
-- src/movepart/checkpoint.rs: the checkpoints of a relocation and of a resize, how often one is
-- written and when it may go, and the facts on LVM that it keeps.
pub mod Rules
use disk_edit.Prelude.{
  ℕ, ◌+◌, ◌-◌, ◌*◌, ◌/◌, ◌^◌, min, max, Bool, true, false, not, Option, none, some, List, [], ◌∷◌,
  String, ltb, leb, ◌==◌, if◌then◌else◌, Result, ok, err, ◌>>=◌, ◌>>◌, refuse_if, ok_or,
  checked_add, checked_mul, saturating_mul,
}
use disk_edit.Outcome.{Message, plain, note, Fail}
use disk_edit.Identity.{TargetFingerprint, IdentityProof}
use disk_edit.Movepart.Types.{PlanEntry, PlanKind}

pub record LvmSelection : Type 0 where
  pub name : String
  pub path : String
  pub extent_bytes : ℕ  -- u64
  pub size : ℕ  -- u64

pub record LvmPostFacts : Type 0 where
  pub lv_path : Option String
  pub lv_size_before : ℕ  -- u64
  pub lv_target : ℕ  -- u64
  pub extent_bytes : ℕ  -- u64

-- The facts of a growth that does not extend an LV.
abbrev pub pv_only : LvmPostFacts
pv_only = record { lv_path = none; lv_size_before = 0; lv_target = 0; extent_bytes = 0 }

abbrev lv_overflow : Fail
lv_overflow = Fail.infra (plain "LV target size overflows")

-- `lvm_post_for` with a selection, for a number of added bytes.
unfoldable pub lvm_target_for : LvmSelection → ℕ → Result Fail LvmPostFacts
lvm_target_for s delta = do
  let add = delta / s.extent_bytes
  refuse_if (add == 0) (
      Fail.refused
        (note "added {} bytes is less than one extent ({} bytes)" (delta ∷ s.extent_bytes ∷ [])))
  refuse_if (s.size == 0) (Fail.refused (plain "LV reports 0 bytes - nothing to extend"))
  grow ← ok_or (checked_mul add s.extent_bytes) lv_overflow
  lv_target ← ok_or (checked_add s.size grow) lv_overflow
  ok (record {
    lv_path = some s.path;
    lv_size_before = s.size;
    lv_target = lv_target;
    extent_bytes = s.extent_bytes;
  })

unfoldable pub lvm_post_for : Bool → Option LvmSelection → ℕ → ℕ → Result Fail (Option LvmPostFacts)
lvm_post_for false sel old_bytes new_bytes = ok none
lvm_post_for true sel old_bytes new_bytes = if leb new_bytes old_bytes then ok none else elim sel [
  | none ↦ ok (some pv_only)
  | some s ↦ lvm_target_for s (new_bytes - old_bytes) >>= λ f. ok (some f)
]

abbrev pub ckpt_batch_chunks : ℕ
ckpt_batch_chunks = 16

-- `256 << 20`
abbrev pub redo_window_bytes : ℕ
redo_window_bytes = 268435456

abbrev pub max_batch : ℕ
max_batch = 64

abbrev clamp : ℕ → ℕ → ℕ → ℕ
clamp x low high = max low (min x high)

unfoldable pub ckpt_batch_cap : ℕ → ℕ
ckpt_batch_cap chunk_bytes = clamp (redo_window_bytes / max chunk_bytes 1) 1 max_batch

-- `FAST` and `SLOW`, in nanoseconds as `Duration` counts.
abbrev fast : ℕ
fast = 20000000

abbrev slow : ℕ
slow = 200000000

unfoldable pub next_ckpt_batch : ℕ → ℕ → ℕ → ℕ
next_ckpt_batch cur took chunk_bytes =
    clamp (if leb took fast then saturating_mul cur 2 else if leb slow took then cur / 2 else cur) 1
      (ckpt_batch_cap chunk_bytes)

pub data CkptRetain : Type 0 where
  not_committed not_verified still_needed : CkptRetain

unfoldable pub checkpoint_may_be_removed : Bool → ℕ → ℕ → Bool → Result CkptRetain (Unit {0})
checkpoint_may_be_removed committed pending_before pending_after later_steps = do
  refuse_if (not committed) not_committed
  refuse_if (not (pending_after == pending_before)) not_verified
  refuse_if later_steps still_needed

-- The checkpoint of a relocation as it is parsed.
pub record Checkpoint : Type 0 where
  pub disk_size : ℕ  -- u64
  pub ss : ℕ  -- u64
  pub grow_part : ℕ  -- u32
  pub last_usable_lba : ℕ  -- u64
  pub moves : List PlanEntry
  pub kind : PlanKind
  pub cur_index : ℕ  -- u32
  pub chunks_done : ℕ  -- u64
  pub chunk_bytes : ℕ  -- u64
  pub fp : TargetFingerprint
  pub map : Option (ℕ × ℕ)
  pub proof : IdentityProof
  pub lvm : Option LvmPostFacts

pub data FsShrink : Type 0 where
  not_shrunk verified unverified : FsShrink

pub data FsKind : Type 0 where
  squashfs erofs ext xfs btrfs f2fs exfat vfat ntfs hfs_plus apfs swap lvm2_pv : FsKind

-- The checkpoint of a single-partition resize as it is parsed.
pub record RsCheckpoint : Type 0 where
  pub disk_size : ℕ  -- u64
  pub ss : ℕ  -- u64
  pub part : ℕ  -- u32
  pub old_start : ℕ  -- u64, as the three below
  pub old_end : ℕ
  pub new_start : ℕ
  pub new_end : ℕ
  pub fs_shrunk : FsShrink
  pub chunks_done : ℕ  -- u64
  pub chunk_bytes : ℕ  -- u64
  pub fp : TargetFingerprint
  pub map : Option (ℕ × ℕ)
  pub proof : IdentityProof
  pub fstype : Option FsKind
  pub lvm : Option LvmPostFacts

pub data CheckpointSlot : Type 0 where
  empty : CheckpointSlot
  relocation : Checkpoint → CheckpointSlot
  resize : RsCheckpoint → CheckpointSlot
