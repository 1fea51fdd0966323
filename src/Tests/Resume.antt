-- ===== src/Tests/Resume.antt =====
-- Runs of src/dev/identity.rs and of the checkpoint rules of src/movepart.
use disk_edit.Prelude.{
  ℕ, ◌+◌, ◌-◌, ◌*◌, ◌%◌, ◌≤◌, ◌<◌, ◌≡◌, ◌≢◌, refl, ◌⊎◌, true, none, some, ok, arith,
}
use disk_edit.Table.Gpt.{GptPartitionEntry}
use disk_edit.Policy.{nothing, live_entry, live_entry_in, live_index}
use disk_edit.Identity.{
  TargetFingerprint, inode, unavailable, live, SceneIdentity, LiveScene, scene_mismatch,
  compare_kinds, compare_fields, compare_maps, has_inode_evidence, has_size_evidence,
}
use disk_edit.Identity.Compare.{Agree, scene_mismatch-none}
use disk_edit.Movepart.Types.{PlanKind, tail_packed, Plan}
use disk_edit.Movepart.Plan.{
  plan_tail_packed, shift_plan_from, grow_end_for, leftmost_from, grow_end_below,
}
use disk_edit.Movepart.Checkpoint.{
  LvmSelection, LvmPostFacts, lvm_post_for, lvm_target_for, redo_window_bytes, next_ckpt_batch,
  CheckpointSlot, empty, relocation,
}
use disk_edit.Movepart.Checkpoint.Rules.{next_ckpt_batch-bounds, lvm_post_for-whole}
use disk_edit.Prelude.{Option, String, if◌then◌else◌, ◌++◌, List, [], ◌∷◌}
use mathlib.Core.Path.{subst}
use text.Mathlib.Text.{◌==◌ as str_eq}
use disk_edit.Table.Guid.{guid_eq}
use disk_edit.Movepart.LvmFacts.{encode, decode, is_plausible}
use disk_edit.Movepart.LvmFacts.RoundTrip.{decode-encode}
use disk_edit.Movepart.Resume.{
  grow, make_plan_resuming, make_plan_shift_resuming, resume_outcome, outcome_of_slot, tail_resumed,
  shift_resumed, own_job, plan_requested_end,
}
use disk_edit.Movepart.Resume.Ownership.{
  IsJob, AsksFor, make_plan_resuming_lem, make_plan_shift_resuming_lem,
}
use disk_edit.Tests.Data.{test_geometry}
use disk_edit.Tests.Movepart.{packed, shifted}

-- An image of 512 KiB.
abbrev image : TargetFingerprint
image = record { dev = 2049; ino = 77; size = 524288; id = 0 }

abbrev recorded : SceneIdentity
recorded = record { fp = image; map = none; proof = live inode }

abbrev present : LiveScene
present = record { fp = image; map = none; proof = inode }

recorded-accepted : scene_mismatch recorded present ≡ none
unfolding scene_mismatch compare_kinds compare_fields compare_maps has_inode_evidence
    has_size_evidence
recorded-accepted = refl

scene_mismatch-none_example :
    (live inode ≡ live inode)
    × (inode ≢ unavailable)
    × (recorded.map ≡ present.map)
    × Agree inode image image
scene_mismatch-none_example = scene_mismatch-none recorded present recorded-accepted

next_ckpt_batch-bounds_example :
    (1 ≤ next_ckpt_batch 16 5000000 16777216)
    × (next_ckpt_batch 16 5000000 16777216 ≤ 64)
    × ((next_ckpt_batch 16 5000000 16777216 ≡ 1)
        ⊎ (next_ckpt_batch 16 5000000 16777216 * 16777216 ≤ redo_window_bytes))
next_ckpt_batch-bounds_example = next_ckpt_batch-bounds 16 5000000 16777216

-- An LV with extents of 4 MiB, and 10 MiB more for the partition.
abbrev selected : LvmSelection
selected = record { name = "root"; path = "/dev/vg/root"; extent_bytes = 4194304; size = 8388608 }

abbrev facts : LvmPostFacts
facts = record {
  lv_path = some "/dev/vg/root";
  lv_size_before = 8388608;
  lv_target = 16777216;
  extent_bytes = 4194304;
}

facts-made : lvm_post_for true (some selected) 1048576 11534336 ≡ ok (some facts)
unfolding lvm_post_for lvm_target_for
facts-made = refl

lvm_post_for-whole_example :
    (facts.lv_path ≡ some "/dev/vg/root")
    × (facts.lv_size_before ≡ 8388608)
    × (8388608 + 4194304 ≤ 16777216)
    × (16777216 ≤ 8388608 + (11534336 - 1048576))
    × (8388608 + (11534336 - 1048576) < 16777216 + 4194304)
    × ((facts.lv_target - facts.lv_size_before) % facts.extent_bytes ≡ 0)
lvm_post_for-whole_example =
    lvm_post_for-whole selected 1048576 11534336 facts (omega arith) facts-made

abbrev job_of : Plan → CheckpointSlot
job_of p = relocation (record {
  disk_size = 513536;
  ss = p.ss;
  grow_part = p.grow_part;
  last_usable_lba = p.last_usable_lba;
  moves = p.moves;
  kind = p.kind;
  cur_index = 1;
  chunks_done = 0;
  chunk_bytes = 1048576;
  fp = image;
  map = none;
  proof = live inode;
  lvm = none;
})

packed-resumed : make_plan_resuming (ok (job_of packed)) test_geometry nothing 1 ≡ ok packed
unfolding make_plan_resuming resume_outcome outcome_of_slot tail_resumed
packed-resumed = refl

make_plan_resuming_lem_example :
    ((job_of packed ≡ empty) × (plan_tail_packed test_geometry nothing 1 ≡ ok packed))
    ⊎ IsJob (job_of packed) 1 tail_packed packed
make_plan_resuming_lem_example =
    make_plan_resuming_lem (job_of packed) test_geometry nothing 1 packed packed-resumed

shifted-resumed :
    make_plan_shift_resuming (ok (job_of shifted)) test_geometry nothing 1 (grow 20) ≡ ok shifted
unfolding make_plan_shift_resuming resume_outcome outcome_of_slot shift_resumed own_job live_entry
    live_entry_in live_index plan_requested_end grow_end_for leftmost_from grow_end_below
shifted-resumed = refl

make_plan_shift_resuming_lem_example :
    ((shift : ℕ) × (job_of shifted ≡ empty)
      × (grow 20 ≡ grow shift)
      × (shift_plan_from test_geometry nothing 1 shift ≡ ok shifted))
    ⊎ (IsJob (job_of shifted) 1 PlanKind.shift shifted
        × ((e : GptPartitionEntry) × (live_entry test_geometry 1 ≡ ok e)
            × AsksFor shifted e (grow 20)))
make_plan_shift_resuming_lem_example =
    make_plan_shift_resuming_lem (job_of shifted) test_geometry nothing 1 (grow 20) shifted
      shifted-resumed

-- The bytes of the one path that these runs use.
abbrev root_bytes : List ℕ
root_bytes = 47 ∷ 100 ∷ 101 ∷ 118 ∷ 47 ∷ 118 ∷ 103 ∷ 47 ∷ 114 ∷ 111 ∷ 111 ∷ 116 ∷ []

abbrev bytes_of : String → List ℕ
bytes_of p = if str_eq p "/dev/vg/root" then root_bytes else []

abbrev text_of : List ℕ → Option String
text_of bs = if guid_eq bs root_bytes then some "/dev/vg/root" else none

root-utf8 : text_of (bytes_of "/dev/vg/root") ≡ some "/dev/vg/root"
unfolding guid_eq
root-utf8 = refl

root-only : (q : String) → facts.lv_path ≡ some q → text_of (bytes_of q) ≡ some q
root-only q e =
    let same : ◌≡◌ {A = String} "/dev/vg/root" q = cc e in
    subst (λ x. text_of (bytes_of x) ≡ some x) same root-utf8

decode-encode_example :
    decode bytes_of text_of (encode bytes_of text_of facts ++ (7 ∷ [])) ≡ ok (some facts, 7 ∷ [])
unfolding is_plausible
decode-encode_example =
    decode-encode bytes_of text_of facts (7 ∷ []) root-only (omega arith, omega arith, refl) refl
      (omega arith) (omega arith) (omega arith)
