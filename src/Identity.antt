-- ===== src/Identity.antt =====
-- src/dev/identity.rs: what a recorded scene knows of its target, and whether it is this target.
pub mod Compare
use disk_edit.Prelude.{
  ℕ, Bool, true, false, not, ◌||◌, ◌&&◌, Option, none, some, List, [], ◌∷◌, ◌==◌, if◌then◌else◌,
}
use disk_edit.Outcome.{Message, plain, note}

pub record TargetFingerprint : Type 0 where
  pub dev : ℕ  -- u64, as the others
  pub ino : ℕ
  pub size : ℕ
  pub id : ℕ

unfoldable pub has_inode_evidence : TargetFingerprint → Bool
has_inode_evidence fp = not (fp.dev == 0) || not (fp.ino == 0)

unfoldable pub has_size_evidence : TargetFingerprint → Bool
has_size_evidence fp = not (fp.size == 0)

unfoldable pub has_id_evidence : TargetFingerprint → Bool
has_id_evidence fp = not (fp.id == 0)

unfoldable pub has_any_evidence : TargetFingerprint → Bool
unfolding has_inode_evidence has_size_evidence has_id_evidence
has_any_evidence fp = has_inode_evidence fp || (has_size_evidence fp || has_id_evidence fp)

pub data LiveProof : Type 0 where
  device_id inode unavailable : LiveProof

pub data IdentityProof : Type 0 where
  live : LiveProof → IdentityProof

unfoldable pub tag : LiveProof → ℕ
tag device_id = 1
tag inode = 2
tag unavailable = 3

unfoldable pub from_tag : ℕ → Option LiveProof
from_tag n =
    if n == 1
    then some device_id
    else if n == 2
    then some inode
    else if n == 3
    then some unavailable
    else none

-- A loop mapping is (offset, size limit).
pub record SceneIdentity : Type 0 where
  pub fp : TargetFingerprint
  pub map : Option (ℕ × ℕ)
  pub proof : IdentityProof

pub record LiveScene : Type 0 where
  pub fp : TargetFingerprint
  pub map : Option (ℕ × ℕ)
  pub proof : LiveProof

-- The first `match` of `compare`, on the kinds of proof.
unfoldable pub compare_kinds : LiveProof → LiveProof → ℕ → Option Message
compare_kinds inode inode id = none
compare_kinds device_id device_id id = none
compare_kinds unavailable _ id = some (plain "this scene was recorded without any device identity")
compare_kinds device_id unavailable id =
    some (note "the device identity recorded by this scene ({}) is not readable now" (id ∷ []))
compare_kinds device_id inode id =
    some (note "the target now exposes a file inode identity instead of {}" (id ∷ []))
compare_kinds inode unavailable id = some (plain "the target now exposes no stable identity at all")
compare_kinds inode device_id id =
    some (plain "the target now exposes a whole-disk identity instead of the file inode")

abbrev pub is_device_id : LiveProof → Bool
is_device_id device_id = true
is_device_id _ = false

-- The tests of `compare` on the fields of the fingerprint.
unfoldable pub compare_fields : LiveProof → TargetFingerprint → TargetFingerprint → Option Message
compare_fields proof recorded actual =
    if has_inode_evidence recorded
      && (has_inode_evidence actual
          && not (recorded.dev == actual.dev && recorded.ino == actual.ino))
    then some (
        note "the file fingerprint changed (was dev:{} ino:{}, now dev:{} ino:{})"
          (recorded.dev ∷ recorded.ino ∷ actual.dev ∷ actual.ino ∷ []))
    else if has_size_evidence recorded
        && (has_size_evidence actual && not (recorded.size == actual.size))
    then some
        (note "the file size changed (was {} bytes, now {})" (recorded.size ∷ actual.size ∷ []))
    else if is_device_id proof && not (recorded.id == actual.id)
    then some (note "the device identity changed (was {}, now {})" (recorded.id ∷ actual.id ∷ []))
    else none

-- The last `match` of `compare`, on the loop mappings.
unfoldable pub compare_maps : Option (ℕ × ℕ) → Option (ℕ × ℕ) → Option Message
compare_maps (some (ro, rl)) (some (co, cl)) =
    if not (ro == co && rl == cl)
    then some (
        note "loop mapping changed (was offset={} sizelimit={}, now offset={} sizelimit={})"
          (ro ∷ rl ∷ co ∷ cl ∷ []))
    else none
compare_maps (some _) none = some (plain "this scene was recorded through a loop device")
compare_maps none (some _) = some (plain "this scene was recorded on a non-loop target")
compare_maps none none = none

-- The first reason there is.
abbrev pub or_else : Option Message → Option Message → Option Message
or_else (some m) later = some m
or_else none later = later

abbrev pub kind_of : IdentityProof → LiveProof
kind_of (live p) = p

unfoldable pub compare :
    SceneIdentity → IdentityProof → TargetFingerprint → Option (ℕ × ℕ) → Option Message
compare recorded actual_proof actual_fp actual_map =
    or_else (compare_kinds (kind_of recorded.proof) (kind_of actual_proof) recorded.fp.id) (
      or_else (compare_fields (kind_of recorded.proof) recorded.fp actual_fp)
        (compare_maps recorded.map actual_map))

unfoldable pub scene_mismatch : SceneIdentity → LiveScene → Option Message
unfolding compare
scene_mismatch recorded actual = compare recorded (live actual.proof) actual.fp actual.map

unfoldable pub recorded_scene_mismatch : SceneIdentity → SceneIdentity → Option Message
unfolding scene_mismatch
recorded_scene_mismatch recorded other =
    scene_mismatch recorded (record { fp = other.fp; map = other.map; proof = kind_of other.proof })
