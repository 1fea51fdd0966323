-- ===== src/Identity/Compare.antt =====
-- When src/dev/identity.rs accepts a target for a recorded scene.
use disk_edit.Prelude.{ℕ, ◌≡◌, ◌≢◌, ◌↔◌, refl, true, Option, none, some, arith}
use disk_edit.Outcome.{Message}
use disk_edit.Identity.{
  TargetFingerprint, has_inode_evidence, has_size_evidence, LiveProof, device_id, inode,
  unavailable, IdentityProof, live, tag, from_tag, SceneIdentity, LiveScene, compare_kinds,
  compare_fields, compare_maps, or_else, compare, scene_mismatch,
}

-- What two fingerprints agree on where both have evidence.
pub record Agree (proof : LiveProof) (recorded actual : TargetFingerprint) : Type 0 where
  pub inodes :
      has_inode_evidence recorded ≡ true
      → has_inode_evidence actual ≡ true
      → (recorded.dev ≡ actual.dev) × (recorded.ino ≡ actual.ino)
  pub sizes : recorded.size ≢ 0 → actual.size ≢ 0 → recorded.size ≡ actual.size
  pub ids : proof ≡ device_id → recorded.id ≡ actual.id

compare_kinds-none :
    (r a : LiveProof) (id : ℕ) → compare_kinds r a id ≡ none → (r ≡ a) × (r ≢ unavailable)
unfolding compare_kinds
compare_kinds-none inode inode id h = (refl, λ e. cc)
compare_kinds-none device_id device_id id h = (refl, λ e. cc)
compare_kinds-none unavailable a id h = cc
compare_kinds-none device_id inode id h = cc
compare_kinds-none device_id unavailable id h = cc
compare_kinds-none inode device_id id h = cc
compare_kinds-none inode unavailable id h = cc

compare_fields-inodes :
    (p : LiveProof) (r a : TargetFingerprint)
    → compare_fields p r a ≡ none
    → has_inode_evidence r ≡ true
    → has_inode_evidence a ≡ true
    → (r.dev ≡ a.dev) × (r.ino ≡ a.ino)
unfolding compare_fields
compare_fields-inodes p r a h x y = ground arith

compare_fields-sizes :
    (p : LiveProof) (r a : TargetFingerprint)
    → compare_fields p r a ≡ none
    → r.size ≢ 0
    → a.size ≢ 0
    → r.size ≡ a.size
unfolding compare_fields has_size_evidence
compare_fields-sizes p r a h x y = ground arith

compare_fields-ids : (r a : TargetFingerprint) → compare_fields device_id r a ≡ none → r.id ≡ a.id
unfolding compare_fields
compare_fields-ids r a h = ground arith

compare_maps-none : (r a : Option (ℕ × ℕ)) → compare_maps r a ≡ none → r ≡ a
unfolding compare_maps
compare_maps-none none none h = refl
compare_maps-none none (some c) h = cc
compare_maps-none (some c) none h = cc
compare_maps-none (some (a, b)) (some (c, d)) h =
    let x : a ≡ c = ground arith in let y : b ≡ d = ground arith in rw (x, y) refl

pub or_else-none : (a b : Option Message) → or_else a b ≡ none → (a ≡ none) × (b ≡ none)
or_else-none none b h = (refl, h)
or_else-none (some m) b h = cc

-- A target is accepted for a recorded scene only with the same kind of identity, which is not the
-- kind that has none, with the same loop mapping, with the same device and inode where both have
-- evidence of these, with the same size where both have one, and, when the identity is that of a
-- whole disk, with the same id.
pub scene_mismatch-none :
    (r : SceneIdentity) (a : LiveScene)
    → scene_mismatch r a ≡ none
    → (r.proof ≡ live a.proof) × (a.proof ≢ unavailable) × (r.map ≡ a.map) × Agree a.proof r.fp a.fp
unfolding scene_mismatch compare
scene_mismatch-none r a h = accepted (r.proof) (refl)
  where
    accepted :
        (p : IdentityProof)
        → r.proof ≡ p
        → (r.proof ≡ live a.proof)
          × (a.proof ≢ unavailable)
          × (r.map ≡ a.map)
          × Agree a.proof r.fp a.fp
    accepted (live k) e =
        let h₀ : or_else (compare_kinds k a.proof r.fp.id)
              (or_else (compare_fields k r.fp a.fp) (compare_maps r.map a.map))
            ≡ none =
          rw e at h in
        let (kinds, rest) = or_else-none (compare_kinds k a.proof r.fp.id) _ h₀ in
        let (fields, maps) = or_else-none (compare_fields k r.fp a.fp) _ rest in
        let (same, known) = compare_kinds-none k a.proof r.fp.id kinds in
        let fields' : compare_fields a.proof r.fp a.fp ≡ none = rw same at fields in
        (
          rw (e, same) refl,
          rw same at known,
          compare_maps-none r.map a.map maps,
          record {
            inodes = compare_fields-inodes a.proof r.fp a.fp fields';
            sizes = compare_fields-sizes a.proof r.fp a.fp fields';
            ids = λ d. compare_fields-ids r.fp a.fp (rw d at fields');
          },
        )

-- The proof byte of a scene reads back as the kind it was written for, and a byte is read only when
-- it is one that is written.
pub from_tag_iff : (n : ℕ) (p : LiveProof) → (from_tag n ≡ some p) ↔ (tag p ≡ n)
unfolding from_tag tag
from_tag_iff n device_id = ground arith
from_tag_iff n inode = ground arith
from_tag_iff n unavailable = ground arith

-- A target that still gives what was recorded is accepted, unless it had no identity to record.
pub scene_mismatch_self :
    (fp : TargetFingerprint) (map : Option (ℕ × ℕ)) (p : LiveProof)
    → p ≢ unavailable
    → scene_mismatch
        (record { fp = fp; map = map; proof = live p })
        (record { fp = fp; map = map; proof = p })
      ≡ none
unfolding scene_mismatch compare compare_kinds compare_fields compare_maps
scene_mismatch_self fp none inode h = ground arith
scene_mismatch_self fp none device_id h = ground arith
scene_mismatch_self fp map unavailable h = absurd (h refl)
scene_mismatch_self fp (some (a, b)) inode h = ground arith
scene_mismatch_self fp (some (a, b)) device_id h = ground arith
