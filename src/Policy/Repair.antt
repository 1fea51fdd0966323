-- ===== src/Policy/Repair.antt =====
-- The repair classification of src/gpt_policy.rs, and the geometry that follows from it.
use disk_edit.Prelude.{
  ℕ, ◌≤◌, ◌≡◌, ◌≢◌, inl, inr, Bool-cases, min, false, some, ok, arith, >>=-eq_ok, map_err,
  map_err-eq_ok,
}
use disk_edit.Outcome.{Fail}
use disk_edit.Table.Gpt.{RawGpt, GptState, HeaderIssue, validate_entries}
use disk_edit.Geometry.{ValidatedGeometry, max_end, unwrap_or, geometry_new}
use disk_edit.Geometry.Invariant.{IsValid}
use disk_edit.Geometry.Build.{geometry_new-IsValid}
use disk_edit.Policy.{
  RepairAction, new_last_usable, is_inconsistent, repaired_last_usable, relocated_last_usable,
  classify_state, classify_repair, resolve_geometry,
}

repaired_last_usable-covers :
    (g : RawGpt) (n last : ℕ) → repaired_last_usable g n ≡ ok last → max_end g.entries ≤ last
unfolding repaired_last_usable
repaired_last_usable-covers g n last h = ground arith

classify_repair-eq_ok :
    (g : RawGpt) (n : ℕ) {a : RepairAction}
    → classify_repair g n ≡ ok a
    → (is_inconsistent g.pmbr ≡ false) × (classify_state g.state g n ≡ ok a)
unfolding classify_repair
classify_repair-eq_ok g n h = elim (Bool-cases (is_inconsistent g.pmbr)) [
  | inl bad ↦ absurd (cc (rw (bad, classify_repair) at h))
  | inr fine ↦ (fine, rw (fine, classify_repair) at h)
]

relocated_last_usable-bound :
    (c : HeaderIssue) (g : RawGpt) (n last : ℕ)
    → max_end g.entries ≤ g.header.last_usable_lba
    → relocated_last_usable c g n ≡ ok last
    → (max_end g.entries ≤ last)
      × (c ≡ HeaderIssue.primary_unreadable → last ≤ g.header.last_usable_lba)
      × (c ≡ HeaderIssue.backup_unreadable → last ≡ g.header.last_usable_lba)
unfolding relocated_last_usable
relocated_last_usable-bound HeaderIssue.primary_unreadable g n last cover h =
    let (r, made, e) = >>=-eq_ok (repaired_last_usable g n) _ h in
    let covers = repaired_last_usable-covers g n r made in
    let same : min g.header.last_usable_lba r ≡ last = ground (arith, e) in
    (omega (arith, same, covers), λ _. omega (arith, same), λ b. cc)
relocated_last_usable-bound HeaderIssue.backup_unreadable g n last cover h =
    let same : g.header.last_usable_lba ≡ last = ground (arith, h) in
    (omega (arith, same), λ b. cc, λ _. omega (arith, same))
relocated_last_usable-bound (HeaderIssue.backup_lba_stale x y) g n last cover h =
    (repaired_last_usable-covers g n last h, λ b. cc, λ b. cc)

classify_state-bound :
    (s : GptState) (g : RawGpt) (n : ℕ) (a : RepairAction) (last : ℕ)
    → max_end g.entries ≤ g.header.last_usable_lba
    → classify_state s g n ≡ ok a
    → new_last_usable a ≡ some last
    → (max_end g.entries ≤ last)
      × (s ≡ GptState.needs_repair HeaderIssue.primary_unreadable → last ≤ g.header.last_usable_lba)
      × (s ≡ GptState.needs_repair HeaderIssue.backup_unreadable → last ≡ g.header.last_usable_lba)
      × (s ≢ GptState.valid)
unfolding classify_state new_last_usable
classify_state-bound GptState.valid g n a last cover h e = absurd (ground arith)
classify_state-bound (GptState.needs_repair c) g n a last cover h e =
    let (r, made, eq) = >>=-eq_ok (relocated_last_usable c g n) _ h in
    let (covers, low, keeps) = relocated_last_usable-bound c g n r cover made in
    let same : r ≡ last = ground (arith, eq, e) in
    (
      omega (arith, same, covers),
      λ p. omega (arith, same, low (ground (arith, p))),
      λ b. omega (arith, same, keeps (ground (arith, b))),
      λ v. cc,
    )

-- The upper bound that a repair would set covers every partition of a checked table, and it is
-- never above the recorded one when one of the two copies was lost: with the primary lost it is at
-- most that of the backup copy, with the backup lost it is that of the primary copy.
pub classify_repair-bound :
    (g : RawGpt) (n : ℕ) (a : RepairAction) (last : ℕ)
    → max_end g.entries ≤ g.header.last_usable_lba
    → classify_repair g n ≡ ok a
    → new_last_usable a ≡ some last
    → (max_end g.entries ≤ last)
      × (g.state ≡ GptState.needs_repair HeaderIssue.primary_unreadable
          → last ≤ g.header.last_usable_lba)
      × (g.state ≡ GptState.needs_repair HeaderIssue.backup_unreadable
          → last ≡ g.header.last_usable_lba)
      × (g.state ≢ GptState.valid)
classify_repair-bound g n a last cover h e =
    classify_state-bound g.state g n a last cover (classify_repair-eq_ok g n h).1 e

-- The geometry that a command works on, when there is one, is valid: it has the entries of the
-- parsed table and the upper bound of the repair, or the recorded bound where none is due.
pub resolve_geometry-IsValid :
    (g : RawGpt) (container_last_lba : ℕ → ℕ) (vg : ValidatedGeometry) (a : RepairAction)
    → validate_entries g.entries g.header ≡ ok tt
    → resolve_geometry (ok (some g)) container_last_lba ≡ ok (some (vg, a))
    → IsValid vg
      × (vg.entries ≡ g.entries)
      × (vg.file_last_lba ≡ container_last_lba g.ss)
      × (vg.header.last_usable_lba ≡ unwrap_or (new_last_usable a) g.header.last_usable_lba)
unfolding resolve_geometry
resolve_geometry-IsValid g container_last_lba vg a checked h =
    let n : ℕ = container_last_lba g.ss in
    let (b, e₁, h₁) = >>=-eq_ok (map_err (classify_repair g n) Fail.infra) _ h in
    let (v, e₂, h₂) = >>=-eq_ok (map_err (geometry_new g n (new_last_usable b)) Fail.infra) _ h₁ in
    let made = map_err-eq_ok (geometry_new g n (new_last_usable b)) Fail.infra e₂ in
    let (valid, same, bound, _, size) = geometry_new-IsValid g n (new_last_usable b) checked made in
    let v-is : v ≡ vg = ground (arith, h₂) in
    let b-is : b ≡ a = ground (arith, h₂) in rw (← v-is, ← b-is) (valid, same, size, bound)
