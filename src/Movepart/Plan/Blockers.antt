-- ===== src/Movepart/Plan/Blockers.antt =====
-- The entries to move of src/movepart/plan.rs: `blockers_after` on a valid geometry.
use disk_edit.Prelude.{
  ℕ, suc, ◌≤◌, ◌<◌, ◌≡◌, ◌≢◌, ◌⊎◌, inl, inr, false, not, ◌&&◌, List, [], ◌∷◌, ok, arith, >>=-eq_ok,
  >>=-eq_ok, All, Pairs, Bool-cases, ltb, ◌==◌, Pairs-combine,
}
use disk_edit.Prelude.Sort
use disk_edit.Table.Gpt.{GptPartitionEntry, is_unused}
use disk_edit.Geometry.{ValidatedGeometry}
use disk_edit.Geometry.Overlap.{Clear}
use disk_edit.Geometry.Invariant.{IsValid, IsWithin}
use disk_edit.Movepart.Plan.{
  Blocker, movable_from, starts_le, check_blockers, sorted_blockers, blockers_after,
}

-- A blocker starts behind the target and lies inside the usable area.
abbrev pub IsBlocker : ℕ → ℕ → Blocker → Type 0
IsBlocker target_end last b =
    (target_end < b.1.starting_lba) × (b.1.starting_lba ≤ b.1.ending_lba) × (b.1.ending_lba ≤ last)

abbrev pub Before : Blocker → Blocker → Type 0
Before a b = a.1.ending_lba < b.1.starting_lba

abbrev IsRight : ℕ → ℕ → Blocker → Type 0
IsRight target_end last b = IsBlocker target_end last b × (b.1.ending_lba ≢ 0)

movable_from-cons :
    (t n : ℕ) (e : GptPartitionEntry) (es : List GptPartitionEntry)
    → (movable_from t n (e ∷ es) ≡ movable_from t (suc n) es)
      ⊎ ((movable_from t n (e ∷ es) ≡ (n, e) ∷ movable_from t (suc n) es)
          × (t < e.starting_lba)
          × (e.ending_lba ≢ 0))
unfolding movable_from
movable_from-cons t n e es = elim (Bool-cases (not (e.ending_lba == 0) && ltb t e.starting_lba)) [
  | inl t' ↦ inr (rw t', ground arith, ground arith)
  | inr f ↦ inl (rw f)
]

IsWithin-IsRight :
    (first last t n : ℕ) (e : GptPartitionEntry)
    → IsWithin first last e
    → t < e.starting_lba
    → e.ending_lba ≢ 0
    → IsRight t last (n, e)
IsWithin-IsRight first last t n e w h nz =
    let used : is_unused e ≡ false = ground arith in let (a, b, c) = w used in ((h, a, c), nz)

movable_from-IsRight :
    (first last t n : ℕ) (es : List GptPartitionEntry)
    → All (IsWithin first last) es
    → All (IsRight t last) (movable_from t n es)
unfolding movable_from
movable_from-IsRight first last t n [] w = tt
movable_from-IsRight first last t n (e ∷ es) w = elim (movable_from-cons t n e es) [
  | inl eq ↦ rw eq (movable_from-IsRight first last t (suc n) es w.1)
  | inr (eq, h, nz) ↦
      rw eq (
        IsWithin-IsRight first last t n e w.0 h nz,
        movable_from-IsRight first last t (suc n) es w.1,
      )
]

abbrev ClearPair : Blocker → Blocker → Type 0
ClearPair a b = Clear a.1 b.1

movable_from-All-Clear :
    (a : Blocker) (t n : ℕ) (es : List GptPartitionEntry)
    → All (Clear a.1) es
    → All (ClearPair a) (movable_from t n es)
unfolding movable_from
movable_from-All-Clear a t n [] c = tt
movable_from-All-Clear a t n (e ∷ es) c = elim (movable_from-cons t n e es) [
  | inl eq ↦ rw eq (movable_from-All-Clear a t (suc n) es c.1)
  | inr (eq, _, _) ↦ rw eq (c.0, movable_from-All-Clear a t (suc n) es c.1)
]

movable_from-Clear :
    (t n : ℕ) (es : List GptPartitionEntry) → Pairs Clear es → Pairs ClearPair (movable_from t n es)
unfolding movable_from
movable_from-Clear t n [] c = tt
movable_from-Clear t n (e ∷ es) c = elim (movable_from-cons t n e es) [
  | inl eq ↦ rw eq (movable_from-Clear t (suc n) es c.1)
  | inr (eq, _, _) ↦
      rw eq (movable_from-All-Clear (n, e) t (suc n) es c.0, movable_from-Clear t (suc n) es c.1)
]

ClearPair-flip : (a b : Blocker) → ClearPair a b → ClearPair b a
ClearPair-flip a b c ub ua = let apart = c ua ub in ground (arith, apart)

Rising : Blocker → Blocker → Type 0
Rising a b = a.1.starting_lba ≤ b.1.starting_lba

Before-make :
    (t last : ℕ) (a b : Blocker)
    → IsRight t last a
    → IsRight t last b
    → ClearPair a b
    → Rising a b
    → Before a b
unfolding Rising
Before-make t last a b ((ha, oa, la), na) ((hb, ob, lb), nb) c r =
    let ua : is_unused a.1 ≡ false = ground (arith, na) in
    let ub : is_unused b.1 ≡ false = ground (arith, nb) in
    let apart = c ua ub in ground (arith, apart, r, oa, ob)

drop_nonzero :
    (t last : ℕ) (bs : List Blocker) → All (IsRight t last) bs → All (IsBlocker t last) bs
drop_nonzero t last [] h = tt
drop_nonzero t last (b ∷ bs) h = (h.0.0, drop_nonzero t last bs h.1)

sorted_blockers_sound :
    (g : ValidatedGeometry) (t : ℕ)
    → IsValid g
    → All (IsBlocker t g.header.last_usable_lba) (sorted_blockers g.entries t)
      × Pairs Before (sorted_blockers g.entries t)
unfolding sorted_blockers Rising
sorted_blockers_sound g t v =
    let last : ℕ = g.header.last_usable_lba in
    let raw : List Blocker = movable_from t 1 g.entries in
    let right = movable_from-IsRight g.header.first_usable_lba last t 1 g.entries (v.within) in
    let clear = movable_from-Clear t 1 g.entries (v.clear) in
    let right' = Sort.All-sort starts_le (IsRight t last) raw right in
    let clear' = Sort.Pairs-sort starts_le ClearPair ClearPair-flip raw clear in
    let rises =
      Sort.sort_by-rises starts_le (λ b. b.1.starting_lba) (λ a b e. ground arith)
        (λ a b e. ground arith) raw in
    (
      drop_nonzero t last (Sort.sort_by starts_le raw) right',
      Pairs-combine {P = IsRight t last} {R = ClearPair} {S = Rising} {T = Before}
          (Before-make t last) (Sort.sort_by starts_le raw) right' clear' rises,
    )

blockers_after-eq_ok :
    (g : ValidatedGeometry) (t : ℕ) (bs : List Blocker)
    → blockers_after g t ≡ ok bs
    → (check_blockers (sorted_blockers g.entries t) ≡ ok tt) × (bs ≡ sorted_blockers g.entries t)
unfolding blockers_after
blockers_after-eq_ok g t bs h =
    let (_, checked, h₁) = >>=-eq_ok (check_blockers (sorted_blockers g.entries t)) _ h in
    (checked, ground (arith, h₁))

-- The blockers of a valid geometry lie behind the target and inside the usable area, in the order
-- of their starts and without a common sector.
pub blockers_after_sound :
    (g : ValidatedGeometry) (t : ℕ) (bs : List Blocker)
    → IsValid g
    → blockers_after g t ≡ ok bs
    → All (IsBlocker t g.header.last_usable_lba) bs × Pairs Before bs
blockers_after_sound g t bs v h =
    let (_, same) = blockers_after-eq_ok g t bs h in rw same (sorted_blockers_sound g t v)
