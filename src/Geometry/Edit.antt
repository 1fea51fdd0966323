-- ===== src/Geometry/Edit.antt =====
-- `update_entry` of src/geometry.rs keeps the invariant and changes one slot.
use disk_edit.Prelude.{
  ℕ, zero, suc, ◌+◌, ◌<◌, ◌≡◌, ◌≢◌, refl, true, List, [], ◌∷◌, some, ok, arith, ◌∙◌, any, ◌++◌, All,
  Pairs, length-set, get_elem?, get_elem?-set_self, get_elem?-set_ne, set, get_elem?-lt_length, inl,
  inr, Bool-cases, Option-cases, ◌==◌, ◌>>=◌, >>=-eq_ok,
}
use disk_edit.Table.Gpt.{GptPartitionEntry, is_unused}
use disk_edit.Geometry.{ValidatedGeometry, update_entry, check_draft, check_others, mark_dirty}
use disk_edit.Geometry.Overlap.{Clear}
use disk_edit.Geometry.Invariant.{IsValid, IsWithin}

-- A predicate on all elements but the one at an index.
abbrev AllBut {ℓ κ} : {A : Type ℓ} → (A → Type κ) → ℕ → List A → Type κ
AllBut P n [] = Unit
AllBut P zero (x ∷ xs) = All P xs
AllBut P (suc n) (x ∷ xs) = P x × AllBut P n xs

All-set {ℓ κ} :
    {A : Type ℓ} (P : A → Type κ) (n : ℕ) (xs : List A) (v : A)
    → P v
    → All P xs
    → All P (set xs n v)
All-set P n [] v p h = tt
All-set P zero (x ∷ xs) v p h = (p, h.1)
All-set P (suc n) (x ∷ xs) v p h = (h.0, All-set P n xs v p h.1)

Pairs-set {ℓ κ} :
    {A : Type ℓ} (R : A → A → Type κ) (flip : (x y : A) → R x y → R y x) (n : ℕ) (xs : List A)
    (v : A)
    → AllBut (R v) n xs
    → Pairs R xs
    → Pairs R (set xs n v)
Pairs-set R flip n [] v b h = tt
Pairs-set R flip zero (x ∷ xs) v b h = (b, h.1)
Pairs-set R flip (suc n) (x ∷ xs) v b h =
    (All-set (R x) n xs v (flip v x b.0) h.0, Pairs-set R flip n xs v b.1 h.1)

Clear-flip : (a b : GptPartitionEntry) → Clear a b → Clear b a
Clear-flip a b h ub ua = ground (arith, h ua ub)

All-unused :
    (d : GptPartitionEntry) (es : List GptPartitionEntry) → is_unused d ≡ true → All (Clear d) es
All-unused d [] u = tt
All-unused d (e ∷ es) u = (λ ud ue. cc, All-unused d es u)

-- One step of the loop over the other entries.
check_others-cons :
    (index i : ℕ) (d e : GptPartitionEntry) (es : List GptPartitionEntry)
    → check_others index d i (e ∷ es) ≡ ok tt
    → (i ≢ index → Clear d e) × (check_others index d (suc i) es ≡ ok tt)
unfolding check_others
check_others-cons index i d e es h = (λ ne ud ue. ground arith, ground arith)

check_others-past :
    (index i : ℕ) (d : GptPartitionEntry) (es : List GptPartitionEntry)
    → index < i
    → check_others index d i es ≡ ok tt
    → All (Clear d) es
check_others-past index i d [] lt h = tt
check_others-past index i d (e ∷ es) lt h =
    let (c, rest) = check_others-cons index i d e es h in
    (c (omega arith), check_others-past index (suc i) d es (omega arith) rest)

check_others_sound :
    (k i index : ℕ) (d : GptPartitionEntry) (es : List GptPartitionEntry)
    → index ≡ i + k
    → check_others index d i es ≡ ok tt
    → AllBut (Clear d) k es
check_others_sound k i index d [] q h = tt
check_others_sound zero i index d (e ∷ es) q h =
    check_others-past index (suc i) d es (omega arith) (check_others-cons index i d e es h).1
check_others_sound (suc k) i index d (e ∷ es) q h =
    let (c, rest) = check_others-cons index i d e es h in
    (c (omega arith), check_others_sound k (suc i) index d es (omega arith) rest)

AllBut-unused :
    (k : ℕ) (d : GptPartitionEntry) (es : List GptPartitionEntry)
    → is_unused d ≡ true
    → AllBut (Clear d) k es
AllBut-unused k d [] u = tt
AllBut-unused zero d (e ∷ es) u = All-unused d es u
AllBut-unused (suc k) d (e ∷ es) u = (λ ud ue. cc, AllBut-unused k d es u)

-- What a draft that was let through satisfies.
check_draft_sound :
    (g : ValidatedGeometry) (index : ℕ) (d : GptPartitionEntry)
    → check_draft g index d ≡ ok tt
    → IsWithin g.header.first_usable_lba g.header.last_usable_lba d
      × AllBut (Clear d) index g.entries
unfolding check_draft
check_draft_sound g index d h = elim (Bool-cases (is_unused d)) [
  | inl unused ↦ (λ used. cc, AllBut-unused index d g.entries unused)
  | inr used ↦ (
    λ _. (ground arith, ground arith, ground arith),
    check_others_sound index 0 index d g.entries (omega arith) (ground arith),
  )
]

any-append_self : (index : ℕ) (xs : List ℕ) → any (λ i. i == index) (xs ++ (index ∷ [])) ≡ true
any-append_self index [] = ground arith
any-append_self index (x ∷ xs) = ground (arith, any-append_self index xs)

mark_dirty-marks :
    (index : ℕ) (dirty : List ℕ) → any (λ i. i == index) (mark_dirty index dirty) ≡ true
mark_dirty-marks index dirty = elim (Bool-cases (any (λ i. i == index) dirty)) [
  | inl old ↦ rw old old
  | inr new ↦ rw new (any-append_self index dirty)
]

-- Inversion of a successful edit.
update_entry-eq_ok :
    (g : ValidatedGeometry) (index : ℕ) (f : GptPartitionEntry → GptPartitionEntry)
    {g' : ValidatedGeometry}
    → update_entry g index f ≡ ok g'
    → (cur : GptPartitionEntry) × (get_elem? g.entries index ≡ some cur)
      × (check_draft g index (f cur) ≡ ok tt)
      × (g' ≡ record g { entries = set g.entries index (f cur); dirty = mark_dirty index g.dirty })
unfolding update_entry
update_entry-eq_ok g index f {g'} h = elim (Option-cases (get_elem? g.entries index)) [
  | inl e ↦ absurd (cc (rw (e, update_entry) at h))
  | inr (cur, e) ↦
      let edited : ValidatedGeometry = record g {
        entries = set g.entries index (f cur);
        dirty = mark_dirty index g.dirty;
      } in
      let h' : (check_draft g index (f cur) >>= λ _. ok edited) ≡ ok g' =
        rw (e, update_entry) at h in
      let (u, passed, same) = >>=-eq_ok (check_draft g index (f cur)) (λ _. ok edited) h' in
      (cur, e, cc passed, ground (arith, same))
]

-- A successful edit keeps the invariant, for any edit function.
pub update_entry-IsValid :
    (g : ValidatedGeometry) (index : ℕ) (f : GptPartitionEntry → GptPartitionEntry)
    {g' : ValidatedGeometry}
    → IsValid g
    → update_entry g index f ≡ ok g'
    → IsValid g'
update_entry-IsValid g index f v h =
    let (cur, at, passed, e) = update_entry-eq_ok g index f h in
    let (within, clear) = check_draft_sound g index (f cur) passed in
    rw e (record {
      plausible = v.plausible;
      counted = length-set g.entries index (f cur) ∙ v.counted;
      decided_counted = v.decided_counted;
      within = All-set _ index g.entries (f cur) within v.within;
      clear = Pairs-set Clear Clear-flip index g.entries (f cur) clear v.clear;
      ordered = v.ordered;
      room = v.room;
      backup_last = v.backup_last;
    })

-- A successful edit applies the function to the entry in its slot, marks the slot as changed, and
-- leaves every other slot, the header and the decided copies as they were.
pub update_entry-frame :
    (g : ValidatedGeometry) (index : ℕ) (f : GptPartitionEntry → GptPartitionEntry)
    {g' : ValidatedGeometry}
    → update_entry g index f ≡ ok g'
    → ((cur : GptPartitionEntry) × (get_elem? g.entries index ≡ some cur)
        × (get_elem? g'.entries index ≡ some (f cur)))
      × (any (λ i. i == index) g'.dirty ≡ true)
      × ((j : ℕ) → index ≢ j → get_elem? g'.entries j ≡ get_elem? g.entries j)
      × (g'.header ≡ g.header)
      × (g'.decided_entries ≡ g.decided_entries)
      × (g'.decided_header ≡ g.decided_header)
update_entry-frame g index f h =
    let (cur, at, passed, e) = update_entry-eq_ok g index f h in
    rw e (
      (
        cur,
        at,
        get_elem?-set_self g.entries index (f cur) (get_elem?-lt_length g.entries index at),
      ),
      mark_dirty-marks index g.dirty,
      λ j ne. get_elem?-set_ne g.entries (f cur) ne,
      refl,
      refl,
      refl,
    )
