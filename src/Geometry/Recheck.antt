-- ===== src/Geometry/Recheck.antt =====
-- `check_entries` of src/geometry.rs: what a table that passes the check before a commit looks like.
use disk_edit.Prelude.{
  ℕ, zero, suc, ◌+◌, ◌≡◌, refl, Bool, true, false, List, [], ◌∷◌, none, some, Result, ok, err,
  arith, length, get_elem?, ◌⊎◌, inl, inr, Bool-cases, Option-cases, ◌==◌, ◌&&◌, any, if◌then◌else◌,
  Option, String, not, map_err,
}
use native.Mathlib.Nat.{add-zero, zero-add}
use disk_edit.Outcome.{Message, plain, note, Fail}
use disk_edit.Table.Guid.{Guid, guid_eq_iff}
use disk_edit.Table.Gpt.{GptPartitionEntry, RawHeader, RawGpt, entry_eq_sound}
use disk_edit.Geometry.{ValidatedGeometry}
use disk_edit.Geometry.Check.{
  TableCheck, changed, check_entries, check_table, check_slots, stands_at, foreign_field,
  foreign_number, foreign_guid, ensure_entries_unchanged_fail, fail_of_check,
}

-- A slot of the disk holds what was read at the start, or, if this tool changed it, the new entry.
abbrev pub SlotKept : ValidatedGeometry → ℕ → GptPartitionEntry → Type 0
SlotKept g i e =
    (get_elem? g.decided_entries i ≡ some e)
    ⊎ ((any (λ j. j == i) g.dirty ≡ true) × (get_elem? g.entries i ≡ some e))

-- Each compared field holds what was read at the start or what is to be written.
abbrev pub HeaderKept : RawHeader → RawHeader → RawHeader → Type 0
HeaderKept d now t =
    ((now.revision ≡ d.revision) ⊎ (now.revision ≡ t.revision))
    × ((now.backup_lba ≡ d.backup_lba) ⊎ (now.backup_lba ≡ t.backup_lba))
    × ((now.first_usable_lba ≡ d.first_usable_lba) ⊎ (now.first_usable_lba ≡ t.first_usable_lba))
    × ((now.last_usable_lba ≡ d.last_usable_lba) ⊎ (now.last_usable_lba ≡ t.last_usable_lba))
    × ((now.disk_guid ≡ d.disk_guid) ⊎ (now.disk_guid ≡ t.disk_guid))
    × ((now.number_of_partition_entries ≡ d.number_of_partition_entries)
        ⊎ (now.number_of_partition_entries ≡ t.number_of_partition_entries))
    × ((now.size_of_partition_entry ≡ d.size_of_partition_entry)
        ⊎ (now.size_of_partition_entry ≡ t.size_of_partition_entry))
    × ((now.header_size ≡ d.header_size) ⊎ (now.header_size ≡ t.header_size))

stands_at_sound :
    (es : List GptPartitionEntry) (i : ℕ) (e : GptPartitionEntry)
    → stands_at es i e ≡ true
    → get_elem? es i ≡ some e
unfolding stands_at
stands_at_sound es i e h = elim (Option-cases (get_elem? es i)) [
  | inl out ↦ absurd (cc (rw (out, stands_at) at h))
  | inr (x, at) ↦ rw at (ground (arith, entry_eq_sound e x))
]

check_slots-cons :
    (g : ValidatedGeometry) (i : ℕ) (e : GptPartitionEntry) (es : List GptPartitionEntry)
    → check_slots g i (e ∷ es) ≡ ok tt
    → SlotKept g i e × (check_slots g (suc i) es ≡ ok tt)
unfolding check_slots
check_slots-cons g i e es h =
    ground (arith, stands_at_sound g.decided_entries i e, stands_at_sound g.entries i e)

check_slots_sound :
    (g : ValidatedGeometry) (i : ℕ) (es : List GptPartitionEntry)
    → check_slots g i es ≡ ok tt
    → (j : ℕ) (e : GptPartitionEntry) → get_elem? es j ≡ some e
    → SlotKept g (i + j) e
check_slots_sound g i [] h j e at = absurd (cc at)
check_slots_sound g i (x ∷ xs) h zero e at =
    let here : x ≡ e = ground (arith, at) in rw (add-zero, ← here) (check_slots-cons g i x xs h).0
check_slots_sound g i (x ∷ xs) h (suc j) e at =
    let shifted : suc i + j ≡ i + suc j = omega arith in
    rw (← shifted) (check_slots_sound g (suc i) xs (check_slots-cons g i x xs h).1 j e at)

kept_number : (was is want : ℕ) → foreign_number was is want ≡ false → (is ≡ was) ⊎ (is ≡ want)
kept_number was is want h = ground arith

kept_guid : (was is want : Guid) → foreign_guid was is want ≡ false → (is ≡ was) ⊎ (is ≡ want)
kept_guid was is want h = ground (arith, guid_eq_iff is was, guid_eq_iff is want)

skip :
    (b : Bool) (field : String) (rest : Option String)
    → (if b then some field else rest) ≡ none
    → (b ≡ false) × (rest ≡ none)
skip true field rest h = absurd (cc h)
skip false field rest h = (refl, h)

foreign_field_sound : (d now t : RawHeader) → foreign_field d now t ≡ none → HeaderKept d now t
unfolding foreign_field
foreign_field_sound d now t h =
    let (a, h₁) = skip _ _ _ h in
    let (b, h₂) = skip _ _ _ h₁ in
    let (c, h₃) = skip _ _ _ h₂ in
    let (e, h₄) = skip _ _ _ h₃ in
    let (f, h₅) = skip _ _ _ h₄ in
    let (k, h₆) = skip _ _ _ h₅ in
    let (l, h₇) = skip _ _ _ h₆ in
    let (m, _) = skip _ _ _ h₇ in
    (
      kept_number _ _ _ a,
      kept_number _ _ _ b,
      kept_number _ _ _ c,
      kept_number _ _ _ e,
      kept_guid _ _ _ f,
      kept_number _ _ _ k,
      kept_number _ _ _ l,
      kept_number _ _ _ m,
    )

check_table_sound :
    (g : ValidatedGeometry) (disk : RawGpt)
    → check_table g disk ≡ ok tt
    → (length disk.entries ≡ length g.decided_entries)
      × (foreign_field g.decided_header disk.header g.header ≡ none)
      × (check_slots g 0 disk.entries ≡ ok tt)
unfolding check_table
check_table_sound g disk h = ground arith

-- When the check before a commit passes, the disk could be read, has as many entries as were
-- validated, and each slot on it is what this geometry was decided on or, if this tool changed it,
-- what it is about to write; so is, of the header, each of the revision, the backup LBA, the first
-- and the last usable LBA, the disk GUID, the count and the size of the entries and the header size.
pub check_entries_sound :
    (g : ValidatedGeometry) (loaded : Result Message (Option RawGpt))
    → check_entries g loaded ≡ ok tt
    → (disk : RawGpt) × (loaded ≡ ok (some disk))
      × (length disk.entries ≡ length g.decided_entries)
      × HeaderKept g.decided_header disk.header g.header
      × ((i : ℕ) (e : GptPartitionEntry) → get_elem? disk.entries i ≡ some e → SlotKept g i e)
unfolding check_entries
check_entries_sound g (err m) h = cc
check_entries_sound g (ok none) h = cc
check_entries_sound g (ok (some disk)) h =
    let (counted, fields, slots) = check_table_sound g disk h in
    (
      disk,
      refl,
      counted,
      foreign_field_sound g.decided_header disk.header g.header fields,
      λ i e at. rw zero-add at (check_slots_sound g 0 disk.entries slots i e at),
    )

check_slots-err :
    (g : ValidatedGeometry) (i : ℕ) (es : List GptPartitionEntry) {c : TableCheck}
    → check_slots g i es ≡ err c
    → (m : Message) × (c ≡ changed m)
unfolding check_slots
check_slots-err g i [] h = cc
check_slots-err g i (e ∷ es) h = elim (Bool-cases (stands_at g.decided_entries i e)) [
  | inl kept ↦ check_slots-err g (suc i) es (rw kept at h)
  | inr moved ↦ elim (Bool-cases (any (λ j. j == i) g.dirty && stands_at g.entries i e)) [
    | inl ours ↦ check_slots-err g (suc i) es (rw (moved, ours) at h)
    | inr theirs ↦ (
      note "partition entry #{} changed outside this tool" (suc i ∷ []),
      ground (arith, h, moved, theirs),
    )
  ]
]

check_table-err :
    (g : ValidatedGeometry) (disk : RawGpt) {c : TableCheck}
    → check_table g disk ≡ err c
    → (m : Message) × (c ≡ changed m)
unfolding check_table
check_table-err g disk {c} h = elim (Bool-cases (length disk.entries == length g.decided_entries)) [
  | inr short ↦ (
    note "GPT entry array holds {} entries but {} were validated"
        (length disk.entries ∷ length g.decided_entries ∷ []),
    ground (arith, h, short),
  )
  | inl counted ↦ elim (Option-cases (foreign_field g.decided_header disk.header g.header)) [
    | inl none_foreign ↦ check_slots-err g 0 disk.entries (rw (counted, none_foreign, not) at h)
    | inr (field, foreign) ↦ (plain field, ground (arith, h, counted, foreign))
  ]
]

Result-cases {ℓ} : {E : Type ℓ} (r : Result E (Unit {0})) → (r ≡ ok tt) ⊎ ((c : E) × (r ≡ err c))
Result-cases (ok _) = inl refl
Result-cases (err c) = inr (c, refl)

-- The check before the first write refuses (10) a table that was changed or is gone, and reports as
-- infrastructure (30) a table that cannot be read; it never answers `failed`.
ensure_entries_unchanged_codes :
    (g : ValidatedGeometry) (loaded : Result Message (Option RawGpt)) {f : Fail}
    → ensure_entries_unchanged_fail g loaded ≡ err f
    → ((m : Message) × (loaded ≡ err m) × (f ≡ Fail.infra m))
      ⊎ ((found : Option RawGpt) × (m : Message) × (loaded ≡ ok found) × (f ≡ Fail.refused m))
unfolding ensure_entries_unchanged_fail fail_of_check
ensure_entries_unchanged_codes g (err m) h = ground arith
ensure_entries_unchanged_codes g (ok none) {f} h =
    inr (none, plain "GPT vanished before the table write", refl, ground arith)
ensure_entries_unchanged_codes g (ok (some disk)) {f} h = elim (Result-cases (check_table g disk)) [
  | inl passed ↦ absurd (cc (rw (passed, map_err) at h))
  | inr (c, e) ↦
      let (m, why) = check_table-err g disk e in inr (some disk, m, refl, ground (arith, e, why))
]
