-- ===== src/Geometry/Build.antt =====
-- `ValidatedGeometry::new` of src/geometry.rs establishes the invariant or refuses.
use disk_edit.Prelude.{
  ℕ, suc, ◌+◌, ◌≤◌, ◌≡◌, refl, List, [], ◌∷◌, none, ok, arith, All, length, inl, inr, Bool-cases,
  >>=-eq_ok, Option,
}
use disk_edit.Table.EntryArray.{EntryArrayGeometry, entry_array_new, lba_span, max_array_bytes}
use disk_edit.Table.EntryArray.Size.{entry_array_new-IsPlausible}
use disk_edit.Table.Gpt.{
  GptPartitionEntry, RawHeader, RawGpt, is_unused, validate_entries, validate_entries_from,
}
use disk_edit.Geometry.{
  ValidatedGeometry, geometry_new, check_last_usable, max_end, unwrap_or, find_overlap,
  adopt_checked, adopted,
}
use disk_edit.Geometry.Overlap.{IsOrdered, find_overlap-none}
use disk_edit.Geometry.Invariant.{IsValid, IsWithin}

validate_entries_from_sound :
    (i : ℕ) (es : List GptPartitionEntry) (h : RawHeader)
    → validate_entries_from i es h ≡ ok tt
    → All (IsWithin h.first_usable_lba h.last_usable_lba) es
unfolding validate_entries_from
validate_entries_from_sound i [] h e = tt
validate_entries_from_sound i (x ∷ xs) h e = elim (Bool-cases (is_unused x)) [
  | inl unused ↦ (λ used. cc, validate_entries_from_sound (suc i) xs h (rw unused at e))
  | inr used ↦ (
    λ _. (ground arith, ground arith, ground arith),
    validate_entries_from_sound (suc i) xs h (ground arith),
  )
]

-- The parser's check of the entries puts every defined one, in order, inside the usable area.
pub validate_entries_sound :
    (es : List GptPartitionEntry) (h : RawHeader)
    → validate_entries es h ≡ ok tt
    → All (IsWithin h.first_usable_lba h.last_usable_lba) es
unfolding validate_entries
validate_entries_sound es h e = validate_entries_from_sound 1 es h e

pub IsWithin-IsOrdered :
    (first last : ℕ) (es : List GptPartitionEntry) → All (IsWithin first last) es → All IsOrdered es
IsWithin-IsOrdered first last [] h = tt
IsWithin-IsOrdered first last (e ∷ es) h =
    (λ used. (h.0 used).0, IsWithin-IsOrdered first last es h.1)

-- The bound may fall as far as the highest end.
IsWithin-lower :
    (first last last' : ℕ) (es : List GptPartitionEntry)
    → max_end es ≤ last'
    → All (IsWithin first last) es
    → All (IsWithin first last') es
unfolding max_end
IsWithin-lower first last last' [] m h = tt
IsWithin-lower first last last' (e ∷ es) m h = (
  λ used. let (a, b, c) = h.0 used in (a, b, omega arith),
  IsWithin-lower first last last' es (omega arith) h.1,
)

pub check_last_usable_sound :
    (g : RawGpt) (geom : EntryArrayGeometry) (n last : ℕ)
    → check_last_usable g geom n last ≡ ok tt
    → (g.header.first_usable_lba ≤ last)
      × (max_end g.entries ≤ last)
      × (last + lba_span geom + 1 ≤ n)
unfolding check_last_usable
check_last_usable_sound g geom n last h = ground arith

-- The facts behind a geometry that was built.
pub record Built (g : RawGpt) (n last : ℕ) (vg : ValidatedGeometry) : Type 0 where
  pub geom : EntryArrayGeometry
  pub made :
      entry_array_new g.ss g.header.size_of_partition_entry g.header.number_of_partition_entries
        max_array_bytes
      ≡ ok geom
  pub apart : find_overlap g.entries ≡ none
  pub counted : length g.entries ≡ geom.entry_count
  pub bounded : check_last_usable g geom n last ≡ ok tt
  pub same : vg ≡ adopted g geom n last

adopt_checked-eq_ok :
    (g : RawGpt) (geom : EntryArrayGeometry) (n last : ℕ) {vg : ValidatedGeometry}
    → adopt_checked g geom n last ≡ ok vg
    → (find_overlap g.entries ≡ none)
      × (length g.entries ≡ geom.entry_count)
      × (check_last_usable g geom n last ≡ ok tt)
      × (vg ≡ adopted g geom n last)
unfolding adopt_checked
adopt_checked-eq_ok g geom n last h = ground arith

pub geometry_new-Built :
    (g : RawGpt) (n : ℕ) (post : Option ℕ) {vg : ValidatedGeometry}
    → geometry_new g n post ≡ ok vg
    → Built g n (unwrap_or post g.header.last_usable_lba) vg
unfolding geometry_new
geometry_new-Built g n post h =
    let (geom, made, h₁) =
      >>=-eq_ok
        (entry_array_new g.ss g.header.size_of_partition_entry g.header.number_of_partition_entries
          max_array_bytes)
        (λ geom. adopt_checked g geom n (unwrap_or post g.header.last_usable_lba)) h in
    let (apart, counted, bounded, same) = adopt_checked-eq_ok g geom n _ h₁ in
    record {
      geom = geom;
      made = made;
      apart = apart;
      counted = counted;
      bounded = bounded;
      same = same;
    }

-- A geometry that is built from entries which passed the parser's check is valid; it keeps the
-- entries, takes the repaired upper bound where there is one, and puts the backup header last.
pub geometry_new-IsValid :
    (g : RawGpt) (n : ℕ) (post : Option ℕ) {vg : ValidatedGeometry}
    → validate_entries g.entries g.header ≡ ok tt
    → geometry_new g n post ≡ ok vg
    → IsValid vg
      × (vg.entries ≡ g.entries)
      × (vg.header.last_usable_lba ≡ unwrap_or post g.header.last_usable_lba)
      × (vg.header.first_usable_lba ≡ g.header.first_usable_lba)
      × (vg.file_last_lba ≡ n)
geometry_new-IsValid g n post checked h =
    let b = geometry_new-Built g n post h in
    let last : ℕ = unwrap_or post g.header.last_usable_lba in
    let (low, high, room) = check_last_usable_sound g b.geom n last b.bounded in
    let first : ℕ = g.header.first_usable_lba in
    let inside = validate_entries_sound g.entries g.header checked in
    rw (b.same) (
      record {
        plausible =
            (entry_array_new-IsPlausible g.ss g.header.size_of_partition_entry
              g.header.number_of_partition_entries b.made).0;
        counted = b.counted;
        decided_counted = b.counted;
        within = IsWithin-lower first g.header.last_usable_lba last g.entries high inside;
        clear =
            find_overlap-none g.entries
              (IsWithin-IsOrdered first g.header.last_usable_lba g.entries inside) b.apart;
        ordered = low;
        room = room;
        backup_last = refl;
      },
      refl,
      refl,
      refl,
      refl,
    )
