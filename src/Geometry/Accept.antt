-- ===== src/Geometry/Accept.antt =====
-- `ValidatedGeometry::new` of src/geometry.rs refuses nothing that it could accept.
use disk_edit.Prelude.{
  ℕ, ◌+◌, ◌≤◌, ◌<◌, ◌≡◌, ◌↔◌, ◌∙◌, ap, List, none, Option-cases, ok, arith, All, Pairs,
  Pairs-get_elem?, length, inl, inr, Option, true, false, ◌⊎◌,
}
use mathlib.Core.Path.{subst}
use disk_edit.Table.EntryArray.{EntryArrayGeometry, entry_array_new, lba_span, max_array_bytes}
use disk_edit.Table.EntryArray.Size.{IsPlausible, entry_array_new-IsPlausible}
use disk_edit.Table.Gpt.{GptPartitionEntry, RawGpt, validate_entries}
use disk_edit.Geometry.{
  ValidatedGeometry, geometry_new, check_last_usable, max_end, unwrap_or, find_overlap,
  adopt_checked, adopted, intersects, overlap_message,
}
use disk_edit.Geometry.Overlap.{Clear, IsOrdered, find_overlap-none}
use disk_edit.Geometry.Overlap.Report.{find_overlap-some}
use disk_edit.Geometry.Build.{
  geometry_new-Built, check_last_usable_sound, validate_entries_sound, IsWithin-IsOrdered,
}

-- The entry array that the header declares.
abbrev pub declared : RawGpt → EntryArrayGeometry
declared g = record {
  sector_size = g.ss;
  entry_size = g.header.size_of_partition_entry;
  entry_count = g.header.number_of_partition_entries;
}

-- A table that can be worked on in a container with the last sector `n`, up to the sector `last`.
pub record IsAcceptable (g : RawGpt) (n last : ℕ) : Type 0 where
  pub array : IsPlausible (declared g)
  pub counted : length g.entries ≡ g.header.number_of_partition_entries
  pub clear : Pairs Clear g.entries
  pub covers : max_end g.entries ≤ last
  pub ordered : g.header.first_usable_lba ≤ last
  pub room : last + lba_span (declared g) + 1 ≤ n

entry_array_new-declared :
    (g : RawGpt)
    → IsPlausible (declared g)
    → entry_array_new g.ss g.header.size_of_partition_entry g.header.number_of_partition_entries
        max_array_bytes
      ≡ ok (declared g)
unfolding entry_array_new
entry_array_new-declared g p = ground (arith, p.sector_min, p.some_entry, p.size_ok, p.bounded)

intersects-flip : (x y : GptPartitionEntry) → intersects x y ≡ true → intersects y x ≡ true
intersects-flip x y h = ground (arith, h)

-- Clear entries are never reported.
find_overlap-Clear :
    (es : List GptPartitionEntry) → All IsOrdered es → Pairs Clear es → find_overlap es ≡ none
find_overlap-Clear es ordered clear = elim (Option-cases (find_overlap es)) [
  | inl gone ↦ gone
  | inr ((a, b), found) ↦
      let (i, j, x, y, _, _, other, xi, yj, ux, uy, meet) =
        find_overlap-some es a b ordered found in
      let apart : (i < j) ⊎ (j < i) = omega (arith, other) in
      elim apart [
        | inl l ↦
            let no : intersects x y ≡ false = Pairs-get_elem? Clear es i j clear l xi yj ux uy in
            absurd (cc (meet, no))
        | inr l ↦
            let no : intersects y x ≡ false = Pairs-get_elem? Clear es j i clear l yj xi uy ux in
            absurd (cc (intersects-flip x y meet, no))
      ]
]

check_last_usable-ok :
    (g : RawGpt) (geom : EntryArrayGeometry) (n last : ℕ)
    → max_end g.entries ≤ last
    → g.header.first_usable_lba ≤ last
    → last + lba_span geom + 1 ≤ n
    → check_last_usable g geom n last ≡ ok tt
unfolding check_last_usable
check_last_usable-ok g geom n last covers ordered room = ground (arith, covers, ordered, room)

adopt_checked-ok :
    (g : RawGpt) (geom : EntryArrayGeometry) (n last : ℕ)
    → find_overlap g.entries ≡ none
    → length g.entries ≡ geom.entry_count
    → check_last_usable g geom n last ≡ ok tt
    → adopt_checked g geom n last ≡ ok (adopted g geom n last)
unfolding adopt_checked overlap_message
adopt_checked-ok g geom n last apart counted bounded = ground (arith, apart, counted, bounded)

same_geometry :
    (a b : EntryArrayGeometry)
    → a.sector_size ≡ b.sector_size
    → a.entry_size ≡ b.entry_size
    → a.entry_count ≡ b.entry_count
    → a ≡ b
same_geometry a b s e c = λ i. record { sector_size = s i; entry_size = e i; entry_count = c i }

module _ (g : RawGpt) (n : ℕ) (post : Option ℕ) (ordered : All IsOrdered g.entries) where
  abbrev bound : ℕ
  bound = unwrap_or post g.header.last_usable_lba

  accepted : (vg : ValidatedGeometry) → geometry_new g n post ≡ ok vg → IsAcceptable g n bound
  accepted vg h =
      let b = geometry_new-Built g n post h in
      let (plausible, ss, size, count) =
        entry_array_new-IsPlausible g.ss g.header.size_of_partition_entry
          g.header.number_of_partition_entries b.made in
      let same : b.geom ≡ declared g = same_geometry b.geom (declared g) ss size count in
      let (low, high, room) = check_last_usable_sound g b.geom n bound b.bounded in
      record {
        array = subst IsPlausible same plausible;
        counted = b.counted ∙ count;
        clear = find_overlap-none g.entries ordered b.apart;
        covers = high;
        ordered = low;
        room = omega (arith, room, ap lba_span same);
      }

  built : IsAcceptable g n bound → geometry_new g n post ≡ ok (adopted g (declared g) n bound)
  unfolding geometry_new
  built a = rw (entry_array_new-declared g a.array) (
      adopt_checked-ok g (declared g) n bound (find_overlap-Clear g.entries ordered a.clear)
        a.counted (check_last_usable-ok g (declared g) n bound a.covers a.ordered a.room))

-- A table whose entries passed the parser's check becomes a geometry exactly when the array that its
-- header declares is plausible and has as many entries as were read, no two defined entries
-- intersect, and the bound to adopt is not before the first usable sector nor before the end of an
-- entry and leaves room for the backup; and then it becomes the table with that bound.
pub geometry_new-IsAcceptable_iff :
    (g : RawGpt) (n : ℕ) (post : Option ℕ)
    → validate_entries g.entries g.header ≡ ok tt
    → let last : ℕ = unwrap_or post g.header.last_usable_lba in
      (((vg : ValidatedGeometry) × (geometry_new g n post ≡ ok vg)) ↔ IsAcceptable g n last)
      × (IsAcceptable g n last → geometry_new g n post ≡ ok (adopted g (declared g) n last))
geometry_new-IsAcceptable_iff g n post checked =
    let ordered =
      IsWithin-IsOrdered g.header.first_usable_lba g.header.last_usable_lba g.entries
        (validate_entries_sound g.entries g.header checked) in
    (
      (λ (vg, made). accepted g n post ordered vg made, λ a. (_, built g n post ordered a)),
      built g n post ordered,
    )
