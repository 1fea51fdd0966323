-- ===== src/Geometry.antt =====
-- src/geometry.rs: the one operational geometry of a GPT. It is built from a parsed table and the
-- repair that is due, and edited entry by entry.
pub mod Overlap
pub mod Invariant
pub mod Edit
pub mod Build
pub mod Check
pub mod Recheck
pub mod Accept
use disk_edit.Prelude.{
  ℕ, zero, suc, ◌+◌, ◌-◌, max, Bool, true, false, not, ◌||◌, ◌&&◌, Option, none, some, List, [],
  ◌∷◌, ◌++◌, ltb, leb, ◌==◌, if◌then◌else◌, length, get_elem?, set, any, Result, ok, err, ◌>>◌,
  ◌>>=◌, refuse_if, ok_or, map_err, checked_sub, String,
}
use disk_edit.Prelude.Sort
use disk_edit.Outcome.{Message, plain, note, Fail}
use disk_edit.Table.EntryArray.{
  EntryArrayGeometry, entry_array_new, lba_span, slot, max_array_bytes,
}
use disk_edit.Table.Guid.{Guid, guid_eq}
use disk_edit.Table.Gpt.{GptPartitionEntry, RawHeader, RawGpt, is_unused, entry_eq}

-- A defined entry as `find_overlap` sees it: first LBA, last LBA and 1-based number.
pub record Span : Type 0 where
  pub start : ℕ
  pub end : ℕ
  pub num : ℕ

-- `enumerate().filter().map()`, at the number of the next entry.
unfoldable pub defined_from : ℕ → List GptPartitionEntry → List Span
defined_from num [] = []
defined_from num (e ∷ es) =
    let rest = defined_from (suc num) es in
    if is_unused e
    then rest
    else record { start = e.starting_lba; end = e.ending_lba; num = num } ∷ rest

-- The order of the key `(start, end, num)`.
abbrev pub key_le : Span → Span → Bool
key_le a b =
    ltb a.start b.start
    || (a.start == b.start && (ltb a.end b.end || (a.end == b.end && leb a.num b.num)))

-- `sort_by_key`. The keys differ in their numbers, so every sort gives this list.
unfoldable pub sort_by_key : List Span → List Span
unfolding Sort.sort_by
sort_by_key xs = Sort.sort_by key_le xs

-- The loop over `windows(2)`.
unfoldable pub first_overlap : List Span → Option (ℕ × ℕ)
first_overlap [] = none
first_overlap (x ∷ []) = none
first_overlap (x ∷ y ∷ ys) =
    let rest = first_overlap (y ∷ ys) in if leb y.start x.end then some (x.num, y.num) else rest

unfoldable pub find_overlap : List GptPartitionEntry → Option (ℕ × ℕ)
unfolding defined_from sort_by_key first_overlap
find_overlap es = first_overlap (sort_by_key (defined_from 1 es))

pub record GeometryLimits : Type 0 where
  pub sector_size : ℕ
  pub entry_count : ℕ
  pub first_usable_lba : ℕ
  pub last_usable_lba : ℕ
  pub file_last_lba : ℕ

pub record ValidatedGeometry : Type 0 where
  pub ss : ℕ
  pub header : RawHeader
  pub entries : List GptPartitionEntry
  pub decided_entries : List GptPartitionEntry
  pub decided_header : RawHeader
  pub dirty : List ℕ
  pub entry_geometry : EntryArrayGeometry
  pub file_last_lba : ℕ

-- `filter(ending_lba != 0).map(ending_lba).max().unwrap_or(0)`
unfoldable pub max_end : List GptPartitionEntry → ℕ
max_end [] = 0
max_end (e ∷ es) = max e.ending_lba (max_end es)

unfoldable pub unwrap_or {ℓ} : {A : Type ℓ} → Option A → A → A
unwrap_or none d = d
unwrap_or (some a) d = a

-- The three refusals of `ValidatedGeometry::new` on the upper bound of the usable area.
unfoldable pub check_last_usable : RawGpt → EntryArrayGeometry → ℕ → ℕ → Result Message (Unit {0})
unfolding max_end
check_last_usable g geom file_last_lba last_usable = do
  let highest = max_end g.entries
  refuse_if (ltb last_usable g.header.first_usable_lba || ltb last_usable highest) (
      note "last_usable_lba {} does not cover usable start {} / highest partition end {}"
        (last_usable ∷ g.header.first_usable_lba ∷ highest ∷ []))
  below ←
      ok_or (checked_sub file_last_lba (lba_span geom))
        (plain "container too small for the backup GPT metadata")
  ceiling ← ok_or (checked_sub below 1) (plain "container too small for the backup GPT metadata")
  refuse_if (ltb ceiling last_usable) (
      note "last_usable_lba {} would overlap the backup GPT metadata (ceiling {})"
        (last_usable ∷ ceiling ∷ []))

unfoldable pub overlap_message : Option (ℕ × ℕ) → Result Message (Unit {0})
overlap_message none = ok tt
overlap_message (some (a, b)) = err (note "GPT partition entries #{} and #{} overlap" (a ∷ b ∷ []))

-- The geometry that `ValidatedGeometry::new` builds once the checks have passed.
abbrev pub adopted : RawGpt → EntryArrayGeometry → ℕ → ℕ → ValidatedGeometry
adopted g geom file_last_lba last_usable = record {
  ss = g.ss;
  header = record (g.header) { last_usable_lba = last_usable; backup_lba = file_last_lba };
  entries = g.entries;
  decided_entries = g.entries;
  decided_header = g.header;
  dirty = [];
  entry_geometry = geom;
  file_last_lba = file_last_lba;
}

-- `ValidatedGeometry::new` after the entry-array geometry is made.
unfoldable pub adopt_checked :
    RawGpt → EntryArrayGeometry → ℕ → ℕ → Result Message ValidatedGeometry
unfolding overlap_message
adopt_checked g geom file_last_lba last_usable = do
  overlap_message (find_overlap g.entries)
  refuse_if (not (length g.entries == geom.entry_count)) (
      note "GPT entry array holds {} entries but the header declares {}"
        (length g.entries ∷ geom.entry_count ∷ []))
  check_last_usable g geom file_last_lba last_usable
  ok (adopted g geom file_last_lba last_usable)

-- `ValidatedGeometry::new`
unfoldable pub geometry_new : RawGpt → ℕ → Option ℕ → Result Message ValidatedGeometry
geometry_new g file_last_lba post_repair_last_usable = do
  geom ←
      entry_array_new g.ss g.header.size_of_partition_entry g.header.number_of_partition_entries
        max_array_bytes
  adopt_checked g geom file_last_lba (unwrap_or post_repair_last_usable g.header.last_usable_lba)

-- `draft.starting_lba <= other.ending_lba && other.starting_lba <= draft.ending_lba`
abbrev pub intersects : GptPartitionEntry → GptPartitionEntry → Bool
intersects a b = leb a.starting_lba b.ending_lba && leb b.starting_lba a.ending_lba

-- The loop of `update_entry` over the other entries, at the index `i` of the next one.
unfoldable pub check_others :
    ℕ → GptPartitionEntry → ℕ → List GptPartitionEntry → Result Message (Unit {0})
check_others index draft i [] = ok tt
check_others index draft i (other ∷ es) =
    let rest = check_others index draft (suc i) es in
    if i == index || is_unused other
    then rest
    else if intersects draft other
    then err (note "entry #{} would overlap entry #{}" (suc index ∷ suc i ∷ []))
    else rest

unfoldable pub check_draft : ValidatedGeometry → ℕ → GptPartitionEntry → Result Message (Unit {0})
unfolding check_others
check_draft g index draft =
    if is_unused draft
    then ok tt
    else (refuse_if (ltb draft.ending_lba draft.starting_lba) (
          note "entry #{} has an inverted range {}..{}"
            (suc index ∷ draft.starting_lba ∷ draft.ending_lba ∷ []))
        >> refuse_if
            (ltb draft.starting_lba g.header.first_usable_lba
              || ltb g.header.last_usable_lba draft.ending_lba)
            (note "entry #{} range {}..{} falls outside the usable area {}..{}" (
              suc index
              ∷ draft.starting_lba
              ∷ draft.ending_lba
              ∷ g.header.first_usable_lba
              ∷ g.header.last_usable_lba
              ∷ []))
        >> check_others index draft 0 g.entries)

-- `if !dirty.contains(&index) { dirty.push(index) }`
abbrev pub mark_dirty : ℕ → List ℕ → List ℕ
mark_dirty index dirty = if any (λ i. i == index) dirty then dirty else dirty ++ (index ∷ [])

-- `ValidatedGeometry::update_entry`. On an error the caller keeps the old geometry.
unfoldable pub update_entry :
    ValidatedGeometry
    → ℕ
    → (GptPartitionEntry → GptPartitionEntry)
    → Result Message ValidatedGeometry
update_entry g index f = elim (get_elem? g.entries index) [
  | none ↦ err (note "partition entry #{} is out of range" (index ∷ []))
  | some cur ↦ do
    let draft = f cur
    check_draft g index draft
    ok (record g { entries = set g.entries index draft; dirty = mark_dirty index g.dirty })
]

-- `ValidatedGeometry::entry_index` and `limits`
unfoldable pub entry_index : ValidatedGeometry → ℕ → Option ℕ
entry_index g part = slot g.entry_geometry part

unfoldable pub limits : ValidatedGeometry → GeometryLimits
limits g = record {
  sector_size = g.ss;
  entry_count = g.entry_geometry.entry_count;
  first_usable_lba = g.header.first_usable_lba;
  last_usable_lba = g.header.last_usable_lba;
  file_last_lba = g.file_last_lba;
}
