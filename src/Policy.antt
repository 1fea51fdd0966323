-- ===== src/Policy.antt =====
-- src/gpt_policy.rs: which repair a table needs, and which entry a partition number or `:last` means.
pub mod Repair
pub mod Lookup
pub mod Bytes
use disk_edit.Prelude.{
  ℕ, zero, suc, ◌+◌, ◌-◌, ◌*◌, min, Bool, true, false, not, ◌||◌, ◌&&◌, Option, none, some, List,
  [], ◌∷◌, ltb, leb, ◌==◌, if◌then◌else◌, get_elem?, Result, ok, err, ◌>>◌, ◌>>=◌, refuse_if, ok_or,
  map_err, checked_sub, checked_add, checked_mul,
}
use disk_edit.Outcome.{Message, plain, note, Fail}
use disk_edit.Table.EntryArray.{EntryArrayGeometry, entry_array_new, lba_span, max_array_bytes}
use disk_edit.Table.Gpt.{
  GptPartitionEntry, RawHeader, RawGpt, GptState, HeaderIssue, PmbrSize, PmbrIssue,
}
use disk_edit.Geometry.{ValidatedGeometry, max_end, find_overlap, geometry_new}

-- The due repair. A relocation carries the new backup LBA and the new last usable LBA.
pub data RepairAction : Type 0 where
  nothing : RepairAction
  relocate_backup : ℕ → ℕ → RepairAction
  repair_protective_mbr : RepairAction
  relocate_and_repair : ℕ → ℕ → RepairAction

-- `RepairAction::new_last_usable`
unfoldable pub new_last_usable : RepairAction → Option ℕ
new_last_usable nothing = none
new_last_usable (relocate_backup _ last) = some last
new_last_usable repair_protective_mbr = none
new_last_usable (relocate_and_repair _ last) = some last

unfoldable pub repaired_last_usable : RawGpt → ℕ → Result Message ℕ
repaired_last_usable g file_last_lba = do
  geom ←
      entry_array_new g.ss g.header.size_of_partition_entry g.header.number_of_partition_entries
        max_array_bytes
  below ←
      ok_or (checked_sub file_last_lba (lba_span geom))
        (plain "container too small for GPT backup header")
  last ← ok_or (checked_sub below 1) (plain "container too small for GPT backup header")
  refuse_if (ltb last (max_end g.entries))
      (plain "partitions exceed new usable range after enlarge")
  ok last

abbrev pub is_inconsistent : PmbrSize → Bool
is_inconsistent PmbrSize.inconsistent = true
is_inconsistent _ = false

abbrev pub pmbr_needs_repair : PmbrSize → Bool
pmbr_needs_repair (PmbrSize.needs_repair _) = true
pmbr_needs_repair _ = false

-- The `match g.state` that picks the new upper bound.
unfoldable pub relocated_last_usable : HeaderIssue → RawGpt → ℕ → Result Message ℕ
relocated_last_usable HeaderIssue.primary_unreadable g file_last_lba = do
  repaired ← repaired_last_usable g file_last_lba
  ok (min g.header.last_usable_lba repaired)
relocated_last_usable HeaderIssue.backup_unreadable g file_last_lba = ok g.header.last_usable_lba
relocated_last_usable (HeaderIssue.backup_lba_stale _ _) g file_last_lba =
    repaired_last_usable g file_last_lba

-- `classify_repair` once the protective MBR is known not to be inconsistent.
unfoldable pub classify_state : GptState → RawGpt → ℕ → Result Message RepairAction
classify_state GptState.valid g file_last_lba =
    ok (if pmbr_needs_repair g.pmbr then repair_protective_mbr else nothing)
classify_state (GptState.needs_repair cause) g file_last_lba = do
  last ← relocated_last_usable cause g file_last_lba
  ok (
      if pmbr_needs_repair g.pmbr
      then relocate_and_repair file_last_lba last
      else relocate_backup file_last_lba last)

unfoldable pub classify_repair : RawGpt → ℕ → Result Message RepairAction
classify_repair g file_last_lba = do
  refuse_if (is_inconsistent g.pmbr)
      (plain "protective MBR SizeInLBA exceeds container - refusing auto-repair")
  classify_state g.state g file_last_lba

-- `resolve_geometry`, on what `load_gpt` answers; `file_last_lba` is `container_last_lba(src, g.ss)`.
unfoldable pub resolve_geometry :
    Result Message (Option RawGpt)
    → (ℕ → ℕ)
    → Result Fail (Option (ValidatedGeometry × RepairAction))
resolve_geometry (err m) container_last_lba = err (Fail.infra m)
resolve_geometry (ok none) container_last_lba = ok none
resolve_geometry (ok (some g)) container_last_lba = do
  let file_last_lba = container_last_lba g.ss
  action ← map_err (classify_repair g file_last_lba) Fail.infra
  vg ← map_err (geometry_new g file_last_lba (new_last_usable action)) Fail.infra
  ok (some (vg, action))

-- A primary record of an MBR, as `parse_mbr` answers it.
pub record MbrPartition : Type 0 where
  pub num : ℕ  -- u32
  pub os_type : ℕ  -- u8
  pub start_lba : ℕ  -- u32
  pub size_lba : ℕ  -- u32
  pub is_container : Bool

pub data PartitionTable : Type 0 where
  gpt : List GptPartitionEntry → ℕ → PartitionTable
  mbr : List MbrPartition → PartitionTable

pub data PartSelector : Type 0 where
  number : ℕ → PartSelector
  last_one : PartSelector

-- `max_by_key` of the candidates (number, last LBA): the later of two equal ones.
unfoldable pub last_used : List (ℕ × ℕ) → Option (ℕ × ℕ)
last_used [] = none
last_used ((num, lba) ∷ rest) = elim (last_used rest) [
  | none ↦ some (num, lba)
  | some (n, l) ↦ if leb lba l then some (n, l) else some (num, lba)
]

unfoldable pub gpt_candidates : ℕ → List GptPartitionEntry → List (ℕ × ℕ)
gpt_candidates num [] = []
gpt_candidates num (e ∷ es) =
    let rest = gpt_candidates (suc num) es in
    if e.ending_lba == 0 then rest else (num, e.ending_lba) ∷ rest

-- A used record has a size of at least 1, so the subtraction does not reach 0.
unfoldable pub mbr_candidates : List MbrPartition → List (ℕ × ℕ)
mbr_candidates [] = []
mbr_candidates (p ∷ ps) =
    let rest = mbr_candidates ps in
    if p.is_container then rest else (p.num, p.start_lba + p.size_lba - 1) ∷ rest

abbrev first_of_pair : Option (ℕ × ℕ) → Option ℕ
first_of_pair none = none
first_of_pair (some (n, _)) = some n

unfoldable pub last_used_gpt : List GptPartitionEntry → Option ℕ
unfolding last_used gpt_candidates
last_used_gpt es = first_of_pair (last_used (gpt_candidates 1 es))

unfoldable pub last_used_mbr : List MbrPartition → Option ℕ
unfolding last_used mbr_candidates
last_used_mbr ps = first_of_pair (last_used (mbr_candidates ps))

unfoldable pub resolve_part_in : PartitionTable → PartSelector → Result Fail ℕ
unfolding last_used_gpt last_used_mbr
resolve_part_in t (number n) = ok n
resolve_part_in (gpt es ss) last_one =
    ok_or (last_used_gpt es) (Fail.refused (plain "no partition to point :last at - no entry"))
resolve_part_in (mbr ps) last_one =
    ok_or (last_used_mbr ps) (Fail.refused (plain "no partition to point :last at - no primary"))

abbrev pub live_slot : ℕ → ℕ → Option GptPartitionEntry → Result Fail ℕ
live_slot part i none = err (Fail.refused (note "partition {} not found" (part ∷ [])))
live_slot part i (some e) =
    if e.ending_lba == 0
    then err (Fail.refused (note "partition {} is empty" (part ∷ [])))
    else ok i

-- Partition 0 has no index, so it is not found.
unfoldable pub live_index : List GptPartitionEntry → ℕ → Result Fail ℕ
live_index es zero = err (Fail.refused (note "partition {} not found" (0 ∷ [])))
live_index es (suc i) = live_slot (suc i) i (get_elem? es i)

-- `live_entry_in` and, on a geometry, `live_entry`
unfoldable pub live_entry_in : List GptPartitionEntry → ℕ → Result Fail GptPartitionEntry
unfolding live_index
live_entry_in es part = do
  i ← live_index es part
  ok_or (get_elem? es i) (Fail.refused (note "partition {} not found" (part ∷ [])))

unfoldable pub live_entry : ValidatedGeometry → ℕ → Result Fail GptPartitionEntry
live_entry g part = live_entry_in g.entries part

-- `support::lba_bytes` of a 32-bit LBA: the product fits a `u64`.
abbrev lba_bytes : ℕ → ℕ → ℕ
lba_bytes lba ss = lba * ss

abbrev overflow : ℕ → Fail
overflow part = Fail.infra (note "partition {} entry arithmetic overflows" (part ∷ []))

abbrev pub refuse_overlap : Option (ℕ × ℕ) → Result Fail (Unit {0})
refuse_overlap none = ok tt
refuse_overlap (some (a, b)) =
    err (Fail.refused (note "partition entries #{} and #{} overlap" (a ∷ b ∷ [])))

-- The first record with a number.
unfoldable pub find_record : List MbrPartition → ℕ → Option MbrPartition
find_record [] part = none
find_record (p ∷ ps) part = let rest = find_record ps part in if p.num == part then some p else rest

-- The checked arithmetic of the GPT arm.
unfoldable pub entry_bytes : GptPartitionEntry → ℕ → ℕ → Result Fail (ℕ × ℕ)
entry_bytes e ss part = do
  diff ← ok_or (checked_sub e.ending_lba e.starting_lba) (overflow part)
  len_lba ← ok_or (checked_add diff 1) (overflow part)
  off ← ok_or (checked_mul e.starting_lba ss) (overflow part)
  len ← ok_or (checked_mul len_lba ss) (overflow part)
  ok (off, len)

unfoldable pub partition_bytes_in : PartitionTable → ℕ → ℕ → Result Fail (ℕ × ℕ)
partition_bytes_in (gpt es ss) part container_ss = do
  e ← live_entry_in es part
  refuse_overlap (find_overlap es)
  entry_bytes e ss part
partition_bytes_in (mbr ps) part container_ss = do
  p ←
      ok_or (find_record ps part)
        (Fail.refused (note "partition {} not found (MBR covers primary slots 1..=4)" (part ∷ [])))
  refuse_if p.is_container (Fail.refused (note "partition {} is an extended container" (part ∷ [])))
  ok (lba_bytes p.start_lba container_ss, lba_bytes p.size_lba container_ss)
