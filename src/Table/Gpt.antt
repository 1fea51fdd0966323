-- ===== src/Table/Gpt.antt =====
-- src/table/gpt_parse.rs: the facts that parsing a GPT yields, and the checks on its geometry.
-- An entry is the record of the crate `gptman`, with the fields that the source reads and writes.
use disk_edit.Prelude.{
  ◌≡◌, arith, ℕ, suc, ◌+◌, ◌-◌, String, Bool, true, ◌||◌, ◌&&◌, List, [], ◌∷◌, ◌==◌, ltb, leb, not,
  if◌then◌else◌, Result, ok, err, ◌>>◌, ◌>>=◌, refuse_if, ok_or, checked_add,
}
use disk_edit.Table.EntryArray.{EntryArrayGeometry, lba_span}
use disk_edit.Table.Guid.{Guid, guid_eq, guid_eq_iff}
use text.Mathlib.Text.{◌==◌ as str_eq}
use text.Mathlib.TextEquality.{eq_iff}

pub record GptPartitionEntry : Type 0 where
  pub partition_type_guid : Guid
  pub unique_partition_guid : Guid
  pub starting_lba : ℕ  -- u64
  pub ending_lba : ℕ  -- u64
  pub attribute_bits : ℕ  -- u64
  pub partition_name : String

pub record RawHeader : Type 0 where
  pub revision : ℕ  -- u32
  pub primary_lba : ℕ  -- u64
  pub backup_lba : ℕ  -- u64
  pub first_usable_lba : ℕ  -- u64
  pub last_usable_lba : ℕ  -- u64
  pub disk_guid : Guid
  pub partition_entry_lba : ℕ  -- u64
  pub number_of_partition_entries : ℕ  -- u32
  pub size_of_partition_entry : ℕ  -- u32
  pub header_size : ℕ  -- u32

pub data HeaderIssue : Type 0 where
  backup_lba_stale : ℕ → ℕ → HeaderIssue
  primary_unreadable backup_unreadable : HeaderIssue

pub data GptState : Type 0 where
  valid : GptState
  needs_repair : HeaderIssue → GptState

pub data PmbrIssue : Type 0 where
  stale compat512 : PmbrIssue

pub data PmbrSize : Type 0 where
  normal : PmbrSize
  needs_repair : PmbrIssue → PmbrSize
  inconsistent : PmbrSize

pub record RawGpt : Type 0 where
  pub ss : ℕ  -- u64
  pub header : RawHeader
  pub entries : List GptPartitionEntry
  pub state : GptState
  pub pmbr : PmbrSize

pub data GptCopyKind : Type 0 where
  primary backup : GptCopyKind

-- `GptError`, as far as the checks below build it.
pub data GptError : Type 0 where
  invalid_header : String → GptError
  beyond_container : String → ℕ → ℕ → GptError
  invalid_entry : ℕ → ℕ → ℕ → GptError
  beyond_usable : ℕ → ℕ → ℕ → ℕ → ℕ → GptError

-- The `match view` of `validate_geometry`.
check_view : RawHeader → ℕ → ℕ → GptCopyKind → Result GptError (Unit {0})
check_view header array_end file_last_lba primary =
    refuse_if (ltb header.first_usable_lba array_end)
      (invalid_header "GPT entry array overlaps the usable range")
check_view header array_end file_last_lba backup = do
  refuse_if (leb header.partition_entry_lba header.last_usable_lba)
      (invalid_header "backup GPT entry array overlaps the usable range")
  refuse_if (ltb file_last_lba array_end)
      (invalid_header "backup GPT entry array beyond the backup header")

-- The subtraction below does not reach 0 once the checks before it have passed.
unfoldable pub validate_geometry :
    RawHeader → EntryArrayGeometry → ℕ → GptCopyKind → Result GptError GptState
unfolding check_view
validate_geometry header geom file_last_lba view = do
  refuse_if (not (header.primary_lba == 1)) (invalid_header "GPT primary_lba != 1")
  refuse_if (ltb header.last_usable_lba header.first_usable_lba)
      (invalid_header "first_usable_lba > last_usable_lba")
  refuse_if (ltb file_last_lba header.last_usable_lba)
      (beyond_container "last_usable_lba" header.last_usable_lba file_last_lba)
  refuse_if (ltb file_last_lba header.backup_lba)
      (beyond_container "backup_lba" header.backup_lba file_last_lba)
  refuse_if (ltb header.partition_entry_lba 2) (invalid_header "partition_entry_lba < 2")
  let span = lba_span geom
  array_end ←
      ok_or (checked_add header.partition_entry_lba span)
        (invalid_header "GPT entry array range overflow")
  refuse_if (ltb header.first_usable_lba (2 + span))
      (invalid_header "first_usable_lba leaves no room for the entry array")
  refuse_if (ltb (file_last_lba - span - 1) header.last_usable_lba)
      (invalid_header "last_usable_lba overlaps the backup GPT entry array")
  check_view header array_end file_last_lba view
  ok (
      if header.backup_lba == file_last_lba
      then GptState.valid
      else GptState.needs_repair (backup_lba_stale file_last_lba header.backup_lba))

-- An unused entry: both LBA fields are zero.
abbrev pub is_unused : GptPartitionEntry → Bool
is_unused e = e.starting_lba == 0 && e.ending_lba == 0

-- The loop of `validate_entries`, at the 1-based number of the next entry.
unfoldable pub validate_entries_from :
    ℕ → List GptPartitionEntry → RawHeader → Result GptError (Unit {0})
validate_entries_from index [] header = ok tt
validate_entries_from index (e ∷ es) header =
    let rest = validate_entries_from (suc index) es header in
    if is_unused e
    then rest
    else if ltb e.ending_lba e.starting_lba
    then err (invalid_entry index e.starting_lba e.ending_lba)
    else if ltb e.starting_lba header.first_usable_lba || ltb header.last_usable_lba e.ending_lba
    then err (
        beyond_usable index e.starting_lba e.ending_lba header.first_usable_lba
          header.last_usable_lba)
    else rest

unfoldable pub validate_entries : List GptPartitionEntry → RawHeader → Result GptError (Unit {0})
unfolding validate_entries_from
validate_entries es header = validate_entries_from 1 es header

-- `==` on entries.
unfoldable pub entry_eq : GptPartitionEntry → GptPartitionEntry → Bool
entry_eq a b =
    guid_eq a.partition_type_guid b.partition_type_guid
    && (guid_eq a.unique_partition_guid b.unique_partition_guid
        && (a.starting_lba == b.starting_lba
            && (a.ending_lba == b.ending_lba
                && (a.attribute_bits == b.attribute_bits
                    && str_eq a.partition_name b.partition_name))))

pub entry_eq_sound : (a b : GptPartitionEntry) → entry_eq a b ≡ true → a ≡ b
unfolding entry_eq
entry_eq_sound a b h = ground (
  arith,
  guid_eq_iff a.partition_type_guid b.partition_type_guid,
  guid_eq_iff a.unique_partition_guid b.unique_partition_guid,
  eq_iff a.partition_name b.partition_name,
)
