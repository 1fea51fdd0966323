-- ===== src/Movepart/Plan.antt =====
-- src/movepart/plan.rs: which partitions move, and to where. The LBAs are `u64`; a difference that
-- the code takes without a check is one that its guards keep from going below 0.
pub mod Blockers
pub mod Safe
pub mod Tail
pub mod Shift
pub mod GrowEnd
pub mod Bounds
use disk_edit.Prelude.{
  ℕ, zero, suc, ◌+◌, ◌-◌, ◌*◌, min, max, Bool, true, false, not, ◌||◌, ◌&&◌, Option, none, some,
  List, [], ◌∷◌, ◌++◌, ltb, leb, ◌==◌, if◌then◌else◌, any, Result, ok, err, ◌>>◌, ◌>>=◌, refuse_if,
  ok_or, map_err, checked_sub, checked_add, saturating_add, saturating_sub, reverse,
}
use disk_edit.Prelude.Sort
use disk_edit.Outcome.{Message, plain, note, Fail}
use disk_edit.Table.Guid.{
  Guid, guid_eq, luks_type_guid, lvm_type_guid, swap_type_guid, guid_in_field_order,
}
use disk_edit.Table.Gpt.{GptPartitionEntry}
use disk_edit.Geometry.{ValidatedGeometry}
use disk_edit.Policy.{RepairAction, live_entry}
use disk_edit.Movepart.Types.{PlanEntry, PlanKind, tail_packed, Plan}

unfoldable pub chunk_bytes : ℕ → Result Message ℕ
chunk_bytes mib =
    if leb 1 mib && leb mib 1024
    then ok (mib * 1024 * 1024)
    else err (plain "--chunk-size out of range (1..=1024 MiB)")

unfoldable pub is_forbidden_type_guid : Guid → Bool
unfolding guid_eq guid_in_field_order
is_forbidden_type_guid g =
    any (λ known. guid_eq g known || guid_eq g (guid_in_field_order known))
      (luks_type_guid ∷ lvm_type_guid ∷ [])

unfoldable pub is_swap_guid : Guid → Bool
unfolding guid_eq guid_in_field_order
is_swap_guid g = guid_eq g swap_type_guid || guid_eq g (guid_in_field_order swap_type_guid)

-- An entry to move, with its partition number.
abbrev pub Blocker : Type 0
Blocker = ℕ × GptPartitionEntry

-- `enumerate().filter().map()`, at the number of the next entry.
unfoldable pub movable_from : ℕ → ℕ → List GptPartitionEntry → List Blocker
movable_from target_end num [] = []
movable_from target_end num (e ∷ es) =
    let rest = movable_from target_end (suc num) es in
    if not (e.ending_lba == 0) && ltb target_end e.starting_lba then (num, e) ∷ rest else rest

abbrev pub starts_le : Blocker → Blocker → Bool
starts_le a b = leb a.1.starting_lba b.1.starting_lba

-- The loop that refuses a blocker.
unfoldable pub check_blockers : List Blocker → Result Fail (Unit {0})
check_blockers [] = ok tt
check_blockers ((num, e) ∷ rest) = do
  refuse_if (ltb e.ending_lba e.starting_lba) (
      Fail.infra
        (note "partition {} has ending LBA below starting LBA (corrupted table)" (num ∷ [])))
  refuse_if (is_forbidden_type_guid e.partition_type_guid)
      (Fail.refused (note "partition {} is LUKS/LVM PV - relocation refused" (num ∷ [])))
  check_blockers rest

unfoldable pub sorted_blockers : List GptPartitionEntry → ℕ → List Blocker
unfolding movable_from Sort.sort_by
sorted_blockers es target_end = Sort.sort_by starts_le (movable_from target_end 1 es)

unfoldable pub blockers_after : ValidatedGeometry → ℕ → Result Fail (List Blocker)
blockers_after g target_end = do
  check_blockers (sorted_blockers g.entries target_end)
  ok (sorted_blockers g.entries target_end)

abbrev pub entry_len : GptPartitionEntry → ℕ
entry_len e = e.ending_lba - e.starting_lba + 1

-- The entry of the plan for a blocker that moves to `new_first`.
abbrev pub planned : Blocker → ℕ → PlanEntry
planned (num, e) new_first = record {
  part_num = num;
  first_lba = e.starting_lba;
  len_lba = entry_len e;
  delta_lba = new_first - e.starting_lba;
  is_swap = is_swap_guid e.partition_type_guid;
}

no_tail_space : Fail
no_tail_space = Fail.refused (plain "insufficient tail space for relocation")

-- The loop of `plan_tail_packed` over the blockers, the last one first.
unfoldable pub pack_tail : ℕ → List Blocker → Result Fail (List PlanEntry)
unfolding no_tail_space
pack_tail cursor [] = ok []
pack_tail cursor (b ∷ rest) = do
  new_first ← ok_or (checked_sub cursor (entry_len b.1 - 1)) no_tail_space
  _ ← ok_or (checked_sub new_first b.1.starting_lba) no_tail_space
  later ← pack_tail (saturating_sub new_first 1) rest
  ok (planned b new_first ∷ later)

abbrev pub plan_of : ValidatedGeometry → RepairAction → ℕ → PlanKind → List PlanEntry → Plan
plan_of g repair grow_part kind moves = record {
  ss = g.ss;
  last_usable_lba = g.header.last_usable_lba;
  grow_part = grow_part;
  moves = moves;
  kind = kind;
  repair = repair;
}

unfoldable pub plan_tail_packed : ValidatedGeometry → RepairAction → ℕ → Result Fail Plan
plan_tail_packed g repair grow_part = do
  target ← live_entry g grow_part
  movable ← blockers_after g target.ending_lba
  moves ← pack_tail g.header.last_usable_lba (reverse movable)
  ok (plan_of g repair grow_part tail_packed moves)

abbrev lba_overflow : Fail
lba_overflow = Fail.refused (plain "relocation target LBA overflows - refusing")

-- The loop of `shift_plan_from` over the blockers, the first one first.
unfoldable pub shift_right : ℕ → ℕ → List Blocker → Result Fail (List PlanEntry)
shift_right last_usable cursor [] = ok []
shift_right last_usable cursor (b ∷ rest) = do
  new_end ← ok_or (checked_add (max cursor b.1.starting_lba) (entry_len b.1 - 1)) lba_overflow
  refuse_if (ltb last_usable new_end)
      (Fail.refused (plain "insufficient tail space to relocate blockers by the requested size"))
  later ← shift_right last_usable (saturating_add new_end 1) rest
  ok (planned b (max cursor b.1.starting_lba) ∷ later)

-- The refusals of `shift_plan_from` on the blockers, and where the first one goes.
unfoldable pub shift_start : ℕ → ℕ → List Blocker → Result Fail ℕ
shift_start target_end shift [] =
    err (Fail.refused (plain "no partition to relocate (right side is free)"))
shift_start target_end shift (b ∷ _) = do
  refuse_if (ltb shift (b.1.starting_lba - target_end))
      (Fail.refused (plain "shift does not exceed the free gap before the first blocker"))
  end ← ok_or (checked_add target_end shift) lba_overflow
  ok_or (checked_add end 1) lba_overflow

unfoldable pub shift_plan_from : ValidatedGeometry → RepairAction → ℕ → ℕ → Result Fail Plan
shift_plan_from g repair grow_part shift = do
  target ← live_entry g grow_part
  refuse_if (shift == 0) (Fail.refused (plain "shift must be positive"))
  movable ← blockers_after g target.ending_lba
  cursor ← shift_start target.ending_lba shift movable
  moves ← shift_right g.header.last_usable_lba cursor movable
  ok (plan_of g repair grow_part PlanKind.shift (reverse moves))

-- The least of the new starts, on top of the one found so far.
unfoldable pub leftmost_from : Option ℕ → List PlanEntry → Result Message (Option ℕ)
leftmost_from acc [] = ok acc
leftmost_from acc (m ∷ ms) = do
  new_first ←
      ok_or (checked_add m.first_lba m.delta_lba)
        (plain "relocation target LBA overflows - refusing")
  leftmost_from (some (elim acc [ none ↦ new_first | some f ↦ min f new_first ])) ms

unfoldable pub grow_end_below : ℕ → Option ℕ → Result Message ℕ
grow_end_below last_usable none = ok last_usable
grow_end_below last_usable (some f) =
    ok_or (checked_sub f 1) (plain "relocation target below LBA 1 - refusing")

unfoldable pub grow_end_for : Plan → ℕ → Result Message ℕ
grow_end_for plan target_start = do
  leftmost ← leftmost_from none plan.moves
  grow_end ← grow_end_below plan.last_usable_lba leftmost
  refuse_if (ltb plan.last_usable_lba grow_end)
      (plain "relocation target beyond last usable LBA - refusing")
  refuse_if (ltb grow_end target_start) (plain "grow target below its own start - refusing")
  ok grow_end
