-- ===== src/Tests/Movepart.antt =====
-- Runs of src/movepart on the test table.
use disk_edit.Prelude.{
  ℕ, ◌+◌, ◌-◌, ◌*◌, ◌≤◌, ◌<◌, ◌≡◌, refl, ◌⊎◌, [], ◌∷◌, some, ok, true, false, All, arith, length,
  take, if◌then◌else◌, ◌==◌,
}
use disk_edit.Table.Gpt.{GptPartitionEntry}
use disk_edit.Policy.{nothing, live_entry, live_entry_in, live_index}
use disk_edit.Movepart.Types.{PlanEntry, PlanKind, tail_packed, Plan}
use disk_edit.Movepart.Plan.{
  blockers_after, sorted_blockers, check_blockers, is_forbidden_type_guid, is_swap_guid, pack_tail,
  plan_of, plan_tail_packed, shift_start, shift_right, shift_plan_from, leftmost_from,
  grow_end_below, grow_end_for,
}
use disk_edit.Movepart.Plan.Safe.{IsSafe}
use disk_edit.Movepart.Plan.Tail.{plan_tail_packed-IsSafe}
use disk_edit.Movepart.Plan.GrowEnd.{shift_plan_from-IsSafe, shift_plan_from-lands}
use disk_edit.Movepart.Plan.Bounds.{grow_end_for-bounds}
use disk_edit.Memory.{Memory}
use disk_edit.Movepart.Layout.{
  relocation_overlaps, effective_chunk, chunk_count, move_chunk_layout, chunks_from_tail,
  copy_chunks, copy_chunk, copy_bytes,
}
use disk_edit.Movepart.Layout.Size.{move_chunk_layout_lem}
use disk_edit.Movepart.Layout.Copy.Resume.{copy_chunks-survives, redo_low}
use disk_edit.Prelude.{List, [], ◌∷◌}
use disk_edit.Movepart.Execute.{relocate_all, relocate_entry, move_entry, copy_entry}
use disk_edit.Movepart.Execute.Data.{Moved, Off, relocate_all-keeps}
use disk_edit.Tests.Data.{test_geometry, test_geometry-IsValid}

abbrev pub move_of : ℕ → ℕ → ℕ → ℕ → PlanEntry
move_of num first len delta = record {
  part_num = num;
  first_lba = first;
  len_lba = len;
  delta_lba = delta;
  is_swap = false;
}

abbrev pub packed : Plan
packed =
    plan_of test_geometry nothing 1 tail_packed (move_of 2 150 10 841 ∷ move_of 3 110 40 841 ∷ [])

packed-made : plan_tail_packed test_geometry nothing 1 ≡ ok packed
unfolding plan_tail_packed live_entry live_entry_in live_index blockers_after sorted_blockers
    check_blockers pack_tail is_forbidden_type_guid is_swap_guid
packed-made = refl

plan_tail_packed-IsSafe_example :
    (target : GptPartitionEntry) × (live_entry test_geometry 1 ≡ ok target)
    × (packed.last_usable_lba ≡ test_geometry.header.last_usable_lba)
    × IsSafe target.ending_lba packed.last_usable_lba packed.moves
plan_tail_packed-IsSafe_example =
    plan_tail_packed-IsSafe test_geometry nothing 1 packed test_geometry-IsValid packed-made

abbrev pub shifted : Plan
shifted =
    plan_of test_geometry nothing 1 PlanKind.shift (move_of 2 150 10 10 ∷ move_of 3 110 40 10 ∷ [])

shifted-made : shift_plan_from test_geometry nothing 1 20 ≡ ok shifted
unfolding shift_plan_from live_entry live_entry_in live_index blockers_after sorted_blockers
    check_blockers shift_start shift_right is_forbidden_type_guid is_swap_guid
shifted-made = refl

shift_plan_from-IsSafe_example :
    (target : GptPartitionEntry) × (live_entry test_geometry 1 ≡ ok target)
    × (shifted.last_usable_lba ≡ test_geometry.header.last_usable_lba)
    × IsSafe target.ending_lba shifted.last_usable_lba shifted.moves
shift_plan_from-IsSafe_example =
    shift_plan_from-IsSafe test_geometry nothing 1 20 shifted test_geometry-IsValid (omega arith)
      shifted-made

shift_plan_from-lands_example :
    (target : GptPartitionEntry) × (live_entry test_geometry 1 ≡ ok target)
    × ((start : ℕ)
        → start ≤ target.ending_lba
        → grow_end_for shifted start ≡ ok (target.ending_lba + 20))
shift_plan_from-lands_example =
    shift_plan_from-lands test_geometry nothing 1 20 shifted test_geometry-IsValid (omega arith)
      shifted-made

shifted-end : grow_end_for shifted 40 ≡ ok 119
unfolding grow_end_for leftmost_from grow_end_below
shifted-end = refl

grow_end_for-bounds_example :
    (40 ≤ 119) × (119 ≤ 1000) × All (λ m. 119 < m.first_lba + m.delta_lba) shifted.moves
grow_end_for-bounds_example = grow_end_for-bounds shifted 40 119 shifted-end

-- Three sectors of four bytes move by one sector, in chunks of at most ten bytes.
layout : move_chunk_layout 3 4 1 3 10 ≡ some (4, 3)
unfolding move_chunk_layout effective_chunk relocation_overlaps chunk_count
layout = refl

move_chunk_layout_lem_example :
    (1 ≤ 4)
    × (4 ≤ 10)
    × (length (chunks_from_tail (3 * 4) 4 (3 * 4)) ≡ 3)
    × (relocation_overlaps 1 3 ≡ true → 4 ≤ 1 * 4)
move_chunk_layout_lem_example = move_chunk_layout_lem 3 4 1 3 10 4 3 layout

abbrev before : Memory
before x = x

-- One chunk has arrived, the next one was cut short.
abbrev after_one : Memory
after_one x = copy_bytes 16 20 4 before x

abbrev cut_short : Memory
cut_short x = if x == 17 then 99 else after_one x

one_chunk : copy_chunks 8 12 0 0 (take 1 (chunks_from_tail 12 4 12)) before ≡ ok after_one
unfolding copy_chunks chunks_from_tail copy_chunk
one_chunk = refl

cut_short-outside :
    (x : ℕ)
    → (x < 12 + redo_low (relocation_overlaps 1 3) 12 4 1) ⊎ (12 + (12 - 1 * 4) ≤ x)
    → cut_short x ≡ after_one x
unfolding relocation_overlaps copy_bytes
cut_short-outside x h = ground arith

copy_chunks-survives_example :
    (end : Memory) × (copy_chunks 8 12 1 0 (chunks_from_tail 12 4 12) cut_short ≡ ok end)
    × ((i : ℕ) → i < 12 → end (12 + i) ≡ before (8 + i))
    × ((x : ℕ) → (x < 12) ⊎ (24 ≤ x) → end x ≡ before x)
copy_chunks-survives_example =
    copy_chunks-survives 2 3 1 4 10 4 3 1 before after_one cut_short (omega arith) (omega arith)
      layout one_chunk cut_short-outside

-- Two partitions of one byte each.
abbrev two_moves : List PlanEntry
two_moves = move_of 3 4 1 2 ∷ move_of 2 2 1 2 ∷ []

abbrev no_mkswap : PlanEntry → Memory → Memory
no_mkswap m mem = mem

abbrev after_moves : Memory
after_moves x = copy_bytes 2 4 1 (copy_bytes 4 6 1 before) x

two_moves-IsSafe : IsSafe 1 9 two_moves
two_moves-IsSafe = (
  ((omega arith, omega arith, omega arith), ((omega arith, omega arith, omega arith), tt)),
  (((omega arith, omega arith), tt), (tt, tt)),
)

moved_twice : relocate_all no_mkswap 1 10 two_moves before ≡ ok after_moves
unfolding relocate_all relocate_entry move_entry copy_entry move_chunk_layout effective_chunk
    relocation_overlaps chunk_count chunks_from_tail copy_chunks copy_chunk
moved_twice = refl

relocate_all-keeps_example :
    All (Moved 1 before after_moves) two_moves
    × ((x : ℕ) → All (Off 1 x) two_moves → after_moves x ≡ before x)
relocate_all-keeps_example =
    relocate_all-keeps no_mkswap 1 10 (λ m mem x off. refl) 1 9 two_moves before after_moves
      two_moves-IsSafe (omega arith) moved_twice
