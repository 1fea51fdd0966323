-- ===== src/Movepart/Plan/Safe.antt =====
-- What makes the moves of a plan safe to carry out one after another.
use disk_edit.Prelude.{ℕ, ◌+◌, ◌≤◌, ◌<◌, List, All, Pairs}
use disk_edit.Movepart.Types.{PlanEntry}

-- The source lies behind the target, and the destination ends inside the usable area.
abbrev pub IsPlaced : ℕ → ℕ → PlanEntry → Type 0
IsPlaced target_end last m =
    (target_end < m.first_lba)
    × (1 ≤ m.len_lba)
    × (m.first_lba + m.delta_lba + m.len_lba ≤ last + 1)

-- A later move has its source before that of an earlier one, and so before its destination, and
-- its destination before that of the earlier one.
abbrev pub Follows : PlanEntry → PlanEntry → Type 0
Follows m later =
    (later.first_lba + later.len_lba ≤ m.first_lba)
    × (later.first_lba + later.delta_lba + later.len_lba ≤ m.first_lba + m.delta_lba)

abbrev pub IsSafe : ℕ → ℕ → List PlanEntry → Type 0
IsSafe target_end last moves = All (IsPlaced target_end last) moves × Pairs Follows moves
