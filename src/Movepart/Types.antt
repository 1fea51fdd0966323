-- ===== src/Movepart/Types.antt =====
-- The data of src/movepart/plan.rs: a plan and its entries.
use disk_edit.Prelude.{ℕ, Bool, List}
use disk_edit.Policy.{RepairAction}

pub record PlanEntry : Type 0 where
  pub part_num : ℕ
  pub first_lba : ℕ
  pub len_lba : ℕ
  pub delta_lba : ℕ
  pub is_swap : Bool

pub data PlanKind : Type 0 where
  tail_packed : PlanKind
  shift : PlanKind

pub record Plan : Type 0 where
  pub ss : ℕ
  pub last_usable_lba : ℕ
  pub grow_part : ℕ
  pub moves : List PlanEntry
  pub kind : PlanKind
  pub repair : RepairAction
