-- ===== src/Prelude/Words.antt =====
-- `u64` and `u32` arithmetic of the Rust source. Values are plain numbers; the checked operations
-- answer `none` where Rust's do, and the plain ones wrap, as in a release build.
use Prim.Native.Nat.{ℕ, ◌+◌, ◌-◌, ◌*◌, ◌/◌, ◌%◌}
use mathlib.Core.Option.{Option, none, some}
use disk_edit.Prelude.Tests.{ltb, leb, if◌then◌else◌}

abbrev pub u64_mod : ℕ
u64_mod = 0x1_0000_0000_0000_0000

abbrev pub u32_mod : ℕ
u32_mod = 0x1_0000_0000

abbrev pub checked_add : ℕ → ℕ → Option ℕ
checked_add a b = if ltb (a + b) u64_mod then some (a + b) else none

abbrev pub checked_sub : ℕ → ℕ → Option ℕ
checked_sub a b = if leb b a then some (a - b) else none

abbrev pub checked_mul : ℕ → ℕ → Option ℕ
checked_mul a b = if ltb (a * b) u64_mod then some (a * b) else none

abbrev pub saturating_add : ℕ → ℕ → ℕ
saturating_add a b = if ltb (a + b) u64_mod then a + b else u64_mod - 1

abbrev pub saturating_mul : ℕ → ℕ → ℕ
saturating_mul a b = if ltb (a * b) u64_mod then a * b else u64_mod - 1

-- On ℕ subtraction stops at 0, as `saturating_sub` does.
abbrev pub saturating_sub : ℕ → ℕ → ℕ
saturating_sub a b = a - b

-- The plain `a + b` and `a - b` on `u64`.
abbrev pub wrapping_add : ℕ → ℕ → ℕ
wrapping_add a b = (a + b) % u64_mod

abbrev pub wrapping_sub : ℕ → ℕ → ℕ
wrapping_sub a b = (a + u64_mod - b) % u64_mod

abbrev pub div_ceil : ℕ → ℕ → ℕ
div_ceil a b = (a + (b - 1)) / b
