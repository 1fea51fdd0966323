-- ===== src/Table/EntryArray.antt =====
-- src/table/entry_array.rs: how large a GPT entry array is.
pub mod Size
use disk_edit.Prelude.{
  ℕ, zero, suc, ◌*◌, ◌-◌, ◌/◌, ◌+◌, ◌^◌, Bool, false, Option, none, some, ◌||◌, ◌&&◌, not, ltb, leb,
  ◌==◌, if◌then◌else◌, Result, ok, err, ◌>>◌, ◌>>=◌, refuse_if, checked_sub, div_ceil, [], ◌∷◌,
}
use disk_edit.Outcome.{Message, plain, note}

abbrev pub max_array_bytes : ℕ
max_array_bytes = 16 * 1024 * 1024

abbrev pub default_entry_count : ℕ
default_entry_count = 128

abbrev pub default_entry_size : ℕ
default_entry_size = 128

-- `u32::is_power_of_two`: one of 2^0 .. 2^(k - 1).
unfoldable pub is_power_below : ℕ → ℕ → Bool
is_power_below zero n = false
is_power_below (suc k) n = n == 2 ^ k || is_power_below k n

unfoldable pub is_power_of_two : ℕ → Bool
unfolding is_power_below
is_power_of_two n = is_power_below 32 n

unfoldable pub entry_size_ok : ℕ → Bool
unfolding is_power_of_two
entry_size_ok entry_size = leb 128 entry_size && is_power_of_two entry_size

pub record EntryArrayGeometry : Type 0 where
  pub sector_size : ℕ  -- u64
  pub entry_size : ℕ  -- u32
  pub entry_count : ℕ  -- u32

-- `EntryArrayGeometry::new`. A product of two `u32` fits a `u64`.
unfoldable pub entry_array_new : ℕ → ℕ → ℕ → ℕ → Result Message EntryArrayGeometry
entry_array_new sector_size entry_size entry_count limit = do
  refuse_if (ltb sector_size 512)
      (note "GPT entry geometry: sector size {} is below the 512-byte minimum" (sector_size ∷ []))
  refuse_if (entry_count == 0 || not (entry_size_ok entry_size))
      (plain "implausible GPT entry geometry")
  let bytes = entry_count * entry_size
  refuse_if (ltb limit bytes) (
      note "implausible GPT entry geometry: {} x {} B = {} bytes exceeds the {}-byte safety limit"
        (entry_count ∷ entry_size ∷ bytes ∷ limit ∷ []))
  ok (record { sector_size = sector_size; entry_size = entry_size; entry_count = entry_count })

unfoldable pub byte_len : EntryArrayGeometry → ℕ
byte_len g = g.entry_count * g.entry_size

unfoldable pub lba_span : EntryArrayGeometry → ℕ
unfolding byte_len
lba_span g = div_ceil (byte_len g) g.sector_size

-- `EntryArrayGeometry::slot`: a 1-based partition number as an index.
unfoldable pub slot : EntryArrayGeometry → ℕ → Option ℕ
slot g part = elim (checked_sub part 1) [
  | none ↦ none
  | some idx ↦ if ltb idx g.entry_count then some idx else none
]
