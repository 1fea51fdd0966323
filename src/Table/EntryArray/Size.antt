-- ===== src/Table/EntryArray/Size.antt =====
-- A constructed entry-array geometry has the sizes that the UEFI tables ask for.
use disk_edit.Prelude.{
  ℕ, zero, suc, ◌*◌, ◌+◌, ◌^◌, ◌≤◌, ◌<◌, ◌≡◌, ◌↔◌, true, some, ok, arith, ◌==◌, Bool-cases, inl,
  inr, ==_iff, div_ceil, ◌-◌,
}
use native.Mathlib.Nat.{div-add-mod, mod-lt}
use disk_edit.Table.EntryArray.{
  EntryArrayGeometry, entry_array_new, entry_size_ok, is_power_below, is_power_of_two, lba_span,
  byte_len, slot, max_array_bytes,
}

-- What the layers above may rely on.
pub record IsPlausible (g : EntryArrayGeometry) : Type 0 where
  pub sector_min : 512 ≤ g.sector_size
  pub some_entry : 0 < g.entry_count
  pub size_ok : entry_size_ok g.entry_size ≡ true
  pub bounded : g.entry_count * g.entry_size ≤ max_array_bytes

pub entry_array_new-IsPlausible :
    (ss es ec : ℕ) {g : EntryArrayGeometry}
    → entry_array_new ss es ec max_array_bytes ≡ ok g
    → IsPlausible g × (g.sector_size ≡ ss) × (g.entry_size ≡ es) × (g.entry_count ≡ ec)
unfolding entry_array_new
entry_array_new-IsPlausible ss es ec h = ground arith

pub is_power_below_sound : (k n : ℕ) → is_power_below k n ≡ true → (e : ℕ) × (e < k) × (n ≡ 2 ^ e)
unfolding is_power_below
is_power_below_sound zero n h = cc
is_power_below_sound (suc k) n h = elim (Bool-cases (n == 2 ^ k)) [
  | inl here ↦ (k, omega arith, (==_iff n (2 ^ k)).0 here)
  | inr there ↦ let (e, lt, eq) = is_power_below_sound k n (rw there at h) in (e, omega arith, eq)
]

div_ceil_tight : (a b : ℕ) → 0 < b → (a ≤ div_ceil a b * b) × (div_ceil a b * b < a + b)
div_ceil_tight a b h =
    let sum : ℕ = a + (b - 1) in
    (omega (arith, div-add-mod sum b, mod-lt sum h), omega (arith, div-add-mod sum b, mod-lt sum h))

-- A quotient by at least 512 of something below 16 MiB and a bit.
span_bound : (q b a : ℕ) → 512 ≤ b → a ≤ max_array_bytes → q * b < a + b → q ≤ 32768
span_bound q b a h k l = grind arith

quotient_pos : (q b a : ℕ) → 0 < a → a ≤ q * b → 0 < q
quotient_pos zero b a h k = omega arith
quotient_pos (suc q) b a h k = omega arith

pow_from_seven : (e : ℕ) → e < 32 → 128 ≤ 2 ^ e → 7 ≤ e
pow_from_seven zero h k = absurd (omega arith)
pow_from_seven (suc zero) h k = absurd (omega arith)
pow_from_seven (suc (suc zero)) h k = absurd (omega arith)
pow_from_seven (suc (suc (suc zero))) h k = absurd (omega arith)
pow_from_seven (suc (suc (suc (suc zero)))) h k = absurd (omega arith)
pow_from_seven (suc (suc (suc (suc (suc zero))))) h k = absurd (omega arith)
pow_from_seven (suc (suc (suc (suc (suc (suc zero)))))) h k = absurd (omega arith)
pow_from_seven (suc (suc (suc (suc (suc (suc (suc e))))))) h k = omega arith

entry_size_ok-ge : (n : ℕ) → entry_size_ok n ≡ true → 128 ≤ n
unfolding entry_size_ok
entry_size_ok-ge n h = ground arith

byte_len_pos : (g : EntryArrayGeometry) → IsPlausible g → 0 < byte_len g
unfolding byte_len
byte_len_pos g p =
    let size : 128 ≤ g.entry_size = entry_size_ok-ge g.entry_size p.size_ok in
    grind (arith, p.some_entry)

-- An accepted entry size is a power of two from 2^7 on, as the UEFI table asks.
entry_size_ok_sound : (n : ℕ) → entry_size_ok n ≡ true → (e : ℕ) × (7 ≤ e) × (e < 32) × (n ≡ 2 ^ e)
unfolding entry_size_ok is_power_of_two
entry_size_ok_sound n h =
    let (e, lt, eq) = is_power_below_sound 32 n (ground arith) in
    let large : 128 ≤ 2 ^ e = rw (← eq) (entry_size_ok-ge n h) in
    (e, pow_from_seven e lt large, lt, eq)

-- Partition numbers 1 .. entry_count are exactly those with a slot, and the slot is the number
-- less one.
slot_iff :
    (g : EntryArrayGeometry) (part i : ℕ)
    → (slot g part ≡ some i) ↔ ((part ≡ suc i) × (i < g.entry_count))
unfolding slot
slot_iff g part i = ground arith

-- The array needs `lba_span` whole sectors: one fewer would not hold it.
pub lba_span_tight :
    (g : EntryArrayGeometry)
    → IsPlausible g
    → (byte_len g ≤ lba_span g * g.sector_size)
      × (lba_span g * g.sector_size < byte_len g + g.sector_size)
      × (0 < lba_span g)
      × (lba_span g ≤ 32768)
unfolding lba_span byte_len
lba_span_tight g p =
    let (lo, hi) = div_ceil_tight (byte_len g) g.sector_size (omega (arith, p.sector_min)) in
    (
      lo,
      hi,
      quotient_pos (lba_span g) g.sector_size (byte_len g) (byte_len_pos g p) lo,
      span_bound _ g.sector_size (byte_len g) p.sector_min p.bounded hi,
    )
