-- ===== src/Policy/Bytes.antt =====
-- `partition_bytes_in` of src/gpt_policy.rs: the bytes that a command writes to.
use disk_edit.Prelude.{
  ℕ, suc, ◌+◌, ◌-◌, ◌*◌, ◌≤◌, ◌<◌, ◌≡◌, ◌≢◌, refl, ◌⊎◌, inl, inr, false, Option, none, some, List,
  ok, arith, >>=-eq_ok, All, Pairs-get_elem?, get_elem?, ok_or,
}
use native.Mathlib.Nat.{mul-le-mul_right, add-mul}
use disk_edit.Table.Gpt.{GptPartitionEntry, is_unused}
use disk_edit.Geometry.{find_overlap}
use disk_edit.Geometry.Overlap.{Clear, IsOrdered, find_overlap-none}
use disk_edit.Policy.{
  gpt, live_index, live_entry_in, refuse_overlap, entry_bytes, partition_bytes_in,
}
use disk_edit.Policy.Lookup.{live_index_iff}

ok_or-eq_ok {ℓ μ} :
    {E : Type μ} {A : Type ℓ} (o : Option A) (e : E) {a : A} → ok_or o e ≡ ok a → o ≡ some a
ok_or-eq_ok none e h = cc
ok_or-eq_ok (some a) e h = cc

-- An entry that was found stands in the slot of its number.
live_entry_in_sound :
    (es : List GptPartitionEntry) (part : ℕ) (e : GptPartitionEntry)
    → live_entry_in es part ≡ ok e
    → (i : ℕ) × (part ≡ suc i) × (get_elem? es i ≡ some e) × (e.ending_lba ≢ 0)
unfolding live_entry_in
live_entry_in_sound es part e h =
    let (i, found, h₁) = >>=-eq_ok (live_index es part) _ h in
    let (num, (x, at, nz)) = (live_index_iff es part i).0 found in
    let read : get_elem? es i ≡ some e = ok_or-eq_ok (get_elem? es i) _ h₁ in
    let same : some x ≡ some e = cc (at, read) in
    let same' : x ≡ e = cc same in (i, num, read, rw same' at nz)

entry_bytes-eq_ok :
    (e : GptPartitionEntry) (ss part off len : ℕ)
    → entry_bytes e ss part ≡ ok (off, len)
    → (e.starting_lba ≤ e.ending_lba)
      × (off ≡ e.starting_lba * ss)
      × (len ≡ (e.ending_lba - e.starting_lba + 1) * ss)
unfolding entry_bytes
entry_bytes-eq_ok e ss part off len h = ground arith

refuse_overlap-eq_ok : (o : Option (ℕ × ℕ)) → refuse_overlap o ≡ ok tt → o ≡ none
refuse_overlap-eq_ok none h = refl
refuse_overlap-eq_ok (some c) h = cc

record Found (es : List GptPartitionEntry) (ss part off len : ℕ) : Type 0 where
  index : ℕ
  entry : GptPartitionEntry
  number : part ≡ suc index
  at : get_elem? es index ≡ some entry
  used : entry.ending_lba ≢ 0
  apart : find_overlap es ≡ none
  forward : entry.starting_lba ≤ entry.ending_lba
  first_byte : off ≡ entry.starting_lba * ss
  bytes : len ≡ (entry.ending_lba - entry.starting_lba + 1) * ss

partition_bytes_in-Found :
    (es : List GptPartitionEntry) (ss part container_ss off len : ℕ)
    → partition_bytes_in (gpt es ss) part container_ss ≡ ok (off, len)
    → Found es ss part off len
unfolding partition_bytes_in
partition_bytes_in-Found es ss part container_ss off len h =
    let (e, found, h₁) = >>=-eq_ok (live_entry_in es part) _ h in
    let (_, clear, h₂) = >>=-eq_ok (refuse_overlap (find_overlap es)) _ h₁ in
    let (i, num, at, nz) = live_entry_in_sound es part e found in
    let (forward, off-is, len-is) = entry_bytes-eq_ok e ss part off len h₂ in
    record {
      index = i;
      entry = e;
      number = num;
      at = at;
      used = nz;
      apart = refuse_overlap-eq_ok (find_overlap es) clear;
      forward = forward;
      first_byte = off-is;
      bytes = len-is;
    }

ends_before : (s e s' ss : ℕ) → s ≤ e → e < s' → s * ss + (e - s + 1) * ss ≤ s' * ss
ends_before s e s' ss h l =
    let whole : (s + (e - s + 1)) * ss ≤ s' * ss = mul-le-mul_right ss (omega arith) in
    rw (add-mul s (e - s + 1) ss) at whole

used-defined : (e : GptPartitionEntry) → e.ending_lba ≢ 0 → is_unused e ≡ false
used-defined e h = ground arith

Clear-parts :
    (a b : GptPartitionEntry)
    → a.ending_lba ≢ 0
    → b.ending_lba ≢ 0
    → Clear a b
    → (a.ending_lba < b.starting_lba) ⊎ (b.ending_lba < a.starting_lba)
Clear-parts a b ua ub clear =
    let apart = clear (used-defined a ua) (used-defined b ub) in ground (arith, apart)

Found-apart :
    (es : List GptPartitionEntry) (ss p q o l o' l' : ℕ) (x : Found es ss p o l)
    (y : Found es ss q o' l')
    → ((x.entry).ending_lba < (y.entry).starting_lba)
      ⊎ ((y.entry).ending_lba < (x.entry).starting_lba)
    → (o + l ≤ o') ⊎ (o' + l' ≤ o)
Found-apart es ss p q o l o' l' x y (inl before) =
    let step =
      ends_before (x.entry).starting_lba (x.entry).ending_lba (y.entry).starting_lba ss (x.forward)
        before in
    inl (rw (x.first_byte, x.bytes, y.first_byte) step)
Found-apart es ss p q o l o' l' x y (inr before) =
    let step =
      ends_before (y.entry).starting_lba (y.entry).ending_lba (x.entry).starting_lba ss (y.forward)
        before in
    inr (rw (y.first_byte, y.bytes, x.first_byte) step)

-- Two partition numbers that differ never give byte ranges that share a byte, in a table whose
-- entries are not inverted.
pub partition_bytes_in-disjoint :
    (es : List GptPartitionEntry) (ss p q container_ss o l o' l' : ℕ)
    → All IsOrdered es
    → p ≢ q
    → partition_bytes_in (gpt es ss) p container_ss ≡ ok (o, l)
    → partition_bytes_in (gpt es ss) q container_ss ≡ ok (o', l')
    → (o + l ≤ o') ⊎ (o' + l' ≤ o)
partition_bytes_in-disjoint es ss p q container_ss o l o' l' ordered ne hp hq =
    let x = partition_bytes_in-Found es ss p container_ss o l hp in
    let y = partition_bytes_in-Found es ss q container_ss o' l' hq in
    let clear = find_overlap-none es ordered (x.apart) in
    let turn : (x.index < y.index) ⊎ (y.index < x.index) = omega (arith, ne, x.number, y.number) in
    elim turn [
      | inl below ↦ Found-apart es ss p q o l o' l' x y (
          Clear-parts x.entry y.entry (x.used) (y.used)
            (Pairs-get_elem? Clear es x.index y.index clear below (x.at) (y.at)))
      | inr above ↦ Found-apart es ss p q o l o' l' x y (
          swap (
            Clear-parts y.entry x.entry (y.used) (x.used)
              (Pairs-get_elem? Clear es y.index x.index clear above (y.at) (x.at))))
    ]
  where
    swap : {P Q : Type 0} → P ⊎ Q → Q ⊎ P
    swap (inl p) = inr p
    swap (inr q) = inl q
