-- ===== src/Geometry/Overlap.antt =====
-- `find_overlap` of src/geometry.rs: sorting and comparing neighbours finds every overlap.
pub mod Report
use disk_edit.Prelude.{
  Option, ℕ, suc, ◌+◌, ◌≤◌, ◌<◌, ◌≡◌, ◌≢◌, refl, ◌⊎◌, inl, inr, true, false, none, some, List, [],
  ◌∷◌, arith, leb, Bool-cases, All, Pairs, get_elem?, sym,
}
use disk_edit.Table.Gpt.{GptPartitionEntry, is_unused}
use disk_edit.Geometry.{
  Span, key_le, defined_from, sort_by_key, first_overlap, find_overlap, intersects,
}
use disk_edit.Prelude.Sort

abbrev pub IsRising : List Span → Type 0
IsRising xs = Pairs (λ x y. x.start ≤ y.start) xs

pub sort_by_key-IsRising : (xs : List Span) → IsRising (sort_by_key xs)
unfolding sort_by_key
sort_by_key-IsRising xs =
    Sort.sort_by-rises key_le (λ x. x.start) (λ x y h. ground arith) (λ x y h. ground arith) xs

-- Two spans share no LBA.
abbrev pub Apart : Span → Span → Type 0
Apart a b = (a.end < b.start) ⊎ (b.end < a.start)

abbrev pub IsProper : Span → Type 0
IsProper s = s.start ≤ s.end

All-after :
    (x y : Span) (ys : List Span)
    → x.end < y.start
    → All (λ z. y.start ≤ z.start) ys
    → All (Apart x) ys
All-after x y [] h a = tt
All-after x y (z ∷ zs) h a = (inl (omega arith), All-after x y zs h a.1)

-- No overlap between neighbours of a rising list of proper spans: no overlap at all.
first_overlap-none :
    (xs : List Span) → IsRising xs → All IsProper xs → first_overlap xs ≡ none → Pairs Apart xs
unfolding first_overlap
first_overlap-none [] r p h = tt
first_overlap-none (x ∷ []) r p h = (tt, tt)
first_overlap-none (x ∷ y ∷ ys) r p h = elim (Bool-cases (leb y.start x.end)) [
  | inl touch ↦ absurd (cc (rw touch at h))
  | inr clear ↦
      let gap : x.end < y.start = ground arith in
      ((inl gap, All-after x y ys gap r.1.0), first_overlap-none (y ∷ ys) r.1 p.1 (rw clear at h))
]

-- Two entries with a defined range each do not intersect.
abbrev pub Clear : GptPartitionEntry → GptPartitionEntry → Type 0
Clear a b = is_unused a ≡ false → is_unused b ≡ false → intersects a b ≡ false

-- A defined entry does not end before it starts.
abbrev pub IsOrdered : GptPartitionEntry → Type 0
IsOrdered e = is_unused e ≡ false → e.starting_lba ≤ e.ending_lba

abbrev span_of : ℕ → GptPartitionEntry → Span
span_of num e = record { start = e.starting_lba; end = e.ending_lba; num = num }

pub defined_from-cons :
    (n : ℕ) (e : GptPartitionEntry) (es : List GptPartitionEntry)
    → ((is_unused e ≡ true) × (defined_from n (e ∷ es) ≡ defined_from (suc n) es))
      ⊎ ((is_unused e ≡ false) × (defined_from n (e ∷ es) ≡ span_of n e ∷ defined_from (suc n) es))
unfolding defined_from
defined_from-cons n e es = elim (Bool-cases (is_unused e)) [
  | inl unused ↦ inl (unused, rw unused)
  | inr used ↦ inr (used, rw used)
]

pub defined_from-IsProper :
    (n : ℕ) (es : List GptPartitionEntry) → All IsOrdered es → All IsProper (defined_from n es)
defined_from-IsProper n [] h = unfold defined_from in tt
defined_from-IsProper n (e ∷ es) h = elim (defined_from-cons n e es) [
  | inl (_, eq) ↦ rw eq (defined_from-IsProper (suc n) es h.1)
  | inr (used, eq) ↦ rw eq (h.0 used, defined_from-IsProper (suc n) es h.1)
]

Apart-Clear :
    (n : ℕ) (a : GptPartitionEntry) (es : List GptPartitionEntry) (m : ℕ)
    → All (Apart (span_of m a)) (defined_from n es)
    → All (Clear a) es
Apart-Clear n a [] m h = tt
Apart-Clear n a (e ∷ es) m h = elim (defined_from-cons n e es) [
  | inl (unused, eq) ↦ (λ ua ue. cc, Apart-Clear (suc n) a es m (rw eq at h))
  | inr (used, eq) ↦
      let h' : Apart (span_of m a) (span_of n e)
          × All (Apart (span_of m a)) (defined_from (suc n) es) =
        rw eq at h in
      (λ ua ue. ground (arith, h'.0), Apart-Clear (suc n) a es m h'.1)
]

All-unused-Clear :
    (a : GptPartitionEntry) (es : List GptPartitionEntry) → is_unused a ≡ true → All (Clear a) es
All-unused-Clear a [] h = tt
All-unused-Clear a (e ∷ es) h = (λ ua ue. cc, All-unused-Clear a es h)

Pairs-Clear :
    (n : ℕ) (es : List GptPartitionEntry) → Pairs Apart (defined_from n es) → Pairs Clear es
Pairs-Clear n [] h = tt
Pairs-Clear n (e ∷ es) h = elim (defined_from-cons n e es) [
  | inl (unused, eq) ↦ (All-unused-Clear e es unused, Pairs-Clear (suc n) es (rw eq at h))
  | inr (used, eq) ↦
      let h' : Pairs Apart (span_of n e ∷ defined_from (suc n) es) = rw eq at h in
      (Apart-Clear (suc n) e es n h'.0, Pairs-Clear (suc n) es h'.1)
]

Apart-flip : (x y : Span) → Apart x y → Apart y x
Apart-flip x y (inl h) = inr h
Apart-flip x y (inr h) = inl h

-- When no overlap is reported, no two defined entries of the table intersect, wherever they stand.
pub find_overlap-none :
    (es : List GptPartitionEntry) → All IsOrdered es → find_overlap es ≡ none → Pairs Clear es
unfolding find_overlap sort_by_key
find_overlap-none es h e =
    let spans : List Span = defined_from 1 es in
    Pairs-Clear 1 es (
      Sort.Pairs-unsort key_le Apart Apart-flip spans (
        first_overlap-none (sort_by_key spans) (sort_by_key-IsRising spans)
          (Sort.All-sort key_le IsProper spans (defined_from-IsProper 1 es h)) e))
