-- ===== src/Geometry/Overlap/Report.antt =====
-- What the report of `find_overlap` of src/geometry.rs says.
use disk_edit.Prelude.{
  Option, ℕ, suc, ◌+◌, ◌≤◌, ◌<◌, ◌≡◌, ◌≢◌, refl, inl, inr, true, false, some, List, [], ◌∷◌, arith,
  leb, Bool-cases, All, Pairs, get_elem?, sym,
}
use disk_edit.Table.Gpt.{GptPartitionEntry, is_unused}
use disk_edit.Geometry.{
  Span, key_le, defined_from, sort_by_key, first_overlap, find_overlap, intersects,
}
use disk_edit.Prelude.Sort
use disk_edit.Geometry.Overlap.{
  IsRising, sort_by_key-IsRising, IsProper, IsOrdered, defined_from-cons, defined_from-IsProper,
}

-- A reported pair consists of two members that overlap.
abbrev Reported {κ} : (Span → Type κ) → (ℕ × ℕ) → Type κ
Reported P (a, b) =
    (x : Span) × (y : Span) × P x
    × P y
    × (x.num ≡ a)
    × (y.num ≡ b)
    × (x.num ≢ y.num)
    × (x.start ≤ y.end)
    × (y.start ≤ x.end)

first_overlap-some {κ} :
    (P : Span → Type κ) (xs : List Span) (r : ℕ × ℕ)
    → IsRising xs
    → All IsProper xs
    → Pairs (λ x y. x.num ≢ y.num) xs
    → All P xs
    → first_overlap xs ≡ some r
    → Reported P r
unfolding first_overlap
first_overlap-some P [] r up p ne ps h = absurd (cc h)
first_overlap-some P (x ∷ []) r up p ne ps h = absurd (cc h)
first_overlap-some P (x ∷ y ∷ ys) (a, b) up p ne ps h = elim (Bool-cases (leb y.start x.end)) [
  | inl touch ↦
      let same : ◌≡◌ {A = Option (ℕ × ℕ)} (some (x.num, y.num)) (some (a, b)) = rw touch at h in
      (
        x,
        y,
        ps.0,
        ps.1.0,
        ground arith,
        ground arith,
        ne.0.0,
        omega (arith, up.0.0, p.1.0),
        ground arith,
      )
  | inr clear ↦ first_overlap-some P (y ∷ ys) (a, b) up.1 p.1 ne.1 ps.1 (rw clear at h)
]

defined_from-above :
    (m n : ℕ) (es : List GptPartitionEntry) → m < n → All (λ t. m ≢ t.num) (defined_from n es)
defined_from-above m n [] h = unfold defined_from in tt
defined_from-above m n (e ∷ es) h = elim (defined_from-cons n e es) [
  | inl (_, eq) ↦ rw eq (defined_from-above m (suc n) es (omega arith))
  | inr (used, eq) ↦ rw eq (omega arith, defined_from-above m (suc n) es (omega arith))
]

defined_from-numbers :
    (n : ℕ) (es : List GptPartitionEntry) → Pairs (λ x y. x.num ≢ y.num) (defined_from n es)
defined_from-numbers n [] = unfold defined_from in tt
defined_from-numbers n (e ∷ es) = elim (defined_from-cons n e es) [
  | inl (_, eq) ↦ rw eq (defined_from-numbers (suc n) es)
  | inr (used, eq) ↦
      rw eq (defined_from-above n (suc n) es (omega arith), defined_from-numbers (suc n) es)
]

ne-flip : (x y : Span) → x.num ≢ y.num → y.num ≢ x.num
ne-flip x y h e = h (sym e)

-- What a span says of the entry that it was made from.
abbrev Describes : List GptPartitionEntry → ℕ → Span → Type 0
Describes es n t =
    (i : ℕ) × (e : GptPartitionEntry) × (t.num ≡ n + i)
    × (get_elem? es i ≡ some e)
    × (is_unused e ≡ false)
    × (e.starting_lba ≡ t.start)
    × (e.ending_lba ≡ t.end)

All-imp {κ μ} :
    {P : Span → Type κ} {Q : Span → Type μ} (xs : List Span)
    → ((t : Span) → P t → Q t)
    → All P xs
    → All Q xs
All-imp [] f h = tt
All-imp (x ∷ xs) f h = (f x h.0, All-imp xs f h.1)

defined_from-Describes :
    (n : ℕ) (es : List GptPartitionEntry) → All (Describes es n) (defined_from n es)
defined_from-Describes n [] = unfold defined_from in tt
defined_from-Describes n (e ∷ es) =
    let later : (t : Span) → Describes es (suc n) t → Describes (e ∷ es) n t =
      λ t (i, x, num, at, used, s, l). (suc i, x, omega (arith, num), at, used, s, l) in
    elim (defined_from-cons n e es) [
      | inl (_, eq) ↦
          rw eq (All-imp (defined_from (suc n) es) later (defined_from-Describes (suc n) es))
      | inr (used, eq) ↦ rw eq (
        (0, e, omega arith, refl, used, refl, refl),
        All-imp (defined_from (suc n) es) later (defined_from-Describes (suc n) es),
      )
    ]

-- The two numbers that are reported name two different slots with defined entries that intersect.
pub find_overlap-some :
    (es : List GptPartitionEntry) (a b : ℕ)
    → All IsOrdered es
    → find_overlap es ≡ some (a, b)
    → (i : ℕ) × (j : ℕ) × (x : GptPartitionEntry) × (y : GptPartitionEntry) × (a ≡ suc i)
      × (b ≡ suc j)
      × (i ≢ j)
      × (get_elem? es i ≡ some x)
      × (get_elem? es j ≡ some y)
      × (is_unused x ≡ false)
      × (is_unused y ≡ false)
      × (intersects x y ≡ true)
unfolding find_overlap sort_by_key
find_overlap-some es a b h e =
    let spans : List Span = defined_from 1 es in
    let (s, t, (i, x, ni, xi, ux, xs, xl), (j, y, nj, yj, uy, ys, yl), sa, tb, ne, st, ts) =
      first_overlap-some (Describes es 1) (sort_by_key spans) (a, b) (sort_by_key-IsRising spans)
        (Sort.All-sort key_le IsProper spans (defined_from-IsProper 1 es h))
        (Sort.Pairs-sort key_le (λ p q. p.num ≢ q.num) ne-flip spans (defined_from-numbers 1 es))
        (Sort.All-sort key_le (Describes es 1) spans (defined_from-Describes 1 es)) e in
    (i, j, x, y, omega arith, omega arith, omega arith, xi, yj, ux, uy, ground arith)
