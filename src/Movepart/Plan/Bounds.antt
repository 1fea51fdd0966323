-- ===== src/Movepart/Plan/Bounds.antt =====
-- `grow_end_for` of src/movepart/plan.rs on any plan, one that was read from a checkpoint included.
use disk_edit.Prelude.{
  ℕ, ◌+◌, ◌≤◌, ◌<◌, ◌≡◌, Option, none, some, List, [], ◌∷◌, ok, arith, min, >>=-eq_ok, All,
}
use disk_edit.Movepart.Types.{PlanEntry, Plan}
use disk_edit.Movepart.Plan.{leftmost_from, grow_end_below, grow_end_for}
use disk_edit.Movepart.Plan.GrowEnd.{Fits, least}

-- A result of the loop that is at most a number.
abbrev AtMost : Option ℕ → ℕ → Type 0
AtMost none n = ⊥
AtMost (some f) n = f ≤ n

leftmost_from-step :
    (acc : Option ℕ) (m : PlanEntry) (ms : List PlanEntry) (r : Option ℕ)
    → leftmost_from acc (m ∷ ms) ≡ ok r
    → Fits m × (leftmost_from (some (least acc (m.first_lba + m.delta_lba))) ms ≡ ok r)
unfolding leftmost_from
leftmost_from-step none m ms r h = ground arith
leftmost_from-step (some f) m ms r h = ground arith

AtMost-rise : (r : Option ℕ) (a b : ℕ) → AtMost r a → a ≤ b → AtMost r b
AtMost-rise none a b h k = h
AtMost-rise (some f) a b h k = omega arith

leftmost_from-acc :
    (a : ℕ) (ms : List PlanEntry) (r : Option ℕ) → leftmost_from (some a) ms ≡ ok r → AtMost r a
unfolding leftmost_from
leftmost_from-acc a [] r h = let same : r ≡ some a = ground arith in rw same (omega arith)
leftmost_from-acc a (m ∷ ms) r h =
    let n : ℕ = m.first_lba + m.delta_lba in
    let (_, next) = leftmost_from-step (some a) m ms r h in
    AtMost-rise r (min a n) a (leftmost_from-acc (min a n) ms r next) (omega arith)

least-le : (acc : Option ℕ) (n : ℕ) → least acc n ≤ n
least-le none n = omega arith
least-le (some f) n = omega arith

leftmost_from-All :
    (acc : Option ℕ) (ms : List PlanEntry) (r : Option ℕ)
    → leftmost_from acc ms ≡ ok r
    → All (λ m. AtMost r (m.first_lba + m.delta_lba)) ms
leftmost_from-All acc [] r h = tt
leftmost_from-All acc (m ∷ ms) r h =
    let n : ℕ = m.first_lba + m.delta_lba in
    let (_, next) = leftmost_from-step acc m ms r h in
    (
      AtMost-rise r (least acc n) n (leftmost_from-acc (least acc n) ms r next) (least-le acc n),
      leftmost_from-All (some (least acc n)) ms r next,
    )

grow_end_below_sound :
    (last : ℕ) (r : Option ℕ) (end n : ℕ) → grow_end_below last r ≡ ok end → AtMost r n → end < n
unfolding grow_end_below
grow_end_below_sound last none end n h a = absurd a
grow_end_below_sound last (some f) end n h a = ground arith

below-All :
    (last : ℕ) (r : Option ℕ) (end : ℕ) (ms : List PlanEntry)
    → grow_end_below last r ≡ ok end
    → All (λ m. AtMost r (m.first_lba + m.delta_lba)) ms
    → All (λ m. end < m.first_lba + m.delta_lba) ms
below-All last r end [] h a = tt
below-All last r end (m ∷ ms) h a = (
  grow_end_below_sound last r end (m.first_lba + m.delta_lba) h a.0,
  below-All last r end ms h a.1,
)

-- What a plan grows to is never before the start of the target nor behind the usable area, and it
-- leaves every destination alone, wherever the moves come from.
pub grow_end_for-bounds :
    (plan : Plan) (start end : ℕ)
    → grow_end_for plan start ≡ ok end
    → (start ≤ end)
      × (end ≤ plan.last_usable_lba)
      × All (λ m. end < m.first_lba + m.delta_lba) plan.moves
unfolding grow_end_for
grow_end_for-bounds plan start end h =
    let (r, found, h₁) = >>=-eq_ok (leftmost_from none plan.moves) _ h in
    let (e, low, h₂) = >>=-eq_ok (grow_end_below plan.last_usable_lba r) _ h₁ in
    let same : e ≡ end = ground (arith, h₂) in
    let below =
      below-All plan.last_usable_lba r e plan.moves low
        (leftmost_from-All none plan.moves r found) in
    (ground (arith, h₂), ground (arith, h₂), rw (← same) below)
