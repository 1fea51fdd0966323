-- ===== src/Movepart/Plan/Tail.antt =====
-- `plan_tail_packed` of src/movepart/plan.rs.
use disk_edit.Prelude.{
  ℕ, ◌+◌, ◌-◌, ◌≤◌, ◌<◌, ◌≡◌, refl, List, [], ◌∷◌, ok, arith, >>=-eq_ok, All, Pairs, All-reverse,
  Pairs-reverse, reverse, ok_or, checked_sub, saturating_sub,
}
use disk_edit.Outcome.{Fail}
use disk_edit.Table.Gpt.{GptPartitionEntry}
use disk_edit.Geometry.{ValidatedGeometry}
use disk_edit.Geometry.Invariant.{IsValid}
use disk_edit.Policy.{RepairAction, live_entry}
use disk_edit.Movepart.Types.{PlanEntry, Plan, tail_packed}
use disk_edit.Movepart.Plan.{
  Blocker, blockers_after, pack_tail, planned, plan_of, plan_tail_packed, entry_len, no_tail_space,
}
use disk_edit.Movepart.Plan.Blockers.{IsBlocker, Before, blockers_after_sound}
use disk_edit.Movepart.Plan.Safe.{IsPlaced, Follows, IsSafe}

ok_or_sub-eq_ok : (a b n : ℕ) (e : Fail) → ok_or (checked_sub a b) e ≡ ok n → (b ≤ a) × (n ≡ a - b)
ok_or_sub-eq_ok a b n e h = ground arith

-- The step of the loop that places one blocker.
pack_tail-cons :
    (cursor : ℕ) (b : Blocker) (bs : List Blocker) (ms : List PlanEntry)
    → pack_tail cursor (b ∷ bs) ≡ ok ms
    → (new_first : ℕ) × (later : List PlanEntry) × (ms ≡ planned b new_first ∷ later)
      × (pack_tail (new_first - 1) bs ≡ ok later)
      × (b.1.starting_lba ≤ new_first)
      × (entry_len b.1 - 1 ≤ cursor)
      × (new_first ≡ cursor - (entry_len b.1 - 1))
unfolding pack_tail
pack_tail-cons cursor b bs ms h =
    let (n, e₁, h₁) =
      >>=-eq_ok (ok_or (checked_sub cursor (entry_len b.1 - 1)) no_tail_space) _ h in
    let (d, e₂, h₂) = >>=-eq_ok (ok_or (checked_sub n b.1.starting_lba) no_tail_space) _ h₁ in
    let (later, e₃, h₃) = >>=-eq_ok (pack_tail (saturating_sub n 1) bs) _ h₂ in
    let (fits, n-is) = ok_or_sub-eq_ok cursor (entry_len b.1 - 1) n no_tail_space e₁ in
    let (right, _) = ok_or_sub-eq_ok n b.1.starting_lba d no_tail_space e₂ in
    (n, later, ground (arith, h₃), e₃, right, fits, n-is)

-- The bound of the loop: nothing that is placed ends behind the cursor.
abbrev EndsBy : ℕ → PlanEntry → Type 0
EndsBy cursor m = m.first_lba + m.delta_lba + m.len_lba ≤ cursor + 1

abbrev SourceBefore : ℕ → PlanEntry → Type 0
SourceBefore lba m = m.first_lba + m.len_lba ≤ lba

pack_tail-sources :
    (lba cursor : ℕ) (bs : List Blocker) (ms : List PlanEntry)
    → All (λ b. b.1.starting_lba ≤ b.1.ending_lba) bs
    → All (λ b. b.1.ending_lba < lba) bs
    → pack_tail cursor bs ≡ ok ms
    → All (SourceBefore lba) ms
unfolding pack_tail
pack_tail-sources lba cursor [] ms o h e = let same : ms ≡ [] = ground arith in rw same tt
pack_tail-sources lba cursor (b ∷ bs) ms o h e =
    let (n, later, same, next, _, _, _) = pack_tail-cons cursor b bs ms e in
    let first : SourceBefore lba (planned b n) = omega (arith, o.0, h.0) in
    rw same (first, pack_tail-sources lba (n - 1) bs later o.1 h.1 next)

EndsBy-rise : (a b : ℕ) (ms : List PlanEntry) → a ≤ b → All (EndsBy a) ms → All (EndsBy b) ms
EndsBy-rise a b [] h e = tt
EndsBy-rise a b (m ∷ ms) h e = (omega (arith, h, e.0), EndsBy-rise a b ms h e.1)

pack_tail-ends :
    (cursor : ℕ) (bs : List Blocker) (ms : List PlanEntry)
    → All (λ b. b.1.starting_lba ≤ b.1.ending_lba) bs
    → pack_tail cursor bs ≡ ok ms
    → All (EndsBy cursor) ms
unfolding pack_tail
pack_tail-ends cursor [] ms o e = let same : ms ≡ [] = ground arith in rw same tt
pack_tail-ends cursor (b ∷ bs) ms o e =
    let (n, later, same, next, right, fits, n-is) = pack_tail-cons cursor b bs ms e in
    let first : EndsBy cursor (planned b n) = omega (arith, o.0, right, fits, n-is) in
    let rest = pack_tail-ends (n - 1) bs later o.1 next in
    rw same (first, EndsBy-rise (n - 1) cursor later (omega (arith, n-is)) rest)

Follows-All :
    (b : Blocker) (n : ℕ) (ms : List PlanEntry)
    → b.1.starting_lba ≤ n
    → 1 ≤ n
    → All (SourceBefore b.1.starting_lba) ms
    → All (EndsBy (n - 1)) ms
    → All (Follows (planned b n)) ms
Follows-All b n [] h k s e = tt
Follows-All b n (m ∷ ms) h k s e = ((s.0, omega (arith, h, k, e.0)), Follows-All b n ms h k s.1 e.1)

ordered_of :
    (t last : ℕ) (bs : List Blocker)
    → All (IsBlocker t last) bs
    → All (λ b. b.1.starting_lba ≤ b.1.ending_lba) bs
ordered_of t last [] h = tt
ordered_of t last (b ∷ bs) h = (h.0.1, ordered_of t last bs h.1)

pack_tail-Follows :
    (t last cursor : ℕ) (bs : List Blocker) (ms : List PlanEntry)
    → All (IsBlocker t last) bs
    → Pairs (λ x y. Before y x) bs
    → pack_tail cursor bs ≡ ok ms
    → Pairs Follows ms
unfolding pack_tail
pack_tail-Follows t last cursor [] ms h p e = let same : ms ≡ [] = ground arith in rw same tt
pack_tail-Follows t last cursor (b ∷ bs) ms h p e =
    let (n, later, same, next, right, _, _) = pack_tail-cons cursor b bs ms e in
    let ordered = ordered_of t last bs h.1 in
    let sources = pack_tail-sources b.1.starting_lba (n - 1) bs later ordered p.0 next in
    let ends = pack_tail-ends (n - 1) bs later ordered next in
    let pos : 1 ≤ n = omega (arith, h.0, right) in
    rw same (
      Follows-All b n later right pos sources ends,
      pack_tail-Follows t last (n - 1) bs later h.1 p.1 next,
    )

pack_tail-IsPlaced :
    (t last cursor : ℕ) (bs : List Blocker) (ms : List PlanEntry)
    → cursor ≤ last
    → All (IsBlocker t last) bs
    → pack_tail cursor bs ≡ ok ms
    → All (IsPlaced t last) ms
unfolding pack_tail
pack_tail-IsPlaced t last cursor [] ms c h e = let same : ms ≡ [] = ground arith in rw same tt
pack_tail-IsPlaced t last cursor (b ∷ bs) ms c h e =
    let (n, later, same, next, right, fits, n-is) = pack_tail-cons cursor b bs ms e in
    let first : IsPlaced t last (planned b n) = omega (arith, h.0, right, fits, n-is, c) in
    rw same (first, pack_tail-IsPlaced t last (n - 1) bs later (omega (arith, n-is, c)) h.1 next)

-- A tail-packed plan of a valid geometry: every source lies behind the target, every destination
-- ends inside the usable area, and in the order of the moves neither the source of a later move nor
-- its destination meets the destination of an earlier one.
pub plan_tail_packed-IsSafe :
    (g : ValidatedGeometry) (repair : RepairAction) (grow_part : ℕ) (plan : Plan)
    → IsValid g
    → plan_tail_packed g repair grow_part ≡ ok plan
    → (target : GptPartitionEntry) × (live_entry g grow_part ≡ ok target)
      × (plan.last_usable_lba ≡ g.header.last_usable_lba)
      × IsSafe target.ending_lba plan.last_usable_lba plan.moves
unfolding plan_tail_packed
plan_tail_packed-IsSafe g repair grow_part plan v h =
    let last : ℕ = g.header.last_usable_lba in
    let (target, live, h₁) = >>=-eq_ok (live_entry g grow_part) _ h in
    let (bs, blocked, h₂) = >>=-eq_ok (blockers_after g target.ending_lba) _ h₁ in
    let (ms, packed, h₃) = >>=-eq_ok (pack_tail last (reverse bs)) _ h₂ in
    let (right, before) = blockers_after_sound g target.ending_lba bs v blocked in
    let right' = All-reverse (IsBlocker target.ending_lba last) bs right in
    let before' = Pairs-reverse Before bs before in
    let same : plan ≡ plan_of g repair grow_part tail_packed ms = cc h₃ in
    let t : ℕ = target.ending_lba in
    (
      target,
      live,
      rw same refl,
      rw same (
        pack_tail-IsPlaced t last last (reverse bs) ms (omega arith) right' packed,
        pack_tail-Follows t last last (reverse bs) ms right' before' packed,
      ),
    )
