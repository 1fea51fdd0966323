-- ===== src/Movepart/Plan/Shift.antt =====
-- `shift_plan_from` of src/movepart/plan.rs, and the end that its target grows to.
use disk_edit.Prelude.{
  ℕ, ◌+◌, ◌-◌, ◌≤◌, ◌<◌, ◌≡◌, List, [], ◌∷◌, ok, arith, max, >>=-eq_ok, All, Pairs, reverse, ok_or,
  checked_add, saturating_add, refuse_if, u64_mod, ◌==◌, ltb,
}
use disk_edit.Outcome.{Fail}
use disk_edit.Table.Gpt.{GptPartitionEntry}
use disk_edit.Geometry.{ValidatedGeometry}
use disk_edit.Policy.{RepairAction, live_entry}
use disk_edit.Movepart.Types.{PlanEntry, PlanKind, Plan}
use disk_edit.Movepart.Plan.{
  Blocker, blockers_after, shift_right, shift_start, planned, plan_of, shift_plan_from, entry_len,
  lba_overflow,
}
use disk_edit.Movepart.Plan.Blockers.{IsBlocker, Before}
use disk_edit.Movepart.Plan.Safe.{IsPlaced, Follows}

pub ok_or_add-eq_ok :
    (a b n : ℕ) (e : Fail) → ok_or (checked_add a b) e ≡ ok n → (a + b < u64_mod) × (n ≡ a + b)
ok_or_add-eq_ok a b n e h = ground arith

pub refuse_past : (a b : ℕ) (e : Fail) → refuse_if (ltb a b) e ≡ ok tt → b ≤ a
refuse_past a b e h = ground arith

-- The step of the loop that places one blocker.
pub shift_right-cons :
    (last cursor : ℕ) (b : Blocker) (bs : List Blocker) (ms : List PlanEntry)
    → shift_right last cursor (b ∷ bs) ≡ ok ms
    → (end : ℕ) × (later : List PlanEntry) × (ms ≡ planned b (max cursor b.1.starting_lba) ∷ later)
      × (shift_right last (saturating_add end 1) bs ≡ ok later)
      × (end ≡ max cursor b.1.starting_lba + (entry_len b.1 - 1))
      × (end ≤ last)
unfolding shift_right
shift_right-cons last cursor b bs ms h =
    let (end, e₁, h₁) =
      >>=-eq_ok (ok_or (checked_add (max cursor b.1.starting_lba) (entry_len b.1 - 1)) lba_overflow)
        _ h in
    let (_, e₂, h₂) = >>=-eq_ok (refuse_if (ltb last end) _) _ h₁ in
    let (later, e₃, h₃) = >>=-eq_ok (shift_right last (saturating_add end 1) bs) _ h₂ in
    let (_, end-is) =
      ok_or_add-eq_ok (max cursor b.1.starting_lba) (entry_len b.1 - 1) end lba_overflow e₁ in
    (end, later, ground (arith, h₃), e₃, end-is, refuse_past last end _ e₂)

-- No destination of the loop starts before the cursor, and all fit the usable area.
abbrev pub StartsFrom : ℕ → PlanEntry → Type 0
StartsFrom c m = c ≤ m.first_lba + m.delta_lba

StartsFrom-lower :
    (a b : ℕ) (ms : List PlanEntry) → a ≤ b → All (StartsFrom b) ms → All (StartsFrom a) ms
StartsFrom-lower a b [] h s = tt
StartsFrom-lower a b (m ∷ ms) h s = (omega (arith, h, s.0), StartsFrom-lower a b ms h s.1)

next_cursor : (last end : ℕ) → end ≤ last → last + 1 < u64_mod → saturating_add end 1 ≡ end + 1
next_cursor last end h k = ground arith

pub shift_right-starts :
    (t last cursor : ℕ) (bs : List Blocker) (ms : List PlanEntry)
    → last + 1 < u64_mod
    → All (IsBlocker t last) bs
    → shift_right last cursor bs ≡ ok ms
    → All (StartsFrom cursor) ms
unfolding shift_right
shift_right-starts t last cursor [] ms w h e = let same : ms ≡ [] = ground arith in rw same tt
shift_right-starts t last cursor (b ∷ bs) ms w h e =
    let (end, later, same, next, end-is, fits) = shift_right-cons last cursor b bs ms e in
    let goes = next_cursor last end fits w in
    let rest = shift_right-starts t last (saturating_add end 1) bs later w h.1 next in
    let up : cursor ≤ saturating_add end 1 = omega (arith, goes, end-is) in
    let first : StartsFrom cursor (planned b (max cursor b.1.starting_lba)) = omega arith in
    rw same (first, StartsFrom-lower cursor (saturating_add end 1) later up rest)

pub shift_right-IsPlaced :
    (t last cursor : ℕ) (bs : List Blocker) (ms : List PlanEntry)
    → All (IsBlocker t last) bs
    → shift_right last cursor bs ≡ ok ms
    → All (IsPlaced t last) ms
unfolding shift_right
shift_right-IsPlaced t last cursor [] ms h e = let same : ms ≡ [] = ground arith in rw same tt
shift_right-IsPlaced t last cursor (b ∷ bs) ms h e =
    let (end, later, same, next, end-is, fits) = shift_right-cons last cursor b bs ms e in
    let first : IsPlaced t last (planned b (max cursor b.1.starting_lba)) =
      omega (arith, h.0, end-is, fits) in
    rw same (first, shift_right-IsPlaced t last (saturating_add end 1) bs later h.1 next)

-- The source of a move that the loop places later starts behind a given end.
abbrev SourceAfter : ℕ → PlanEntry → Type 0
SourceAfter lba m = lba < m.first_lba

shift_right-sources :
    (lba last cursor : ℕ) (bs : List Blocker) (ms : List PlanEntry)
    → All (λ b. lba < b.1.starting_lba) bs
    → shift_right last cursor bs ≡ ok ms
    → All (SourceAfter lba) ms
unfolding shift_right
shift_right-sources lba last cursor [] ms h e = let same : ms ≡ [] = ground arith in rw same tt
shift_right-sources lba last cursor (b ∷ bs) ms h e =
    let (end, later, same, next, _, _) = shift_right-cons last cursor b bs ms e in
    rw same (h.0, shift_right-sources lba last (saturating_add end 1) bs later h.1 next)

abbrev pub Leads : PlanEntry → PlanEntry → Type 0
Leads a b = Follows b a

Leads-All :
    (b : Blocker) (n end : ℕ) (ms : List PlanEntry)
    → b.1.starting_lba ≤ b.1.ending_lba
    → b.1.starting_lba ≤ n
    → end ≡ n + (entry_len b.1 - 1)
    → All (SourceAfter b.1.ending_lba) ms
    → All (StartsFrom (end + 1)) ms
    → All (Leads (planned b n)) ms
Leads-All b n end [] o h k s f = tt
Leads-All b n end (m ∷ ms) o h k s f =
    ((omega (arith, o, s.0), omega (arith, o, h, k, f.0)), Leads-All b n end ms o h k s.1 f.1)

pub shift_right-Leads :
    (t last cursor : ℕ) (bs : List Blocker) (ms : List PlanEntry)
    → last + 1 < u64_mod
    → All (IsBlocker t last) bs
    → Pairs Before bs
    → shift_right last cursor bs ≡ ok ms
    → Pairs Leads ms
unfolding shift_right
shift_right-Leads t last cursor [] ms w h p e = let same : ms ≡ [] = ground arith in rw same tt
shift_right-Leads t last cursor (b ∷ bs) ms w h p e =
    let (end, later, same, next, end-is, fits) = shift_right-cons last cursor b bs ms e in
    let sources =
      shift_right-sources b.1.ending_lba last (saturating_add end 1) bs later p.0 next in
    let starts = shift_right-starts t last (saturating_add end 1) bs later w h.1 next in
    let starts' : All (StartsFrom (end + 1)) later = rw (next_cursor last end fits w) at starts in
    rw same (
      Leads-All b (max cursor b.1.starting_lba) end later h.0.1 (omega arith) end-is sources
          starts',
      shift_right-Leads t last (saturating_add end 1) bs later w h.1 p.1 next,
    )

pub record Shifted (g : ValidatedGeometry) (repair : RepairAction) (grow_part shift : ℕ)
    (plan : Plan) : Type 0 where
  pub target : GptPartitionEntry
  pub live : live_entry g grow_part ≡ ok target
  pub blockers : List Blocker
  pub blocked : blockers_after g target.ending_lba ≡ ok blockers
  pub cursor : ℕ
  pub started : shift_start target.ending_lba shift blockers ≡ ok cursor
  pub moves : List PlanEntry
  pub placed : shift_right g.header.last_usable_lba cursor blockers ≡ ok moves
  pub same : plan ≡ plan_of g repair grow_part PlanKind.shift (reverse moves)

pub shift_plan_from-Shifted :
    (g : ValidatedGeometry) (repair : RepairAction) (grow_part shift : ℕ) (plan : Plan)
    → shift_plan_from g repair grow_part shift ≡ ok plan
    → Shifted g repair grow_part shift plan
unfolding shift_plan_from
shift_plan_from-Shifted g repair grow_part shift plan h =
    let (target, live, h₁) = >>=-eq_ok (live_entry g grow_part) _ h in
    let (_, _, h₂) = >>=-eq_ok (refuse_if (shift == 0) _) _ h₁ in
    let (bs, blocked, h₃) = >>=-eq_ok (blockers_after g target.ending_lba) _ h₂ in
    let (cursor, started, h₄) = >>=-eq_ok (shift_start target.ending_lba shift bs) _ h₃ in
    let (ms, placed, h₅) = >>=-eq_ok (shift_right g.header.last_usable_lba cursor bs) _ h₄ in
    record {
      target = target;
      live = live;
      blockers = bs;
      blocked = blocked;
      cursor = cursor;
      started = started;
      moves = ms;
      placed = placed;
      same = cc h₅;
    }
