-- ===== src/Movepart/Plan/GrowEnd.antt =====
-- `grow_end_for` of src/movepart/plan.rs, and the plans of `shift_plan_from` with their end.
use disk_edit.Prelude.{
  ℕ, ◌+◌, ◌-◌, ◌≤◌, ◌<◌, ◌≡◌, ◌≢◌, refl, Option, none, some, List, [], ◌∷◌, ◌++◌, ok, arith, max,
  min, All, All-reverse, Pairs-reverse, reverse, u64_mod,
}
use disk_edit.Table.Gpt.{GptPartitionEntry}
use disk_edit.Geometry.{ValidatedGeometry}
use disk_edit.Geometry.Invariant.{IsValid}
use disk_edit.Policy.{RepairAction, live_entry}
use disk_edit.Movepart.Types.{PlanEntry, Plan}
use disk_edit.Movepart.Plan.{
  Blocker, shift_right, shift_start, shift_plan_from, planned, leftmost_from, grow_end_below,
  grow_end_for,
}
use disk_edit.Movepart.Plan.Blockers.{IsBlocker, blockers_after_sound}
use disk_edit.Movepart.Plan.Safe.{IsPlaced, IsSafe}
use disk_edit.Movepart.Plan.Shift.{
  shift_plan_from-Shifted, shift_right-starts, shift_right-IsPlaced, shift_right-Leads,
  shift_right-cons, Leads, StartsFrom,
}

shift_start-eq_ok :
    (t shift c : ℕ) (b : Blocker) (bs : List Blocker)
    → shift_start t shift (b ∷ bs) ≡ ok c
    → (b.1.starting_lba - t ≤ shift) × (c ≡ t + shift + 1)
unfolding shift_start
shift_start-eq_ok t shift c b bs h = ground arith

last_fits :
    (g : ValidatedGeometry)
    → IsValid g
    → g.file_last_lba < u64_mod
    → g.header.last_usable_lba + 1 < u64_mod
last_fits g v w = let room = v.room in omega (arith, room, w)

-- A plan that makes room by a shift in a valid geometry of a container with fewer than 2^64
-- sectors: every source lies behind the target, every destination ends
-- inside the usable area, and in the order of the moves neither the source of a later move nor its
-- destination meets the destination of an earlier one.
pub shift_plan_from-IsSafe :
    (g : ValidatedGeometry) (repair : RepairAction) (grow_part shift : ℕ) (plan : Plan)
    → IsValid g
    → g.file_last_lba < u64_mod
    → shift_plan_from g repair grow_part shift ≡ ok plan
    → (target : GptPartitionEntry) × (live_entry g grow_part ≡ ok target)
      × (plan.last_usable_lba ≡ g.header.last_usable_lba)
      × IsSafe target.ending_lba plan.last_usable_lba plan.moves
shift_plan_from-IsSafe g repair grow_part shift plan v w h =
    let s = shift_plan_from-Shifted g repair grow_part shift plan h in
    let t : ℕ = s.target.ending_lba in
    let last : ℕ = g.header.last_usable_lba in
    let (right, before) = blockers_after_sound g t s.blockers v (s.blocked) in
    let placed = shift_right-IsPlaced t last s.cursor s.blockers s.moves right (s.placed) in
    let leads =
      shift_right-Leads t last s.cursor s.blockers s.moves (last_fits g v w) right before
        (s.placed) in
    (
      s.target,
      s.live,
      rw (s.same) refl,
      rw (s.same) (All-reverse (IsPlaced t last) s.moves placed, Pairs-reverse Leads s.moves leads),
    )

-- A bound on the least start that was found so far.
abbrev IsFrom : ℕ → Option ℕ → Type 0
IsFrom c none = Unit
IsFrom c (some a) = c ≤ a

abbrev pub Fits : PlanEntry → Type 0
Fits m = m.first_lba + m.delta_lba < u64_mod

abbrev pub least : Option ℕ → ℕ → ℕ
least none n = n
least (some f) n = min f n

leftmost_from-cons :
    (acc : Option ℕ) (m : PlanEntry) (ms : List PlanEntry)
    → Fits m
    → leftmost_from acc (m ∷ ms) ≡ leftmost_from (some (least acc (m.first_lba + m.delta_lba))) ms
unfolding leftmost_from
leftmost_from-cons none m ms h = ground arith
leftmost_from-cons (some f) m ms h = ground arith

least-IsFrom : (c n : ℕ) (acc : Option ℕ) → IsFrom c acc → c ≤ n → c ≤ least acc n
least-IsFrom c n none h k = k
least-IsFrom c n (some f) h k = omega arith

least-eq : (c n : ℕ) (acc : Option ℕ) → IsFrom c acc → n ≡ c → least acc n ≡ c
least-eq c n none h k = k
least-eq c n (some f) h k = omega arith

-- The last of the moves has the least start.
leftmost_from-last :
    (c : ℕ) (acc : Option ℕ) (ms : List PlanEntry) (m : PlanEntry)
    → IsFrom c acc
    → All Fits ms
    → All (StartsFrom c) ms
    → Fits m
    → m.first_lba + m.delta_lba ≡ c
    → leftmost_from acc (ms ++ (m ∷ [])) ≡ ok (some c)
unfolding leftmost_from
leftmost_from-last c acc [] m a f s g e =
    let n : ℕ = m.first_lba + m.delta_lba in
    rw (leftmost_from-cons acc m [] g, least-eq c n acc a e) refl
leftmost_from-last c acc (x ∷ xs) m a f s g e =
    let n : ℕ = x.first_lba + x.delta_lba in
    rw (leftmost_from-cons acc x (xs ++ (m ∷ [])) f.0)
      (leftmost_from-last c (some (least acc n)) xs m (least-IsFrom c n acc a s.0) f.1 s.1 g e)

Fits-placed :
    (t last : ℕ) (ms : List PlanEntry) → last + 1 < u64_mod → All (IsPlaced t last) ms → All Fits ms
Fits-placed t last [] w h = tt
Fits-placed t last (m ∷ ms) w h = (omega (arith, w, h.0), Fits-placed t last ms w h.1)

grow_end_for-found :
    (plan : Plan) (start c : ℕ)
    → leftmost_from none plan.moves ≡ ok (some (c + 1))
    → c ≤ plan.last_usable_lba
    → start ≤ c
    → grow_end_for plan start ≡ ok c
unfolding grow_end_for grow_end_below
grow_end_for-found plan start c e h k = rw e (ground arith)

shift_start-nil : (t shift c : ℕ) → shift_start t shift [] ≢ ok c
unfolding shift_start
shift_start-nil t shift c h = cc

shift_lands :
    (t last shift cursor : ℕ) (bs : List Blocker) (ms : List PlanEntry)
    → last + 1 < u64_mod
    → All (IsBlocker t last) bs
    → shift_start t shift bs ≡ ok cursor
    → shift_right last cursor bs ≡ ok ms
    → (leftmost_from none (reverse ms) ≡ ok (some (t + shift + 1))) × (t + shift ≤ last)
shift_lands t last shift cursor [] ms w h s e = absurd (shift_start-nil t shift cursor s)
shift_lands t last shift cursor (b ∷ bs) ms w h s e =
    let (gap, at) = shift_start-eq_ok t shift cursor b bs s in
    let (end, later, same, next, end-is, fits) = shift_right-cons last cursor b bs ms e in
    let m : PlanEntry = planned b (max cursor b.1.starting_lba) in
    let placed : IsPlaced t last m × All (IsPlaced t last) later =
      rw same at (shift_right-IsPlaced t last cursor (b ∷ bs) ms h e) in
    let starts : StartsFrom cursor m × All (StartsFrom cursor) later =
      rw same at (shift_right-starts t last cursor (b ∷ bs) ms w h e) in
    let c-is : m.first_lba + m.delta_lba ≡ t + shift + 1 = omega (arith, at, gap, h.0) in
    let low : All (StartsFrom (t + shift + 1)) later = rw at at (starts.1) in
    (
      rw same (
          leftmost_from-last (t + shift + 1) none (reverse later) m tt
            (All-reverse Fits later (Fits-placed t last later w placed.1))
            (All-reverse (StartsFrom (t + shift + 1)) later low) (omega (arith, w, placed.0)) c-is),
      omega (arith, placed.0, c-is),
    )

-- The target of a plan that makes room by a shift, in a valid geometry of a container with fewer
-- than 2^64 sectors, grows by exactly the requested shift.
pub shift_plan_from-lands :
    (g : ValidatedGeometry) (repair : RepairAction) (grow_part shift : ℕ) (plan : Plan)
    → IsValid g
    → g.file_last_lba < u64_mod
    → shift_plan_from g repair grow_part shift ≡ ok plan
    → (target : GptPartitionEntry) × (live_entry g grow_part ≡ ok target)
      × ((start : ℕ)
          → start ≤ target.ending_lba
          → grow_end_for plan start ≡ ok (target.ending_lba + shift))
shift_plan_from-lands g repair grow_part shift plan v w h =
    let s = shift_plan_from-Shifted g repair grow_part shift plan h in
    let t : ℕ = s.target.ending_lba in
    let last : ℕ = g.header.last_usable_lba in
    let (right, _) = blockers_after_sound g t s.blockers v (s.blocked) in
    let (left, room) =
      shift_lands t last shift s.cursor s.blockers s.moves (last_fits g v w) right (s.started)
        (s.placed) in
    (
      s.target,
      s.live,
      λ start low.
          grow_end_for-found plan start (t + shift) (rw (s.same) left) (rw (s.same) room)
            (omega (arith, low)),
    )
