-- ===== src/Movepart/Parse/Sound.antt =====
-- What a checkpoint that was parsed for a geometry promises, whatever bytes it was parsed from.
use disk_edit.Prelude.{
  ℕ, zero, suc, ◌+◌, ◌<◌, ◌≤◌, ◌≡◌, ◌≢◌, ap, false, Option, none, some, List, [], ◌∷◌, ◌++◌, String,
  length, any, get_elem?, Result, ok, err, arith, ltb, ◌==◌, All, Pairs, All-append,
  Pairs-append_one, ok_or, refuse_if, checked_mul, >>=-eq_ok, ◌>>=◌,
}
use mathlib.Core.Path.{subst}
use disk_edit.Bytes.{drop}
use disk_edit.Outcome.{Message, plain}
use disk_edit.Geometry.{GeometryLimits}
use disk_edit.Movepart.Types.{PlanEntry}
use disk_edit.Movepart.Plan.{grow_end_for}
use disk_edit.Movepart.Plan.Bounds.{grow_end_for-bounds}
use disk_edit.Movepart.Resume.{recorded_plan}
use disk_edit.Movepart.Layout.{move_chunk_layout}
use disk_edit.Movepart.Checkpoint.{Checkpoint}
use disk_edit.Movepart.LvmFacts.{read_number, decode}
use disk_edit.Movepart.Parse.{
  Head, Progress, read_head, check_head, read_move, check_move, parse_moves, read_moves,
  read_progress, read_scene, chunks_limit, check_progress, check_crc, check_start, checkpoint_of,
  parse,
}

-- A move that stays inside the usable area.
pub record MoveFits (lim : GeometryLimits) (grow_part : ℕ) (m : PlanEntry) : Type 0 where
  pub low : 1 ≤ m.part_num
  pub high : m.part_num ≤ lim.entry_count
  pub other : m.part_num ≢ grow_part
  pub some_sectors : 1 ≤ m.len_lba
  pub first : lim.first_usable_lba ≤ m.first_lba
  pub end : m.first_lba + m.len_lba ≤ lim.last_usable_lba + 1
  pub new_end : m.first_lba + m.delta_lba + m.len_lba ≤ lim.last_usable_lba + 1

check_head_sound :
    (lim : GeometryLimits) (h : Head)
    → check_head lim h ≡ ok tt
    → (h.ss ≡ lim.sector_size)
      × (1 ≤ h.grow_part)
      × (h.grow_part ≤ lim.entry_count)
      × (h.last_usable_lba ≤ lim.last_usable_lba)
unfolding check_head
check_head_sound lim h e = ground (arith, e)

check_move_sound :
    (lim : GeometryLimits) (grow : ℕ) (moves : List PlanEntry) (m : PlanEntry)
    → check_move lim grow moves m ≡ ok tt
    → MoveFits lim grow m × (any (λ o. o.part_num == m.part_num) moves ≡ false)
unfolding check_move
check_move_sound lim grow moves m e = (
  record {
    low = ground (arith, e);
    high = ground (arith, e);
    other = ground (arith, e);
    some_sectors = ground (arith, e);
    first = ground (arith, e);
    end = ground (arith, e);
    new_end = ground (arith, e);
  },
  ground (arith, e),
)

-- Every move fits, and no partition is moved twice.
pub record MovesFit (lim : GeometryLimits) (grow_part : ℕ) (moves : List PlanEntry) : Type 0 where
  pub fit : All (MoveFits lim grow_part) moves
  pub once : Pairs (λ a b. a.part_num ≢ b.part_num) moves

apart_from :
    (n : ℕ) (moves : List PlanEntry)
    → any (λ o. o.part_num == n) moves ≡ false
    → All (λ o. o.part_num ≢ n) moves
apart_from n [] h = tt
apart_from n (o ∷ moves) h = (ground (arith, h), apart_from n moves (ground (arith, h)))

MovesFit-append :
    (lim : GeometryLimits) (grow : ℕ) (moves : List PlanEntry) (m : PlanEntry)
    → MovesFit lim grow moves
    → MoveFits lim grow m
    → any (λ o. o.part_num == m.part_num) moves ≡ false
    → MovesFit lim grow (moves ++ m ∷ [])
MovesFit-append lim grow moves m before here new = record {
  fit = All-append (MoveFits lim grow) moves (m ∷ []) before.fit (here, tt);
  once =
      Pairs-append_one (λ a b. a.part_num ≢ b.part_num) moves m before.once
        (apart_from m.part_num moves new);
}

parse_moves_sound :
    (lim : GeometryLimits) (grow n : ℕ) (moves found : List PlanEntry) (b rest : List ℕ)
    → MovesFit lim grow moves
    → parse_moves lim grow n moves b ≡ ok (found, rest)
    → MovesFit lim grow found
unfolding parse_moves
parse_moves_sound lim grow zero moves found b rest before h =
    subst (λ t. MovesFit lim grow t) (ap moves_of h) before
  where
    moves_of : Result Message (List PlanEntry × List ℕ) → List PlanEntry
    moves_of (ok p) = p.0
    moves_of (err e) = moves
parse_moves_sound lim grow (suc n) moves found b rest before h =
    let (p, read, after) = >>=-eq_ok (read_move b) _ h in
    let (_, checked, more) = >>=-eq_ok (check_move lim grow moves p.0) _ after in
    let (here, new) = check_move_sound lim grow moves p.0 checked in
    parse_moves_sound lim grow n (moves ++ p.0 ∷ []) found p.1 rest
      (MovesFit-append lim grow moves p.0 before here new) more

read_moves_sound :
    (lim : GeometryLimits) (grow : ℕ) (found : List PlanEntry) (b rest : List ℕ)
    → read_moves (some lim) grow b ≡ ok (found, rest)
    → MovesFit lim grow found
unfolding read_moves
read_moves_sound lim grow found b rest h =
    let (c, _, h₁) = >>=-eq_ok (read_number 4 b) _ h in
    let (span, _, h₂) =
      >>=-eq_ok (ok_or (checked_mul c.0 29) (plain "checkpoint truncated")) _ h₁ in
    let (_, _, h₃) =
      >>=-eq_ok (refuse_if (ltb (length c.1) span) (plain "checkpoint truncated")) _ h₂ in
    let (_, _, h₄) =
      >>=-eq_ok (refuse_if (ltb lim.entry_count c.0) (plain "implausible checkpoint move count")) _
        h₃ in
    parse_moves_sound lim grow c.0 [] found c.1 rest (record { fit = tt; once = tt }) h₄

-- The progress lies within the moves: nothing is passed over that was not copied.
pub record ProgressFits (ss : ℕ) (moves : List PlanEntry) (cur_index chunks_done chunk_bytes : ℕ)
    : Type 0 where
  pub some_chunk : 1 ≤ chunk_bytes
  pub index : cur_index ≤ length moves
  pub over : get_elem? moves cur_index ≡ none → chunks_done ≡ 0
  pub within :
      (m : PlanEntry)
      → get_elem? moves cur_index ≡ some m
      → (chunk : ℕ) × (count : ℕ) × (move_chunk_layout m.len_lba ss m.delta_lba m.len_lba
            chunk_bytes
          ≡ some (chunk, count))
        × (chunks_done ≤ count)

check_progress_sound :
    (h : Head) (moves : List PlanEntry) (p : Progress)
    → check_progress h moves p ≡ ok tt
    → ProgressFits h.ss moves p.cur_index p.chunks_done p.chunk_bytes
unfolding check_progress chunks_limit
check_progress_sound h moves p e =
    let (_, c₀, e₁) =
      >>=-eq_ok (refuse_if (p.chunk_bytes == 0) (plain "checkpoint chunk_bytes invalid")) _ e in
    let (_, c₁, e₂) =
      >>=-eq_ok
        (refuse_if (ltb (length moves) p.cur_index) (plain "implausible checkpoint entry index")) _
        e₁ in
    let (limit, c₂, e₃) = >>=-eq_ok (chunks_limit h moves p) _ e₂ in
    let most : p.chunks_done ≤ limit = ground (arith, e₃) in
    record {
      some_chunk = ground (arith, c₀);
      index = ground (arith, c₁);
      over = λ gone.
          let nothing : ok 0 ≡ ok limit = rw (chunks_limit, gone) at c₂ in
          let none_left : 0 ≡ limit = cc nothing in omega (arith, most, none_left);
      within = λ m here.
          let layout : Option (ℕ × ℕ) =
            move_chunk_layout m.len_lba h.ss m.delta_lba m.len_lba p.chunk_bytes in
          let opened : (ok_or layout overflow >>= λ (_, count). ok count) ≡ ok limit =
            rw (chunks_limit, here) at c₂ in
          let (pair, found, same) = >>=-eq_ok (ok_or layout overflow) _ opened in
          let counted : pair.1 ≡ limit = cc same in
          (pair.0, pair.1, ok_or-eq_ok layout found, omega (arith, most, counted));
    }
  where
    overflow : Message
    overflow = plain "checkpoint chunk count overflow"

    ok_or-eq_ok : (o : Option (ℕ × ℕ)) {q : ℕ × ℕ} → ok_or o overflow ≡ ok q → o ≡ some q
    ok_or-eq_ok none e = absurd (cc e)
    ok_or-eq_ok (some q') e = cc e

-- What the parser promises of a checkpoint for a geometry.
pub record IsPlausible (lim : GeometryLimits) (c : Checkpoint) : Type 0 where
  pub sector : c.ss ≡ lim.sector_size
  pub grow_low : 1 ≤ c.grow_part
  pub grow_high : c.grow_part ≤ lim.entry_count
  pub bound : c.last_usable_lba ≤ lim.last_usable_lba
  pub grows :
      (start end : ℕ)
      → grow_end_for (recorded_plan c) start ≡ ok end
      → (start ≤ end)
        × (end ≤ lim.last_usable_lba)
        × All (λ m. end < m.first_lba + m.delta_lba) c.moves
  pub moves : MovesFit lim c.grow_part c.moves
  pub progress : ProgressFits c.ss c.moves c.cur_index c.chunks_done c.chunk_bytes

-- The end to grow to, for a recorded bound that lies in the usable area.
recorded_plan-grows :
    (c : Checkpoint) (last start end : ℕ)
    → c.last_usable_lba ≤ last
    → grow_end_for (recorded_plan c) start ≡ ok end
    → (start ≤ end) × (end ≤ last) × All (λ m. end < m.first_lba + m.delta_lba) c.moves
recorded_plan-grows c last start end bound made =
    let (low, high, before) = grow_end_for-bounds (recorded_plan c) start end made in
    (low, omega (arith, high, bound), before)

-- A checkpoint that is parsed for a geometry has its sector size and grows a partition of its table.
-- When the plan that it records gives an end to grow to, this is not before the start of the
-- partition nor behind the usable area, and lies before every destination. It moves only other
-- partitions, each at most once, from and to places in the usable area, and claims no more progress
-- than its moves have chunks, whatever the bytes were.
pub parse-IsPlausible :
    (crc32 : List ℕ → ℕ) (as_bytes : String → List ℕ) (from_utf8 : List ℕ → Option String)
    (b : List ℕ) (lim : GeometryLimits) (c : Checkpoint)
    → parse crc32 as_bytes from_utf8 b (some lim) ≡ ok c
    → IsPlausible lim c
unfolding parse
parse-IsPlausible crc32 as_bytes from_utf8 b lim c h =
    let (_, _, h₀) = >>=-eq_ok (check_start crc32 as_bytes from_utf8 b) _ h in
    let (lvm, _, h₁) = >>=-eq_ok (decode as_bytes from_utf8 (drop 12 b)) _ h₀ in
    let (head, _, h₂) = >>=-eq_ok (read_head lvm.1) _ h₁ in
    let (_, checked, h₃) = >>=-eq_ok (check_head lim head.0) _ h₂ in
    let (moves, read, h₄) = >>=-eq_ok (read_moves (some lim) head.0.grow_part head.1) _ h₃ in
    let (p, _, h₅) = >>=-eq_ok (read_progress moves.1) _ h₄ in
    let (scene, _, h₆) = >>=-eq_ok (read_scene p.1) _ h₅ in
    let (_, _, h₇) = >>=-eq_ok (check_crc crc32 as_bytes from_utf8 b scene.1) _ h₆ in
    let (_, done, h₈) = >>=-eq_ok (check_progress head.0 moves.0 p.0) _ h₇ in
    let (sector, low, high, bound) = check_head_sound lim head.0 checked in
    subst (λ r. Plausible lim r) h₈
      (record {
        sector = sector;
        grow_low = low;
        grow_high = high;
        bound = bound;
        grows = λ start end made.
            recorded_plan-grows (checkpoint_of lvm.0 head.0 moves.0 p.0 scene.0) lim.last_usable_lba
              start end bound made;
        moves = read_moves_sound lim head.0.grow_part moves.0 head.1 moves.1 read;
        progress = check_progress_sound head.0 moves.0 p.0 done;
      })
  where
    Plausible : GeometryLimits → Result Message Checkpoint → Type 0
    Plausible lim (ok c) = IsPlausible lim c
    Plausible lim (err e) = Unit
