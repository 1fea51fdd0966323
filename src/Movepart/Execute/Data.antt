-- ===== src/Movepart/Execute/Data.antt =====
-- The moves of a safe plan, carried out one after another, keep the data of every partition.
use disk_edit.Prelude.{
  ℕ, ◌+◌, ◌*◌, ◌≤◌, ◌<◌, ◌≡◌, ◌≢◌, refl, ◌∙◌, ◌⊎◌, inl, inr, false, Option, none, some, List, [],
  ◌∷◌, ◌==◌, if◌then◌else◌, ok, >>=-eq_ok, ok_or, checked_add, checked_sub, checked_mul, arith, All,
  Bool-cases, u64_mod,
}
use native.Mathlib.Nat.{mul-le-mul_right, add-mul}
use disk_edit.Outcome.{Message}
use disk_edit.Movepart.Types.{PlanEntry}
use disk_edit.Movepart.Plan.Safe.{Follows, IsSafe}
use disk_edit.Memory.{Memory}
use disk_edit.Movepart.Layout.{move_chunk_layout, chunks_from_tail, copy_chunks}
use disk_edit.Movepart.Layout.Copy.Resume.{copy_chunks-survives}
use disk_edit.Movepart.Execute.{
  copy_entry, move_entry, relocate_entry, relocate_all, offset_overflow, lba_overflow,
}

-- A byte outside the destination of a move.
abbrev pub Off : ℕ → ℕ → PlanEntry → Type 0
Off ss x m =
    (x < (m.first_lba + m.delta_lba) * ss) ⊎ ((m.first_lba + m.delta_lba) * ss + m.len_lba * ss ≤ x)

-- The bytes of a partition stand at its destination as they stood at its source.
abbrev pub Moved : ℕ → Memory → Memory → PlanEntry → Type 0
Moved ss before after m =
    m.is_swap ≡ false
    → (i : ℕ) → i < m.len_lba * ss
    → after ((m.first_lba + m.delta_lba) * ss + i) ≡ before (m.first_lba * ss + i)

record Effect (ss : ℕ) (m : PlanEntry) (before after : Memory) : Type 0 where
  moved : Moved ss before after m
  kept : (x : ℕ) → Off ss x m → after x ≡ before x

ok_or_some : (a b n : ℕ) (e : Message) → ok_or (checked_mul a b) e ≡ ok n → n ≡ a * b
ok_or_some a b n e h = ground arith

copy_none : (s d : ℕ) (mem : Memory) → copy_chunks s d 0 0 [] mem ≡ ok mem
unfolding copy_chunks
copy_none s d mem = refl

ok_or_layout : (o : Option (ℕ × ℕ)) (e : Message) {c : ℕ × ℕ} → ok_or o e ≡ ok c → o ≡ some c
ok_or_layout none e h = cc
ok_or_layout (some c) e h = cc

copy_at :
    (s d t s' d' t' chunk : ℕ) (mem after : Memory)
    → s ≡ s'
    → d ≡ d'
    → t ≡ t'
    → copy_chunks s d 0 0 (chunks_from_tail t chunk t) mem ≡ ok after
    → copy_chunks s' d' 0 0 (chunks_from_tail t' chunk t') mem ≡ ok after
copy_at s d t s' d' t' chunk mem after p q r h = rw (← p, ← q, ← r) h

Effect-of :
    (ss : ℕ) (m : PlanEntry) (mem end after : Memory)
    → end ≡ after
    → ((i : ℕ)
        → i < m.len_lba * ss
        → end ((m.first_lba + m.delta_lba) * ss + i) ≡ mem (m.first_lba * ss + i))
    → ((x : ℕ) → Off ss x m → end x ≡ mem x)
    → Effect ss m mem after
Effect-of ss m mem end after same moved kept =
    rw (← same) (record { moved = λ _. moved; kept = kept })

copy_entry-Effect :
    (ss chunk_len : ℕ) (m : PlanEntry) (mem after : Memory)
    → m.delta_lba ≢ 0
    → (m.first_lba + m.delta_lba) * ss + m.len_lba * ss < u64_mod
    → copy_entry ss chunk_len m (m.first_lba + m.delta_lba) mem ≡ ok after
    → Effect ss m mem after
unfolding copy_entry
copy_entry-Effect ss chunk_len m mem after nz room h =
    let new_first : ℕ = m.first_lba + m.delta_lba in
    let (src, e₁, h₁) = >>=-eq_ok (ok_or (checked_mul m.first_lba ss) offset_overflow) _ h in
    let (dst, e₂, h₂) = >>=-eq_ok (ok_or (checked_mul new_first ss) offset_overflow) _ h₁ in
    let (total, e₃, h₃) = >>=-eq_ok (ok_or (checked_mul m.len_lba ss) offset_overflow) _ h₂ in
    let ((chunk, count), e₄, h₄) =
      >>=-eq_ok
        (ok_or (move_chunk_layout m.len_lba ss m.delta_lba m.len_lba chunk_len) offset_overflow) _
        h₃ in
    let src-is = ok_or_some m.first_lba ss src offset_overflow e₁ in
    let dst-is = ok_or_some new_first ss dst offset_overflow e₂ in
    let total-is = ok_or_some m.len_lba ss total offset_overflow e₃ in
    let layout =
      ok_or_layout (move_chunk_layout m.len_lba ss m.delta_lba m.len_lba chunk_len) offset_overflow
        e₄ in
    let ran : copy_chunks (m.first_lba * ss) (new_first * ss) 0 0
          (chunks_from_tail (m.len_lba * ss) chunk (m.len_lba * ss)) mem
        ≡ ok after =
      copy_at src dst total (m.first_lba * ss) (new_first * ss) (m.len_lba * ss) chunk mem after
        src-is dst-is total-is h₄ in
    let (end, f, moved, kept) =
      copy_chunks-survives m.first_lba m.len_lba m.delta_lba ss chunk_len chunk count 0 mem mem mem
        nz room layout (copy_none (m.first_lba * ss) (new_first * ss) mem) (λ x _. refl) in
    let same : end ≡ after = cc (ran, f) in Effect-of ss m mem end after same moved kept

module _ (recreate : PlanEntry → Memory → Memory) (ss chunk_len : ℕ)
    (local : (m : PlanEntry) (mem : Memory) (x : ℕ) → Off ss x m → recreate m mem x ≡ mem x) where
  move_entry-Effect :
      (m : PlanEntry) (mem after : Memory)
      → m.delta_lba ≢ 0
      → (m.first_lba + m.delta_lba) * ss + m.len_lba * ss < u64_mod
      → move_entry recreate ss chunk_len m mem ≡ ok after
      → Effect ss m mem after
  unfolding move_entry copy_entry
  move_entry-Effect m mem after nz room h =
      let (n, e₁, h₁) = >>=-eq_ok (ok_or (checked_add m.first_lba m.delta_lba) lba_overflow) _ h in
      let (_, _, h₂) = >>=-eq_ok (ok_or (checked_sub m.len_lba 1) lba_overflow) _ h₁ in
      let (_, _, h₃) = >>=-eq_ok (ok_or (checked_add n _) lba_overflow) _ h₂ in
      branch n (ground (arith, e₁)) h₃
    where
      branch :
          (n : ℕ)
          → n ≡ m.first_lba + m.delta_lba
          → (if m.is_swap then ok (recreate m mem) else copy_entry ss chunk_len m n mem) ≡ ok after
          → Effect ss m mem after
      branch n at e = elim (Bool-cases m.is_swap) [
        | inl swap ↦
            let same : recreate m mem ≡ after = cc (rw swap at e) in
            rw (← same) (record { moved = λ plain. cc (swap, plain); kept = local m mem })
        | inr kept ↦
            let copied : copy_entry ss chunk_len m n mem ≡ ok after = rw kept at e in
            copy_entry-Effect ss chunk_len m mem after nz room (rw at at copied)
      ]

  relocate_entry-Effect :
      (m : PlanEntry) (mem after : Memory)
      → (m.first_lba + m.delta_lba) * ss + m.len_lba * ss < u64_mod
      → relocate_entry recreate ss chunk_len m mem ≡ ok after
      → Effect ss m mem after
  unfolding relocate_entry
  relocate_entry-Effect m mem after room h = elim (Bool-cases (m.delta_lba == 0)) [
    | inl still ↦
        let same : mem ≡ after = cc (rw still at h) in
        let there : m.first_lba + m.delta_lba ≡ m.first_lba = ground (arith, still) in
        rw (← same) (record { moved = λ _ i _. rw there refl; kept = λ x _. refl })
    | inr goes ↦ move_entry-Effect m mem after (ground (arith, goes)) room (rw goes at h)
  ]

  -- The bytes before the destinations of moves that follow a move are out of their reach.
  Off-Follows :
      (m later : PlanEntry) (i : ℕ)
      → Follows m later
      → Off ss ((m.first_lba + m.delta_lba) * ss + i) later
  Off-Follows m later i (_, ends) =
      let step : (later.first_lba + later.delta_lba + later.len_lba) * ss
          ≤ (m.first_lba + m.delta_lba) * ss =
        mul-le-mul_right ss ends in
      inr (omega (arith, step, add-mul (later.first_lba + later.delta_lba) later.len_lba ss))

  Off-All :
      (m : PlanEntry) (i : ℕ) (ms : List PlanEntry)
      → All (Follows m) ms
      → All (Off ss ((m.first_lba + m.delta_lba) * ss + i)) ms
  Off-All m i [] f = tt
  Off-All m i (x ∷ xs) f = (Off-Follows m x i f.0, Off-All m i xs f.1)

  -- The source of a later move is as it was before the move.
  Moved-after :
      (m later : PlanEntry) (before mid after : Memory)
      → Follows m later
      → ((x : ℕ) → Off ss x m → mid x ≡ before x)
      → Moved ss mid after later
      → Moved ss before after later
  Moved-after m later before mid after (sources, _) kept moved plain i below =
      let step : (later.first_lba + later.len_lba) * ss ≤ (m.first_lba + m.delta_lba) * ss =
        mul-le-mul_right ss (omega (arith, sources)) in
      moved plain i below
      ∙ kept (later.first_lba * ss + i)
          (inl (omega (arith, below, step, add-mul later.first_lba later.len_lba ss)))

  Moved-All :
      (m : PlanEntry) (before mid after : Memory) (ms : List PlanEntry)
      → All (Follows m) ms
      → ((x : ℕ) → Off ss x m → mid x ≡ before x)
      → All (Moved ss mid after) ms
      → All (Moved ss before after) ms
  Moved-All m before mid after [] f kept moved = tt
  Moved-All m before mid after (x ∷ xs) f kept moved = (
    Moved-after m x before mid after f.0 kept moved.0,
    Moved-All m before mid after xs f.1 kept moved.1,
  )

  -- When the data moves of a safe plan in a container of fewer than 2^64 bytes succeed one after
  -- another, and recreating a swap writes only to its new place, every other partition has its
  -- bytes at its destination, and every byte outside the destinations is as it was.
  pub relocate_all-keeps :
      (target_end last : ℕ) (ms : List PlanEntry) (before after : Memory)
      → IsSafe target_end last ms
      → (last + 1) * ss < u64_mod
      → relocate_all recreate ss chunk_len ms before ≡ ok after
      → All (Moved ss before after) ms × ((x : ℕ) → All (Off ss x) ms → after x ≡ before x)
  unfolding relocate_all
  relocate_all-keeps target_end last [] before after safe room h =
      let same : before ≡ after = cc h in (tt, λ x _. rw same refl)
  relocate_all-keeps target_end last (m ∷ ms) before after safe room h =
      let (mid, first, rest) =
        >>=-eq_ok (relocate_entry recreate ss chunk_len m before)
          (relocate_all recreate ss chunk_len ms) h in
      let fits : (m.first_lba + m.delta_lba + m.len_lba) * ss ≤ (last + 1) * ss =
        mul-le-mul_right ss (safe.0.0.2) in
      let effect =
        relocate_entry-Effect m before mid
          (omega (arith, room, fits, add-mul (m.first_lba + m.delta_lba) m.len_lba ss)) first in
      let (moved, kept) =
        relocate_all-keeps target_end last ms mid after (safe.0.1, safe.1.1) room rest in
      (
        (
          λ plain i below.
              kept ((m.first_lba + m.delta_lba) * ss + i) (Off-All m i ms safe.1.0)
              ∙ effect.moved plain i below,
          Moved-All m before mid after ms safe.1.0 (effect.kept) moved,
        ),
        λ x off. kept x off.1 ∙ effect.kept x off.0,
      )
