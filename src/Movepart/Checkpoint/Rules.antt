-- ===== src/Movepart/Checkpoint/Rules.antt =====
-- What the small rules of src/movepart/checkpoint.rs guarantee.
use disk_edit.Prelude.{
  ℕ, ◌+◌, ◌-◌, ◌*◌, ◌/◌, ◌%◌, ◌≤◌, ◌<◌, ◌≡◌, ◌≢◌, ◌↔◌, ◌⊎◌, inl, inr, max, Bool, true, false, some,
  leb, ok, err, arith, >>=-eq_ok, u64_mod, Bool-cases,
}
use native.Mathlib.Nat.{
  div-mul-le_self, lt-div-mul-add, mul-le-mul_right, mul-le-mul_left, mul-mod_left,
}
use disk_edit.Movepart.Checkpoint.{
  LvmSelection, LvmPostFacts, lvm_target_for, lvm_post_for, redo_window_bytes, max_batch,
  ckpt_batch_cap, next_ckpt_batch, not_committed, not_verified, checkpoint_may_be_removed,
}

ckpt_batch_cap-bounds :
    (chunk : ℕ)
    → (1 ≤ ckpt_batch_cap chunk)
      × (ckpt_batch_cap chunk ≤ max_batch)
      × ((ckpt_batch_cap chunk ≡ 1) ⊎ (ckpt_batch_cap chunk ≤ redo_window_bytes / max chunk 1))
unfolding ckpt_batch_cap
ckpt_batch_cap-bounds chunk =
    let q : ℕ = redo_window_bytes / max chunk 1 in (omega arith, omega arith, ground arith)

next_ckpt_batch-cap :
    (cur took chunk : ℕ)
    → 1 ≤ ckpt_batch_cap chunk
    → (1 ≤ next_ckpt_batch cur took chunk) × (next_ckpt_batch cur took chunk ≤ ckpt_batch_cap chunk)
unfolding next_ckpt_batch
next_ckpt_batch-cap cur took chunk h = ground arith

-- However long a commit took, the next batch has between 1 and 64 chunks, and unless it is a single
-- chunk no more bytes than the redo window.
pub next_ckpt_batch-bounds :
    (cur took chunk : ℕ)
    → (1 ≤ next_ckpt_batch cur took chunk)
      × (next_ckpt_batch cur took chunk ≤ 64)
      × ((next_ckpt_batch cur took chunk ≡ 1)
          ⊎ (next_ckpt_batch cur took chunk * chunk ≤ redo_window_bytes))
next_ckpt_batch-bounds cur took chunk =
    let (low, high, fits) = ckpt_batch_cap-bounds chunk in
    let (some_chunk, capped) = next_ckpt_batch-cap cur took chunk low in
    let b : ℕ = next_ckpt_batch cur took chunk in
    let q : ℕ = redo_window_bytes / max chunk 1 in
    (
      some_chunk,
      omega (arith, capped, high),
      elim fits [
        | inl one ↦ inl (omega (arith, capped, some_chunk, one))
        | inr within ↦
            let under : b ≤ q = omega (arith, capped, within) in
            let step : b * max chunk 1 ≤ q * max chunk 1 = mul-le-mul_right (max chunk 1) under in
            let up : b * chunk ≤ b * max chunk 1 = mul-le-mul_left b (omega arith) in
            inr (omega (arith, up, step, div-mul-le_self redo_window_bytes (max chunk 1)))
      ],
    )

-- A checkpoint may go exactly when the operation is committed, no pending step was added and no
-- later step needs it; the reason to keep it is the first of these that fails.
checkpoint_may_be_removed_lem :
    (committed : Bool) (before after : ℕ) (later : Bool)
    → ((checkpoint_may_be_removed committed before after later ≡ ok tt)
        ↔ ((committed ≡ true) × (after ≡ before) × (later ≡ false)))
      × ((checkpoint_may_be_removed committed before after later ≡ err not_committed)
          ↔ (committed ≡ false))
      × ((checkpoint_may_be_removed committed before after later ≡ err not_verified)
          ↔ ((committed ≡ true) × (after ≢ before)))
unfolding checkpoint_may_be_removed
checkpoint_may_be_removed_lem true before after true = ground arith
checkpoint_may_be_removed_lem true before after false = ground arith
checkpoint_may_be_removed_lem false before after later = ground arith

lvm_target_for-eq_ok :
    (s : LvmSelection) (delta : ℕ) (f : LvmPostFacts)
    → lvm_target_for s delta ≡ ok f
    → (f.lv_path ≡ some s.path)
      × (f.lv_size_before ≡ s.size)
      × (f.extent_bytes ≡ s.extent_bytes)
      × (f.lv_target ≡ s.size + (delta / s.extent_bytes) * s.extent_bytes)
      × (1 ≤ delta / s.extent_bytes)
      × (f.lv_target < u64_mod)
      × (1 ≤ s.size)
unfolding lvm_target_for
lvm_target_for-eq_ok s delta f h = ground arith

lvm_post_for-eq_some :
    (s : LvmSelection) (old new : ℕ) (f : LvmPostFacts)
    → lvm_post_for true (some s) old new ≡ ok (some f)
    → (old < new) × (lvm_target_for s (new - old) ≡ ok f)
unfolding lvm_post_for
lvm_post_for-eq_some s old new f h = elim (Bool-cases (leb new old)) [
  | inl small ↦ absurd (cc (rw small at h))
  | inr grown ↦
      let (g, made, e) =
        >>=-eq_ok (lvm_target_for s (new - old)) (λ f. ok (some f)) (rw grown at h) in
      let same : g ≡ f = cc e in (ground arith, rw same at made)
]

-- The facts that are recorded for a selected LV give it at least one extent, a whole number of
-- extents, no more than was added to the partition and less than one extent under it.
pub lvm_post_for-whole :
    (s : LvmSelection) (old new : ℕ) (f : LvmPostFacts)
    → 0 < s.extent_bytes
    → lvm_post_for true (some s) old new ≡ ok (some f)
    → (f.lv_path ≡ some s.path)
      × (f.lv_size_before ≡ s.size)
      × (s.size + s.extent_bytes ≤ f.lv_target)
      × (f.lv_target ≤ s.size + (new - old))
      × (s.size + (new - old) < f.lv_target + s.extent_bytes)
      × ((f.lv_target - f.lv_size_before) % f.extent_bytes ≡ 0)
lvm_post_for-whole s old new f h e =
    let (_, made) = lvm_post_for-eq_some s old new f e in
    let (path, before, extent, target, some_extent, _, _) =
      lvm_target_for-eq_ok s (new - old) f made in
    let q : ℕ = (new - old) / s.extent_bytes in
    let low = div-mul-le_self (new - old) s.extent_bytes in
    let high = lt-div-mul-add {a = new - old} h in
    let one : 1 * s.extent_bytes ≤ q * s.extent_bytes =
      mul-le-mul_right s.extent_bytes some_extent in
    let gain : f.lv_target - f.lv_size_before ≡ q * s.extent_bytes =
      omega (arith, target, before) in
    (
      path,
      before,
      omega (arith, target, one),
      omega (arith, target, low),
      omega (arith, target, high),
      rw (gain, extent) (mul-mod_left q s.extent_bytes),
    )

pub lvm_post_for-fits :
    (s : LvmSelection) (old new : ℕ) (f : LvmPostFacts)
    → lvm_post_for true (some s) old new ≡ ok (some f)
    → (f.lv_target < u64_mod) × (1 ≤ s.size) × (f.extent_bytes ≡ s.extent_bytes)
lvm_post_for-fits s old new f e =
    let (_, made) = lvm_post_for-eq_some s old new f e in
    let (_, _, extent, _, _, room, full) = lvm_target_for-eq_ok s (new - old) f made in
    (room, full, extent)
