-- ===== src/Movepart/Layout/Copy/Resume.antt =====
-- A move of src/movepart/shift.rs that is interrupted and taken up again at its checkpoint.
use disk_edit.Prelude.{
  ℕ, zero, suc, ◌+◌, ◌-◌, ◌*◌, ◌≤◌, ◌<◌, ◌≡◌, ◌≢◌, refl, ◌⊎◌, inl, inr, Bool, true, false, min, ok,
  arith, ◌∙◌, u64_mod, take, Bool-cases, some,
}
use native.Mathlib.Nat.{suc-mul, zero-mul, add-mul, mul-le-mul_right}
use disk_edit.Memory.{Memory}
use disk_edit.Movepart.Layout.{
  relocation_overlaps, effective_chunk, move_chunk_layout, chunks_from_tail, copy_chunks,
}
use disk_edit.Movepart.Layout.Size.{effective_chunk-fits, move_chunk_layout-parts}
use disk_edit.Movepart.Layout.Copy.{
  IsCopied, torn-IsCopied, copy_chunks-IsCopied, copy_chunks-take, copy_chunks-skip,
}

module _ (orig : Memory) (src dst total chunk : ℕ) (le : src ≤ dst) (room : dst + total < u64_mod)
    (some_bytes : 1 ≤ chunk) where
  -- The loop takes up the work at the resume point, `ahead` chunks further on.
  copy_chunks-resumes :
      (ahead rounds pos i : ℕ) (mem : Memory)
      → pos ≤ rounds
      → pos ≤ total
      → IsCopied orig src dst total (pos - ahead * chunk) mem
      → (end : Memory) × (copy_chunks src dst (i + ahead) i (chunks_from_tail rounds chunk pos) mem
          ≡ ok end)
        × IsCopied orig src dst total 0 end
  unfolding chunks_from_tail copy_chunks
  copy_chunks-resumes zero rounds pos i mem h w done =
      let at : pos - 0 * chunk ≡ pos = omega (arith, zero-mul chunk) in
      copy_chunks-IsCopied orig src dst total chunk le room some_bytes rounds pos (i + 0) i mem h w
        (omega arith) (rw at at done)
  copy_chunks-resumes (suc k) zero zero i mem h w done =
      (mem, refl, rw (stops (suc k * chunk)) at done)
    where
      stops : (n : ℕ) → 0 - n ≡ 0
      stops n = omega arith
  copy_chunks-resumes (suc k) zero (suc p) i mem h w done = absurd (omega (arith, h))
  copy_chunks-resumes (suc k) (suc n) zero i mem h w done =
      (mem, refl, rw (stops (suc k * chunk)) at done)
    where
      stops : (n : ℕ) → 0 - n ≡ 0
      stops n = omega arith
  copy_chunks-resumes (suc k) (suc n) (suc p) i mem h w done =
      let len : ℕ = min chunk (suc p) in
      let at : suc p - suc k * chunk ≡ suc p - len - k * chunk = omega (arith, suc-mul k chunk) in
      let (end, e, copied) =
        copy_chunks-resumes k n (suc p - len) (suc i) mem (omega (arith, h, some_bytes))
          (omega (arith, w)) (rw at at done) in
      let num : suc i + k ≡ i + suc k = omega arith in
      (
        end,
        copy_chunks-skip src dst (i + suc k) i (suc p - len, len)
              (chunks_from_tail n chunk (suc p - len)) mem (omega arith)
            ∙ rw num at e,
        copied,
      )

-- The positions from which on an interrupted move has written behind its checkpoint: one chunk when
-- source and destination overlap, since every chunk is checkpointed, and else anything.
abbrev pub redo_low : Bool → ℕ → ℕ → ℕ → ℕ
redo_low true total chunk done = total - suc done * chunk
redo_low false total chunk done = 0

IsCopied-start : (orig : Memory) (src dst total : ℕ) → IsCopied orig src dst total total orig
IsCopied-start orig src dst total = record {
  arrived = λ i low high. absurd (omega (arith, low, high));
  source = λ i below. refl;
  outside = λ x away. refl;
}

-- What may be redone is clear of the source that it is read from.
redo_clear :
    (first len delta ss asked chunk done : ℕ)
    → delta ≢ 0
    → effective_chunk ss delta len asked ≡ some chunk
    → first * ss + (len * ss - done * chunk)
      ≤ (first + delta) * ss + redo_low (relocation_overlaps delta len) (len * ss) chunk done
unfolding relocation_overlaps
redo_clear first len delta ss asked chunk done nz e =
    elim (Bool-cases (relocation_overlaps delta len)) [
      | inl o ↦
          let fits = effective_chunk-fits ss delta len asked chunk e o in
          rw o (omega (arith, fits, add-mul first delta ss, suc-mul done chunk))
      | inr apart ↦
          let far : len ≤ delta = ground (arith, apart, nz) in
          let far' : len * ss ≤ delta * ss = mul-le-mul_right ss far in
          rw apart (omega (arith, far', add-mul first delta ss))
    ]

-- A move by at least one sector that has a chunk layout and a destination below byte 2^64, and
-- that stops after any number of checkpointed chunks with whatever its unfinished writes left
-- behind the checkpoint, ends with every byte of the partition at its destination and with no
-- other byte changed when it is taken up again. An unfinished write reaches no further than one
-- chunk where source and destination overlap, since there every chunk is checkpointed.
pub copy_chunks-survives :
    (first len delta ss asked chunk count done : ℕ) (orig mid torn : Memory)
    → delta ≢ 0
    → (first + delta) * ss + len * ss < u64_mod
    → move_chunk_layout len ss delta len asked ≡ some (chunk, count)
    → copy_chunks
        (first * ss)
        ((first + delta) * ss)
        0
        0
        (take done (chunks_from_tail (len * ss) chunk (len * ss)))
        orig
      ≡ ok mid
    → ((x : ℕ)
        → (x
            < (first + delta) * ss + redo_low (relocation_overlaps delta len) (len * ss) chunk done)
          ⊎ ((first + delta) * ss + (len * ss - done * chunk) ≤ x)
        → torn x ≡ mid x)
    → (end : Memory) × (copy_chunks
          (first * ss)
          ((first + delta) * ss)
          done
          0
          (chunks_from_tail (len * ss) chunk (len * ss))
          torn
        ≡ ok end)
      × ((i : ℕ) → i < len * ss → end ((first + delta) * ss + i) ≡ orig (first * ss + i))
      × ((x : ℕ)
          → (x < (first + delta) * ss) ⊎ ((first + delta) * ss + len * ss ≤ x)
          → end x ≡ orig x)
copy_chunks-survives first len delta ss asked chunk count done orig mid torn nz room layout ran
      same =
    let src : ℕ = first * ss in
    let dst : ℕ = (first + delta) * ss in
    let total : ℕ = len * ss in
    let (e, bytes, _) = move_chunk_layout-parts len ss delta len asked chunk count layout in
    let le : src ≤ dst = mul-le-mul_right ss (omega arith) in
    let before =
      copy_chunks-take orig src dst total chunk le room bytes total total done 0 orig mid
        (omega arith) (omega arith) (IsCopied-start orig src dst total) ran in
    let after =
      torn-IsCopied orig src dst total (total - done * chunk)
        (redo_low (relocation_overlaps delta len) total chunk done) mid torn (omega arith)
        (redo_clear first len delta ss asked chunk done nz e) same before in
    let (end, f, copied) =
      copy_chunks-resumes orig src dst total chunk le room bytes done total total 0 torn
        (omega arith) (omega arith) after in
    let num : 0 + done ≡ done = omega arith in
    (end, rw num at f, λ i below. copied.arrived i (omega arith) below, copied.outside)
