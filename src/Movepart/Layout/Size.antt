-- ===== src/Movepart/Layout/Size.antt =====
-- The number of chunks of src/movepart/plan.rs `move_chunk_layout` is that of the copy loop.
use disk_edit.Prelude.{
  ℕ, zero, suc, ◌+◌, ◌-◌, ◌*◌, ◌/◌, ◌≤◌, ◌<◌, ◌≡◌, min, arith, length, some, true, inl, inr,
  Bool-cases, leb, leb→le, leb→gt,
}
use native.Mathlib.Nat.{suc-mul, zero-mul, div-lt_iff_lt-mul, le-div_iff_mul-le}
use disk_edit.Movepart.Layout.{
  relocation_overlaps, effective_chunk, chunk_count, move_chunk_layout, chunks_from_tail,
}

effective_chunk-le :
    (ss delta len asked chunk : ℕ) → effective_chunk ss delta len asked ≡ some chunk → chunk ≤ asked
unfolding effective_chunk
effective_chunk-le ss delta len asked chunk h = ground arith

pub effective_chunk-fits :
    (ss delta len asked chunk : ℕ)
    → effective_chunk ss delta len asked ≡ some chunk
    → relocation_overlaps delta len ≡ true
    → chunk ≤ delta * ss
unfolding effective_chunk
effective_chunk-fits ss delta len asked chunk h o = ground arith

pub move_chunk_layout-parts :
    (copy ss delta len asked chunk count : ℕ)
    → move_chunk_layout copy ss delta len asked ≡ some (chunk, count)
    → (effective_chunk ss delta len asked ≡ some chunk)
      × (1 ≤ chunk)
      × (count ≡ (copy * ss + (chunk - 1)) / chunk)
unfolding move_chunk_layout chunk_count
move_chunk_layout-parts copy ss delta len asked chunk count h = ground arith

-- The count of rounds brackets the bytes.
chunks_from_tail-length :
    (chunk rounds pos : ℕ)
    → 1 ≤ chunk
    → pos ≤ rounds
    → (pos ≤ length (chunks_from_tail rounds chunk pos) * chunk)
      × (length (chunks_from_tail rounds chunk pos) * chunk < pos + chunk)
      × (pos ≡ 0 → length (chunks_from_tail rounds chunk pos) * chunk ≡ 0)
unfolding chunks_from_tail
chunks_from_tail-length chunk zero zero h k =
    (omega (arith, zero-mul chunk), omega (arith, zero-mul chunk, h), λ _. zero-mul chunk)
chunks_from_tail-length chunk zero (suc p) h k = absurd (omega (arith, k))
chunks_from_tail-length chunk (suc n) zero h k =
    (omega (arith, zero-mul chunk), omega (arith, zero-mul chunk, h), λ _. zero-mul chunk)
chunks_from_tail-length chunk (suc n) (suc p) h k =
    let rest : ℕ = suc p - min chunk (suc p) in
    let (low, high, nil) = chunks_from_tail-length chunk n rest h (omega (arith, h, k)) in
    let more = suc-mul (length (chunks_from_tail n chunk rest)) chunk in
    let top : length (chunks_from_tail n chunk rest) * chunk < suc p =
      elim (Bool-cases (leb chunk (suc p))) [
        | inl fits ↦ omega (arith, high, leb→le chunk (suc p) fits)
        | inr short ↦ omega (arith, nil (omega (arith, leb→gt chunk (suc p) short)))
      ] in
    (omega (arith, low, more), omega (arith, top, more), λ z. absurd (omega (arith, z)))

-- A quotient is known from the two multiples around it.
quotient_unique :
    (n q chunk : ℕ) → 1 ≤ chunk → q * chunk ≤ n → n < q * chunk + chunk → n / chunk ≡ q
quotient_unique n q chunk h low high =
    let at_least : q ≤ n / chunk = (le-div_iff_mul-le h).1 low in
    let at_most : n / chunk < suc q =
      (div-lt_iff_lt-mul h).1 (omega (arith, high, suc-mul q chunk)) in
    omega (arith, at_least, at_most)

-- The layout of a move: a chunk is never empty nor larger than what was asked for, the count is the
-- number of rounds of the copy loop, and where source and destination overlap no chunk is larger
-- than the distance between them.
pub move_chunk_layout_lem :
    (copy ss delta len asked chunk count : ℕ)
    → move_chunk_layout copy ss delta len asked ≡ some (chunk, count)
    → (1 ≤ chunk)
      × (chunk ≤ asked)
      × (length (chunks_from_tail (copy * ss) chunk (copy * ss)) ≡ count)
      × (relocation_overlaps delta len ≡ true → chunk ≤ delta * ss)
move_chunk_layout_lem copy ss delta len asked chunk count h =
    let (e, bytes, num) = move_chunk_layout-parts copy ss delta len asked chunk count h in
    let total : ℕ = copy * ss in
    let n : ℕ = length (chunks_from_tail total chunk total) in
    let (low, high, _) = chunks_from_tail-length chunk total total bytes (omega arith) in
    let q : (total + (chunk - 1)) / chunk ≡ n =
      quotient_unique (total + (chunk - 1)) n chunk bytes (omega (arith, high, bytes))
        (omega (arith, low, bytes)) in
    (
      bytes,
      effective_chunk-le ss delta len asked chunk e,
      omega (arith, q, num),
      effective_chunk-fits ss delta len asked chunk e,
    )
