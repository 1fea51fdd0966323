-- ===== src/Movepart/Layout/Copy.antt =====
-- What the copy loop of src/movepart/shift.rs does to the bytes, across interruptions.
pub mod Resume
use disk_edit.Prelude.{
  ℕ, zero, suc, ◌+◌, ◌-◌, ◌*◌, ◌≤◌, ◌<◌, ◌≡◌, ◌≢◌, refl, ◌⊎◌, inl, inr, Bool, true, false, ◌&&◌,
  min, List, [], ◌∷◌, ok, arith, ◌∙◌, >>=-eq_ok, ◌>>=◌, u64_mod, take, ltb, leb, Bool-cases, Option,
  none, some, if◌then◌else◌,
}
use native.Mathlib.Nat.{suc-mul, zero-mul}
use disk_edit.Memory.{Memory}
use disk_edit.Movepart.Layout.{chunks_from_tail, copy_bytes, copy_chunk, copy_chunks}

-- The bytes from `pos` on have arrived, those before it are still at the source, and nothing
-- outside the destination has changed.
pub record IsCopied (orig : Memory) (src dst total pos : ℕ) (mem : Memory) : Type 0 where
  pub arrived : (i : ℕ) → pos ≤ i → i < total → mem (dst + i) ≡ orig (src + i)
  pub source : (i : ℕ) → i < pos → mem (src + i) ≡ orig (src + i)
  pub outside : (x : ℕ) → (x < dst) ⊎ (dst + total ≤ x) → mem x ≡ orig x

copy_bytes-inside :
    (s d len : ℕ) (mem : Memory) (x : ℕ)
    → d ≤ x
    → x < d + len
    → copy_bytes s d len mem x ≡ mem (s + (x - d))
unfolding copy_bytes
copy_bytes-inside s d len mem x h k = ground arith

copy_bytes-outside :
    (s d len : ℕ) (mem : Memory) (x : ℕ)
    → (x < d) ⊎ (d + len ≤ x)
    → copy_bytes s d len mem x ≡ mem x
unfolding copy_bytes
copy_bytes-outside s d len mem x h = ground arith

-- One chunk before the bytes that have arrived.
copy_bytes-IsCopied :
    (orig : Memory) (src dst total pos len : ℕ) (mem : Memory)
    → src ≤ dst
    → len ≤ pos
    → pos ≤ total
    → IsCopied orig src dst total pos mem
    → IsCopied orig src dst total
        (pos - len)
        (copy_bytes (src + (pos - len)) (dst + (pos - len)) len mem)
copy_bytes-IsCopied orig src dst total pos len mem le fits within done = record {
  arrived = λ i low high. here i low high;
  source = λ i below.
      copy_bytes-outside (src + (pos - len)) (dst + (pos - len)) len mem (src + i)
        (inl (omega (arith, below, le, fits)))
      ∙ done.source i (omega (arith, below));
  outside = λ x away.
      copy_bytes-outside (src + (pos - len)) (dst + (pos - len)) len mem x (off x away)
      ∙ done.outside x away;
}
  where
    off :
        (x : ℕ)
        → (x < dst) ⊎ (dst + total ≤ x)
        → (x < dst + (pos - len)) ⊎ (dst + (pos - len) + len ≤ x)
    off x (inl h) = inl (omega arith)
    off x (inr h) = inr (omega arith)

    here :
        (i : ℕ)
        → pos - len ≤ i
        → i < total
        → copy_bytes (src + (pos - len)) (dst + (pos - len)) len mem (dst + i) ≡ orig (src + i)
    here i low high = elim (Bool-cases (ltb i pos)) [
      | inl new ↦
          let below : i < pos = ground (arith, new) in
          let at : src + (pos - len) + (dst + i - (dst + (pos - len))) ≡ src + i =
            omega (arith, below, low, fits) in
          copy_bytes-inside (src + (pos - len)) (dst + (pos - len)) len mem (dst + i)
            (omega (arith, low)) (omega (arith, below, fits))
          ∙ rw at (done.source i below)
      | inr old ↦
          let above : pos ≤ i = ground (arith, old) in
          copy_bytes-outside (src + (pos - len)) (dst + (pos - len)) len mem (dst + i)
            (inr (omega (arith, above, fits)))
          ∙ done.arrived i above high
    ]

-- A write that was cut short, into the destination but clear of the source that is still needed.
pub torn-IsCopied :
    (orig : Memory) (src dst total pos low : ℕ) (mem torn : Memory)
    → pos ≤ total
    → src + pos ≤ dst + low
    → ((x : ℕ) → (x < dst + low) ⊎ (dst + pos ≤ x) → torn x ≡ mem x)
    → IsCopied orig src dst total pos mem
    → IsCopied orig src dst total pos torn
torn-IsCopied orig src dst total pos low mem torn within clear same done = record {
  arrived = λ i above high. same (dst + i) (inr (omega (arith, above))) ∙ done.arrived i above high;
  source = λ i below. same (src + i) (inl (omega (arith, below, clear))) ∙ done.source i below;
  outside = λ x away. same x (off x away) ∙ done.outside x away;
}
  where
    off : (x : ℕ) → (x < dst) ⊎ (dst + total ≤ x) → (x < dst + low) ⊎ (dst + pos ≤ x)
    off x (inl h) = inl (omega arith)
    off x (inr h) = inr (omega arith)

-- One chunk of the loop, when no position overflows.
copy_chunk-IsCopied :
    (orig : Memory) (src dst total pos len : ℕ) (mem : Memory)
    → src ≤ dst
    → len ≤ pos
    → pos ≤ total
    → dst + total < u64_mod
    → IsCopied orig src dst total pos mem
    → (next : Memory) × (copy_chunk src dst (pos - len, len) mem ≡ ok next)
      × IsCopied orig src dst total (pos - len) next
unfolding copy_chunk
copy_chunk-IsCopied orig src dst total pos len mem le fits within room done = (
  copy_bytes (src + (pos - len)) (dst + (pos - len)) len mem,
  ground arith,
  copy_bytes-IsCopied orig src dst total pos len mem le fits within done,
)

copy_chunks-step :
    (src dst resume i : ℕ) (c : ℕ × ℕ) (cs : List (ℕ × ℕ)) (mem next : Memory)
    → resume ≤ i
    → copy_chunk src dst c mem ≡ ok next
    → copy_chunks src dst resume i (c ∷ cs) mem ≡ copy_chunks src dst resume (suc i) cs next
unfolding copy_chunks
copy_chunks-step src dst resume i c cs mem next h e =
    let f : ltb i resume ≡ false = ground arith in rw (copy_chunks, f, e) refl

pub copy_chunks-skip :
    (src dst resume i : ℕ) (c : ℕ × ℕ) (cs : List (ℕ × ℕ)) (mem : Memory)
    → i < resume
    → copy_chunks src dst resume i (c ∷ cs) mem ≡ copy_chunks src dst resume (suc i) cs mem
unfolding copy_chunks
copy_chunks-skip src dst resume i c cs mem h =
    let t : ltb i resume ≡ true = ground arith in rw (copy_chunks, t) refl

none_left : (n : ℕ) → 0 - n ≡ 0
none_left n = omega arith

module _ (orig : Memory) (src dst total chunk : ℕ) (le : src ≤ dst) (room : dst + total < u64_mod)
    (some_bytes : 1 ≤ chunk) where
  -- The rest of the loop once the resume point is reached.
  pub copy_chunks-IsCopied :
      (rounds pos resume i : ℕ) (mem : Memory)
      → pos ≤ rounds
      → pos ≤ total
      → resume ≤ i
      → IsCopied orig src dst total pos mem
      → (end : Memory) × (copy_chunks src dst resume i (chunks_from_tail rounds chunk pos) mem
          ≡ ok end)
        × IsCopied orig src dst total 0 end
  unfolding copy_chunks chunks_from_tail
  copy_chunks-IsCopied zero zero resume i mem h w r done = (mem, refl, done)
  copy_chunks-IsCopied zero (suc p) resume i mem h w r done = absurd (omega (arith, h))
  copy_chunks-IsCopied (suc n) zero resume i mem h w r done = (mem, refl, done)
  copy_chunks-IsCopied (suc n) (suc p) resume i mem h w r done =
      let len : ℕ = min chunk (suc p) in
      let (next, e, copied) =
        copy_chunk-IsCopied orig src dst total (suc p) len mem le (omega arith) w room done in
      let (end, f, rest) =
        copy_chunks-IsCopied n (suc p - len) resume (suc i) next (omega (arith, h, some_bytes))
          (omega (arith, w)) (omega (arith, r)) copied in
      (
        end,
        copy_chunks-step src dst resume i (suc p - len, len)
              (chunks_from_tail n chunk (suc p - len)) mem next r e
            ∙ f,
        rest,
      )

  -- The first chunks of the loop, without a resume point.
  pub copy_chunks-take :
      (rounds pos count i : ℕ) (mem mid : Memory)
      → pos ≤ rounds
      → pos ≤ total
      → IsCopied orig src dst total pos mem
      → copy_chunks src dst 0 i (take count (chunks_from_tail rounds chunk pos)) mem ≡ ok mid
      → IsCopied orig src dst total (pos - count * chunk) mid
  unfolding copy_chunks chunks_from_tail
  copy_chunks-take rounds pos zero i mem mid h w done e =
      let same : mem ≡ mid = cc e in
      let at : pos - 0 * chunk ≡ pos = omega (arith, zero-mul chunk) in rw (at, ← same) done
  copy_chunks-take zero zero (suc k) i mem mid h w done e =
      let same : mem ≡ mid = cc e in rw (none_left (suc k * chunk), ← same) done
  copy_chunks-take zero (suc p) (suc k) i mem mid h w done e = absurd (omega (arith, h))
  copy_chunks-take (suc n) zero (suc k) i mem mid h w done e =
      let same : mem ≡ mid = cc e in rw (none_left (suc k * chunk), ← same) done
  copy_chunks-take (suc n) (suc p) (suc k) i mem mid h w done e =
      let len : ℕ = min chunk (suc p) in
      let (next, f, copied) =
        copy_chunk-IsCopied orig src dst total (suc p) len mem le (omega arith) w room done in
      let step =
        copy_chunks-step src dst 0 i (suc p - len, len)
          (take k (chunks_from_tail n chunk (suc p - len))) mem next (omega arith) f in
      let rest =
        copy_chunks-take n (suc p - len) k (suc i) next mid (omega (arith, h, some_bytes))
          (omega (arith, w)) copied (rw step at e) in
      let at : suc p - len - k * chunk ≡ suc p - suc k * chunk = omega (arith, suc-mul k chunk) in
      rw at at rest
