-- ===== src/Memory.antt =====
-- The bytes of a target by position, with the reads and writes of `FileSource` in src/dev/source.rs
-- that succeed.
use disk_edit.Prelude.{
  ℕ, zero, suc, ◌+◌, ◌≤◌, ◌<◌, ◌≡◌, refl, ◌∙◌, sym, ap, ◌⊎◌, inl, inr, List, [], ◌∷◌, length, arith,
  ◌==◌, if◌then◌else◌, true, false, Bool-cases,
}

abbrev pub Memory : Type 0
Memory = ℕ → ℕ

-- `read_at` of so many bytes.
unfoldable pub load : Memory → ℕ → ℕ → List ℕ
load mem off zero = []
load mem off (suc n) = mem off ∷ load mem (suc off) n

unfoldable pub store : Memory → ℕ → List ℕ → Memory
store mem off [] x = mem x
store mem off (b ∷ bs) x = if x == off then b else store mem (suc off) bs x

pub load-length : (mem : Memory) (off n : ℕ) → length (load mem off n) ≡ n
unfolding load
load-length mem off zero = refl
load-length mem off (suc n) = ap suc (load-length mem (suc off) n)

pub store-outside :
    (mem : Memory) (off : ℕ) (bs : List ℕ) (x : ℕ)
    → (x < off) ⊎ (off + length bs ≤ x)
    → store mem off bs x ≡ mem x
unfolding store
store-outside mem off [] x h = refl
store-outside mem off (b ∷ bs) x h =
    let other : (x == off) ≡ false = ground (arith, h) in
    let behind : (x < suc off) ⊎ (suc off + length bs ≤ x) = ground (arith, h) in
    rw other (store-outside mem (suc off) bs x behind)

-- Two memories with the same bytes in a range read the same there.
pub load-same :
    (m m' : Memory) (off n : ℕ)
    → ((x : ℕ) → off ≤ x → x < off + n → m x ≡ m' x)
    → load m off n ≡ load m' off n
unfolding load
load-same m m' off zero h = refl
load-same m m' off (suc n) h = rw (h off (omega arith) (omega arith)) (
    ap (λ t. m' off ∷ t)
      (load-same m m' (suc off) n λ x low high. h x (omega (arith, low)) (omega (arith, high))))

pub load-store :
    (mem : Memory) (off : ℕ) (bs : List ℕ) → load (store mem off bs) off (length bs) ≡ bs
unfolding load store
load-store mem off [] = refl
load-store mem off (b ∷ bs) =
    let here : (off == off) ≡ true = ground arith in
    let rest : load (store mem off (b ∷ bs)) (suc off) (length bs)
        ≡ load (store mem (suc off) bs) (suc off) (length bs) =
      load-same (store mem off (b ∷ bs)) (store mem (suc off) bs) (suc off) (length bs)
        λ x low high. step x low in
    rw here (ap (λ t. b ∷ t) (rest ∙ load-store mem (suc off) bs))
  where
    step : (x : ℕ) → suc off ≤ x → store mem off (b ∷ bs) x ≡ store mem (suc off) bs x
    step x low = let other : (x == off) ≡ false = ground (arith, low) in rw (store, other) refl

-- Writing back what stood there restores it.
pub store-load_inside :
    (mem m : Memory) (off n x : ℕ) → off ≤ x → x < off + n → store mem off (load m off n) x ≡ m x
unfolding load store
store-load_inside mem m off zero x low high = absurd (omega (arith, low, high))
store-load_inside mem m off (suc n) x low high = elim (Bool-cases (x == off)) [
  | inl here ↦ let at : x ≡ off = ground (arith, here) in rw here (ap m (sym at))
  | inr away ↦
      rw away
        (store-load_inside mem m (suc off) n x (ground (arith, away, low)) (omega (arith, high)))
]

pub load-same_inside :
    (m m' : Memory) (off n : ℕ)
    → load m off n ≡ load m' off n
    → (x : ℕ) → off ≤ x
    → x < off + n
    → m x ≡ m' x
unfolding load
load-same_inside m m' off zero h x low high = absurd (omega (arith, low, high))
load-same_inside m m' off (suc n) h x low high = elim (Bool-cases (x == off)) [
  | inl here ↦
      let at : x ≡ off = ground (arith, here) in
      let first : m off ≡ m' off = cc h in ap m at ∙ (first ∙ ap m' (sym at))
  | inr away ↦
      let rest : load m (suc off) n ≡ load m' (suc off) n = cc h in
      load-same_inside m m' (suc off) n rest x (ground (arith, away, low)) (omega (arith, high))
]
