-- ===== src/Policy/Lookup.antt =====
-- What a partition number and `:last` mean in src/gpt_policy.rs, and the bytes of a partition.
use disk_edit.Prelude.{
  ℕ, zero, suc, ◌+◌, ◌≤◌, ◌≡◌, ◌≢◌, refl, ◌↔◌, ◌⊎◌, inl, inr, Option, none, some, List, [], ◌∷◌, ok,
  arith, All, get_elem?, ◌==◌, Bool-cases, ap, Option-cases, if◌then◌else◌, leb,
}
use disk_edit.Table.Gpt.{GptPartitionEntry}
use disk_edit.Policy.{
  gpt, last_one, last_used, gpt_candidates, last_used_gpt, resolve_part_in, live_slot, live_index,
}

live_slot-eq_ok :
    (part k i : ℕ) (o : Option GptPartitionEntry)
    → live_slot part k o ≡ ok i
    → (k ≡ i) × ((e : GptPartitionEntry) × (o ≡ some e) × (e.ending_lba ≢ 0))
live_slot-eq_ok part k i none h = cc
live_slot-eq_ok part k i (some e) h = (ground arith, (e, refl, ground arith))

live_slot-found :
    (part k : ℕ) (e : GptPartitionEntry) → e.ending_lba ≢ 0 → live_slot part k (some e) ≡ ok k
live_slot-found part k e h = ground arith

-- A partition number is found exactly when it names a slot, counted from 1, whose end is not 0;
-- the index that is found is the number less one.
pub live_index_iff :
    (es : List GptPartitionEntry) (part i : ℕ)
    → (live_index es part ≡ ok i) ↔ (
        (part ≡ suc i) × ((e : GptPartitionEntry) × (get_elem? es i ≡ some e) × (e.ending_lba ≢ 0)))
unfolding live_index
live_index_iff es zero i = ground arith
live_index_iff es (suc k) i = (
  λ h.
      let (same, (e, at, used)) = live_slot-eq_ok (suc k) k i (get_elem? es k) h in
      (ap suc same, (e, rw (← same) at, used)),
  λ (same, (e, at, used)).
      let k-is-i : k ≡ i = omega (arith, same) in
      rw (k-is-i, at) (live_slot-found (suc i) i e used),
)

-- The members of the candidate list.
gpt_candidates-cons :
    (n : ℕ) (e : GptPartitionEntry) (es : List GptPartitionEntry)
    → ((e.ending_lba ≡ 0) × (gpt_candidates n (e ∷ es) ≡ gpt_candidates (suc n) es))
      ⊎ ((e.ending_lba ≢ 0)
          × (gpt_candidates n (e ∷ es) ≡ (n, e.ending_lba) ∷ gpt_candidates (suc n) es))
unfolding gpt_candidates
gpt_candidates-cons n e es = elim (Bool-cases (e.ending_lba == 0)) [
  | inl z ↦ inl (ground arith, rw z)
  | inr nz ↦ inr (ground arith, rw nz)
]

last_used-All {κ} :
    (P : ℕ × ℕ → Type κ) (cs : List (ℕ × ℕ)) {c : ℕ × ℕ} → All P cs → last_used cs ≡ some c → P c
unfolding last_used
last_used-All P [] p h = absurd (cc h)
last_used-All P ((n, l) ∷ cs) {c} p h = elim (Option-cases (last_used cs)) [
  | inl e ↦ let same : (n, l) ≡ c = cc (rw e at h) in rw (← same) (p.0)
  | inr ((m, b), e) ↦
      let found : P (m, b) = last_used-All P cs p.1 e in
      let k : (if leb l b then some (m, b) else some (n, l)) ≡ some c = rw e at h in
      elim (Bool-cases (leb l b)) [
        | inl t ↦ let same : (m, b) ≡ c = cc (rw t at k) in rw (← same) found
        | inr f ↦ let same : (n, l) ≡ c = cc (rw f at k) in rw (← same) (p.0)
      ]
]

IsBelow : ℕ → ℕ × ℕ → Type 0
IsBelow b c = c.1 ≤ b

IsBelow-rise : (a b : ℕ) (cs : List (ℕ × ℕ)) → a ≤ b → All (IsBelow a) cs → All (IsBelow b) cs
unfolding IsBelow
IsBelow-rise a b [] h p = tt
IsBelow-rise a b (c ∷ cs) h p = (omega (arith, p.0), IsBelow-rise a b cs h p.1)

last_used-none : (cs : List (ℕ × ℕ)) → last_used cs ≡ none → cs ≡ []
unfolding last_used
last_used-none [] h = refl
last_used-none ((n, l) ∷ cs) h = elim (Option-cases (last_used cs)) [
  | inl e ↦ absurd (cc (rw e at h))
  | inr ((m, b), e) ↦ elim (Bool-cases (leb l b)) [
    | inl t ↦ absurd (cc (rw (e, t) at h))
    | inr f ↦ absurd (cc (rw (e, f) at h))
  ]
]

last_used-greatest : (cs : List (ℕ × ℕ)) (m b : ℕ) → last_used cs ≡ some (m, b) → All (IsBelow b) cs
unfolding last_used IsBelow
last_used-greatest [] m b h = tt
last_used-greatest ((n, l) ∷ cs) m b h = elim (Option-cases (last_used cs)) [
  | inl e ↦
      let same : ◌≡◌ {A = ℕ × ℕ} (n, l) (m, b) = cc (rw e at h) in
      let lb : l ≡ b = ap (λ c. c.1) same in (omega (arith, lb), rw (last_used-none cs e) tt)
  | inr ((m', b'), e) ↦
      let below = last_used-greatest cs m' b' e in
      let k : (if leb l b' then some (m', b') else some (n, l)) ≡ some (m, b) = rw e at h in
      elim (Bool-cases (leb l b')) [
        | inl t ↦
            let same : ◌≡◌ {A = ℕ × ℕ} (m', b') (m, b) = cc (rw t at k) in
            let bb : b' ≡ b = ap (λ c. c.1) same in
            (ground (arith, t, bb), IsBelow-rise b' b cs (omega (arith, bb)) below)
        | inr f ↦
            let same : ◌≡◌ {A = ℕ × ℕ} (n, l) (m, b) = cc (rw f at k) in
            let lb : l ≡ b = ap (λ c. c.1) same in
            (omega (arith, lb), IsBelow-rise b' b cs (ground (arith, f, lb)) below)
      ]
]

-- A candidate is a number and the end of the live entry that the number names.
Names : ℕ → List GptPartitionEntry → ℕ × ℕ → Type 0
Names n es c =
    (i : ℕ) × (e : GptPartitionEntry) × (c.0 ≡ n + i)
    × (get_elem? es i ≡ some e)
    × (c.1 ≡ e.ending_lba)
    × (e.ending_lba ≢ 0)

Names-next :
    (n : ℕ) (e : GptPartitionEntry) (es : List GptPartitionEntry) (cs : List (ℕ × ℕ))
    → All (Names (suc n) es) cs
    → All (Names n (e ∷ es)) cs
unfolding Names
Names-next n e es [] h = tt
Names-next n e es (c ∷ cs) ((i, x, num, at, end, nz), h) =
    ((suc i, x, omega (arith, num), at, end, nz), Names-next n e es cs h)

gpt_candidates-Names :
    (n : ℕ) (es : List GptPartitionEntry) → All (Names n es) (gpt_candidates n es)
unfolding gpt_candidates Names
gpt_candidates-Names n [] = tt
gpt_candidates-Names n (e ∷ es) = elim (gpt_candidates-cons n e es) [
  | inl (z, eq) ↦
      rw eq (Names-next n e es (gpt_candidates (suc n) es) (gpt_candidates-Names (suc n) es))
  | inr (nz, eq) ↦ rw eq (
    (0, e, omega arith, refl, refl, nz),
    Names-next n e es (gpt_candidates (suc n) es) (gpt_candidates-Names (suc n) es),
  )
]

gpt_candidates-covers :
    (n b : ℕ) (es : List GptPartitionEntry)
    → All (IsBelow b) (gpt_candidates n es)
    → All (λ e. e.ending_lba ≤ b) es
unfolding IsBelow
gpt_candidates-covers n b [] h = tt
gpt_candidates-covers n b (e ∷ es) h = elim (gpt_candidates-cons n e es) [
  | inl (z, eq) ↦ (omega arith, gpt_candidates-covers (suc n) b es (rw eq at h))
  | inr (nz, eq) ↦
      let h' : (e.ending_lba ≤ b) × All (IsBelow b) (gpt_candidates (suc n) es) = rw eq at h in
      (h'.0, gpt_candidates-covers (suc n) b es h'.1)
]

last_used_gpt-eq_some :
    (es : List GptPartitionEntry) (m : ℕ)
    → last_used_gpt es ≡ some m
    → (b : ℕ) × (last_used (gpt_candidates 1 es) ≡ some (m, b))
unfolding last_used_gpt
last_used_gpt-eq_some es m h = elim (Option-cases (last_used (gpt_candidates 1 es))) [
  | inl e ↦ absurd (cc (rw e at h))
  | inr ((n, b), e) ↦ let same : n ≡ m = cc (rw e at h) in (b, rw same at e)
]

-- `:last` on a GPT is the number of a live entry, and no entry of the table ends behind that one.
pub resolve_part_in-last_one :
    (es : List GptPartitionEntry) (ss m : ℕ)
    → resolve_part_in (gpt es ss) last_one ≡ ok m
    → (i : ℕ) × (e : GptPartitionEntry) × (m ≡ suc i)
      × (live_index es m ≡ ok i)
      × (get_elem? es i ≡ some e)
      × All (λ x. x.ending_lba ≤ e.ending_lba) es
unfolding resolve_part_in Names
resolve_part_in-last_one es ss m h =
    let found : last_used_gpt es ≡ some m = ground arith in
    let (b, made) = last_used_gpt-eq_some es m found in
    let (i, e, num, at, end, nz) =
      last_used-All (Names 1 es) (gpt_candidates 1 es) (gpt_candidates-Names 1 es) made in
    let m-is : m ≡ suc i = omega (arith, num) in
    let below = gpt_candidates-covers 1 b es (last_used-greatest (gpt_candidates 1 es) m b made) in
    (i, e, m-is, (live_index_iff es m i).1 (m-is, (e, at, nz)), at, rw end at below)
