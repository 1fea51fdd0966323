-- ===== src/Undo/History.antt =====
-- The writes that a journal records, and the disk between them while they are rolled back.
use disk_edit.Prelude.{
  ℕ, ◌+◌, ◌≤◌, ◌<◌, ◌≡◌, ◌≢◌, refl, ◌∙◌, sym, ap, ◌⊎◌, inl, inr, Bool-cases, true, false, List, [],
  ◌∷◌, length, arith, ltb,
}
use disk_edit.Memory.{Memory, load, store, load-same, load-store, store-outside, store-load_inside}
use disk_edit.Table.Guid.{guid_eq_iff as bytes_eq_iff}
use disk_edit.Undo.{Write, contains, matches_journaled_write}

abbrev pub Inside : Write → ℕ → Type 0
Inside w x = (w.off ≤ x) × (x < w.off + length w.bytes)

abbrev pub Outside : Write → ℕ → Type 0
Outside w x = (x < w.off) ⊎ (w.off + length w.bytes ≤ x)

abbrev pub Among : {A : Type 0} → A → List A → Type 0
Among w [] = ⊥
Among w (v ∷ h) = (w ≡ v) ⊎ Among w h

-- Two writes hit the same bytes, or none in common.
abbrev pub SameOrApart : Write → Write → Type 0
SameOrApart w v =
    ((w.off ≡ v.off) × (length w.bytes ≡ length v.bytes))
    ⊎ ((w.off ≢ v.off) × ((w.off + length w.bytes ≤ v.off) ⊎ (v.off + length v.bytes ≤ w.off)))

abbrev pub Layout : List Write → Type 0
Layout [] = Unit
Layout (w ∷ h) = ((v : Write) → Among v h → SameOrApart w v) × Layout h

-- One write of `WriteSource::write_at`, of which the journal has what stood there before.
pub record IsWrite (size : ℕ) (before mem : Memory) (w : Write) : Type 0 where
  pub bytes : w.bytes ≡ load before w.off (length w.bytes)
  pub as_long : length w.after ≡ length w.bytes
  pub fits : w.off + length w.bytes ≤ size
  pub done : (x : ℕ) → mem x ≡ store before w.off w.after x

-- The memory that these writes, the last one first, have made of `orig`.
abbrev pub Written : ℕ → Memory → List Write → Memory → Type 0
Written size orig [] mem = (x : ℕ) → mem x ≡ orig x
Written size orig (w ∷ h) mem =
    (before : Memory) × Written size orig h before × IsWrite size before mem w

-- The disk `d` on the way back, where the writes `h` are still to be rolled back from `mem`.
pub record OnTheWay (orig : Memory) (rolled : List ℕ) (d : Memory) (h : List Write) (mem : Memory)
    : Type 0 where
  pub pending :
      (w : Write) → Among w h → contains rolled w.off ≡ false → (x : ℕ) → Inside w x → d x ≡ mem x
  pub either : (x : ℕ) → (d x ≡ mem x) ⊎ (d x ≡ orig x)
  pub back :
      (w : Write) → Among w h → contains rolled w.off ≡ true → (x : ℕ) → Inside w x → d x ≡ orig x

-- The same, where the last write may have been cut short.
pub record Interrupted (orig : Memory) (rolled : List ℕ) (d : Memory) (w : Write) (h : List Write)
    (mem : Memory) : Type 0 where
  pub last :
      contains rolled w.off ≡ false
      → matches_journaled_write (load d w.off (length w.bytes)) w.after w.bytes ≡ true
  pub last_back : contains rolled w.off ≡ true → (x : ℕ) → Inside w x → d x ≡ orig x
  pub pending :
      (v : Write)
      → Among v h
      → contains rolled v.off ≡ false
      → (x : ℕ) → Inside v x
      → Outside w x
      → d x ≡ mem x
  pub either : (x : ℕ) → Outside w x → (d x ≡ mem x) ⊎ (d x ≡ orig x)
  pub back :
      (v : Write) → Among v h → contains rolled v.off ≡ true → (x : ℕ) → Inside v x → d x ≡ orig x

pub Inside-or_Outside : (w : Write) (x : ℕ) → Inside w x ⊎ Outside w x
Inside-or_Outside w x = elim (Bool-cases (ltb x w.off)) [
  | inl low ↦ inr (inl (ground (arith, low)))
  | inr high ↦ elim (Bool-cases (ltb x (w.off + length w.bytes))) [
    | inl within ↦ inl (ground (arith, high), ground (arith, within))
    | inr past ↦ inr (inr (ground (arith, past)))
  ]
]

-- Writes at different offsets have no byte in common.
pub apart-Outside :
    (w v : Write) → SameOrApart w v → w.off ≢ v.off → (x : ℕ) → Inside v x → Outside w x
apart-Outside w v (inl (same, _)) other x _ = absurd (other same)
apart-Outside w v (inr (_, inl below)) other x (low, high) = inr (omega (arith, below, low))
apart-Outside w v (inr (_, inr above)) other x (low, high) = inl (omega (arith, above, high))

pub rolled_ne :
    (rolled : List ℕ) (a b : ℕ) → contains rolled a ≡ false → contains rolled b ≡ true → a ≢ b
rolled_ne rolled a b left passed same =
    let clash : contains rolled b ≡ false = rw same at left in cc (passed, clash)

pub before-Outside :
    {size : ℕ} {before mem : Memory} {w : Write}
    → IsWrite size before mem w
    → (x : ℕ) → Outside w x
    → mem x ≡ before x
before-Outside {size} {before} {mem} {w} h x out =
    h.done x ∙ store-outside before w.off w.after x (rw h.as_long out)

pub matches_journaled_write-after :
    (now after pre : List ℕ) → now ≡ after → matches_journaled_write now after pre ≡ true
unfolding matches_journaled_write
matches_journaled_write-after now after pre same = rw ((bytes_eq_iff now after).1 same) refl

-- What stands at a write that was made and not yet rolled back is what was written.
pub OnTheWay-Interrupted :
    {size : ℕ} {orig d before mem : Memory} {rolled : List ℕ} (w : Write) (h : List Write)
    → IsWrite size before mem w
    → OnTheWay orig rolled d (w ∷ h) mem
    → Interrupted orig rolled d w h mem
OnTheWay-Interrupted {size} {orig} {d} {before} {mem} {rolled} w h made way = record {
  last = λ left.
      let n : ℕ = length w.bytes in
      let there : load d w.off n ≡ load mem w.off n =
        load-same d mem w.off n λ x low high. way.pending w (inl refl) left x (low, high) in
      let stored : load mem w.off n ≡ load (store before w.off w.after) w.off n =
        load-same mem (store before w.off w.after) w.off n λ x low high. made.done x in
      let read : load (store before w.off w.after) w.off n ≡ w.after =
        rw made.as_long at (load-store before w.off w.after) in
      matches_journaled_write-after (load d w.off n) w.after w.bytes (there ∙ (stored ∙ read));
  last_back = λ passed x inside. way.back w (inl refl) passed x inside;
  pending = λ v among left x inside out. way.pending v (inr among) left x inside;
  either = λ x out. way.either x;
  back = λ v among passed x inside. way.back v (inr among) passed x inside;
}

-- A write whose whole chain is rolled back already is passed over.
pub skipped-OnTheWay :
    {size : ℕ} {orig d before mem : Memory} {rolled : List ℕ} (w : Write) (h : List Write)
    → IsWrite size before mem w
    → ((v : Write) → Among v h → SameOrApart w v)
    → contains rolled w.off ≡ true
    → Interrupted orig rolled d w h mem
    → OnTheWay orig rolled d h before
skipped-OnTheWay {size} {orig} {d} {before} {mem} {rolled} w h made layout passed way = record {
  pending = λ v among left x inside.
      let out : Outside w x =
        apart-Outside w v (layout v among)
          (λ same. rolled_ne rolled v.off w.off left passed (sym same)) x inside in
      way.pending v among left x inside out ∙ before-Outside made x out;
  either = λ x. elim (Inside-or_Outside w x) [
    | inl inside ↦ inr (way.last_back passed x inside)
    | inr out ↦ elim (way.either x out) [
      | inl here ↦ inl (here ∙ before-Outside made x out)
      | inr home ↦ inr home
    ]
  ];
  back = way.back;
}

-- Rolling back the last write.
pub rolled-OnTheWay :
    {size : ℕ} {orig d before mem : Memory} {rolled : List ℕ} (w : Write) (h : List Write)
    → IsWrite size before mem w
    → ((v : Write) → Among v h → SameOrApart w v)
    → contains rolled w.off ≡ false
    → Interrupted orig rolled d w h mem
    → OnTheWay orig rolled (store d w.off w.bytes) h before
rolled-OnTheWay {size} {orig} {d} {before} {mem} {rolled} w h made layout left way = record {
  pending = λ v among no_v x inside_v. elim (Inside-or_Outside w x) [
    | inl inside ↦ restored x inside
    | inr out ↦
        store-outside d w.off w.bytes x out
        ∙ (way.pending v among no_v x inside_v out ∙ before-Outside made x out)
  ];
  either = λ x. elim (Inside-or_Outside w x) [
    | inl inside ↦ inl (restored x inside)
    | inr out ↦ elim (way.either x out) [
      | inl here ↦ inl (store-outside d w.off w.bytes x out ∙ (here ∙ before-Outside made x out))
      | inr home ↦ inr (store-outside d w.off w.bytes x out ∙ home)
    ]
  ];
  back = λ v among passed x inside_v.
      let out : Outside w x =
        apart-Outside w v (layout v among) (rolled_ne rolled w.off v.off left passed) x inside_v in
      store-outside d w.off w.bytes x out ∙ way.back v among passed x inside_v;
}
  where
    restored : (x : ℕ) → Inside w x → store d w.off w.bytes x ≡ before x
    restored x (low, high) =
        ap (λ t. store d w.off t x) made.bytes
        ∙ store-load_inside d before w.off (length w.bytes) x low high
