-- ===== src/Undo/Heads.antt =====
-- The chain heads of a journal.
pub mod Done
use disk_edit.Prelude.{
  ℕ, suc, ◌+◌, ◌≤◌, ◌≡◌, ◌≢◌, refl, ◌∙◌, sym, ap, ◌⊎◌, inl, inr, Bool-cases, true, Option-cases,
  none, some, List, [], ◌∷◌, ◌++◌, length, reverse, Result, ok, err, arith, ◌==◌,
}
use mathlib.Core.Path.{subst}
use disk_edit.Memory.{Memory, load, load-same, load-same_inside}
use disk_edit.Outcome.{Message}
use disk_edit.Table.Guid.{guid_eq as bytes_eq, guid_eq_iff as bytes_eq_iff}
use disk_edit.Undo.{Device, Write, contains, lookup, or_insert, chain_heads, rolled_back}
use disk_edit.Undo.History.{
  Inside, Outside, Among, SameOrApart, Layout, IsWrite, Written, before-Outside, apart-Outside,
}
use disk_edit.Undo.Replay.{IsWorking}

-- Bytes that no write has hit.
pub untouched :
    (size : ℕ) (orig : Memory) (h : List Write) (mem : Memory)
    → Written size orig h mem
    → (x : ℕ) → ((v : Write) → Among v h → Outside v x)
    → mem x ≡ orig x
untouched size orig [] mem written x out = written x
untouched size orig (w ∷ h) mem (before, written, made) x out =
    before-Outside made x (out w (inl refl))
    ∙ untouched size orig h before written x λ v among. out v (inr among)

pub same_length :
    (h : List Write) (w v : Write)
    → Layout h
    → Among w h
    → Among v h
    → w.off ≡ v.off
    → length w.bytes ≡ length v.bytes
same_length [] w v layout none_w none_v at = absurd none_w
same_length (u ∷ h) w v (layout, layouts) (inl at_w) (inl at_v) at =
    ap (λ t. length t.bytes) (at_w ∙ sym at_v)
same_length (u ∷ h) w v (layout, layouts) (inl at_w) (inr in_v) at = go (layout v in_v)
  where
    go : SameOrApart u v → length w.bytes ≡ length v.bytes
    go (inl (_, long)) = ap (λ t. length t.bytes) at_w ∙ long
    go (inr (other, _)) = absurd (other (ap (λ t. t.off) (sym at_w) ∙ at))
same_length (u ∷ h) w v (layout, layouts) (inr in_w) (inl at_v) at = go (layout w in_w)
  where
    go : SameOrApart u w → length w.bytes ≡ length v.bytes
    go (inl (_, long)) = sym long ∙ ap (λ t. length t.bytes) (sym at_v)
    go (inr (other, _)) = absurd (other (ap (λ t. t.off) (sym at_v) ∙ sym at))
same_length (u ∷ h) w v (layout, layouts) (inr in_w) (inr in_v) at =
    same_length h w v layouts in_w in_v at

chain_heads-append :
    (heads : List (ℕ × List ℕ)) (ws : List Write) (w : Write)
    → chain_heads heads (ws ++ w ∷ []) ≡ or_insert (chain_heads heads ws) w.off w.bytes
unfolding chain_heads
chain_heads-append heads [] w = refl
chain_heads-append heads (v ∷ ws) w = chain_heads-append (or_insert heads v.off v.bytes) ws w

lookup-append :
    (hs : List (ℕ × List ℕ)) (o : ℕ) (bytes : List ℕ) (off : ℕ)
    → lookup (hs ++ (o, bytes) ∷ []) off ≡ none
    → (lookup hs off ≡ none) × (o ≢ off)
unfolding lookup
lookup-append [] o bytes off h = elim (Bool-cases (o == off)) [
  | inl at ↦ let found : some bytes ≡ none = rw at at h in absurd (cc found)
  | inr away ↦ (refl, ground (arith, away))
]
lookup-append ((p, b) ∷ hs) o bytes off h = elim (Bool-cases (p == off)) [
  | inl at ↦ let found : some b ≡ none = rw at at h in absurd (cc found)
  | inr away ↦
      let (rest, other) = lookup-append hs o bytes off (rw away at h) in (rw away rest, other)
]

Among-append : {A : Type 0} (a : A) (xs ys : List A) → Among a (xs ++ ys) → Among a xs ⊎ Among a ys
Among-append a [] ys h = inr h
Among-append a (x ∷ xs) ys (inl at) = inl (inl at)
Among-append a (x ∷ xs) ys (inr h) = elim (Among-append a xs ys h) [
  | inl l ↦ inl (inr l)
  | inr r ↦ inr r
]

append-Among : {A : Type 0} (a : A) (xs ys : List A) → Among a xs ⊎ Among a ys → Among a (xs ++ ys)
append-Among a [] ys (inl l) = absurd l
append-Among a [] ys (inr r) = r
append-Among a (x ∷ xs) ys (inl (inl at)) = inl at
append-Among a (x ∷ xs) ys (inl (inr l)) = inr (append-Among a xs ys (inl l))
append-Among a (x ∷ xs) ys (inr r) = inr (append-Among a xs ys (inr r))

pub Among-reverse : {A : Type 0} (a : A) (xs : List A) → Among a xs → Among a (reverse xs)
Among-reverse a [] h = h
Among-reverse a (x ∷ xs) (inl at) = append-Among a (reverse xs) (x ∷ []) (inr (inl at))
Among-reverse a (x ∷ xs) (inr h) = append-Among a (reverse xs) (x ∷ []) (inl (Among-reverse a xs h))

-- A chain head is what the bytes were before every write.
pub record HeadsFit (orig : Memory) (h : List Write) (heads : List (ℕ × List ℕ)) : Type 0 where
  pub original :
      (off : ℕ) (head : List ℕ)
      → Among {A = ℕ × List ℕ} (off, head) heads
      → (v : Write) × Among v h
        × (v.off ≡ off)
        × (length v.bytes ≡ length head)
        × (head ≡ load orig off (length head))
  pub covers : (v : Write) → Among v h → lookup heads v.off ≢ none

-- The head of a chain that starts with the last write.
new_head :
    (size : ℕ) (orig : Memory) (w : Write) (h : List Write) (before mem : Memory)
    → Written size orig h before
    → IsWrite size before mem w
    → ((v : Write) → Among v h → SameOrApart w v)
    → ((v : Write) → Among v h → v.off ≢ w.off)
    → w.bytes ≡ load orig w.off (length w.bytes)
new_head size orig w h before mem written made layout first =
    made.bytes
    ∙ load-same before orig w.off (length w.bytes) λ x low high.
      untouched size orig h before written x
        λ v among. apart-Outside v w (swapped v (layout v among)) (first v among) x (low, high)
  where
    swapped : (v : Write) → SameOrApart w v → SameOrApart v w
    swapped v (inl (at, long)) = inl (sym at, sym long)
    swapped v (inr (other, inl below)) = inr (λ e. other (sym e), inr below)
    swapped v (inr (other, inr above)) = inr (λ e. other (sym e), inl above)

-- One more write, on the heads that were found before.
insert_fit :
    (size : ℕ) (orig : Memory) (w : Write) (h : List Write) (before mem : Memory)
    (heads : List (ℕ × List ℕ))
    → Written size orig h before
    → IsWrite size before mem w
    → ((v : Write) → Among v h → SameOrApart w v)
    → HeadsFit orig h heads
    → HeadsFit orig (w ∷ h) (or_insert heads w.off w.bytes)
unfolding or_insert
insert_fit size orig w h before mem heads written made layout fit =
    elim (Option-cases (lookup heads w.off)) [
      | inl new ↦
          let same : or_insert heads w.off w.bytes ≡ heads ++ (w.off, w.bytes) ∷ [] =
            rw (or_insert, new) refl in
          subst (λ t. HeadsFit orig (w ∷ h) t) (sym same) (grown new)
      | inr (head, old) ↦
          let same : or_insert heads w.off w.bytes ≡ heads = rw (or_insert, old) refl in
          subst (λ t. HeadsFit orig (w ∷ h) t) (sym same) (kept head old)
    ]
  where
    older :
        (off : ℕ) (head : List ℕ)
        → Among {A = ℕ × List ℕ} (off, head) heads
        → (v : Write) × Among v (w ∷ h)
          × (v.off ≡ off)
          × (length v.bytes ≡ length head)
          × (head ≡ load orig off (length head))
    older off head among =
        let (v, there, at, long, was) = fit.original off head among in (v, inr there, at, long, was)

    newer :
        lookup heads w.off ≡ none
        → (off : ℕ) (head : List ℕ)
        → Among {A = ℕ × List ℕ} (off, head) heads
          ⊎ Among {A = ℕ × List ℕ} (off, head) ((w.off, w.bytes) ∷ [])
        → (v : Write) × Among v (w ∷ h)
          × (v.off ≡ off)
          × (length v.bytes ≡ length head)
          × (head ≡ load orig off (length head))
    newer new off head (inl among) = older off head among
    newer new off head (inr (inr nothing)) = absurd nothing
    newer new off head (inr (inl at)) =
        let at_off : off ≡ w.off = ap (λ t. t.0) at in
        let at_head : head ≡ w.bytes = ap (λ t. t.1) at in
        let was =
          new_head size orig w h before mem written made layout
            (λ v among e. fit.covers v among (rw e new)) in
        (w, inl refl, sym at_off, ap length (sym at_head), rw (at_off, at_head) was)

    grown : lookup heads w.off ≡ none → HeadsFit orig (w ∷ h) (heads ++ (w.off, w.bytes) ∷ [])
    grown new = record {
      original = λ off head among.
          newer new off head (Among-append (off, head) heads ((w.off, w.bytes) ∷ []) among);
      covers = λ v among missing.
          let (gone, other) = lookup-append heads w.off w.bytes v.off missing in
          elim among [
            | inl at ↦ other (ap (λ t. t.off) (sym at))
            | inr there ↦ fit.covers v there gone
          ];
    }

    kept : (head : List ℕ) → lookup heads w.off ≡ some head → HeadsFit orig (w ∷ h) heads
    kept head old = record {
      original = older;
      covers = λ v among missing. elim among [
        | inl at ↦
            let at_off : v.off ≡ w.off = ap (λ t. t.off) at in
            let gone : lookup heads w.off ≡ none = rw at_off at missing in cc (old, gone)
        | inr there ↦ fit.covers v there missing
      ];
    }

none_fit : (orig : Memory) → HeadsFit orig [] (chain_heads [] [])
unfolding chain_heads
none_fit orig = record {
  original = λ off head among. absurd among;
  covers = λ v among. absurd among;
}

pub heads_fit :
    (size : ℕ) (orig : Memory) (h : List Write) (mem : Memory)
    → Written size orig h mem
    → Layout h
    → HeadsFit orig h (chain_heads [] (reverse h))
heads_fit size orig [] mem written layout = none_fit orig
heads_fit size orig (w ∷ h) mem (before, written, made) (layout, layouts) =
    subst (λ t. HeadsFit orig (w ∷ h) t) (sym (chain_heads-append [] (reverse h) w))
      (insert_fit size orig w h before mem (chain_heads [] (reverse h)) written made layout
        (heads_fit size orig h before written layouts))

pub fits_inside :
    (size : ℕ) (orig : Memory) (h : List Write) (mem : Memory)
    → Written size orig h mem
    → (v : Write) → Among v h
    → v.off + length v.bytes ≤ size
fits_inside size orig [] mem written v among = absurd among
fits_inside size orig (w ∷ h) mem (before, written, made) v (inl at) = rw at made.fits
fits_inside size orig (w ∷ h) mem (before, written, made) v (inr among) =
    fits_inside size orig h before written v among

pub heads_inside :
    (dev : Device) (orig mem : Memory) (h : List Write)
    → Written dev.size orig h mem
    → Layout h
    → (o : ℕ) (head : List ℕ) → Among {A = ℕ × List ℕ} (o, head) (chain_heads [] (reverse h))
    → o + length head ≤ dev.size
heads_inside dev orig mem h written layout o head among =
    let fit = heads_fit dev.size orig h mem written layout in
    let (v, there, at, long, was) = fit.original o head among in
    omega (arith, fits_inside dev.size orig h mem written v there, at, long)
