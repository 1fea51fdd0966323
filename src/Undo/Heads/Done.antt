-- ===== src/Undo/Heads/Done.antt =====
-- The offsets that an earlier rollback has done with, and what stands on the disk there.
use disk_edit.Prelude.{
  ℕ, suc, ◌+◌, ◌≤◌, ◌≡◌, ◌≢◌, refl, ◌∙◌, sym, ap, inl, inr, Bool-cases, true, none, List, [], ◌∷◌,
  length, reverse, Result, ok, err, arith, ◌==◌,
}
use disk_edit.Memory.{Memory, load, load-same_inside}
use disk_edit.Outcome.{Message}
use disk_edit.Table.Guid.{guid_eq as bytes_eq, guid_eq_iff as bytes_eq_iff}
use disk_edit.Undo.{Device, Write, contains, lookup, chain_heads, rolled_back}
use disk_edit.Undo.History.{Inside, Among, Layout, Written}
use disk_edit.Undo.Replay.{IsWorking}
use disk_edit.Undo.Heads.{same_length, heads_fit, heads_inside}

abbrev Pair : ℕ × List ℕ → ℕ × List ℕ → Type 0
Pair a b = a ≡ b

-- What the offsets that are done with say of the disk `d`.
rolled_back-Among :
    (dev : Device) (works : IsWorking dev) (d : Memory) (heads : List (ℕ × List ℕ)) (off : ℕ)
    → ((o : ℕ) (head : List ℕ)
        → Among {A = ℕ × List ℕ} (o, head) heads
        → o + length head ≤ dev.size)
    → contains (rolled_back dev d heads) off ≡ true
    → (head : List ℕ) × Among {A = ℕ × List ℕ} (off, head) heads × (load d off (length head) ≡ head)
unfolding rolled_back contains
rolled_back-Among dev works d [] off fits passed = absurd (cc passed)
rolled_back-Among dev works d ((o, head) ∷ heads) off fits passed =
    let later = λ (h : contains (rolled_back dev d heads) off ≡ true).
      rolled_back-Among dev works d heads off (λ p b among. fits p b (inr among)) h in
    let read = works.reads d o (length head) (fits o head (inl refl)) in
    elim (Bool-cases (bytes_eq (load d o (length head)) head)) [
      | inl same ↦
          let now : contains (o ∷ rolled_back dev d heads) off ≡ true =
            rw (rolled_back, read, same) at passed in
          elim (Bool-cases (o == off)) [
            | inl at ↦
                let here : off ≡ o = ground (arith, at) in
                let pair : Pair (off, head) (o, head) = ap (λ p. (p, head)) here in
                (head, inl pair, rw here ((bytes_eq_iff (load d o (length head)) head).0 same))
            | inr away ↦ let (b, among, was) = later (rw away at now) in (b, inr among, was)
          ]
      | inr differs ↦
          let now : contains (rolled_back dev d heads) off ≡ true =
            rw (rolled_back, read, differs) at passed in
          let (b, among, was) = later now in (b, inr among, was)
    ]

rolled_back-length :
    (dev : Device) (d : Memory) (heads : List (ℕ × List ℕ))
    → length (rolled_back dev d heads) ≤ length heads
unfolding rolled_back
rolled_back-length dev d [] = omega arith
rolled_back-length dev d ((o, head) ∷ heads) =
    go (rolled_back-length dev d heads) (dev.read_at d o (length head)) refl
  where
    go :
        length (rolled_back dev d heads) ≤ length heads
        → (r : Result Message (List ℕ)) → dev.read_at d o (length head) ≡ r
        → length (rolled_back dev d ((o, head) ∷ heads)) ≤ suc (length heads)
    go more (err e) eq = rw (rolled_back, eq) (omega (arith, more))
    go more (ok buf) eq = elim (Bool-cases (bytes_eq buf head)) [
      | inl same ↦ rw (rolled_back, eq, same) (omega (arith, more))
      | inr differs ↦ rw (rolled_back, eq, differs) (omega (arith, more))
    ]

-- When every head stands on the disk, every offset is done with.
pub rolled_back-all :
    (dev : Device) (works : IsWorking dev) (d : Memory) (heads : List (ℕ × List ℕ)) (off : ℕ)
    → ((o : ℕ) (head : List ℕ)
        → Among {A = ℕ × List ℕ} (o, head) heads
        → o + length head ≤ dev.size)
    → length (rolled_back dev d heads) ≡ length heads
    → lookup heads off ≢ none
    → contains (rolled_back dev d heads) off ≡ true
unfolding rolled_back contains lookup
rolled_back-all dev works d [] off fits same found = absurd (found refl)
rolled_back-all dev works d ((o, head) ∷ heads) off fits same found =
    let later =
      λ (l : length (rolled_back dev d heads) ≡ length heads) (f : lookup heads off ≢ none).
        rolled_back-all dev works d heads off (λ p b among. fits p b (inr among)) l f in
    let read = works.reads d o (length head) (fits o head (inl refl)) in
    let most = rolled_back-length dev d heads in
    elim (Bool-cases (bytes_eq (load d o (length head)) head)) [
      | inl stands ↦
          let sum : suc (length (rolled_back dev d heads)) ≡ suc (length heads) =
            rw (rolled_back, read, stands) at same in
          rw (rolled_back, read, stands)
            (elim (Bool-cases (o == off)) [
              | inl at ↦ rw at refl
              | inr away ↦ rw away (later (omega (arith, sum)) (rw away at found))
            ])
      | inr differs ↦
          let sum : length (rolled_back dev d heads) ≡ suc (length heads) =
            rw (rolled_back, read, differs) at same in
          absurd (omega (arith, sum, most))
    ]

-- A write of which the whole chain is done with has left what was there before every write.
pub done_back :
    (dev : Device) (works : IsWorking dev) (orig mem d : Memory) (h : List Write)
    → Written dev.size orig h mem
    → Layout h
    → (v : Write) → Among v h
    → contains (rolled_back dev d (chain_heads [] (reverse h))) v.off ≡ true
    → (x : ℕ) → Inside v x
    → d x ≡ orig x
done_back dev works orig mem d h written layout v among passed x (low, high) =
    let fit = heads_fit dev.size orig h mem written layout in
    let (head, there, stands) =
      rolled_back-Among dev works d (chain_heads [] (reverse h)) v.off
        (heads_inside dev orig mem h written layout) passed in
    let (u, among_u, at, long, was) = fit.original v.off head there in
    let as_long : length v.bytes ≡ length head =
      same_length h v u layout among among_u (sym at) ∙ long in
    load-same_inside d orig v.off (length head) (stands ∙ was) x low (omega (arith, high, as_long))
