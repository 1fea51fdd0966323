-- ===== src/Undo/Restore.antt =====
-- `undo` puts back what stood on the target before the writes that the journal records.
use disk_edit.Prelude.{
  ℕ, ◌+◌, ◌≤◌, ◌<◌, ◌≡◌, refl, ◌∙◌, sym, ap, ◌⊎◌, inl, inr, Bool-cases, true, false, ◌||◌, some,
  List, [], ◌∷◌, ◌++◌, length, reverse, take, ok, arith, ◌==◌, ltb, leb, u64_mod, checked_add,
  length-append,
}
use mathlib.Core.Path.{subst}
use disk_edit.Bytes.{drop}
use disk_edit.Bytes.Slices.{take-drop, append_assoc, append-nil, length-drop}
use disk_edit.Memory.{Memory, load, store, load-store, load-same, store-outside}
use disk_edit.Table.Guid.{guid_eq as bytes_eq}
use disk_edit.Undo.{
  Device, Write, agreeing, matches_journaled_write, contains, check_ranges, replay,
}
use disk_edit.Undo.History.{Inside, Outside, Among, Inside-or_Outside}
use disk_edit.Undo.Replay.{IsWorking}

reverse-append : {A : Type 0} (xs ys : List A) → reverse (xs ++ ys) ≡ reverse ys ++ reverse xs
reverse-append [] ys = sym (append-nil (reverse ys))
reverse-append (x ∷ xs) ys =
    ap (λ t. t ++ x ∷ []) (reverse-append xs ys) ∙ append_assoc (reverse ys) (reverse xs) (x ∷ [])

pub reverse-reverse : {A : Type 0} (xs : List A) → reverse (reverse xs) ≡ xs
reverse-reverse [] = refl
reverse-reverse (x ∷ xs) =
    reverse-append (reverse xs) (x ∷ []) ∙ ap (λ t. x ∷ t) (reverse-reverse xs)

reverse-length : {A : Type 0} (xs : List A) → length (reverse xs) ≡ length xs
reverse-length [] = refl
reverse-length (x ∷ xs) = length-append (reverse xs) (x ∷ []) ∙ omega (arith, reverse-length xs)

agreeing-append : (a b c : List ℕ) → length a ≤ agreeing (a ++ b) (a ++ c)
unfolding agreeing
agreeing-append [] b c = omega arith
agreeing-append (x ∷ a) b c =
    let same : (x == x) ≡ true = ground arith in rw same (omega (arith, agreeing-append a b c))

matches_journaled_write-covered :
    (now after pre : List ℕ)
    → length now ≡ length after
    → length now ≡ length pre
    → length now ≤ agreeing now after + agreeing (reverse now) (reverse pre)
    → matches_journaled_write now after pre ≡ true
unfolding matches_journaled_write
matches_journaled_write-covered now after pre a b covered =
    let same_a : (length now == length after) ≡ true = ground (arith, a) in
    let same_b : (length now == length pre) ≡ true = ground (arith, b) in
    let enough : leb (length now) (agreeing now after + agreeing (reverse now) (reverse pre))
        ≡ true =
      ground (arith, covered) in
    elim (Bool-cases (bytes_eq now after || bytes_eq now pre)) [
      | inl whole ↦ rw whole refl
      | inr mixed ↦ rw (mixed, same_a, same_b, enough) refl
    ]

-- The bytes of a write that was cut short are accepted.
pub matches_journaled_write-torn :
    (k : ℕ) (after pre : List ℕ)
    → length after ≡ length pre
    → matches_journaled_write (take k after ++ drop k pre) after pre ≡ true
matches_journaled_write-torn k after pre long =
    let front : List ℕ = take k after in
    let back : List ℕ = drop k pre in
    let now : List ℕ = front ++ back in
    let size = length-append front back in
    let whole : length front + length (drop k after) ≡ length after =
      sym (length-append front (drop k after)) ∙ ap length (take-drop k after) in
    let past = length-drop k after in
    let rest = length-drop k pre in
    let from_front : length front ≤ agreeing now after =
      subst (λ t. length front ≤ agreeing now t) (take-drop k after)
        (agreeing-append front back (drop k after)) in
    let turned : length (reverse back) ≤ agreeing (reverse now) (reverse pre) =
      subst (λ t. length (reverse back) ≤ agreeing (reverse now) (reverse t)) (take-drop k pre)
        (rw (reverse-append front back, reverse-append (take k pre) back)
          (agreeing-append (reverse back) (reverse front) (reverse (take k pre)))) in
    matches_journaled_write-covered now after pre (omega (arith, size, whole, past, rest, long))
      (omega (arith, size, whole, past, rest, long))
      (omega (arith, size, from_front, turned, reverse-length back))

pub check_ranges-ok :
    (dev : Device) (ws : List Write)
    → dev.size < u64_mod
    → ((v : Write) → Among v ws → v.off + length v.bytes ≤ dev.size)
    → check_ranges dev ws ≡ ok tt
unfolding check_ranges
check_ranges-ok dev [] word fits = refl
check_ranges-ok dev (w ∷ ws) word fits =
    let here = fits w (inl refl) in
    let sum : checked_add w.off (length w.bytes) ≡ some (w.off + length w.bytes) =
      ground (arith, here, word) in
    let in_range : ltb dev.size (w.off + length w.bytes) ≡ false = ground (arith, here) in
    rw (sum, in_range) (check_ranges-ok dev ws word λ v among. fits v (inr among))

pub replay-skips :
    (dev : Device) (rolled : List ℕ) (ws : List Write) (count : ℕ) (d : Memory)
    → ((v : Write) → Among v ws → contains rolled v.off ≡ true)
    → replay dev rolled ws count d ≡ (d, ok count)
unfolding replay
replay-skips dev rolled [] count d all = refl
replay-skips dev rolled (w ∷ ws) count d all =
    rw (replay, all w (inl refl)) (replay-skips dev rolled ws count d λ v among. all v (inr among))

module _ (dev : Device) (works : IsWorking dev) (word : dev.size < u64_mod) where
  -- The last write has reached the disk with its first `k` bytes; `k` may be 0 or all of them.
  abbrev pub IsTorn : Memory → Write → ℕ → Memory → Type 0
  IsTorn before w k d = (x : ℕ) → d x ≡ store before w.off (take k w.after ++ drop k w.bytes) x

  torn_length :
      (w : Write) (k : ℕ)
      → length w.after ≡ length w.bytes
      → length (take k w.after ++ drop k w.bytes) ≡ length w.bytes
  torn_length w k long =
      length-append (take k w.after) (drop k w.bytes)
      ∙ omega (
        arith,
        sym (length-append (take k w.after) (drop k w.after)) ∙ ap length (take-drop k w.after),
        length-drop k w.after,
        length-drop k w.bytes,
        long,
      )

  pub torn-Outside :
      (before d : Memory) (w : Write) (k : ℕ)
      → length w.after ≡ length w.bytes
      → IsTorn before w k d
      → (x : ℕ) → Outside w x
      → d x ≡ before x
  torn-Outside before d w k long torn x out =
      torn x
      ∙ store-outside before w.off (take k w.after ++ drop k w.bytes) x
          (rw (torn_length w k long) out)

  pub torn_read :
      (before d : Memory) (w : Write) (k : ℕ)
      → length w.after ≡ length w.bytes
      → IsTorn before w k d
      → load d w.off (length w.bytes) ≡ take k w.after ++ drop k w.bytes
  torn_read before d w k long torn =
      let now : List ℕ = take k w.after ++ drop k w.bytes in
      load-same d (store before w.off now) w.off (length w.bytes) (λ x low high. torn x)
      ∙ rw (torn_length w k long) at (load-store before w.off now)

  pub Inside-none :
      (h : List Write) (x : ℕ)
      → ((v : Write) × Among v h × Inside v x) ⊎ ((v : Write) → Among v h → Outside v x)
  Inside-none [] x = inr λ v among. absurd among
  Inside-none (w ∷ h) x = elim (Inside-or_Outside w x) [
    | inl inside ↦ inl (w, inl refl, inside)
    | inr out ↦ elim (Inside-none h x) [
      | inl (v, among, inside) ↦ inl (v, inr among, inside)
      | inr none_of ↦ inr λ v among. first w h x out none_of v among
    ]
  ]
    where
      first :
          (w : Write) (h : List Write) (x : ℕ)
          → Outside w x
          → ((v : Write) → Among v h → Outside v x)
          → (v : Write) → Among v (w ∷ h)
          → Outside v x
      first w h x out rest v (inl at) = rw at out
      first w h x out rest v (inr among) = rest v among
