-- ===== src/Prelude/Sort.antt =====
-- `sort_by_key` of the standard library as a stable insertion sort, and what it keeps.
use mathlib.Core.Path.{◌≡◌, refl}
use mathlib.Core.Logic.{◌⊎◌, inl, inr}
use mathlib.Core.Bool.{Bool, true, false}
use mathlib.Core.List.{List, [], ◌∷◌}
use Prim.Native.Nat.{ℕ, ◌≤◌}
use native.Mathlib.Omega.{arith}
use disk_edit.Prelude.Tests.{if◌then◌else◌, Bool-cases}
use disk_edit.Prelude.Lists.{All, Pairs}

-- `le x y`: `x` may stand before `y`. An element goes before those that it may precede.
module _ {ℓ} {A : Type ℓ} (le : A → A → Bool) where
  unfoldable pub insert_by : A → List A → List A
  insert_by x [] = x ∷ []
  insert_by x (y ∷ ys) = let rest = insert_by x ys in if le x y then x ∷ y ∷ ys else y ∷ rest

  unfoldable pub sort_by : List A → List A
  unfolding insert_by
  sort_by [] = []
  sort_by (x ∷ xs) = insert_by x (sort_by xs)

  insert_by-cons :
      (x y : A) (ys : List A)
      → ((insert_by x (y ∷ ys) ≡ x ∷ y ∷ ys) × (le x y ≡ true))
        ⊎ ((insert_by x (y ∷ ys) ≡ y ∷ insert_by x ys) × (le x y ≡ false))
  unfolding insert_by
  insert_by-cons x y ys = elim (Bool-cases (le x y)) [
    | inl yes' ↦ inl (rw yes', yes')
    | inr no' ↦ inr (rw no', no')
  ]

  insert_by-nil : (x : A) → insert_by x [] ≡ x ∷ []
  unfolding insert_by
  insert_by-nil x = refl

  All-insert {κ} : (P : A → Type κ) (x : A) (xs : List A) → P x → All P xs → All P (insert_by x xs)
  All-insert P x [] p h = rw insert_by-nil (p, tt)
  All-insert P x (y ∷ ys) p h = elim (insert_by-cons x y ys) [
    | inl (e, _) ↦ rw e (p, h)
    | inr (e, _) ↦ rw e (h.0, All-insert P x ys p h.1)
  ]

  All-uninsert {κ} :
      (P : A → Type κ) (x : A) (xs : List A) → All P (insert_by x xs) → P x × All P xs
  All-uninsert P x [] h = rw insert_by-nil at h
  All-uninsert P x (y ∷ ys) h = elim (insert_by-cons x y ys) [
    | inl (e, _) ↦ rw e at h
    | inr (e, _) ↦
        let h' : P y × All P (insert_by x ys) = rw e at h in
        let (p, hs) = All-uninsert P x ys h'.1 in (p, (h'.0, hs))
  ]

  pub All-sort {κ} : (P : A → Type κ) (xs : List A) → All P xs → All P (sort_by xs)
  unfolding sort_by
  All-sort P [] h = tt
  All-sort P (x ∷ xs) h = All-insert P x (sort_by xs) h.0 (All-sort P xs h.1)

  pub All-unsort {κ} : (P : A → Type κ) (xs : List A) → All P (sort_by xs) → All P xs
  unfolding sort_by
  All-unsort P [] h = tt
  All-unsort P (x ∷ xs) h =
      let (p, rest) = All-uninsert P x (sort_by xs) h in (p, All-unsort P xs rest)

  Pairs-insert {κ} :
      (R : A → A → Type κ) (flip : (x y : A) → R x y → R y x) (x : A) (xs : List A)
      → All (R x) xs
      → Pairs R xs
      → Pairs R (insert_by x xs)
  Pairs-insert R flip x [] a h = rw insert_by-nil (tt, tt)
  Pairs-insert R flip x (y ∷ ys) a h = elim (insert_by-cons x y ys) [
    | inl (e, _) ↦ rw e (a, h)
    | inr (e, _) ↦ rw e (All-insert (R y) x ys (flip x y a.0) h.0, Pairs-insert R flip x ys a.1 h.1)
  ]

  Pairs-uninsert {κ} :
      (R : A → A → Type κ) (flip : (x y : A) → R x y → R y x) (x : A) (xs : List A)
      → Pairs R (insert_by x xs)
      → All (R x) xs × Pairs R xs
  Pairs-uninsert R flip x [] h = (tt, tt)
  Pairs-uninsert R flip x (y ∷ ys) h = elim (insert_by-cons x y ys) [
    | inl (e, _) ↦ rw e at h
    | inr (e, _) ↦
        let h' : All (R y) (insert_by x ys) × Pairs R (insert_by x ys) = rw e at h in
        let (yx, yys) = All-uninsert (R y) x ys h'.0 in
        let (xys, rest) = Pairs-uninsert R flip x ys h'.1 in ((flip y x yx, xys), (yys, rest))
  ]

  -- A symmetric relation on all pairs does not depend on the order.
  pub Pairs-sort {κ} :
      (R : A → A → Type κ) (flip : (x y : A) → R x y → R y x) (xs : List A)
      → Pairs R xs
      → Pairs R (sort_by xs)
  unfolding sort_by
  Pairs-sort R flip [] h = tt
  Pairs-sort R flip (x ∷ xs) h =
      Pairs-insert R flip x (sort_by xs) (All-sort (R x) xs h.0) (Pairs-sort R flip xs h.1)

  pub Pairs-unsort {κ} :
      (R : A → A → Type κ) (flip : (x y : A) → R x y → R y x) (xs : List A)
      → Pairs R (sort_by xs)
      → Pairs R xs
  unfolding sort_by
  Pairs-unsort R flip [] h = tt
  Pairs-unsort R flip (x ∷ xs) h =
      let (a, rest) = Pairs-uninsert R flip x (sort_by xs) h in
      (All-unsort (R x) xs a, Pairs-unsort R flip xs rest)

  -- When the test follows a number, the list rises in it.
  module _ (key : A → ℕ) (up : (x y : A) → le x y ≡ true → key x ≤ key y)
      (down : (x y : A) → le x y ≡ false → key y ≤ key x) where
    All-from :
        (n : ℕ) (y : A) (ys : List A)
        → n ≤ key y
        → All (λ z. key y ≤ key z) ys
        → All (λ z. n ≤ key z) ys
    All-from n y [] h a = tt
    All-from n y (z ∷ zs) h a = (omega arith, All-from n y zs h a.1)

    insert_by-rises :
        (x : A) (xs : List A)
        → Pairs (λ a b. key a ≤ key b) xs
        → Pairs (λ a b. key a ≤ key b) (insert_by x xs)
    insert_by-rises x [] h = rw insert_by-nil (tt, tt)
    insert_by-rises x (y ∷ ys) h = elim (insert_by-cons x y ys) [
      | inl (e, t) ↦ rw e ((up x y t, All-from (key x) y ys (up x y t) h.0), h)
      | inr (e, f) ↦
          rw e (All-insert (λ z. key y ≤ key z) x ys (down x y f) h.0, insert_by-rises x ys h.1)
    ]

    pub sort_by-rises : (xs : List A) → Pairs (λ a b. key a ≤ key b) (sort_by xs)
    unfolding sort_by
    sort_by-rises [] = tt
    sort_by-rises (x ∷ xs) = insert_by-rises x (sort_by xs) (sort_by-rises xs)
