-- ===== src/Prelude/Lists.antt =====
-- Lists measured and indexed by native numbers, under the library's names, and predicates on them.
use Prim.Native.Nat.{ℕ, zero, suc, ◌+◌, ◌<◌}
use mathlib.Core.Path.{◌≡◌, refl, ap}
use mathlib.Core.Logic.{◌≢◌}
use mathlib.Core.Bool.{Bool, false, ◌||◌}
use mathlib.Core.List.{List, [], ◌∷◌, ◌++◌}
use mathlib.Core.Option.{Option, none, some}
use native.Mathlib.Omega.{arith}

module _ {ℓ} {A : Type ℓ} where
  abbrev pub length : List A → ℕ
  length [] = 0
  length (x ∷ xs) = suc (length xs)

  abbrev pub get_elem? : List A → ℕ → Option A
  get_elem? [] i = none
  get_elem? (x ∷ xs) zero = some x
  get_elem? (x ∷ xs) (suc i) = get_elem? xs i

  -- A write out of bounds changes nothing.
  abbrev pub set : List A → ℕ → A → List A
  set [] i v = []
  set (x ∷ xs) zero v = v ∷ xs
  set (x ∷ xs) (suc i) v = x ∷ set xs i v

  pub length-append : (xs ys : List A) → length (xs ++ ys) ≡ length xs + length ys
  length-append [] ys = omega arith
  length-append (x ∷ xs) ys = omega (arith, length-append xs ys)

module _ {ℓ} {A : Type ℓ} where
  pub length-set : (xs : List A) (i : ℕ) (v : A) → length (set xs i v) ≡ length xs
  length-set [] i v = refl
  length-set (x ∷ xs) zero v = refl
  length-set (x ∷ xs) (suc i) v = ap suc (length-set xs i v)

  pub get_elem?-set_self :
      (xs : List A) (i : ℕ) (v : A) → i < length xs → get_elem? (set xs i v) i ≡ some v
  get_elem?-set_self [] i v h = elim h [ ]
  get_elem?-set_self (x ∷ xs) zero v h = refl
  get_elem?-set_self (x ∷ xs) (suc i) v h = get_elem?-set_self xs i v (omega arith)

  pub get_elem?-set_ne :
      (xs : List A) {i j : ℕ} (v : A) → i ≢ j → get_elem? (set xs i v) j ≡ get_elem? xs j
  get_elem?-set_ne [] v h = refl
  get_elem?-set_ne (x ∷ xs) {i = zero} {j = zero} v h = absurd (h refl)
  get_elem?-set_ne (x ∷ xs) {i = zero} {j = suc j} v h = refl
  get_elem?-set_ne (x ∷ xs) {i = suc i} {j = zero} v h = refl
  get_elem?-set_ne (x ∷ xs) {i = suc i} {j = suc j} v h = get_elem?-set_ne xs v (λ e. h (ap suc e))

  -- An index that reads something is in range.
  pub get_elem?-lt_length : (xs : List A) (i : ℕ) {v : A} → get_elem? xs i ≡ some v → i < length xs
  get_elem?-lt_length [] i e = absurd (cc e)
  get_elem?-lt_length (x ∷ xs) zero e = omega arith
  get_elem?-lt_length (x ∷ xs) (suc i) e = omega (arith, get_elem?-lt_length xs i e)

module _ {ℓ} {A : Type ℓ} where
  abbrev pub All {κ} : (A → Type κ) → List A → Type κ
  All P [] = Unit {κ}
  All P (x ∷ xs) = P x × All P xs

  abbrev pub any : (A → Bool) → List A → Bool
  any p [] = false
  any p (x ∷ xs) = p x || any p xs

  -- A relation between every element and all that come after it.
  abbrev pub Pairs {κ} : (A → A → Type κ) → List A → Type κ
  Pairs R [] = Unit {κ}
  Pairs R (x ∷ xs) = All (R x) xs × Pairs R xs

  pub All-get_elem? {κ} :
      (P : A → Type κ) (xs : List A) (i : ℕ) {x : A} → All P xs → get_elem? xs i ≡ some x → P x
  All-get_elem? P [] i h e = absurd (cc e)
  All-get_elem? P (y ∷ ys) zero {x} h e = let same : y ≡ x = cc e in rw (← same) (h.0)
  All-get_elem? P (y ∷ ys) (suc i) h e = All-get_elem? P ys i h.1 e

  pub Pairs-get_elem? {κ} :
      (R : A → A → Type κ) (xs : List A) (i j : ℕ) {x y : A}
      → Pairs R xs
      → i < j
      → get_elem? xs i ≡ some x
      → get_elem? xs j ≡ some y
      → R x y
  Pairs-get_elem? R [] i j h l e f = absurd (cc e)
  Pairs-get_elem? R (z ∷ zs) i zero h l e f = absurd (omega (arith, l))
  Pairs-get_elem? R (z ∷ zs) zero (suc j) {x} {y} h l e f =
      let same : z ≡ x = cc e in
      let last : R z y = All-get_elem? (R z) zs j h.0 f in rw (← same) last
  Pairs-get_elem? R (z ∷ zs) (suc i) (suc j) h l e f =
      Pairs-get_elem? R zs i j h.1 (omega (arith, l)) e f

  abbrev pub reverse : List A → List A
  reverse [] = []
  reverse (x ∷ xs) = reverse xs ++ (x ∷ [])

  pub All-append {κ} : (P : A → Type κ) (xs ys : List A) → All P xs → All P ys → All P (xs ++ ys)
  All-append P [] ys h k = k
  All-append P (x ∷ xs) ys h k = (h.0, All-append P xs ys h.1 k)

  pub All-reverse {κ} : (P : A → Type κ) (xs : List A) → All P xs → All P (reverse xs)
  All-reverse P [] h = tt
  All-reverse P (x ∷ xs) h = All-append P (reverse xs) (x ∷ []) (All-reverse P xs h.1) (h.0, tt)

  pub Pairs-append_one {κ} :
      (R : A → A → Type κ) (xs : List A) (y : A)
      → Pairs R xs
      → All (λ x. R x y) xs
      → Pairs R (xs ++ (y ∷ []))
  Pairs-append_one R [] y h k = (tt, tt)
  Pairs-append_one R (x ∷ xs) y h k =
      (All-append (R x) xs (y ∷ []) h.0 (k.0, tt), Pairs-append_one R xs y h.1 k.1)

  pub Pairs-reverse {κ} :
      (R : A → A → Type κ) (xs : List A) → Pairs R xs → Pairs (λ x y. R y x) (reverse xs)
  Pairs-reverse R [] h = tt
  Pairs-reverse R (x ∷ xs) h =
      Pairs-append_one (λ x y. R y x) (reverse xs) x (Pairs-reverse R xs h.1)
        (All-reverse (R x) xs h.0)

  -- What follows from two relations and a predicate on both sides.
  pub All-combine {κ} :
      {P Q S : A → Type κ}
      → ((y : A) → P y → Q y → S y)
      → (xs : List A) → All P xs
      → All Q xs
      → All S xs
  All-combine f [] h k = tt
  All-combine f (x ∷ xs) h k = (f x h.0 k.0, All-combine f xs h.1 k.1)

  pub Pairs-combine {κ} :
      {P : A → Type κ} {R S T : A → A → Type κ}
      → ((x y : A) → P x → P y → R x y → S x y → T x y)
      → (xs : List A) → All P xs
      → Pairs R xs
      → Pairs S xs
      → Pairs T xs
  Pairs-combine f [] p r s = tt
  Pairs-combine {P} {R} {S} {T} f (x ∷ xs) p r s = (
    All-combine {P = λ y. P y × R x y} {Q = S x} {S = T x} (λ y (py, rxy) sxy. f x y p.0 py rxy sxy)
        xs (All-combine {P = P} {Q = R x} {S = λ y. P y × R x y} (λ y a b. (a, b)) xs p.1 r.0) s.0,
    Pairs-combine {P = P} {R = R} {S = S} {T = T} f xs p.1 r.1 s.1,
  )

  abbrev pub take : ℕ → List A → List A
  take zero xs = []
  take (suc n) [] = []
  take (suc n) (x ∷ xs) = x ∷ take n xs
