-- ===== src/Bytes/Slices.antt =====
-- Numbers and slices are read back from where they were put.
use disk_edit.Prelude.{
  ℕ, zero, suc, ◌+◌, ◌-◌, ◌/◌, ◌^◌, ◌≤◌, ◌<◌, ◌≡◌, refl, ◌∙◌, ap, List, [], ◌∷◌, ◌++◌, length,
  arith, take, length-append,
}
use native.Mathlib.Nat.{mod-add-div', div-lt_iff_lt-mul, pow-suc}
use disk_edit.Bytes.{to_le, from_le, drop, number_at, fields, widths}

pub append_assoc {ℓ} : {A : Type ℓ} (xs ys zs : List A) → (xs ++ ys) ++ zs ≡ xs ++ (ys ++ zs)
append_assoc [] ys zs = refl
append_assoc (x ∷ xs) ys zs = ap (λ t. x ∷ t) (append_assoc xs ys zs)

pub append-nil {ℓ} : {A : Type ℓ} (xs : List A) → xs ++ [] ≡ xs
append-nil [] = refl
append-nil (x ∷ xs) = ap (λ t. x ∷ t) (append-nil xs)

pub from_le-to_le : (k n : ℕ) → n < 256 ^ k → from_le (to_le k n) ≡ n
unfolding from_le to_le
from_le-to_le zero n h = let z : n < 1 = h in omega arith
from_le-to_le (suc k) n h =
    let small : n / 256 < 256 ^ k = (div-lt_iff_lt-mul (omega arith)).1 (rw (pow-suc 256 k) at h) in
    let rest = from_le-to_le k (n / 256) small in rw rest (mod-add-div' n 256)

pub to_le-length : (k n : ℕ) → length (to_le k n) ≡ k
unfolding to_le
to_le-length zero n = refl
to_le-length (suc k) n = ap suc (to_le-length k (n / 256))

pub take-length {ℓ} : {A : Type ℓ} (xs ys : List A) → take (length xs) (xs ++ ys) ≡ xs
take-length [] [] = refl
take-length [] (y ∷ ys) = refl
take-length (x ∷ xs) ys = ap (λ t. x ∷ t) (take-length xs ys)

pub drop-length {ℓ} : {A : Type ℓ} (xs ys : List A) → drop (length xs) (xs ++ ys) ≡ ys
unfolding drop
drop-length [] ys = refl
drop-length (x ∷ xs) ys = drop-length xs ys

pub drop-past {ℓ} :
    {A : Type ℓ} (xs ys : List A) (n : ℕ) → drop (length xs + n) (xs ++ ys) ≡ drop n ys
unfolding drop
drop-past [] ys n = let none_before : 0 + n ≡ n = omega arith in rw none_before refl
drop-past (x ∷ xs) ys n =
    let one_more : suc (length xs) + n ≡ suc (length xs + n) = omega arith in
    rw one_more (drop-past xs ys n)

pub drop-all {ℓ} : {A : Type ℓ} (n : ℕ) (xs : List A) → length xs ≤ n → drop n xs ≡ []
unfolding drop
drop-all zero [] h = refl
drop-all zero (x ∷ xs) h = absurd (omega (arith, h))
drop-all (suc n) [] h = refl
drop-all (suc n) (x ∷ xs) h = drop-all n xs (omega (arith, h))

pub take-all {ℓ} : {A : Type ℓ} (n : ℕ) (xs : List A) → length xs ≤ n → take n xs ≡ xs
take-all zero [] h = refl
take-all zero (x ∷ xs) h = absurd (omega (arith, h))
take-all (suc n) [] h = refl
take-all (suc n) (x ∷ xs) h = ap (λ t. x ∷ t) (take-all n xs (omega (arith, h)))

pub take-within {ℓ} :
    {A : Type ℓ} (n : ℕ) (xs ys : List A) → n ≤ length xs → take n (xs ++ ys) ≡ take n xs
take-within zero xs ys h = refl
take-within (suc n) [] ys h = absurd (omega (arith, h))
take-within (suc n) (x ∷ xs) ys h = ap (λ t. x ∷ t) (take-within n xs ys (omega (arith, h)))

pub take-past {ℓ} :
    {A : Type ℓ} (xs ys : List A) (n : ℕ) → take (length xs + n) (xs ++ ys) ≡ xs ++ take n ys
take-past [] ys n = let none_before : 0 + n ≡ n = omega arith in rw none_before refl
take-past (x ∷ xs) ys n =
    let one_more : suc (length xs) + n ≡ suc (length xs + n) = omega arith in
    rw one_more (ap (λ t. x ∷ t) (take-past xs ys n))

pub take-drop {ℓ} : {A : Type ℓ} (n : ℕ) (xs : List A) → take n xs ++ drop n xs ≡ xs
unfolding drop
take-drop zero xs = refl
take-drop (suc n) [] = refl
take-drop (suc n) (x ∷ xs) = ap (λ t. x ∷ t) (take-drop n xs)

pub length-drop {ℓ} : {A : Type ℓ} (n : ℕ) (xs : List A) → length (drop n xs) ≡ length xs - n
unfolding drop
length-drop zero xs = omega arith
length-drop (suc n) [] = omega arith
length-drop (suc n) (x ∷ xs) = length-drop n xs ∙ omega arith

pub length-take_le {ℓ} : {A : Type ℓ} (n : ℕ) (xs : List A) → n ≤ length xs → length (take n xs) ≡ n
length-take_le zero xs h = refl
length-take_le (suc n) [] h = absurd (omega (arith, h))
length-take_le (suc n) (x ∷ xs) h = ap suc (length-take_le n xs (omega (arith, h)))

-- A number at the start, and one behind a field.
pub number_at-here : (k n : ℕ) (rest : List ℕ) → n < 256 ^ k → number_at 0 k (to_le k n ++ rest) ≡ n
unfolding number_at
number_at-here k n rest h =
    let got : take k (to_le k n ++ rest) ≡ to_le k n =
      rw (to_le-length k n) at (take-length (to_le k n) rest) in
    rw got (from_le-to_le k n h)

pub number_at-past :
    (k n at width : ℕ) (rest : List ℕ)
    → number_at (k + at) width (to_le k n ++ rest) ≡ number_at at width rest
unfolding number_at
number_at-past k n at width rest =
    let got : drop (k + at) (to_le k n ++ rest) ≡ drop at rest =
      rw (to_le-length k n) at (drop-past (to_le k n) rest at) in
    rw got refl

pub number_at-field :
    (before : List (ℕ × ℕ)) (k n : ℕ) (after : List (ℕ × ℕ)) (rest : List ℕ)
    → n < 256 ^ k
    → number_at (widths before) k (fields (before ++ (k, n) ∷ after) rest) ≡ n
unfolding fields
number_at-field [] k n after rest h = number_at-here k n (fields after rest) h
number_at-field ((w, x) ∷ before) k n after rest h =
    number_at-past w x (widths before) k (fields (before ++ (k, n) ∷ after) rest)
    ∙ number_at-field before k n after rest h

pub fields-append : (fs : List (ℕ × ℕ)) (xs ys : List ℕ) → fields fs xs ++ ys ≡ fields fs (xs ++ ys)
unfolding fields
fields-append [] xs ys = refl
fields-append ((k, n) ∷ fs) xs ys =
    append_assoc (to_le k n) (fields fs xs) ys ∙ ap (λ t. to_le k n ++ t) (fields-append fs xs ys)

pub length-fields :
    (fs : List (ℕ × ℕ)) (rest : List ℕ) → length (fields fs rest) ≡ widths fs + length rest
unfolding fields
length-fields [] rest = omega arith
length-fields ((k, n) ∷ fs) rest =
    length-append (to_le k n) (fields fs rest)
    ∙ omega (arith, to_le-length k n, length-fields fs rest)

-- Behind some bytes.
pub number_at-behind :
    (xs ys : List ℕ) (at width : ℕ)
    → number_at (length xs + at) width (xs ++ ys) ≡ number_at at width ys
unfolding number_at
number_at-behind xs ys at width = rw (drop-past xs ys at) refl
