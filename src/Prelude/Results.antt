-- ===== src/Prelude/Results.antt =====
-- Rust's `Result`, with `do` blocks, and the conversions between it and `Option`.
use mathlib.Core.Path.{◌≡◌, refl}
use mathlib.Core.Bool.{Bool, true, false}
use mathlib.Core.Option.{Option, none, some}

pub data Result {ℓ κ} (E : Type κ) (A : Type ℓ) : Type (ℓ ⊔ κ) where
  ok : A → Result E A
  err : E → Result E A

infixl 5 ◌>>=◌ ◌>>◌
abbrev pub ◌>>=◌ {ℓ κ μ} :
    {E : Type μ} {A : Type ℓ} {B : Type κ} → Result E A → (A → Result E B) → Result E B
ok a >>= f = f a
err e >>= f = err e

abbrev pub ◌>>◌ {ℓ μ} : {E : Type μ} {B : Type ℓ} → Result E (Unit {0}) → Result E B → Result E B
m >> k = m >>= λ _. k

-- `if c { return Err(e) }`
abbrev pub refuse_if {μ} : {E : Type μ} → Bool → E → Result E (Unit {0})
refuse_if true e = err e
refuse_if false e = ok tt

module _ {ℓ μ} {E : Type μ} {A : Type ℓ} where
  abbrev pub ok_or : Option A → E → Result E A
  ok_or none e = err e
  ok_or (some a) e = ok a

  -- `Result::ok`
  abbrev pub ok_part : Result E A → Option A
  ok_part (ok a) = some a
  ok_part (err e) = none

  abbrev pub map_err {ν} : {F : Type ν} → Result E A → (E → F) → Result F A
  map_err (ok a) f = ok a
  map_err (err e) f = err (f e)

  pub >>=-eq_ok {κ} :
      {B : Type κ} (m : Result E A) (f : A → Result E B) {b : B}
      → (m >>= f) ≡ ok b
      → (a : A) × (m ≡ ok a) × (f a ≡ ok b)
  >>=-eq_ok (ok a) f h = (a, refl, h)
  >>=-eq_ok (err e) f h = cc

  pub map_err-eq_ok {ν} :
      {F : Type ν} (r : Result E A) (f : E → F) {a : A} → map_err r f ≡ ok a → r ≡ ok a
  map_err-eq_ok (ok x) f h = cc
  map_err-eq_ok (err e) f h = cc
