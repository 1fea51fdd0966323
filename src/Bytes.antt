-- ===== src/Bytes.antt =====
-- Little-endian numbers and slices of bytes, as the codecs of src/dev and src/movepart use them.
-- A byte is a number below 256.
pub mod Slices
use disk_edit.Prelude.{ℕ, zero, suc, ◌+◌, ◌*◌, ◌/◌, ◌%◌, List, [], ◌∷◌, ◌++◌, take}

-- `to_le_bytes` of a number of so many bytes, and `from_le_bytes`.
unfoldable pub to_le : ℕ → ℕ → List ℕ
to_le zero n = []
to_le (suc k) n = n % 256 ∷ to_le k (n / 256)

unfoldable pub from_le : List ℕ → ℕ
from_le [] = 0
from_le (b ∷ bs) = b + from_le bs * 256

-- `&bytes[n..]`
unfoldable pub drop {ℓ} : {A : Type ℓ} → ℕ → List A → List A
drop zero xs = xs
drop (suc n) [] = []
drop (suc n) (_ ∷ xs) = drop n xs

-- `from_le_bytes(bytes[at..at + width])`
unfoldable pub number_at : ℕ → ℕ → List ℕ → ℕ
unfolding from_le drop
number_at at width b = from_le (take width (drop at b))

-- Numbers written one after the other, each with its width, before some bytes.
unfoldable pub fields : List (ℕ × ℕ) → List ℕ → List ℕ
fields [] rest = rest
fields ((k, n) ∷ fs) rest = to_le k n ++ fields fs rest

abbrev pub widths : List (ℕ × ℕ) → ℕ
widths [] = 0
widths ((k, _) ∷ fs) = k + widths fs
