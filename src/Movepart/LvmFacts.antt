-- ===== src/Movepart/LvmFacts.antt =====
-- `LvmPostFacts::encode` and `decode` of src/movepart/checkpoint.rs. The offset that `decode`
-- advances is the rest of the bytes here. `as_bytes` and `from_utf8` are those of the standard
-- library; a path starts with `/` when its first byte does.
pub mod RoundTrip
use disk_edit.Prelude.{
  ℕ, zero, suc, ◌+◌, ◌-◌, ◌*◌, ◌/◌, ◌%◌, Bool, true, false, not, ◌||◌, ◌&&◌, Option, none, some,
  List, [], ◌∷◌, ◌++◌, String, ltb, leb, ◌==◌, if◌then◌else◌, length, Result, ok, err, ◌>>=◌, ◌>>◌,
  refuse_if, ok_or,
}
use disk_edit.Bytes.{to_le, from_le}
use disk_edit.Outcome.{Message, plain}
use disk_edit.Movepart.Checkpoint.{LvmPostFacts}

-- `rd`: so many bytes, and what follows them.
unfoldable pub read_bytes : ℕ → List ℕ → Result Message (List ℕ × List ℕ)
read_bytes zero b = ok ([], b)
read_bytes (suc n) [] = err (plain "checkpoint truncated")
read_bytes (suc n) (x ∷ xs) = read_bytes n xs >>= λ (h, t). ok (x ∷ h, t)

unfoldable pub read_number : ℕ → List ℕ → Result Message (ℕ × List ℕ)
unfolding from_le
read_number width b = read_bytes width b >>= λ (h, t). ok (from_le h, t)

abbrev pub lv_path_max : ℕ
lv_path_max = 4096

abbrev pub is_absolute : List ℕ → Bool
is_absolute [] = false
is_absolute (c ∷ _) = c == 0x2F

-- The test on the numbers at the end of `decode`.
unfoldable pub is_plausible : Option String → ℕ → ℕ → ℕ → Bool
is_plausible none before target extent = before == 0 && (target == 0 && extent == 0)
is_plausible (some _) before target extent =
    not
      (extent == 0 || (before == 0 || (leb target before || not ((target - before) % extent == 0))))

abbrev implausible : Option String → Message
implausible none = plain "checkpoint LV facts present without an LV path"
implausible (some _) = plain "implausible checkpoint LV resize facts"

unfoldable pub read_numbers : Option String → List ℕ → Result Message (LvmPostFacts × List ℕ)
read_numbers lv_path b₀ = do
  (before, b₁) ← read_number 8 b₀
  (target, b₂) ← read_number 8 b₁
  (extent, b₃) ← read_number 8 b₂
  refuse_if (not (is_plausible lv_path before target extent)) (implausible lv_path)
  ok (
    record {
      lv_path = lv_path;
      lv_size_before = before;
      lv_target = target;
      extent_bytes = extent;
    },
    b₃,
  )

module _ (as_bytes : String → List ℕ) (from_utf8 : List ℕ → Option String) where
  unfoldable pub encode_path : Option String → List ℕ
  encode_path none = 0 ∷ []
  encode_path (some p) = 1 ∷ (to_le 4 (length (as_bytes p)) ++ as_bytes p)

  unfoldable pub encode : LvmPostFacts → List ℕ
  encode f =
      1
      ∷ (encode_path f.lv_path
          ++ (to_le 8 f.lv_size_before ++ (to_le 8 f.lv_target ++ to_le 8 f.extent_bytes)))

  -- The path after its marker 1.
  unfoldable pub read_path : List ℕ → Result Message (Option String × List ℕ)
  read_path b₀ = do
    (len, b₁) ← read_number 4 b₀
    refuse_if (len == 0 || ltb lv_path_max len) (plain "implausible checkpoint LV path length")
    (bytes, b₂) ← read_bytes len b₁
    p ← ok_or (from_utf8 bytes) (plain "checkpoint LV path is not UTF-8")
    refuse_if (not (is_absolute bytes)) (plain "checkpoint LV path is not absolute")
    ok (some p, b₂)

  -- After the flag 1: the marker of the path, the path and the numbers.
  unfoldable pub decode_facts : List ℕ → Result Message (LvmPostFacts × List ℕ)
  decode_facts [] = err (plain "checkpoint truncated")
  decode_facts (marker ∷ b) =
      if marker == 0
      then read_numbers none b
      else if marker == 1
      then (read_path b >>= λ (p, rest). read_numbers p rest)
      else err (plain "implausible checkpoint LV marker")

  unfoldable pub decode : List ℕ → Result Message (Option LvmPostFacts × List ℕ)
  decode [] = err (plain "checkpoint truncated")
  decode (flag ∷ b) =
      if flag == 0
      then ok (none, b)
      else if flag == 1
      then (decode_facts b >>= λ (f, rest). ok (some f, rest))
      else err (plain "implausible checkpoint LVM marker")
