-- ===== src/Movepart/LvmFacts/RoundTrip.antt =====
-- What src/movepart/checkpoint.rs writes of LVM facts reads back as it was.
use disk_edit.Prelude.{
  ℕ, ◌-◌, ◌%◌, ◌^◌, ◌≤◌, ◌<◌, ◌≡◌, refl, ◌∙◌, ap, true, false, ◌||◌, Option, none, some, List, [],
  ◌∷◌, ◌++◌, String, length, ok, arith, ltb, ◌==◌, u64_mod,
}
use disk_edit.Bytes.{to_le}
use disk_edit.Bytes.Slices.{append_assoc, from_le-to_le, to_le-length}
use disk_edit.Movepart.Checkpoint.{LvmSelection, LvmPostFacts, lvm_post_for}
use disk_edit.Movepart.Checkpoint.Rules.{lvm_post_for-whole, lvm_post_for-fits}
use disk_edit.Movepart.LvmFacts.{
  read_bytes, read_number, lv_path_max, is_absolute, is_plausible, read_numbers, encode_path,
  encode, read_path, decode_facts, decode,
}

read_bytes-append : (xs rest : List ℕ) → read_bytes (length xs) (xs ++ rest) ≡ ok (xs, rest)
unfolding read_bytes
read_bytes-append [] rest = refl
read_bytes-append (x ∷ xs) rest = rw (read_bytes-append xs rest) refl

read_number-to_le :
    (k n : ℕ) (rest : List ℕ) → n < 256 ^ k → read_number k (to_le k n ++ rest) ≡ ok (n, rest)
unfolding read_number
read_number-to_le k n rest h =
    let got : read_bytes k (to_le k n ++ rest) ≡ ok (to_le k n, rest) =
      rw (to_le-length k n) at (read_bytes-append (to_le k n) rest) in
    rw (read_number, got, from_le-to_le k n h) refl

abbrev facts_of : Option String → ℕ → ℕ → ℕ → LvmPostFacts
facts_of p before target extent = record {
  lv_path = p;
  lv_size_before = before;
  lv_target = target;
  extent_bytes = extent;
}

read_numbers-to_le :
    (p : Option String) (before target extent : ℕ) (rest : List ℕ)
    → is_plausible p before target extent ≡ true
    → before < u64_mod
    → target < u64_mod
    → extent < u64_mod
    → read_numbers p (to_le 8 before ++ (to_le 8 target ++ (to_le 8 extent ++ rest)))
      ≡ ok (facts_of p before target extent, rest)
unfolding read_numbers
read_numbers-to_le p before target extent rest fits b t e =
    rw
      (
        read_number-to_le 8 before (to_le 8 target ++ (to_le 8 extent ++ rest)) b,
        read_number-to_le 8 target (to_le 8 extent ++ rest) t,
        read_number-to_le 8 extent rest e,
        fits,
      )
      refl

module _ (as_bytes : String → List ℕ) (from_utf8 : List ℕ → Option String) where
  -- A path that the checkpoint has room for.
  abbrev pub PathFits : Option String → Type 0
  PathFits none = Unit
  PathFits (some p) =
      (1 ≤ length (as_bytes p))
      × (length (as_bytes p) ≤ lv_path_max)
      × (is_absolute (as_bytes p) ≡ true)

  read_path-encode :
      (p : String) (rest : List ℕ)
      → from_utf8 (as_bytes p) ≡ some p
      → PathFits (some p)
      → read_path as_bytes from_utf8 (to_le 4 (length (as_bytes p)) ++ (as_bytes p ++ rest))
        ≡ ok (some p, rest)
  unfolding read_path
  read_path-encode p rest utf8 (low, high, slash) =
      let n : ℕ = length (as_bytes p) in
      let in_range : ((n == 0) || ltb lv_path_max n) ≡ false = ground arith in
      rw
        (
          read_number-to_le 4 n (as_bytes p ++ rest) (omega (arith, high)),
          in_range,
          read_bytes-append (as_bytes p) rest,
          utf8,
          slash,
        )
        refl

  append_three : (a b c r : List ℕ) → (a ++ (b ++ c)) ++ r ≡ a ++ (b ++ (c ++ r))
  append_three a b c r = append_assoc a (b ++ c) r ∙ ap (λ t. a ++ t) (append_assoc b c r)

  decode_facts-encode :
      (p : Option String) (before target extent : ℕ) (rest : List ℕ)
      → ((q : String) → p ≡ some q → from_utf8 (as_bytes q) ≡ some q)
      → PathFits p
      → is_plausible p before target extent ≡ true
      → before < u64_mod
      → target < u64_mod
      → extent < u64_mod
      → decode_facts as_bytes from_utf8 (
          (encode_path as_bytes from_utf8 p
            ++ (to_le 8 before ++ (to_le 8 target ++ to_le 8 extent)))
          ++ rest)
        ≡ ok (facts_of p before target extent, rest)
  unfolding decode_facts encode_path
  decode_facts-encode none before target extent rest utf8 fits good b t e =
      rw
        (
          append_three (to_le 8 before) (to_le 8 target) (to_le 8 extent) rest,
          read_numbers-to_le none before target extent rest good b t e,
        )
        refl
  decode_facts-encode (some p) before target extent rest utf8 fits good b t e =
      let nums : List ℕ = to_le 8 before ++ (to_le 8 target ++ to_le 8 extent) in
      let size : List ℕ = to_le 4 (length (as_bytes p)) in
      let flat : ((size ++ as_bytes p) ++ nums) ++ rest ≡ size ++ (as_bytes p ++ (nums ++ rest)) =
        append_assoc (size ++ as_bytes p) nums rest
        ∙ append_assoc size (as_bytes p) (nums ++ rest) in
      rw
        (
          flat,
          read_path-encode p (nums ++ rest) (utf8 p refl) fits,
          append_three (to_le 8 before) (to_le 8 target) (to_le 8 extent) rest,
          read_numbers-to_le (some p) before target extent rest good b t e,
        )
        refl

  -- The facts that a checkpoint records read back as they were, whatever follows them, when their
  -- numbers are 64-bit and pass the reader's test and their path is UTF-8, absolute and has at most
  -- 4096 bytes.
  pub decode-encode :
      (f : LvmPostFacts) (rest : List ℕ)
      → ((q : String) → f.lv_path ≡ some q → from_utf8 (as_bytes q) ≡ some q)
      → PathFits f.lv_path
      → is_plausible f.lv_path f.lv_size_before f.lv_target f.extent_bytes ≡ true
      → f.lv_size_before < u64_mod
      → f.lv_target < u64_mod
      → f.extent_bytes < u64_mod
      → decode as_bytes from_utf8 (encode as_bytes from_utf8 f ++ rest) ≡ ok (some f, rest)
  unfolding decode encode
  decode-encode f rest utf8 fits good b t e =
      rw
        (decode_facts-encode f.lv_path f.lv_size_before f.lv_target f.extent_bytes rest utf8 fits
          good b t e)
        refl

  plausible_of :
      (p : String) (before target extent : ℕ)
      → 1 ≤ before
      → before < target
      → 0 < extent
      → (target - before) % extent ≡ 0
      → is_plausible (some p) before target extent ≡ true
  unfolding is_plausible
  plausible_of p before target extent b t e m = ground arith

  -- What is recorded for a selected LV, of which the extent is a 64-bit number that is not 0 and
  -- the path is UTF-8, absolute and has at most 4096 bytes, is read back as it was.
  lvm_post_for-decode :
      (s : LvmSelection) (old new : ℕ) (f : LvmPostFacts) (rest : List ℕ)
      → from_utf8 (as_bytes s.path) ≡ some s.path
      → PathFits (some s.path)
      → 0 < s.extent_bytes
      → s.extent_bytes < u64_mod
      → lvm_post_for true (some s) old new ≡ ok (some f)
      → decode as_bytes from_utf8 (encode as_bytes from_utf8 f ++ rest) ≡ ok (some f, rest)
  lvm_post_for-decode s old new f rest utf8 fits some_extent word made =
      let (path, before, low, _, _, whole) = lvm_post_for-whole s old new f some_extent made in
      let (room, full, extent) = lvm_post_for-fits s old new f made in
      let fits' : PathFits f.lv_path = rw path fits in
      let good : is_plausible f.lv_path f.lv_size_before f.lv_target f.extent_bytes ≡ true =
        rw path (
          plausible_of s.path f.lv_size_before f.lv_target f.extent_bytes
            (omega (arith, before, full)) (omega (arith, before, low, some_extent))
            (omega (arith, extent, some_extent)) whole) in
      let utf8' : (q : String) → f.lv_path ≡ some q → from_utf8 (as_bytes q) ≡ some q =
        λ q at. let same : s.path ≡ q = cc (path, at) in rw same at utf8 in
      decode-encode f rest utf8' fits' good (omega (arith, before, low, room)) room
        (omega (arith, extent, word))
