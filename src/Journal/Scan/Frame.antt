-- ===== src/Journal/Scan/Frame.antt =====
-- One frame of a journal: a whole one is read, and one that is cut short is told from it.
use disk_edit.Prelude.{
  ℕ, ◌+◌, ◌-◌, ◌<◌, ◌≡◌, refl, ◌∙◌, sym, ap, Bool-cases, inl, inr, true, false, none, some, List,
  [], ◌++◌, length, take, ok, arith, ltb, ◌==◌, u32_mod, length-append,
}
use mathlib.Core.Path.{subst}
use disk_edit.Bytes.{to_le, drop, number_at}
use disk_edit.Bytes.Slices.{
  append_assoc, to_le-length, take-length, drop-length, drop-past, drop-all, length-take_le,
  take-past, number_at-here, number_at-past,
}
use disk_edit.Outcome.{plain}
use disk_edit.Journal.{JournalRecord, JournalError, invalid_data, encode_record}
use disk_edit.Journal.Coding.{RecordFits}
use disk_edit.Journal.Scan.{record_crc, frame, later_complete_record, torn_unless, read_frame}

-- A record that `append` accepts: its payload has fewer than 2^32 bytes.
abbrev pub FrameFits : JournalRecord → Type 0
FrameFits r = RecordFits r × (length (encode_record r) < u32_mod)

abbrev pub past_end : JournalError
past_end =
    invalid_data (plain "journal entry length runs past the end of the file (records follow it)")

encode_record-length : (r : JournalRecord) → 0 < length (encode_record r)
unfolding encode_record
encode_record-length r = omega arith

take_field : (n : ℕ) (xs : List ℕ) → take 4 (to_le 4 n ++ xs) ≡ to_le 4 n
take_field n xs = rw (to_le-length 4 n) at (take-length (to_le 4 n) xs)

drop_field : (n : ℕ) (xs : List ℕ) → drop 4 (to_le 4 n ++ xs) ≡ xs
drop_field n xs = rw (to_le-length 4 n) at (drop-length (to_le 4 n) xs)

drop_fields : (n c : ℕ) (xs : List ℕ) → drop 8 (to_le 4 n ++ (to_le 4 c ++ xs)) ≡ xs
drop_fields n c xs =
    let outer : drop (4 + 4) (to_le 4 n ++ (to_le 4 c ++ xs)) ≡ drop 4 (to_le 4 c ++ xs) =
      rw (to_le-length 4 n) at (drop-past (to_le 4 n) (to_le 4 c ++ xs) 4) in
    outer ∙ drop_field c xs

take_fields :
    (n c k : ℕ) (xs : List ℕ)
    → take (8 + k) (to_le 4 n ++ (to_le 4 c ++ xs)) ≡ to_le 4 n ++ (to_le 4 c ++ take k xs)
take_fields n c k xs =
    let split : 8 + k ≡ 4 + (4 + k) = omega arith in
    let outer : take (4 + (4 + k)) (to_le 4 n ++ (to_le 4 c ++ xs))
        ≡ to_le 4 n ++ take (4 + k) (to_le 4 c ++ xs) =
      rw (to_le-length 4 n) at (take-past (to_le 4 n) (to_le 4 c ++ xs) (4 + k)) in
    let inner : take (4 + k) (to_le 4 c ++ xs) ≡ to_le 4 c ++ take k xs =
      rw (to_le-length 4 c) at (take-past (to_le 4 c) xs k) in
    rw split (outer ∙ ap (λ t. to_le 4 n ++ t) inner)

module _ (crc32 : List ℕ → ℕ) (crc_word : (b : List ℕ) → crc32 b < u32_mod) where
  crc_word_of : (n_le p : List ℕ) → record_crc crc32 n_le p < u32_mod
  unfolding record_crc
  crc_word_of n_le p = crc_word (n_le ++ p)

  -- A frame header and some bytes of the payload, or all of them and more.
  frame_fields :
      (p xs : List ℕ)
      → length p < u32_mod
      → let b : List ℕ =
          to_le 4 (length p) ++ (to_le 4 (record_crc crc32 (to_le 4 (length p)) p) ++ xs) in
        (length b ≡ 8 + length xs)
        × (number_at 0 4 b ≡ length p)
        × (number_at 4 4 b ≡ record_crc crc32 (to_le 4 (length p)) p)
        × (take 4 b ≡ to_le 4 (length p))
        × (drop 8 b ≡ xs)
  frame_fields p xs fits =
      let n : ℕ = length p in
      let c : ℕ = record_crc crc32 (to_le 4 n) p in
      let word : c < u32_mod = crc_word_of (to_le 4 n) p in
      (
        rw
            (
              length-append (to_le 4 n) (to_le 4 c ++ xs),
              length-append (to_le 4 c) xs,
              to_le-length 4 n,
              to_le-length 4 c,
            )
            (omega arith),
        number_at-here 4 n (to_le 4 c ++ xs) fits,
        number_at-past 4 n 0 4 (to_le 4 c ++ xs) ∙ number_at-here 4 c xs word,
        take_field n (to_le 4 c ++ xs),
        drop_fields n c xs,
      )

  pub read_frame-whole :
      (r : JournalRecord) (rest : List ℕ)
      → FrameFits r
      → read_frame crc32 (frame crc32 r ++ rest) ≡ ok (some (encode_record r, rest))
  unfolding read_frame frame
  read_frame-whole r rest (_, fits) =
      let p : List ℕ = encode_record r in
      let n : ℕ = length p in
      let c : ℕ = record_crc crc32 (to_le 4 n) p in
      let flat : (to_le 4 n ++ (to_le 4 c ++ p)) ++ rest ≡ to_le 4 n ++ (to_le 4 c ++ (p ++ rest)) =
        append_assoc (to_le 4 n) (to_le 4 c ++ p) rest
        ∙ ap (λ t. to_le 4 n ++ t) (append_assoc (to_le 4 c) p rest) in
      let (all, len, crc, head, body) = frame_fields p (p ++ rest) fits in
      let long : ltb (8 + length (p ++ rest)) 8 ≡ false = ground arith in
      let some_bytes : (n == 0) ≡ false = ground (arith, encode_record-length r) in
      let enough : ltb (length (p ++ rest)) n ≡ false = rw (length-append p rest) (ground arith) in
      let same : (c == c) ≡ true = ground arith in
      rw
        (
          flat,
          all,
          len,
          crc,
          head,
          body,
          long,
          some_bytes,
          enough,
          take-length p rest,
          drop-length p rest,
          same,
        )
        refl

  read_frame-short : (b : List ℕ) → length b < 8 → read_frame crc32 b ≡ ok none
  unfolding read_frame
  read_frame-short b h = let few : ltb (length b) 8 ≡ true = ground (arith, h) in rw few refl

  pub frame-length : (r : JournalRecord) → length (frame crc32 r) ≡ 8 + length (encode_record r)
  unfolding frame
  frame-length r =
      let p : List ℕ = encode_record r in
      rw
        (
          length-append (to_le 4 (length p))
              (to_le 4 (record_crc crc32 (to_le 4 (length p)) p) ++ p),
          length-append (to_le 4 (record_crc crc32 (to_le 4 (length p)) p)) p,
          to_le-length 4 (length p),
          to_le-length 4 (record_crc crc32 (to_le 4 (length p)) p),
        )
        (omega arith)

  torn_unless-nil : torn_unless crc32 [] past_end ≡ ok none
  unfolding torn_unless later_complete_record
  torn_unless-nil = refl

  frame-payload :
      (r : JournalRecord) (j : ℕ) → drop 8 (take (8 + j) (frame crc32 r)) ≡ take j (encode_record r)
  unfolding frame
  frame-payload r j =
      let p : List ℕ = encode_record r in
      let n : ℕ = length p in
      let c : ℕ = record_crc crc32 (to_le 4 n) p in
      rw (take_fields n c j p) (drop_fields n c (take j p))

  -- Cut inside the payload, after `j` of its bytes.
  read_frame-payload :
      (r : JournalRecord) (j : ℕ)
      → FrameFits r
      → j < length (encode_record r)
      → read_frame crc32 (take (8 + j) (frame crc32 r))
        ≡ torn_unless crc32 (take j (encode_record r)) past_end
  unfolding read_frame frame
  read_frame-payload r j (_, fits) short =
      let p : List ℕ = encode_record r in
      let n : ℕ = length p in
      let c : ℕ = record_crc crc32 (to_le 4 n) p in
      let (all, len, crc, head, body) = frame_fields p (take j p) fits in
      let kept : length (take j p) ≡ j = length-take_le j p (omega (arith, short)) in
      let long : ltb (8 + length (take j p)) 8 ≡ false = ground arith in
      let some_bytes : (n == 0) ≡ false = ground (arith, encode_record-length r) in
      let past : ltb (length (take j p)) n ≡ true = rw kept (ground (arith, short)) in
      rw (take_fields n c j p, all, len, body, long, some_bytes, past) refl

  -- A frame that is cut short ends the scan, unless a whole record stands in what is left of it.
  pub read_frame-cut :
      (r : JournalRecord) (k : ℕ)
      → FrameFits r
      → k < length (frame crc32 r)
      → read_frame crc32 (take k (frame crc32 r))
        ≡ torn_unless crc32 (drop 8 (take k (frame crc32 r))) past_end
  read_frame-cut r k fits short = elim (Bool-cases (ltb k 8)) [
    | inl few ↦
        let size : length (take k (frame crc32 r)) ≡ k =
          length-take_le k (frame crc32 r) (omega (arith, short)) in
        let under : length (take k (frame crc32 r)) < 8 = rw size (ground (arith, few)) in
        read_frame-short (take k (frame crc32 r)) under
        ∙ rw (drop-all 8 (take k (frame crc32 r)) (omega (arith, under))) (sym torn_unless-nil)
    | inr many ↦
        let split : k ≡ 8 + (k - 8) = ground (arith, many) in
        let inside : k - 8 < length (encode_record r) =
          omega (arith, frame-length r, short, encode_record-length r) in
        subst
          (λ n.
            read_frame crc32 (take n (frame crc32 r))
            ≡ torn_unless crc32 (drop 8 (take n (frame crc32 r))) past_end)
          (sym split)
          (read_frame-payload r (k - 8) fits inside
            ∙ ap (λ t. torn_unless crc32 t past_end) (sym (frame-payload r (k - 8))))
  ]
