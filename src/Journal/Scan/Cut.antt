-- ===== src/Journal/Scan/Cut.antt =====
-- Reading a journal that was cut off: the complete records and nothing else come back.
use disk_edit.Prelude.{
  ℕ, zero, suc, ◌+◌, ◌-◌, ◌≤◌, ◌<◌, ◌≡◌, refl, ◌∙◌, sym, ap, Bool, Bool-cases, inl, inr, true,
  false, Option, some, List, [], ◌∷◌, ◌++◌, length, take, Result, ok, err, arith, ltb, leb, u32_mod,
  length-append, All, if◌then◌else◌,
}
use mathlib.Core.Path.{subst}
use disk_edit.Bytes.{drop}
use disk_edit.Bytes.Slices.{append_assoc, drop-length, take-past, take-within, take-all}
use disk_edit.Journal.{JournalRecord, JournalError, encode_record, decode_record, header_len}
use disk_edit.Journal.Coding.{decode-encode_record}
use disk_edit.Journal.Scan.{
  rec_hdr, push, frame, frames, read_frame, torn_unless, scan_from, scan_entries,
  later_complete_record,
}
use disk_edit.Journal.Scan.Frame.{
  FrameFits, past_end, read_frame-whole, read_frame-cut, frame-length,
}

abbrev Scanned : Type 0
Scanned = Result JournalError (List JournalRecord × ℕ)

-- A scan that stops at a torn tail, of which the flag says whether a whole record stands in it.
abbrev pub cut_result : Bool → List JournalRecord → ℕ → Option Scanned
cut_result true rs end = some (err past_end)
cut_result false rs end = some (ok (rs, end))

push-cut_result :
    (c : Bool) (r : JournalRecord) (rs : List JournalRecord) (end : ℕ)
    → push r (cut_result c rs end) ≡ cut_result c (r ∷ rs) end
push-cut_result true r rs end = refl
push-cut_result false r rs end = refl

module _ (crc32 : List ℕ → ℕ) where
  -- The records that lie wholly within the first `n` bytes, and the bytes left behind them.
  unfoldable pub whole : ℕ → List JournalRecord → List JournalRecord
  whole n [] = []
  whole n (r ∷ rs) =
      let rest = whole (n - length (frame crc32 r)) rs in
      if leb (length (frame crc32 r)) n then r ∷ rest else []

  unfoldable pub left : ℕ → List JournalRecord → List ℕ
  left n [] = []
  left n (r ∷ rs) =
      let rest = left (n - length (frame crc32 r)) rs in
      if leb (length (frame crc32 r)) n then rest else take n (frame crc32 r)

  scan_from-nil :
      (fuel pos : ℕ)
      → scan_from crc32 fuel pos [] ≡ cut_result (later_complete_record crc32 (drop 8 [])) [] pos
  unfolding scan_from later_complete_record drop
  scan_from-nil fuel pos = refl

  scan_from-torn :
      (fuel pos : ℕ) (b : List ℕ)
      → length b ≤ fuel
      → read_frame crc32 b ≡ torn_unless crc32 (drop 8 b) past_end
      → scan_from crc32 fuel pos b ≡ cut_result (later_complete_record crc32 (drop 8 b)) [] pos
  unfolding scan_from torn_unless later_complete_record
  scan_from-torn fuel pos [] h e = scan_from-nil fuel pos
  scan_from-torn zero pos (x ∷ xs) h e = absurd (omega (arith, h))
  scan_from-torn (suc fuel) pos (x ∷ xs) h e =
      elim (Bool-cases (later_complete_record crc32 (drop 8 (x ∷ xs)))) [
        | inl follows ↦ rw (scan_from, e, torn_unless, follows) refl
        | inr alone ↦ rw (scan_from, e, torn_unless, alone) refl
      ]

  scan_from-whole :
      (fuel pos : ℕ) (b rest p : List ℕ) (r : JournalRecord)
      → 0 < length b
      → length b ≤ suc fuel
      → read_frame crc32 b ≡ ok (some (p, rest))
      → decode_record p ≡ ok r
      → scan_from crc32 (suc fuel) pos b
        ≡ push r (scan_from crc32 fuel (pos + rec_hdr + length p) rest)
  unfolding scan_from
  scan_from-whole fuel pos [] rest p r some_bytes h e d = absurd (omega (arith, some_bytes))
  scan_from-whole fuel pos (x ∷ xs) rest p r some_bytes h e d = rw (scan_from, e, d) refl

  module _ (crc_word : (b : List ℕ) → crc32 b < u32_mod) where
    scan_from-frame :
        (r : JournalRecord) (fuel pos : ℕ) (rest : List ℕ)
        → FrameFits r
        → length (frame crc32 r ++ rest) ≤ fuel
        → (fuel' : ℕ) × (length rest ≤ fuel')
          × (scan_from crc32 fuel pos (frame crc32 r ++ rest)
              ≡ push r (scan_from crc32 fuel' (pos + length (frame crc32 r)) rest))
    scan_from-frame r zero pos rest fit h =
        absurd (omega (arith, h, length-append (frame crc32 r) rest, frame-length crc32 crc_word r))
    scan_from-frame r (suc fuel) pos rest fit h =
        let size = length-append (frame crc32 r) rest in
        let here = frame-length crc32 crc_word r in
        let next : pos + 8 + length (encode_record r) ≡ pos + length (frame crc32 r) =
          omega (arith, here) in
        (
          fuel,
          omega (arith, h, size, here),
          subst
              (λ at.
                scan_from crc32 (suc fuel) pos (frame crc32 r ++ rest)
                ≡ push r (scan_from crc32 fuel at rest))
              next
              (scan_from-whole fuel pos (frame crc32 r ++ rest) rest (encode_record r) r
                (omega (arith, size, here)) h (read_frame-whole crc32 crc_word r rest fit)
                (decode-encode_record r fit.0)),
        )

    -- What is read of the first `n` bytes of the records.
    scan_from-cut :
        (rs : List JournalRecord) (fuel pos n : ℕ)
        → All FrameFits rs
        → length (take n (frames crc32 rs)) ≤ fuel
        → scan_from crc32 fuel pos (take n (frames crc32 rs))
          ≡ cut_result
              (later_complete_record crc32 (drop 8 (left n rs)))
              (whole n rs)
              (pos + length (frames crc32 (whole n rs)))
    unfolding frames whole left
    scan_from-cut [] fuel pos n fits h =
        let nothing : take n [] ≡ [] = take-all {A = ℕ} n [] (omega arith) in
        let start : pos + 0 ≡ pos = omega arith in rw (nothing, start) (scan_from-nil fuel pos)
    scan_from-cut (r ∷ rs) fuel pos n (fit, fits) h =
        elim (Bool-cases (leb (length (frame crc32 r)) n)) [
          | inl full ↦
              let size : ℕ = length (frame crc32 r) in
              let rest : List ℕ = take (n - size) (frames crc32 rs) in
              let split : n ≡ size + (n - size) = ground (arith, full) in
              let taken : take n (frame crc32 r ++ frames crc32 rs) ≡ frame crc32 r ++ rest =
                subst (λ k. take k (frame crc32 r ++ frames crc32 rs) ≡ frame crc32 r ++ rest)
                  (sym split) (take-past (frame crc32 r) (frames crc32 rs) (n - size)) in
              let (fuel', enough, step) = scan_from-frame r fuel pos rest fit (rw taken at h) in
              let more = scan_from-cut rs fuel' (pos + size) (n - size) fits enough in
              let end : pos + size + length (frames crc32 (whole (n - size) rs))
                  ≡ pos + length (frame crc32 r ++ frames crc32 (whole (n - size) rs)) =
                omega (arith, length-append (frame crc32 r) (frames crc32 (whole (n - size) rs))) in
              rw (taken, full, frames)
                (step
                  ∙ (ap (push r) more
                      ∙ (push-cut_result (later_complete_record crc32 (drop 8 (left (n - size) rs)))
                            r (whole (n - size) rs)
                            (pos + size + length (frames crc32 (whole (n - size) rs)))
                          ∙ ap
                              (cut_result
                                (later_complete_record crc32 (drop 8 (left (n - size) rs)))
                                (r ∷ whole (n - size) rs))
                              end)))
          | inr short ↦
              let below : n < length (frame crc32 r) = ground (arith, short) in
              let taken : take n (frame crc32 r ++ frames crc32 rs) ≡ take n (frame crc32 r) =
                take-within n (frame crc32 r) (frames crc32 rs) (omega (arith, below)) in
              let start : pos + 0 ≡ pos = omega arith in
              rw (taken, short, start)
                (scan_from-torn fuel pos (take n (frame crc32 r)) (rw taken at h)
                  (read_frame-cut crc32 crc_word r n fit below))
        ]

    -- A journal of records that `append` accepted, of which the file holds the header and the first
    -- `n` bytes behind it: exactly the records that lie wholly within these bytes are read, and the
    -- scan stops behind the last of them; only when the torn tail itself holds a whole record is the
    -- journal refused.
    pub scan_entries-cut :
        (head : List ℕ) (rs : List JournalRecord) (n : ℕ)
        → length head ≡ header_len
        → All FrameFits rs
        → scan_entries crc32 (head ++ take n (frames crc32 rs))
          ≡ cut_result
              (later_complete_record crc32 (drop 8 (left n rs)))
              (whole n rs)
              (header_len + length (frames crc32 (whole n rs)))
    unfolding scan_entries
    scan_entries-cut head rs n size fits =
        let body : List ℕ = take n (frames crc32 rs) in
        let all = length-append head body in
        let long : ltb (length (head ++ body)) header_len ≡ false = ground (arith, all, size) in
        let behind : drop header_len (head ++ body) ≡ body = rw size at (drop-length head body) in
        rw (long, behind)
          (scan_from-cut rs (length (head ++ body)) header_len n fits (omega (arith, all)))

  whole-all : (rs : List JournalRecord) → whole (length (frames crc32 rs)) rs ≡ rs
  unfolding whole frames
  whole-all [] = refl
  whole-all (r ∷ rs) =
      let size : ℕ = length (frame crc32 r) in
      let sum = length-append (frame crc32 r) (frames crc32 rs) in
      let fits : leb size (length (frame crc32 r ++ frames crc32 rs)) ≡ true =
        rw sum (ground arith) in
      let less : length (frame crc32 r ++ frames crc32 rs) - size ≡ length (frames crc32 rs) =
        omega (arith, sum) in
      rw (fits, less) (ap (λ t. r ∷ t) (whole-all rs))

  left-all : (rs : List JournalRecord) → left (length (frames crc32 rs)) rs ≡ []
  unfolding left frames
  left-all [] = refl
  left-all (r ∷ rs) =
      let size : ℕ = length (frame crc32 r) in
      let sum = length-append (frame crc32 r) (frames crc32 rs) in
      let fits : leb size (length (frame crc32 r ++ frames crc32 rs)) ≡ true =
        rw sum (ground arith) in
      let less : length (frame crc32 r ++ frames crc32 rs) - size ≡ length (frames crc32 rs) =
        omega (arith, sum) in
      rw (fits, less) (left-all rs)

  later-nil : later_complete_record crc32 (drop 8 []) ≡ false
  unfolding later_complete_record drop
  later-nil = refl

  -- Every record of a journal that was written to its end is read back, in order, and nothing is
  -- left over.
  pub scan_entries-frames :
      (crc_word : (b : List ℕ) → crc32 b < u32_mod) (head : List ℕ) (rs : List JournalRecord)
      → length head ≡ header_len
      → All FrameFits rs
      → scan_entries crc32 (head ++ frames crc32 rs)
        ≡ some (ok (rs, length (head ++ frames crc32 rs)))
  scan_entries-frames crc_word head rs size fits =
      let n : ℕ = length (frames crc32 rs) in
      let full : take n (frames crc32 rs) ≡ frames crc32 rs =
        take-all n (frames crc32 rs) (omega arith) in
      let end : header_len + n ≡ length (head ++ frames crc32 rs) =
        omega (arith, length-append head (frames crc32 rs), size) in
      let read = scan_entries-cut crc_word head rs n size fits in
      rw (full, whole-all rs, left-all rs, later-nil, end) at read

  -- What the first `n` bytes are made of.
  pub frames-whole :
      (rs : List JournalRecord) (n : ℕ)
      → take n (frames crc32 rs) ≡ frames crc32 (whole n rs) ++ left n rs
  unfolding frames whole left
  frames-whole [] n = take-all {A = ℕ} n [] (omega arith)
  frames-whole (r ∷ rs) n = elim (Bool-cases (leb (length (frame crc32 r)) n)) [
    | inl full ↦
        let size : ℕ = length (frame crc32 r) in
        let split : n ≡ size + (n - size) = ground (arith, full) in
        let taken : take n (frame crc32 r ++ frames crc32 rs)
            ≡ frame crc32 r ++ take (n - size) (frames crc32 rs) =
          subst
            (λ k.
              take k (frame crc32 r ++ frames crc32 rs)
              ≡ frame crc32 r ++ take (n - size) (frames crc32 rs))
            (sym split) (take-past (frame crc32 r) (frames crc32 rs) (n - size)) in
        rw (taken, full, frames)
          (ap (λ t. frame crc32 r ++ t) (frames-whole rs (n - size))
            ∙ sym (
                append_assoc (frame crc32 r) (frames crc32 (whole (n - size) rs))
                  (left (n - size) rs)))
    | inr short ↦ rw short (take-within n (frame crc32 r) (frames crc32 rs) (ground (arith, short)))
  ]
