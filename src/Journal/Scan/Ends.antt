-- ===== src/Journal/Scan/Ends.antt =====
-- The scan of a journal ends on every file.
use disk_edit.Prelude.{
  ℕ, zero, suc, ◌+◌, ◌≤◌, ◌<◌, ◌≡◌, refl, sym, Bool, Bool-cases, inl, inr, true, false, Option,
  none, some, List, [], ◌∷◌, length, take, Result, ok, err, arith, ltb, ◌==◌, not, if◌then◌else◌,
}
use disk_edit.Bytes.{drop, number_at}
use disk_edit.Bytes.Slices.{length-drop}
use disk_edit.Outcome.{plain}
use disk_edit.Journal.{JournalRecord, JournalError, invalid_data, decode_record, header_len}
use disk_edit.Journal.Scan.{
  rec_hdr, push, read_frame, torn_unless, scan_from, scan_entries, later_complete_record,
  record_crc,
}

abbrev FrameRead : Type 0
FrameRead = Result JournalError (Option (List ℕ × List ℕ))

abbrev read_none : FrameRead
read_none = ok none

abbrev pub ScanResult : Type 0
ScanResult = Option (Result JournalError (List JournalRecord × ℕ))

module _ (crc32 : List ℕ → ℕ) where
  torn_unless-none :
      (body : List ℕ) (e : JournalError) (x : List ℕ × List ℕ) {A : Type 0}
      → torn_unless crc32 body e ≡ ok (some x)
      → A
  unfolding torn_unless
  torn_unless-none body e x h = elim (Bool-cases (later_complete_record crc32 body)) [
    | inl follows ↦ let z : err e ≡ ok (some x) = rw follows at h in cc
    | inr alone ↦ let z : ok none ≡ ok (some x) = rw alone at h in cc
  ]

  -- The last test of a round.
  checked :
      (c : Bool) (q r p rest : List ℕ)
      → if◌then◌else◌ {A = FrameRead}
          (not c)
          (err (invalid_data (plain "journal entry CRC mismatch")))
          (ok (some (q, r)))
        ≡ ok (some (p, rest))
      → r ≡ rest
  checked true q r p rest h = cc h
  checked false q r p rest h = cc h

  long_enough : (b : List ℕ) → ltb (length b) 8 ≡ false → 8 ≤ length b
  long_enough b h = ground (arith, h)

  not_zero : (n : ℕ) → (n == 0) ≡ false → 0 < n
  not_zero n h = ground (arith, h)

  read_frame-shrinks :
      (b p rest : List ℕ) → read_frame crc32 b ≡ ok (some (p, rest)) → length rest < length b
  unfolding read_frame
  read_frame-shrinks b p rest h =
      let len : ℕ = number_at 0 4 b in
      let body : List ℕ = drop 8 b in
      elim (Bool-cases (ltb (length b) 8)) [
        | inl short ↦ let z : read_none ≡ ok (some (p, rest)) = rw short at h in cc z
        | inr long ↦ elim (Bool-cases (len == 0)) [
          | inl nothing ↦ torn_unless-none body _ (p, rest) (rw (long, nothing) at h)
          | inr counted ↦ elim (Bool-cases (ltb (length body) len)) [
            | inl past ↦ torn_unless-none body _ (p, rest) (rw (long, counted, past) at h)
            | inr inside ↦
                let same : drop len body ≡ rest =
                  checked (record_crc crc32 (take 4 b) (take len body) == number_at 4 4 b)
                    (take len body) (drop len body) p rest (rw (long, counted, inside) at h) in
                rw (sym same) (
                  omega (
                    arith,
                    length-drop len body,
                    length-drop 8 b,
                    long_enough b long,
                    not_zero len counted,
                  ))
          ]
        ]
      ]

  -- The loop ends: fuel for every byte is enough.
  scan_from-some :
      (fuel pos : ℕ) (b : List ℕ)
      → length b ≤ fuel
      → (r : Result JournalError (List JournalRecord × ℕ)) × (scan_from crc32 fuel pos b ≡ some r)
  unfolding scan_from
  scan_from-some fuel pos [] h = (ok ([], pos), refl)
  scan_from-some zero pos (x ∷ xs) h = absurd (omega (arith, h))
  scan_from-some (suc fuel) pos (x ∷ xs) h =
      go (scan_from-some fuel) (read_frame crc32 (x ∷ xs)) refl
    where
      pushed :
          (r : JournalRecord) (s : ScanResult)
          → ((q : Result JournalError (List JournalRecord × ℕ)) × (s ≡ some q))
          → (q : Result JournalError (List JournalRecord × ℕ)) × (push r s ≡ some q)
      pushed r none (q, e) = cc
      pushed r (some (err e)) _ = (err e, refl)
      pushed r (some (ok (rs, end))) _ = (ok (r ∷ rs, end), refl)

      go :
          ((pos : ℕ) (b : List ℕ)
            → length b ≤ fuel
            → (r : Result JournalError (List JournalRecord × ℕ)) × (scan_from crc32 fuel pos b
                ≡ some r))
          → (f : FrameRead) → read_frame crc32 (x ∷ xs) ≡ f
          → (r : Result JournalError (List JournalRecord × ℕ)) × (scan_from crc32
                (suc fuel)
                pos
                (x ∷ xs)
              ≡ some r)
      go again (err e) eq = (err e, rw (scan_from, eq) refl)
      go again (ok none) eq = (ok ([], pos), rw (scan_from, eq) refl)
      go again (ok (some (p, rest))) eq = rw (scan_from, eq) (go_record (decode_record p) refl)
        where
          go_record :
              (d : Result JournalError JournalRecord)
              → decode_record p ≡ d
              → (r : Result JournalError (List JournalRecord × ℕ)) × (elim (decode_record p)
                    as (λ _. ScanResult) [
                      | err e ↦ some (err e)
                      | ok r ↦ push r (scan_from crc32 fuel (pos + rec_hdr + length p) rest)
                    ]
                  ≡ some r)
          go_record (err e) eq' = (err e, rw eq' refl)
          go_record (ok r) eq' = rw eq' (
              pushed r (scan_from crc32 fuel (pos + rec_hdr + length p) rest) (
                again (pos + rec_hdr + length p) rest
                  (omega (arith, h, read_frame-shrinks (x ∷ xs) p rest eq))))

  -- The scan of a journal ends with records or an error, whatever the file holds: the loop makes at
  -- most one round for each byte.
  pub scan_entries-ends :
      (bytes : List ℕ)
      → (r : Result JournalError (List JournalRecord × ℕ)) × (scan_entries crc32 bytes ≡ some r)
  unfolding scan_entries
  scan_entries-ends bytes = elim (Bool-cases (ltb (length bytes) header_len)) [
    | inl short ↦ (ok ([], length bytes), rw short refl)
    | inr long ↦ rw long (
        scan_from-some (length bytes) header_len (drop header_len bytes)
          (omega (arith, length-drop header_len bytes)))
  ]
