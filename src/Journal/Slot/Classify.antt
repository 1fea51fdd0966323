-- ===== src/Journal/Slot/Classify.antt =====
-- What a journal that was cut off behind its header is taken for.
use disk_edit.Prelude.{
  ℕ, ◌+◌, ◌-◌, ◌<◌, ◌≡◌, refl, ◌∙◌, Bool-cases, inl, inr, false, List, [], ◌∷◌, length, Result, ok,
  arith, ◌==◌, u32_mod, All, if◌then◌else◌,
}
use disk_edit.Bytes.{drop}
use disk_edit.Outcome.{note}
use disk_edit.Identity.{LiveScene}
use disk_edit.Journal.{JournalRecord, JournalError, DiskGuidState, header_len}
use disk_edit.Journal.Header.RoundTrip.{
  FingerprintFits, MapFits, CredentialFits, parse_header-header,
}
use disk_edit.Journal.Scan.{frames, later_complete_record}
use disk_edit.Journal.Scan.Frame.{FrameFits}
use disk_edit.Journal.Scan.Cut.{whole, left}
use disk_edit.Journal.Slot.{
  JournalRead, complete, truncated_tail, JournalCandidate, shell, damaged, records, file, contents,
  read_entries, candidate_of, classify_journal,
}
use disk_edit.Journal.Slot.Adopt.{cut_journal, cut_journal-length, scan_result-cut}

-- A journal with these complete records and so many bytes behind them.
abbrev pub taken_for : List JournalRecord → ℕ → JournalCandidate
taken_for [] rest =
    if rest == 0
    then shell
    else damaged
        (note "the header is followed by {} byte(s) that form no complete record" (rest ∷ []))
taken_for (r ∷ rs) rest =
    records (if rest == 0 then complete (r ∷ rs) else truncated_tail (r ∷ rs) rest)

taken_for-candidate_of :
    (crc32 : List ℕ → ℕ) (rs : List JournalRecord) (rest : ℕ)
    → candidate_of crc32 (ok (if rest == 0 then complete rs else truncated_tail rs rest))
      ≡ taken_for rs rest
unfolding candidate_of
taken_for-candidate_of crc32 [] rest = elim (Bool-cases (rest == 0)) [
  | inl e ↦ rw e refl
  | inr e ↦ rw e refl
]
taken_for-candidate_of crc32 (r ∷ rs) rest = elim (Bool-cases (rest == 0)) [
  | inl e ↦ rw e refl
  | inr e ↦ rw e refl
]

classify_journal-file :
    (crc32 : List ℕ → ℕ) (bytes : List ℕ) (r : Result JournalError JournalRead)
    → (length bytes == 0) ≡ false
    → read_entries crc32 bytes ≡ r
    → classify_journal crc32 (ok (file (length bytes))) (contents bytes) ≡ candidate_of crc32 r
unfolding classify_journal
classify_journal-file crc32 bytes r some_bytes read = rw (classify_journal, some_bytes, read) refl

module _ (crc32 : List ℕ → ℕ) (crc_word : (b : List ℕ) → crc32 b < u32_mod) where
  read_entries-cut :
      (s : LiveScene) (c : DiskGuidState) (rs : List JournalRecord) (n : ℕ)
      → FingerprintFits s.fp
      → MapFits s.map
      → CredentialFits c
      → All FrameFits rs
      → later_complete_record crc32 (drop 8 (left crc32 n rs)) ≡ false
      → read_entries crc32 (cut_journal crc32 crc_word s c rs n)
        ≡ ok (
            if length (left crc32 n rs) == 0
            then complete (whole crc32 n rs)
            else truncated_tail (whole crc32 n rs) (length (left crc32 n rs)))
  unfolding read_entries
  read_entries-cut s c rs n ff fm fc fits alone =
      let end : ℕ = header_len + length (frames crc32 (whole crc32 n rs)) in
      let rest : length (cut_journal crc32 crc_word s c rs n) - end ≡ length (left crc32 n rs) =
        omega (arith, cut_journal-length crc32 crc_word s c rs n fc) in
      rw
        (
          parse_header-header crc32 crc_word s c _ ff fm fc,
          scan_result-cut crc32 crc_word s c rs n fc fits alone,
          rest,
        )
        refl

  -- A journal that a command has written for a target and that was cut off anywhere behind its
  -- header, where the tail does not itself hold a whole record, is taken for an empty shell when
  -- nothing at all follows the header, for damaged when bytes but no complete record follow it, and
  -- else for its complete records and the length of the tail that was cut off.
  pub classify_journal-cut :
      (s : LiveScene) (c : DiskGuidState) (rs : List JournalRecord) (n : ℕ)
      → FingerprintFits s.fp
      → MapFits s.map
      → CredentialFits c
      → All FrameFits rs
      → later_complete_record crc32 (drop 8 (left crc32 n rs)) ≡ false
      → classify_journal crc32
          (ok (file (length (cut_journal crc32 crc_word s c rs n))))
          (contents (cut_journal crc32 crc_word s c rs n))
        ≡ taken_for (whole crc32 n rs) (length (left crc32 n rs))
  classify_journal-cut s c rs n ff fm fc fits alone =
      let some_bytes : (length (cut_journal crc32 crc_word s c rs n) == 0) ≡ false =
        ground (arith, cut_journal-length crc32 crc_word s c rs n fc) in
      classify_journal-file crc32 (cut_journal crc32 crc_word s c rs n) _ some_bytes
        (read_entries-cut s c rs n ff fm fc fits alone)
      ∙ taken_for-candidate_of crc32 (whole crc32 n rs) (length (left crc32 n rs))
