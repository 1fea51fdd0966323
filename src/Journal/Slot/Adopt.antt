-- ===== src/Journal/Slot/Adopt.antt =====
-- A journal that was cut off behind its header is taken up with its complete records.
use disk_edit.Prelude.{
  ℕ, ◌+◌, ◌-◌, ◌<◌, ◌≡◌, ◌≢◌, refl, ◌∙◌, sym, ap, Bool-cases, inl, inr, true, false, not, ◌&&◌,
  Option, none, some, List, [], ◌∷◌, ◌++◌, length, take, Result, ok, arith, ltb, ◌==◌, u32_mod, All,
  length-append,
}
use disk_edit.Bytes.{drop}
use disk_edit.Bytes.Slices.{append_assoc, append-nil, take-length, drop-length}
use disk_edit.Outcome.{Message}
use disk_edit.Table.Guid.{guid_eq_iff}
use disk_edit.Identity.{unavailable as no_proof, live, LiveScene}
use disk_edit.Identity.Compare.{scene_mismatch_self}
use disk_edit.Journal.{
  JournalRecord, JournalError, DiskGuidState, unavailable, generated_this_operation, present,
  disk_identity_mismatch, header_len,
}
use disk_edit.Journal.Header.{header}
use disk_edit.Journal.Header.RoundTrip.{
  FingerprintFits, MapFits, CredentialFits, header-length, parse_header-header,
}
use disk_edit.Journal.Scan.{frames, later_complete_record, scan_entries, scan_result}
use disk_edit.Journal.Scan.Frame.{FrameFits}
use disk_edit.Journal.Scan.Cut.{cut_result, whole, left, scan_entries-cut, frames-whole}
use disk_edit.Journal.Slot.{is_generated, recorded_header, mismatch, cut_tail, adopt_file, adopt}

disk_identity_mismatch_self : (c : DiskGuidState) → disk_identity_mismatch c c ≡ none
unfolding disk_identity_mismatch
disk_identity_mismatch_self unavailable = refl
disk_identity_mismatch_self generated_this_operation = refl
disk_identity_mismatch_self (present g) = rw ((guid_eq_iff g g).1 refl) refl

not_produced : (c : DiskGuidState) → (is_generated c && not (is_generated c)) ≡ false
unfolding is_generated
not_produced unavailable = refl
not_produced generated_this_operation = refl
not_produced (present g) = refl

length_zero : (xs : List ℕ) → (length xs == 0) ≡ true → xs ≡ []
length_zero [] h = refl
length_zero (x ∷ xs) h = absurd (ground (arith, h))

module _ (crc32 : List ℕ → ℕ) (crc_word : (b : List ℕ) → crc32 b < u32_mod) where
  -- The bytes that a command of this target has written: the header and some records, cut off
  -- after `n` bytes behind the header.
  abbrev pub cut_journal : LiveScene → DiskGuidState → List JournalRecord → ℕ → List ℕ
  cut_journal s c rs n = header crc32 s c ++ take n (frames crc32 rs)

  scan_result-some :
      (b : List ℕ) (r : Result JournalError (List JournalRecord × ℕ))
      → scan_entries crc32 b ≡ some r
      → scan_result crc32 b ≡ r
  unfolding scan_result
  scan_result-some b r e = rw (scan_result, e) refl

  pub scan_result-cut :
      (s : LiveScene) (c : DiskGuidState) (rs : List JournalRecord) (n : ℕ)
      → CredentialFits c
      → All FrameFits rs
      → later_complete_record crc32 (drop 8 (left crc32 n rs)) ≡ false
      → scan_result crc32 (cut_journal s c rs n)
        ≡ ok (whole crc32 n rs, header_len + length (frames crc32 (whole crc32 n rs)))
  scan_result-cut s c rs n fc fits alone =
      let end : ℕ = header_len + length (frames crc32 (whole crc32 n rs)) in
      let read =
        scan_entries-cut crc32 crc_word (header crc32 s c) rs n
          (header-length crc32 crc_word s c fc) fits in
      scan_result-some (cut_journal s c rs n) (ok (whole crc32 n rs, end))
        (read ∙ ap (λ f. cut_result f (whole crc32 n rs) end) alone)

  pub cut_journal-length :
      (s : LiveScene) (c : DiskGuidState) (rs : List JournalRecord) (n : ℕ)
      → CredentialFits c
      → length (cut_journal s c rs n)
        ≡ header_len + length (frames crc32 (whole crc32 n rs)) + length (left crc32 n rs)
  cut_journal-length s c rs n fc =
      length-append (header crc32 s c) (take n (frames crc32 rs))
      ∙ omega (
        arith,
        header-length crc32 crc_word s c fc,
        ap length (frames-whole crc32 rs n),
        length-append (frames crc32 (whole crc32 n rs)) (left crc32 n rs),
      )

  recorded_header-cut :
      (s : LiveScene) (c : DiskGuidState) (rs : List JournalRecord) (n : ℕ)
      → FingerprintFits s.fp
      → MapFits s.map
      → CredentialFits c
      → recorded_header crc32 (cut_journal s c rs n)
        ≡ ok (record {
          scene = record { fp = s.fp; map = s.map; proof = live s.proof };
          credential = c;
        })
  unfolding recorded_header
  recorded_header-cut s c rs n ff fm fc =
      let size = cut_journal-length s c rs n fc in
      let long : ltb (length (cut_journal s c rs n)) 5 ≡ false = ground (arith, size) in
      let head : take header_len (cut_journal s c rs n) ≡ header crc32 s c ++ [] =
        ap (λ k. take k (cut_journal s c rs n)) (sym (header-length crc32 crc_word s c fc))
        ∙ (take-length (header crc32 s c) (take n (frames crc32 rs))
            ∙ sym (append-nil (header crc32 s c))) in
      rw (long, head) (parse_header-header crc32 crc_word s c [] ff fm fc)

  cut_tail-cut :
      (s : LiveScene) (c : DiskGuidState) (archive : List ℕ → Option Message)
      (rs : List JournalRecord) (n : ℕ)
      → CredentialFits c
      → archive (left crc32 n rs) ≡ none
      → cut_tail crc32 s c archive
          (cut_journal s c rs n)
          (header_len + length (frames crc32 (whole crc32 n rs)))
        ≡ ok (record {
          file = some (header crc32 s c ++ frames crc32 (whole crc32 n rs));
          cut = left crc32 n rs;
        })
  unfolding cut_tail
  cut_tail-cut s c archive rs n fc archived =
      let h : List ℕ = header crc32 s c in
      let kept : List ℕ = frames crc32 (whole crc32 n rs) in
      let tail : List ℕ = left crc32 n rs in
      let size = cut_journal-length s c rs n fc in
      let parts : cut_journal s c rs n ≡ (h ++ kept) ++ tail =
        ap (λ t. h ++ t) (frames-whole crc32 rs n) ∙ sym (append_assoc h kept tail) in
      let front : length (h ++ kept) ≡ header_len + length kept =
        length-append h kept ∙ ap (λ k. k + length kept) (header-length crc32 crc_word s c fc) in
      let rest : length (cut_journal s c rs n) - (header_len + length kept) ≡ length tail =
        omega (arith, size) in
      elim (Bool-cases (length tail == 0)) [
        | inl nothing ↦
            let empty : tail ≡ [] = length_zero tail nothing in
            let same : cut_journal s c rs n ≡ h ++ kept =
              parts ∙ (ap (λ t. (h ++ kept) ++ t) empty ∙ append-nil (h ++ kept)) in
            rw (rest, nothing, same, empty) refl
        | inr some_bytes ↦
            let behind : drop (header_len + length kept) (cut_journal s c rs n) ≡ tail =
              rw (parts, sym front) (drop-length (h ++ kept) tail) in
            let before : take (header_len + length kept) (cut_journal s c rs n) ≡ h ++ kept =
              rw (parts, sym front) (take-length (h ++ kept) tail) in
            rw (rest, some_bytes, behind, archived, behind, before) refl
      ]

  adopt-some :
      (s : LiveScene) (c : DiskGuidState) (archive : List ℕ → Option Message) (b : List ℕ)
      → 0 < length b
      → adopt crc32 s c archive (some b) ≡ adopt_file crc32 s c archive b
  unfolding adopt
  adopt-some s c archive [] h = absurd (omega (arith, h))
  adopt-some s c archive (x ∷ xs) h = refl

  mismatch_self :
      (s : LiveScene) (c : DiskGuidState)
      → s.proof ≢ no_proof
      → mismatch crc32
          (record {
            scene = record { fp = s.fp; map = s.map; proof = live s.proof };
            credential = c;
          })
          s
          c
        ≡ none
  unfolding mismatch
  mismatch_self s c proof =
      rw (scene_mismatch_self s.fp s.map s.proof proof, disk_identity_mismatch_self c) refl

  -- When a journal of this target that was cut off anywhere behind its header is taken up again, by a
  -- command whose disk credential is the recorded one, and the tail can be archived and does not
  -- itself hold a whole record, the file keeps exactly the header and the complete records and the
  -- archive gets what was behind them.
  pub adopt-cut :
      (s : LiveScene) (c : DiskGuidState) (archive : List ℕ → Option Message)
      (rs : List JournalRecord) (n : ℕ)
      → FingerprintFits s.fp
      → MapFits s.map
      → CredentialFits c
      → s.proof ≢ no_proof
      → All FrameFits rs
      → later_complete_record crc32 (drop 8 (left crc32 n rs)) ≡ false
      → archive (left crc32 n rs) ≡ none
      → adopt crc32 s c archive (some (cut_journal s c rs n))
        ≡ ok (record {
          file = some (header crc32 s c ++ frames crc32 (whole crc32 n rs));
          cut = left crc32 n rs;
        })
  unfolding adopt_file
  adopt-cut s c archive rs n ff fm fc proof fits alone archived =
      let own : mismatch crc32
            (record {
              scene = record { fp = s.fp; map = s.map; proof = live s.proof };
              credential = c;
            })
            s c
          ≡ none =
        mismatch_self s c proof in
      adopt-some s c archive (cut_journal s c rs n) (omega (arith, cut_journal-length s c rs n fc))
      ∙ rw
          (
            adopt_file,
            recorded_header-cut s c rs n ff fm fc,
            own,
            not_produced c,
            scan_result-cut s c rs n fc fits alone,
          )
          (cut_tail-cut s c archive rs n fc archived)
