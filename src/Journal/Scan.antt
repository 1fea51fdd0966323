-- ===== src/Journal/Scan.antt =====
-- `Journal::scan_entries`, `later_complete_record` and the frame of `append` in src/dev/journal.rs:
-- a record is stored as `[len u32][crc32 u32][payload]`. What the source addresses by a position in
-- the file is the rest of the bytes here. `crc32` is that of the crate `crc`.
pub mod Frame
pub mod Ends
pub mod Cut
use disk_edit.Prelude.{
  ℕ, zero, suc, ◌+◌, Bool, true, false, not, ◌||◌, ◌&&◌, Option, none, some, List, [], ◌∷◌, ◌++◌,
  ltb, leb, ◌==◌, if◌then◌else◌, length, take, Result, ok, err,
}
use disk_edit.Bytes.{to_le, drop, number_at}
use disk_edit.Outcome.{plain}
use disk_edit.Journal.{
  JournalRecord, JournalError, invalid_data, encode_record, decode_record, header_len,
}

abbrev pub rec_hdr : ℕ
rec_hdr = 8

abbrev is_ok {ℓ κ} : {E : Type κ} {A : Type ℓ} → Result E A → Bool
is_ok (ok _) = true
is_ok (err _) = false

-- One more record before those that the rest of the scan finds.
abbrev pub push :
    JournalRecord
    → Option (Result JournalError (List JournalRecord × ℕ))
    → Option (Result JournalError (List JournalRecord × ℕ))
push r none = none
push r (some (err e)) = some (err e)
push r (some (ok (rs, end))) = some (ok (r ∷ rs, end))

module _ (crc32 : List ℕ → ℕ) where
  unfoldable pub record_crc : List ℕ → List ℕ → ℕ
  record_crc n_le payload = crc32 (n_le ++ payload)

  -- The bytes that `append` writes at the end of the file.
  unfoldable pub frame : JournalRecord → List ℕ
  unfolding record_crc
  frame r =
      let payload = encode_record r in
      let n_le = to_le 4 (length payload) in n_le ++ (to_le 4 (record_crc n_le payload) ++ payload)

  -- A whole record at the start of these bytes.
  unfoldable pub complete_at : List ℕ → Bool
  unfolding record_crc
  complete_at b =
      let len = number_at 0 4 b in
      let payload = take len (drop rec_hdr b) in
      leb rec_hdr (length b)
      && (leb len (length (drop rec_hdr b))
          && (record_crc (take 4 b) payload == number_at 4 4 b && is_ok (decode_record payload)))

  unfoldable pub later_complete_record : List ℕ → Bool
  later_complete_record [] = false
  later_complete_record (x ∷ xs) = complete_at (x ∷ xs) || later_complete_record xs

  -- The tail that is not a whole record is torn, unless a whole record follows.
  unfoldable pub torn_unless :
      List ℕ → JournalError → Result JournalError (Option (List ℕ × List ℕ))
  torn_unless body e = if later_complete_record body then err e else ok none

  -- One round of the loop up to the payload: the payload and what follows it, or none where the
  -- scan stops.
  unfoldable pub read_frame : List ℕ → Result JournalError (Option (List ℕ × List ℕ))
  unfolding record_crc
  read_frame b =
      let len = number_at 0 4 b in
      let body = drop rec_hdr b in
      if ltb (length b) rec_hdr
      then ok none
      else if len == 0
      then torn_unless body
          (invalid_data (plain "journal entry has zero length but complete records follow it"))
      else if ltb (length body) len
      then torn_unless body (
          invalid_data
            (plain "journal entry length runs past the end of the file (records follow it)"))
      else if not (record_crc (take 4 b) (take len body) == number_at 4 4 b)
      then err (invalid_data (plain "journal entry CRC mismatch"))
      else ok (some (take len body, drop len body))

  -- The loop, with fuel: `none` when the fuel is used up.
  unfoldable pub scan_from : ℕ → ℕ → List ℕ → Option (Result JournalError (List JournalRecord × ℕ))
  scan_from fuel pos [] = some (ok ([], pos))
  scan_from zero pos (_ ∷ _) = none
  scan_from (suc fuel) pos (x ∷ xs) = elim (read_frame (x ∷ xs)) [
    | err e ↦ some (err e)
    | ok none ↦ some (ok ([], pos))
    | ok (some (payload, rest)) ↦ elim (decode_record payload) [
      | err e ↦ some (err e)
      | ok r ↦ push r (scan_from fuel (pos + rec_hdr + length payload) rest)
    ]
  ]

  -- The complete records, and where the last of them ends.
  unfoldable pub scan_entries : List ℕ → Option (Result JournalError (List JournalRecord × ℕ))
  scan_entries bytes =
      if ltb (length bytes) header_len
      then some (ok ([], length bytes))
      else scan_from (length bytes) header_len (drop header_len bytes)

  -- The same as a result. The first case stands for the fuel of `scan_from`.
  unfoldable pub scan_result : List ℕ → Result JournalError (List JournalRecord × ℕ)
  scan_result bytes = elim (scan_entries bytes) [
    | none ↦ err (invalid_data (plain "the scan did not end"))
    | some r ↦ r
  ]

  -- The records of a journal, one after the other.
  unfoldable pub frames : List JournalRecord → List ℕ
  frames [] = []
  frames (r ∷ rs) = frame r ++ frames rs
