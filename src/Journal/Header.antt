-- ===== src/Journal/Header.antt =====
-- `Journal::header` and `parse_header`, and `DiskGuidState::encode` and `decode`, of
-- src/dev/journal.rs. `crc32` is that of the crate `crc`.
pub mod RoundTrip
use disk_edit.Prelude.{
  ℕ, ◌+◌, Bool, true, false, not, Option, none, some, List, [], ◌∷◌, ◌++◌, ltb, ◌==◌, if◌then◌else◌,
  length, take, Result, ok, err, ◌>>=◌, ◌>>◌, refuse_if, ok_or,
}
use disk_edit.Bytes.{to_le, drop, number_at, fields}
use disk_edit.Outcome.{plain, note}
use disk_edit.Table.Guid.{guid_eq}
use disk_edit.Identity.{LiveProof, live, tag, from_tag, SceneIdentity, LiveScene}
use disk_edit.Journal.{
  JournalError, invalid_data, old_format_error, DiskGuidState, unavailable,
  generated_this_operation, present, no_bytes, magic_len, credential_len, header_len,
}

-- `DEJL` and the version 7.
abbrev pub magic : List ℕ
magic = 0x44 ∷ 0x45 ∷ 0x4A ∷ 0x4C ∷ 0x07 ∷ []

abbrev pub previous_version : ℕ
previous_version = 6

pub record JournalHeader : Type 0 where
  pub scene : SceneIdentity
  pub credential : DiskGuidState

unfoldable pub encode_credential : DiskGuidState → List ℕ
encode_credential unavailable = 0 ∷ no_bytes
encode_credential (present g) = 1 ∷ g
encode_credential generated_this_operation = 2 ∷ no_bytes

unfoldable pub decode_credential : List ℕ → Result JournalError DiskGuidState
decode_credential [] = err (invalid_data (plain "implausible journal disk-identity kind"))
decode_credential (kind ∷ guid) =
    if kind == 0
    then ok unavailable
    else if kind == 1
    then ok (present guid)
    else if kind == 2
    then ok generated_this_operation
    else err (invalid_data (plain "implausible journal disk-identity kind"))

abbrev pub map_flag : Option (ℕ × ℕ) → ℕ
map_flag none = 0
map_flag (some _) = 1

abbrev pub map_numbers : Option (ℕ × ℕ) → ℕ × ℕ
map_numbers none = (0, 0)
map_numbers (some m) = m

-- The header up to its first CRC. `push` of a byte is a number of width 1.
unfoldable pub identity_bytes : LiveScene → List ℕ
identity_bytes s =
    magic
    ++ fields
        ((8, s.fp.dev)
          ∷ (8, s.fp.ino)
          ∷ (8, s.fp.size)
          ∷ (8, s.fp.id)
          ∷ (1, map_flag s.map)
          ∷ (8, (map_numbers s.map).0)
          ∷ (8, (map_numbers s.map).1)
          ∷ (1, tag s.proof)
          ∷ [])
        []

unfoldable pub truncated_header_error : ℕ → JournalError
truncated_header_error have =
    invalid_data (note "journal header is truncated ({} bytes, needs {})" (have ∷ header_len ∷ []))

-- The errors of a file that does not start with the magic.
unfoldable pub foreign_header : List ℕ → JournalError
foreign_header b =
    let version = number_at 4 1 b in
    if guid_eq (take 4 b) (take 4 magic)
    then (if version == previous_version
        then old_format_error version
        else invalid_data (note "journal format v{} is not supported by this build" (version ∷ [])))
    else invalid_data (plain "existing file is not a diskedit journal (magic mismatch)")

module _ (crc32 : List ℕ → ℕ) where
  unfoldable pub header : LiveScene → DiskGuidState → List ℕ
  header s credential =
      let b = identity_bytes s in
      let c = encode_credential credential in b ++ (to_le 4 (crc32 b) ++ (c ++ to_le 4 (crc32 c)))

  -- The part of `parse_header` behind the tests of magic and length.
  unfoldable pub parse_fields : List ℕ → Result JournalError JournalHeader
  parse_fields b = do
    let credential = take credential_len (drop 59 b)
    let u64_at = λ (i : ℕ). number_at (magic_len + i) 8 b
    refuse_if (not (crc32 (take 55 b) == number_at 55 4 b))
        (invalid_data (plain "journal header CRC mismatch"))
    refuse_if (not (crc32 credential == number_at 76 4 b))
        (invalid_data (plain "journal disk-identity CRC mismatch"))
    proof ←
        ok_or (from_tag (number_at 54 1 b))
          (invalid_data (plain "implausible journal identity kind"))
    state ← decode_credential credential
    ok (record {
      scene = record {
        fp = record { dev = u64_at 0; ino = u64_at 8; size = u64_at 16; id = u64_at 24 };
        map = if number_at 37 1 b == 0 then none else some (u64_at 33, u64_at 41);
        proof = live proof;
      };
      credential = state;
    })

  unfoldable pub parse_header : List ℕ → Result JournalError JournalHeader
  parse_header b =
      if ltb (length b) magic_len
      then err (truncated_header_error (length b))
      else if not (guid_eq (take magic_len b) magic)
      then err (foreign_header b)
      else if ltb (length b) header_len
      then err (truncated_header_error (length b))
      else parse_fields b
