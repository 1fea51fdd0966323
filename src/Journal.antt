-- ===== src/Journal.antt =====
-- src/dev/journal.rs: the undo journal. Here its data, the coding of a record and of the credential
-- of the disk, and the comparison of credentials.
pub mod Coding
pub mod Scan
pub mod Header
pub mod Slot
pub mod Session
use disk_edit.Prelude.{
  ℕ, ◌+◌, ◌%◌, Bool, true, false, not, ◌||◌, Option, none, some, List, [], ◌∷◌, ◌++◌, ltb, ◌==◌,
  if◌then◌else◌, length, take, Result, ok, err, ◌>>=◌, ◌>>◌, refuse_if, ok_or, u32_mod,
}
use disk_edit.Bytes.{to_le, drop, number_at}
use disk_edit.Outcome.{Message, plain, note, within}
use disk_edit.Table.Guid.{Guid, guid_eq}

-- What a command did to the target.
pub data Mutation : Type 0 where
  partition_table external_fs_tool mkfs : Mutation
  relocate_partition copy_partition : (partition from_lba to_lba : ℕ) → Mutation

pub data RecoveryData : Type 0 where
  pre_image : (off : ℕ) (bytes after : List ℕ) → RecoveryData
  barrier : RecoveryData

pub record JournalRecord : Type 0 where
  pub mutation : Mutation
  pub recovery : RecoveryData

-- The `io::Error`s of this file: `OldFormatError` is the one that is told apart.
pub data JournalError : Type 0 where
  invalid_data : Message → JournalError
  old_format_error : ℕ → JournalError

unfoldable pub describe : Mutation → Message
describe partition_table = plain "the partition table was rewritten"
describe external_fs_tool = plain "an external filesystem tool wrote to the partition"
describe mkfs = plain "a filesystem was created on the partition"
describe (relocate_partition partition from to) =
    note "partition {} data was moved from LBA {} to {}" (partition ∷ from ∷ to ∷ [])
describe (copy_partition partition from to) =
    note "partition {} data was copied from LBA {} to {}" (partition ∷ from ∷ to ∷ [])

unfoldable pub journal_decode_err : Message → JournalError
journal_decode_err what = invalid_data (within "journal record is malformed" what)

unfoldable pub mutation_tag : Mutation → ℕ
mutation_tag partition_table = 0
mutation_tag (relocate_partition _ _ _) = 1
mutation_tag (copy_partition _ _ _) = 2
mutation_tag external_fs_tool = 3
mutation_tag mkfs = 4

-- The bytes that `write_meta` adds.
unfoldable pub write_meta : Mutation → List ℕ
write_meta (relocate_partition partition from to) =
    to_le 4 partition ++ (to_le 8 from ++ to_le 8 to)
write_meta (copy_partition partition from to) = to_le 4 partition ++ (to_le 8 from ++ to_le 8 to)
write_meta _ = []

-- The closure `reloc` of `Mutation::read`.
unfoldable pub read_reloc : ℕ → List ℕ → Result JournalError (Mutation × ℕ)
unfolding journal_decode_err
read_reloc kind rest = do
  refuse_if (ltb (length rest) 20) (journal_decode_err (plain "truncated mutation payload"))
  let partition = number_at 0 4 rest
  let from = number_at 4 8 rest
  let to = number_at 12 8 rest
  ok (
    if kind == 1 then relocate_partition partition from to else copy_partition partition from to,
    20,
  )

-- The mutation, and how many bytes it took.
unfoldable pub read_mutation : ℕ → List ℕ → Result JournalError (Mutation × ℕ)
unfolding journal_decode_err
read_mutation tag rest =
    if tag == 0
    then ok (partition_table, 0)
    else if tag == 1 || tag == 2
    then read_reloc tag rest
    else if tag == 3
    then ok (external_fs_tool, 0)
    else if tag == 4
    then ok (mkfs, 0)
    else err (journal_decode_err (note "unknown mutation tag {}" (tag ∷ [])))

unfoldable pub encode_recovery : RecoveryData → List ℕ
encode_recovery (pre_image off bytes after) =
    0 ∷ (to_le 8 off ++ (to_le 4 (length bytes % u32_mod) ++ (bytes ++ after)))
encode_recovery barrier = 1 ∷ []

unfoldable pub encode_record : JournalRecord → List ℕ
encode_record r = mutation_tag r.mutation ∷ (write_meta r.mutation ++ encode_recovery r.recovery)

unfoldable pub decode_pre_image : List ℕ → Result JournalError RecoveryData
unfolding journal_decode_err
decode_pre_image rest = do
  refuse_if (ltb (length rest) 13) (journal_decode_err (plain "truncated pre-image"))
  let off = number_at 1 8 rest
  let pre_len = number_at 9 4 rest
  let body = drop 13 rest
  refuse_if (ltb (length body) pre_len) (journal_decode_err (plain "truncated pre-image"))
  ok (pre_image off (take pre_len body) (drop pre_len body))

unfoldable pub decode_recovery : List ℕ → Result JournalError RecoveryData
unfolding journal_decode_err
decode_recovery [] = err (journal_decode_err (plain "missing recovery tag"))
decode_recovery (rtag ∷ body) =
    if rtag == 0
    then decode_pre_image (rtag ∷ body)
    else if rtag == 1
    then ok barrier
    else err (journal_decode_err (note "unknown recovery tag {}" (rtag ∷ [])))

unfoldable pub decode_record : List ℕ → Result JournalError JournalRecord
unfolding journal_decode_err
decode_record [] = err (journal_decode_err (plain "empty payload"))
decode_record (tag ∷ payload) = do
  (mutation, used) ← read_mutation tag payload
  recovery ← decode_recovery (drop used payload)
  ok (record { mutation = mutation; recovery = recovery })

-- What the target says of its GPT disk GUID.
pub data DiskGuidState : Type 0 where
  unavailable generated_this_operation : DiskGuidState
  present : Guid → DiskGuidState

abbrev pub no_bytes : List ℕ
no_bytes = 0 ∷ 0 ∷ 0 ∷ 0 ∷ 0 ∷ 0 ∷ 0 ∷ 0 ∷ 0 ∷ 0 ∷ 0 ∷ 0 ∷ 0 ∷ 0 ∷ 0 ∷ 0 ∷ []

unfoldable pub disk_identity_mismatch : DiskGuidState → DiskGuidState → Option Message
disk_identity_mismatch (present a) (present b) =
    if guid_eq a b
    then none
    else some (note "the journal records GPT disk GUID {} but the target now reports {}" (a ++ b))
disk_identity_mismatch (present _) unavailable =
    some (plain "the target now carries no readable GPT")
disk_identity_mismatch unavailable (present _) =
    some (plain "the journal was written for a target without a GPT")
disk_identity_mismatch _ _ = none

-- The parts of the header: magic, identity and credential, the latter two with a CRC of 4 bytes.
abbrev pub magic_len : ℕ
magic_len = 5

abbrev pub identity_len : ℕ
identity_len = 50

abbrev pub credential_len : ℕ
credential_len = 17

abbrev pub header_len : ℕ
header_len = magic_len + identity_len + 4 + credential_len + 4
