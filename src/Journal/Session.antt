-- ===== src/Journal/Session.antt =====
-- The writes of a target that has a journal: `WriteSource` of src/dev/source.rs, and `record`,
-- `barrier`, `set_mutation` and `append` of src/dev/journal.rs. The journal is the list of its
-- records; a step that fails in the file system ends the run, and is a shorter run here.
use disk_edit.Prelude.{
  ℕ, Bool, true, false, not, ◌&&◌, Option, none, some, List, [], ◌∷◌, ◌++◌, ltb, ◌==◌,
  if◌then◌else◌, length, Result, ok, ◌>>=◌, ◌>>◌, refuse_if, ok_or, checked_add, u32_mod,
}
use disk_edit.Memory.{Memory, load, store}
use disk_edit.Outcome.{Message, plain, note}
use disk_edit.Journal.{
  Mutation, partition_table, external_fs_tool, mkfs, relocate_partition, copy_partition, pre_image,
  barrier, JournalRecord, encode_record,
}

pub record JournalState : Type 0 where
  pub records : List JournalRecord
  pub mutation : Mutation
  pub barred : Bool

pub record Session : Type 0 where
  pub size : ℕ  -- u64
  pub is_block : Bool
  pub file_len : ℕ  -- what the metadata of an image says now
  pub disk : Memory
  pub journal : Option JournalState

-- `==` of the derived `PartialEq`.
unfoldable pub mutation_eq : Mutation → Mutation → Bool
mutation_eq partition_table partition_table = true
mutation_eq external_fs_tool external_fs_tool = true
mutation_eq mkfs mkfs = true
mutation_eq (relocate_partition p f t) (relocate_partition p' f' t') =
    p == p' && (f == f' && t == t')
mutation_eq (copy_partition p f t) (copy_partition p' f' t') = p == p' && (f == f' && t == t')
mutation_eq _ _ = false

unfoldable pub append : JournalState → JournalRecord → Result Message JournalState
append j rec = do
  refuse_if (not (ltb (length (encode_record rec)) u32_mod))
      (plain "journal record exceeds u32 length")
  ok (record j { records = j.records ++ rec ∷ [] })

unfoldable pub record_write : JournalState → ℕ → List ℕ → List ℕ → Result Message JournalState
record_write j off bytes after =
    append j (record { mutation = j.mutation; recovery = pre_image off bytes after })

-- `Journal::barrier`
unfoldable pub record_barrier : JournalState → Result Message JournalState
record_barrier j =
    if j.barred
    then ok j
    else (append j (record { mutation = j.mutation; recovery = barrier }) >>= λ j'.
        ok (record j' { barred = true }))

unfoldable pub set_mutation : JournalState → Mutation → JournalState
set_mutation j m = record j {
  mutation = m;
  barred = if mutation_eq j.mutation m then j.barred else false;
}

unfoldable pub refuse_past_end : Session → ℕ → ℕ → Result Message (Unit {0})
refuse_past_end s off len = do
  end ←
      ok_or (checked_add off len)
        (note "write of {} byte(s) at offset {} overflows the offset range" (len ∷ off ∷ []))
  refuse_if (ltb s.size end)
      (note "write {}..{} lies past the target's {} byte(s)" (off ∷ end ∷ s.size ∷ []))
  refuse_if (not s.is_block && ltb s.file_len end) (
      note "write {}..{} lies past the image, which has {} byte(s) now"
        (off ∷ end ∷ s.file_len ∷ []))

-- The journal after the pre-image of a write was recorded.
unfoldable pub journaled : Session → ℕ → List ℕ → Result Message (Option JournalState)
journaled s off buf = elim s.journal [
  | none ↦ ok none
  | some j ↦ record_write j off (load s.disk off (length buf)) buf >>= λ j'. ok (some j')
]

-- `WriteSource::write_at`
unfoldable pub write_at : Session → ℕ → List ℕ → Result Message Session
write_at s off buf = do
  refuse_past_end s off (length buf)
  j ← journaled s off buf
  ok (record s { disk = store s.disk off buf; journal = j })

unfoldable pub mark_non_reversible : Option JournalState → Result Message (Option JournalState)
mark_non_reversible none = ok none
mark_non_reversible (some j) = record_barrier j >>= λ j'. ok (some j')

-- `WriteSource::write_data_at`
unfoldable pub write_data_at : Session → ℕ → List ℕ → Result Message Session
write_data_at s off buf = do
  refuse_past_end s off (length buf)
  j ← mark_non_reversible s.journal
  ok (record s { disk = store s.disk off buf; journal = j })
