-- ===== src/Tests/Undo.antt =====
-- Runs of src/cmd/undo.rs on a device of 1024 bytes that works.
use disk_edit.Prelude.{
  Bool, ℕ, ◌+◌, ◌≡◌, refl, true, false, none, some, List, [], ◌∷◌, ◌++◌, length, reverse, take, ok,
  err, arith, leb, if◌then◌else◌,
}
use disk_edit.Bytes.{to_le, drop}
use disk_edit.Memory.{Memory, load, store}
use disk_edit.Outcome.{Message, plain, within, Fail}
use disk_edit.Journal.{
  partition_table, pre_image, barrier, JournalRecord, describe, encode_record, encode_recovery,
  write_meta, mutation_tag,
}
use disk_edit.Journal.Session.{
  JournalState, Session, append, record_write, record_barrier, refuse_past_end, journaled, write_at,
  mark_non_reversible, write_data_at,
}
use disk_edit.Table.Guid.{guid_eq}
use disk_edit.Identity.{
  TargetFingerprint, inode, live, scene_mismatch, compare, compare_kinds, compare_fields,
  compare_maps, has_inode_evidence, has_size_evidence,
}
use disk_edit.Journal.{unavailable}
use disk_edit.Journal.Slot.{complete, records}
use disk_edit.Undo.{
  Device, Write, pre_images, find_barrier, undo_entries, verify_replay_plan, chain_heads, or_insert,
  lookup, rolled_back, check_ranges, verify_staged, staged_bytes, matches_journaled_write, agreeing,
  contains, replay, check_replay_entry, write_back, after_write, read_back, synced,
}
use disk_edit.Undo.Command.{
  World, vacant, pick_journal, stale_checkpoint_note, verify_disk_identity, check_identity, gates,
  picked_entries, undo_code, cmd_undo,
}
use disk_edit.Undo.Command.Ends.{HasReplayed, cmd_undo-zero}
use disk_edit.Undo.Replay.{IsWorking}
use disk_edit.Undo.Journaled.{IsSession, undo_entries-restores}
use disk_edit.Undo.Untouched.{undo_entries-untouched}
use disk_edit.Undo.Session.{IsJournaled, write_of, write_at-restores, write_data_at-refused}

abbrev device : Device
device = record {
  size = 1024;
  read_at =
      λ mem off n. if leb (off + n) 1024 then ok (load mem off n) else err (plain "short read");
  write_at = λ mem off bs.
      if leb (off + length bs) 1024
      then (store mem off bs, none)
      else (mem, some (plain "write past the end"));
  sync_data = λ mem. none;
  sync_all = λ mem. none;
}

device-IsWorking : IsWorking device
device-IsWorking = record {
  reads = λ mem off n h.
      let in_range : leb (off + n) 1024 ≡ true = ground (arith, h) in rw in_range refl;
  writes = λ mem off bs h.
      let in_range : leb (off + length bs) 1024 ≡ true = ground (arith, h) in rw in_range refl;
  syncs = λ mem. refl;
  syncs_all = λ mem. refl;
}

abbrev zeros : Memory
zeros x = 0

abbrev table_bytes : List ℕ
table_bytes = 0x55 ∷ 0xAA ∷ []

abbrev start : JournalState
start = record { records = []; mutation = partition_table; barred = false }

abbrev fresh : Session
fresh = record {
  size = 1024;
  is_block = false;
  file_len = 1024;
  disk = zeros;
  journal = some start;
}

abbrev first_record : JournalRecord
first_record = record {
  mutation = partition_table;
  recovery = pre_image 510 (0 ∷ 0 ∷ []) table_bytes;
}

abbrev one_record : JournalState
one_record = record { records = first_record ∷ []; mutation = partition_table; barred = false }

abbrev written : Session
written = record {
  size = 1024;
  is_block = false;
  file_len = 1024;
  disk = store zeros 510 table_bytes;
  journal = some one_record;
}

fresh-written : write_at fresh 510 table_bytes ≡ ok written
unfolding write_at refuse_past_end journaled record_write append encode_record encode_recovery
    write_meta mutation_tag to_le load
fresh-written = refl

fresh-IsJournaled : IsJournaled zeros [] 1024 zeros []
unfolding pre_images find_barrier
fresh-IsJournaled = record { listed = refl; free = refl; written = λ x. refl; layout = tt }

-- Only the first of the two bytes has reached the disk.
abbrev half_written : Memory
half_written = store zeros 510 (take 1 table_bytes ++ drop 1 (load zeros 510 2))

write_at-restores_example :
    (j' : JournalState) × (some one_record ≡ some j')
    × IsJournaled zeros
        (write_of fresh 510 table_bytes ∷ [])
        1024
        (store zeros 510 table_bytes)
        j'.records
    × (end : Memory) × (n : ℕ) × (undo_entries device half_written true j'.records ≡ (end, ok n))
    × ((x : ℕ) → end x ≡ 0)
write_at-restores_example =
    write_at-restores device zeros [] fresh written start 510 table_bytes 1 half_written true
      device-IsWorking (omega arith) refl refl fresh-IsJournaled (λ v among. absurd among)
      fresh-written (λ x. refl)

abbrev marker : JournalRecord
marker = record { mutation = partition_table; recovery = barrier }

abbrev moved : Session
moved = record {
  size = 1024;
  is_block = false;
  file_len = 1024;
  disk = store zeros 600 table_bytes;
  journal = some (record { records = marker ∷ []; mutation = partition_table; barred = true });
}

fresh-moved : write_data_at fresh 600 table_bytes ≡ ok moved
unfolding write_data_at refuse_past_end mark_non_reversible record_barrier append encode_record
    encode_recovery write_meta mutation_tag
fresh-moved = refl

write_data_at-refused_example :
    (j' : JournalState) × (moved.journal ≡ some j')
    × (why : Message) × (undo_entries device zeros true j'.records
        ≡ (zeros, err (Fail.refused why)))
write_data_at-refused_example =
    write_data_at-refused device fresh moved start 600 table_bytes zeros true refl
      (λ e. absurd (cc e)) fresh-moved

abbrev barred_why : Message
barred_why =
    within "this journal records a non-reversible mutation"
      (plain "the partition table was rewritten")

barred_run : undo_entries device zeros true (marker ∷ []) ≡ (zeros, err (Fail.refused barred_why))
unfolding undo_entries find_barrier describe
barred_run = refl

undo_entries-untouched_example : zeros ≡ zeros
undo_entries-untouched_example =
    undo_entries-untouched device zeros zeros true (marker ∷ []) (Fail.refused barred_why)
      barred_run refl

abbrev first_write : Write
first_write = record { off = 510; bytes = load zeros 510 2; after = table_bytes }

torn-IsSession : IsSession device zeros zeros half_written first_write 1 []
unfolding load
torn-IsSession = record {
  earlier = λ x. refl;
  bytes = refl;
  as_long = refl;
  fits = omega arith;
  torn = λ x. refl;
  layout = (λ v among. absurd among, tt);
}

one_write : pre_images (first_record ∷ []) ≡ reverse (first_write ∷ [])
unfolding pre_images load
one_write = refl

no_barrier : find_barrier (first_record ∷ []) ≡ none
unfolding find_barrier
no_barrier = refl

undo_entries-restores_example :
    (end : Memory) × (n : ℕ) × (undo_entries device half_written false (first_record ∷ [])
      ≡ (end, ok n))
    × ((x : ℕ) → end x ≡ 0)
undo_entries-restores_example =
    undo_entries-restores device device-IsWorking (omega arith) zeros zeros half_written first_write
      1 [] (first_record ∷ []) false torn-IsSession no_barrier one_write

abbrev image : TargetFingerprint
image = record { dev = 2049; ino = 77; size = 1024; id = 0 }

abbrev world : World
world = record {
  part = none;
  node_refusal = none;
  yes = true;
  open_failure = none;
  busy = none;
  checkpoint = vacant;
  candidate = records (complete (first_record ∷ []));
  header = ok (record {
    scene = record { fp = image; map = none; proof = live inode };
    credential = unavailable;
  });
  scene = record { fp = image; map = none; proof = inode };
  disk_guid = ok none;
  has_any_evidence = true;
  shell_removed = true;
  journal_cleared = true;
  checkpoint_removed = true;
  done_code = 0;
}

rolled_back_run : cmd_undo device world half_written ≡ (store half_written 510 (0 ∷ 0 ∷ []), ok 0)
unfolding cmd_undo picked_entries gates stale_checkpoint_note pick_journal check_identity
    scene_mismatch compare compare_kinds compare_fields compare_maps has_inode_evidence
    has_size_evidence verify_disk_identity undo_code undo_entries find_barrier pre_images
    verify_replay_plan chain_heads or_insert lookup rolled_back check_ranges verify_staged
    staged_bytes matches_journaled_write agreeing guid_eq contains replay check_replay_entry
    write_back after_write read_back synced load store drop
rolled_back_run = refl

cmd_undo-zero_example :
    HasReplayed device world half_written (store half_written 510 (0 ∷ 0 ∷ [])) 0
    × (true ≡ true)
    × (true ≡ true)
    × (world.done_code ≡ 0)
    × ((entries : List JournalRecord) (t : Bool)
        → picked_entries world ≡ ok (entries, t)
        → t ≡ false)
cmd_undo-zero_example =
    cmd_undo-zero device world half_written (store half_written 510 (0 ∷ 0 ∷ [])) rolled_back_run
