-- ===== src/Undo.antt =====
-- src/cmd/undo.rs: the rollback of the writes that a journal records. The target is a parameter:
-- its size and what a read, a write and a flush of it do; `write_at` gives what stands on the disk
-- after it and its error. `if let PreImage` picks the writes out of the records.
pub mod History
pub mod Replay
pub mod Heads
pub mod Restore
pub mod Journaled
pub mod Untouched
pub mod Session
pub mod Command
use disk_edit.Prelude.{
  ℕ, zero, suc, ◌+◌, Bool, true, false, not, ◌||◌, ◌&&◌, Option, none, some, List, [], ◌∷◌, ◌++◌,
  ltb, leb, ◌==◌, if◌then◌else◌, length, reverse, any, max, Result, ok, err, ◌>>=◌, ◌>>◌, refuse_if,
  ok_or, checked_add,
}
use disk_edit.Memory.{Memory}
use disk_edit.Outcome.{Message, plain, note, within, Fail, is_empty, exit_partial}
use disk_edit.Table.Guid.{guid_eq as bytes_eq}
use disk_edit.Identity.{LiveScene, scene_mismatch}
use disk_edit.Journal.{
  Mutation, RecoveryData, pre_image, barrier, JournalRecord, describe, DiskGuidState, unavailable,
  generated_this_operation, present, disk_identity_mismatch,
}
use disk_edit.Journal.Header.{JournalHeader}
use disk_edit.Journal.Slot.{JournalRead, complete, truncated_tail}

pub record Device : Type 0 where
  pub size : ℕ  -- u64
  pub read_at : Memory → ℕ → ℕ → Result Message (List ℕ)
  pub write_at : Memory → ℕ → List ℕ → Memory × Option Message
  pub sync_data : Memory → Option Message
  pub sync_all : Memory → Option Message

-- The fields of a `PreImage`.
pub record Write : Type 0 where
  pub off : ℕ
  pub bytes : List ℕ
  pub after : List ℕ

abbrev pub writes_of : RecoveryData → List Write
writes_of (pre_image off bytes after) = record { off = off; bytes = bytes; after = after } ∷ []
writes_of barrier = []

unfoldable pub pre_images : List JournalRecord → List Write
pre_images [] = []
pre_images (r ∷ rs) = writes_of r.recovery ++ pre_images rs

abbrev pub barrier_of : JournalRecord → Option Mutation
barrier_of r = elim r.recovery [ pre_image _ _ _ ↦ none | barrier ↦ some r.mutation ]

abbrev pub first_of : Option Mutation → Option Mutation → Option Mutation
first_of none later = later
first_of (some m) later = some m

unfoldable pub find_barrier : List JournalRecord → Option Mutation
find_barrier [] = none
find_barrier (r ∷ rs) = first_of (barrier_of r) (find_barrier rs)

-- `zip(..).take_while(|(a, b)| a == b).count()`
unfoldable pub agreeing : List ℕ → List ℕ → ℕ
agreeing [] _ = 0
agreeing (a ∷ rest) [] = 0
agreeing (a ∷ rest) (b ∷ bs) = let more = agreeing rest bs in if a == b then suc more else 0

unfoldable pub matches_journaled_write : List ℕ → List ℕ → List ℕ → Bool
matches_journaled_write now after pre =
    if bytes_eq now after || bytes_eq now pre
    then true
    else if not (length now == length after) || not (length now == length pre)
    then false
    else leb (length now) (agreeing now after + agreeing (reverse now) (reverse pre))

pub data EntryCheck : Type 0 where
  ok_entry : EntryCheck
  mismatch unreadable : Message → EntryCheck

-- The maps by offset: what `get` finds, and `entry(off).or_insert(bytes)`.
unfoldable pub lookup : List (ℕ × List ℕ) → ℕ → Option (List ℕ)
lookup [] off = none
lookup ((o, bytes) ∷ rest) off =
    let later = lookup rest off in if o == off then some bytes else later

unfoldable pub or_insert : List (ℕ × List ℕ) → ℕ → List ℕ → List (ℕ × List ℕ)
or_insert heads off bytes = elim (lookup heads off) [
  | none ↦ heads ++ (off, bytes) ∷ []
  | some _ ↦ heads
]

unfoldable pub chain_heads : List (ℕ × List ℕ) → List Write → List (ℕ × List ℕ)
chain_heads heads [] = heads
chain_heads heads (w ∷ ws) = chain_heads (or_insert heads w.off w.bytes) ws

pub record ReplayPlan : Type 0 where
  pub rolled_back_offsets : List ℕ
  pub complete : Bool

unfoldable pub contains : List ℕ → ℕ → Bool
contains offsets off = any (λ o. o == off) offsets

module _ (dev : Device) where
  unfoldable pub check_replay_entry : Memory → Write → EntryCheck
  check_replay_entry mem w = elim (dev.read_at mem w.off (length w.bytes)) [
    | err e ↦ unreadable (within "cannot verify the journaled write against the target" e)
    | ok now ↦
        if matches_journaled_write now w.after w.bytes
        then ok_entry
        else mismatch
            (note "target no longer matches the journaled write at offset {}" (w.off ∷ []))
  ]

  -- Every write lies inside the target.
  unfoldable pub check_ranges : List Write → Result Fail (Unit {0})
  check_ranges [] = ok tt
  check_ranges (w ∷ ws) = do
    end ←
        ok_or (checked_add w.off (length w.bytes)) (
          Fail.refused (note "journal record at offset {} has an unrepresentable end" (w.off ∷ [])))
    refuse_if (ltb dev.size end) (
        Fail.refused (
          note "journal record {}..{} lies past the target's {} byte(s)"
            (w.off ∷ end ∷ dev.size ∷ [])))
    check_ranges ws

  -- The offsets where the disk holds the chain head already.
  unfoldable pub rolled_back : Memory → List (ℕ × List ℕ) → List ℕ
  rolled_back mem [] = []
  rolled_back mem ((off, head) ∷ heads) =
      let more = rolled_back mem heads in
      elim (dev.read_at mem off (length head)) [
        | err e ↦ more
        | ok buf ↦ if bytes_eq buf head then off ∷ more else more
      ]

  -- What stands at a write on the disk that is rolled back in memory.
  unfoldable pub staged_bytes : Memory → List (ℕ × List ℕ) → Write → Result Fail (List ℕ)
  staged_bytes mem staged w =
      let from_disk : Result Fail (List ℕ) = elim (dev.read_at mem w.off (length w.bytes)) [
        | err e ↦ err (Fail.infra (within "cannot verify the journaled write against the target" e))
        | ok buf ↦ ok buf
      ] in
      elim (lookup staged w.off) [
        | none ↦ from_disk
        | some v ↦ if length v == length w.bytes then ok v else from_disk
      ]

  -- The dry run, over the writes from the last to the first.
  unfoldable pub verify_staged :
      Memory → List ℕ → List (ℕ × List ℕ) → List Write → Result Fail (Unit {0})
  verify_staged mem rolled staged [] = ok tt
  verify_staged mem rolled staged (w ∷ ws) = elim (contains rolled w.off) [
    | true ↦ verify_staged mem rolled staged ws
    | false ↦ do
      now ← staged_bytes mem staged w
      refuse_if (not (matches_journaled_write now w.after w.bytes)) (
          Fail.refused
            (note "target no longer matches the journaled write at offset {}" (w.off ∷ [])))
      verify_staged mem rolled ((w.off, w.bytes) ∷ staged) ws
  ]

  -- The flag says whether the target gives any evidence of its identity.
  unfoldable pub verify_replay_plan : Memory → Bool → List Write → Result Fail ReplayPlan
  verify_replay_plan mem has_any_evidence ws =
      let heads = chain_heads [] ws in
      let rolled = if has_any_evidence then rolled_back mem heads else [] in
      check_ranges ws
      >> (if not (is_empty heads) && length rolled == length heads
          then ok (record { rolled_back_offsets = rolled; complete = true })
          else (verify_staged mem rolled [] (reverse ws)
              >> ok (record { rolled_back_offsets = rolled; complete = false })))

  -- `sync_data` and the read back after the write.
  unfoldable pub read_back : Write → Memory → Option Fail
  read_back w now = elim (dev.sync_data now) [
    | some e ↦ some (Fail.failed (within "undo sync failed" e))
    | none ↦ elim (dev.read_at now w.off (length w.bytes)) [
      | err e ↦ some (Fail.failed (within "cannot read back the pre-image just written" e))
      | ok got ↦
          if bytes_eq got w.bytes
          then none
          else some (
              Fail.failed (
                note "undo wrote the pre-image at offset {} but the target holds other bytes"
                  (w.off ∷ [])))
    ]
  ]

  unfoldable pub after_write : Write → Memory × Option Message → Memory × Option Fail
  after_write w (now, some e) = (now, some (Fail.failed (within "undo write failed" e)))
  after_write w (now, none) = (now, read_back w now)

  -- The write of one pre-image, with its checks.
  unfoldable pub write_back : Memory → Write → Memory × Option Fail
  write_back mem w = after_write w (dev.write_at mem w.off w.bytes)

  -- How a check that fails ends the replay: only before the first write it is a refusal.
  abbrev pub failed_check : ℕ → Fail → Message → Fail
  failed_check replayed untouched m = if replayed == 0 then untouched else Fail.failed m

  -- The replay, over the writes from the last to the first: what stands on the disk at its end, and
  -- how many writes were rolled back.
  unfoldable pub replay : List ℕ → List Write → ℕ → Memory → Memory × Result Fail ℕ
  replay rolled [] replayed mem = (mem, ok replayed)
  replay rolled (w ∷ ws) replayed mem = elim (contains rolled w.off) [
    | true ↦ replay rolled ws replayed mem
    | false ↦ elim (check_replay_entry mem w) [
      | mismatch m ↦ (mem, err (failed_check replayed (Fail.refused m) m))
      | unreadable m ↦ (mem, err (failed_check replayed (Fail.infra m) m))
      | ok_entry ↦ elim (write_back mem w).1 [
        | some f ↦ ((write_back mem w).0, err f)
        | none ↦ replay rolled ws (suc replayed) (write_back mem w).0
      ]
    ]
  ]

  unfoldable pub synced : Memory × Result Fail ℕ → Memory × Result Fail ℕ
  synced (mem, err f) = (mem, err f)
  synced (mem, ok n) = elim (dev.sync_all mem) [
    | none ↦ (mem, ok n)
    | some e ↦ (mem, err (Fail.failed (within "undo wrote the journal back but sync failed" e)))
  ]

  -- From the search for a barrier to the last flush.
  unfoldable pub undo_entries : Memory → Bool → List JournalRecord → Memory × Result Fail ℕ
  undo_entries mem has_any_evidence entries = elim (find_barrier entries) [
    | some m ↦ (
      mem,
      err (Fail.refused (within "this journal records a non-reversible mutation" (describe m))),
    )
    | none ↦ elim (verify_replay_plan mem has_any_evidence (pre_images entries)) [
      | err f ↦ (mem, err f)
      | ok plan ↦ synced (
          replay plan.rolled_back_offsets
            (if plan.complete then [] else reverse (pre_images entries)) 0 mem)
    ]
  ]
