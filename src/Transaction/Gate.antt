-- ===== src/Transaction/Gate.antt =====
-- Which way out of an unfinished operation is named.
use disk_edit.Prelude.{
  ◌≡◌, ◌↔◌, refl, Bool-cases, inl, inr, true, not, none, List, [], ◌∷◌, any, Result, ok, err,
}
use disk_edit.Outcome.{Message}
use disk_edit.Journal.{JournalRecord, RecoveryData, pre_image, barrier}
use disk_edit.Journal.Slot.{RecoveryEntry, JournalRead, JournalCandidate}
use disk_edit.Undo.{find_barrier}
use disk_edit.Transaction.{
  active_recovery_records, journal_records, checkpoint_records, way_out, WayOut, recorded,
  old_format, foreign, rollbackable, is_barrier, entries_of,
}

free_iff : (rs : List JournalRecord) → (not (any is_barrier rs) ≡ true) ↔ (find_barrier rs ≡ none)
unfolding find_barrier
free_iff [] = (λ _. refl, λ _. refl)
free_iff (r ∷ rs) = go r.recovery refl (free_iff rs)
  where
    go :
        (v : RecoveryData)
        → r.recovery ≡ v
        → (not (any is_barrier rs) ≡ true) ↔ (find_barrier rs ≡ none)
        → (not (any is_barrier (r ∷ rs)) ≡ true) ↔ (find_barrier (r ∷ rs) ≡ none)
    go barrier e rest = rw e (λ h. absurd (cc h), λ h. absurd (cc h))
    go (pre_image off bytes after) e rest = rw e rest

-- The journal holds records, no barrier among them, and no checkpoint stands beside it.
abbrev pub CanUndo : JournalCandidate → Result Message RecoveryEntry → Type 0
CanUndo candidate at =
    (at ≡ ok RecoveryEntry.absent)
    × (read : JournalRead) × (candidate ≡ JournalCandidate.records read)
    × (find_barrier (entries_of read) ≡ none)

way_out_records :
    (read : JournalRead)
    → way_out (active_recovery_records (JournalCandidate.records read) (ok RecoveryEntry.absent))
      ≡ WayOut.undo_or_abandon
    → CanUndo (JournalCandidate.records read) (ok RecoveryEntry.absent)
unfolding way_out active_recovery_records journal_records checkpoint_records foreign rollbackable
    recorded old_format
way_out_records read h = elim (Bool-cases (any is_barrier (entries_of read))) [
  | inl barred ↦ absurd (cc (rw barred at h))
  | inr clear ↦ (refl, read, refl, (free_iff (entries_of read)).0 (rw clear refl))
]

to_undo :
    (candidate : JournalCandidate) (at : Result Message RecoveryEntry)
    → way_out (active_recovery_records candidate at) ≡ WayOut.undo_or_abandon
    → CanUndo candidate at
unfolding way_out active_recovery_records journal_records checkpoint_records foreign rollbackable
    recorded old_format
to_undo JournalCandidate.absent (err e) h = absurd (cc h)
to_undo JournalCandidate.absent (ok RecoveryEntry.absent) h = absurd (cc h)
to_undo JournalCandidate.absent (ok (RecoveryEntry.file len)) h = absurd (cc h)
to_undo JournalCandidate.absent (ok (RecoveryEntry.not_a_recovery_file n)) h = absurd (cc h)
to_undo JournalCandidate.shell (err e) h = absurd (cc h)
to_undo JournalCandidate.shell (ok RecoveryEntry.absent) h = absurd (cc h)
to_undo JournalCandidate.shell (ok (RecoveryEntry.file len)) h = absurd (cc h)
to_undo JournalCandidate.shell (ok (RecoveryEntry.not_a_recovery_file n)) h = absurd (cc h)
to_undo (JournalCandidate.old_format m) (err e) h = absurd (cc h)
to_undo (JournalCandidate.old_format m) (ok RecoveryEntry.absent) h = absurd (cc h)
to_undo (JournalCandidate.old_format m) (ok (RecoveryEntry.file len)) h = absurd (cc h)
to_undo (JournalCandidate.old_format m) (ok (RecoveryEntry.not_a_recovery_file n)) h = absurd (cc h)
to_undo (JournalCandidate.not_a_recovery_file m) (err e) h = absurd (cc h)
to_undo (JournalCandidate.not_a_recovery_file m) (ok RecoveryEntry.absent) h = absurd (cc h)
to_undo (JournalCandidate.not_a_recovery_file m) (ok (RecoveryEntry.file len)) h = absurd (cc h)
to_undo (JournalCandidate.not_a_recovery_file m) (ok (RecoveryEntry.not_a_recovery_file n)) h =
    absurd (cc h)
to_undo (JournalCandidate.damaged m) (err e) h = absurd (cc h)
to_undo (JournalCandidate.damaged m) (ok RecoveryEntry.absent) h = absurd (cc h)
to_undo (JournalCandidate.damaged m) (ok (RecoveryEntry.file len)) h = absurd (cc h)
to_undo (JournalCandidate.damaged m) (ok (RecoveryEntry.not_a_recovery_file n)) h = absurd (cc h)
to_undo (JournalCandidate.records read) (err e) h = absurd (cc h)
to_undo (JournalCandidate.records read) (ok RecoveryEntry.absent) h = way_out_records read h
to_undo (JournalCandidate.records read) (ok (RecoveryEntry.file len)) h = absurd (cc h)
to_undo (JournalCandidate.records read) (ok (RecoveryEntry.not_a_recovery_file n)) h = absurd (cc h)

-- A command that finds something unfinished names `undo` as the way out exactly when the place of
-- the journal holds a journal with records, of which none is a barrier that `undo` would refuse, and
-- nothing stands at the place of the checkpoint.
pub way_out-CanUndo_iff :
    (candidate : JournalCandidate) (at : Result Message RecoveryEntry)
    → (way_out (active_recovery_records candidate at) ≡ WayOut.undo_or_abandon)
      ↔ CanUndo candidate at
unfolding way_out active_recovery_records journal_records checkpoint_records foreign rollbackable
    recorded old_format
way_out-CanUndo_iff candidate at = (to_undo candidate at, back)
  where
    back :
        CanUndo candidate at
        → way_out (active_recovery_records candidate at) ≡ WayOut.undo_or_abandon
    back (none_there, read, records, free) =
        let clear = (free_iff (entries_of read)).1 free in rw (none_there, records, clear) refl
