-- ===== src/Undo/Untouched.antt =====
-- When `undo` says that it has not written, it has not.
use disk_edit.Prelude.{
  ℕ, zero, suc, ◌≡◌, refl, inl, inr, Bool, Bool-cases, true, false, Option, none, some, List, [],
  ◌∷◌, length, reverse, Result, ok, err, arith, ◌==◌, if◌then◌else◌,
}
use mathlib.Core.Path.{subst}
use disk_edit.Memory.{Memory}
use disk_edit.Outcome.{Message, Fail}
use disk_edit.Table.Guid.{guid_eq as bytes_eq}
use disk_edit.Journal.{Mutation, JournalRecord}
use disk_edit.Undo.{
  Device, Write, pre_images, find_barrier, contains, EntryCheck, ok_entry, mismatch, unreadable,
  check_replay_entry, read_back, after_write, write_back, failed_check, ReplayPlan,
  verify_replay_plan, replay, synced, undo_entries,
}

-- A failure that leaves open whether anything was written.
abbrev pub may_have_written : Fail → Bool
may_have_written (Fail.failed m) = true
may_have_written _ = false

by_writing : (m : Message) (f : Fail) → some (Fail.failed m) ≡ some f → may_have_written f ≡ true
by_writing m f h =
    let same : Fail.failed m ≡ f = cc h in subst (λ t. may_have_written t ≡ true) same refl

-- A failure that rules out a write leaves the disk as it was at the start.
abbrev IsHonest : Memory → Memory × Result Fail ℕ → Type 0
IsHonest start (end, ok n) = Unit
IsHonest start (end, err f) = may_have_written f ≡ false → end ≡ start

module _ (dev : Device) where
  read_back-may_have_written :
      (now : Memory) (w : Write) (f : Fail)
      → read_back dev w now ≡ some f
      → may_have_written f ≡ true
  unfolding read_back
  read_back-may_have_written now w f h = flushed (dev.sync_data now) refl
    where
      flushed : (o : Option Message) → dev.sync_data now ≡ o → may_have_written f ≡ true
      flushed (some e) eq = by_writing _ f (rw (read_back, eq) at h)
      flushed none eq = read (dev.read_at now w.off (length w.bytes)) refl
        where
          read :
              (r : Result Message (List ℕ))
              → dev.read_at now w.off (length w.bytes) ≡ r
              → may_have_written f ≡ true
          read (err e) eq' = by_writing _ f (rw (read_back, eq, eq') at h)
          read (ok got) eq' = elim (Bool-cases (bytes_eq got w.bytes)) [
            | inl same ↦
                let clash : none ≡ some f = rw (read_back, eq, eq', same) at h in absurd (cc clash)
            | inr differs ↦ by_writing _ f (rw (read_back, eq, eq', differs) at h)
          ]

  after_write-may_have_written :
      (p : Memory × Option Message) (w : Write) (f : Fail)
      → (after_write dev w p).1 ≡ some f
      → may_have_written f ≡ true
  unfolding after_write
  after_write-may_have_written (now, some e) w f h = by_writing _ f h
  after_write-may_have_written (now, none) w f h = read_back-may_have_written now w f h

  write_back-may_have_written :
      (mem : Memory) (w : Write) (f : Fail)
      → (write_back dev mem w).1 ≡ some f
      → may_have_written f ≡ true
  unfolding write_back
  write_back-may_have_written mem w f h =
      after_write-may_have_written (dev.write_at mem w.off w.bytes) w f h

  failed_check-IsHonest :
      (count : ℕ) (mem start : Memory) (untouched : Fail) (m : Message)
      → (count ≡ 0 → mem ≡ start)
      → may_have_written (failed_check dev count untouched m) ≡ false
      → mem ≡ start
  failed_check-IsHonest zero mem start untouched m same h = same refl
  failed_check-IsHonest (suc n) mem start untouched m same h =
      let late : (suc n == 0) ≡ false = ground arith in
      let clash : true ≡ false = rw late at h in absurd (cc clash)

  replay-IsHonest :
      (rolled : List ℕ) (ws : List Write) (count : ℕ) (mem start : Memory)
      → (count ≡ 0 → mem ≡ start)
      → IsHonest start (replay dev rolled ws count mem)
  unfolding replay
  replay-IsHonest rolled [] count mem start same = tt
  replay-IsHonest rolled (w ∷ ws) count mem start same =
      go (λ n now h. replay-IsHonest rolled ws n now start h) (check_replay_entry dev mem w) refl
        (write_back dev mem w).1 refl
    where
      go :
          ((n : ℕ) (now : Memory)
            → (n ≡ 0 → now ≡ start)
            → IsHonest start (replay dev rolled ws n now))
          → (c : EntryCheck) → check_replay_entry dev mem w ≡ c
          → (o : Option Fail) → (write_back dev mem w).1 ≡ o
          → IsHonest start (replay dev rolled (w ∷ ws) count mem)
      go rest c eq o eq' = elim (Bool-cases (contains rolled w.off)) [
        | inl passed ↦ rw (replay, passed) (rest count mem same)
        | inr left ↦ rw (replay, left) (checked c eq)
      ]
        where
          wrote :
              (o : Option Fail)
              → (write_back dev mem w).1 ≡ o
              → IsHonest start (elim (write_back dev mem w).1 as (λ _. Memory × Result Fail ℕ) [
                | some f ↦ ((write_back dev mem w).0, err f)
                | none ↦ replay dev rolled ws (suc count) (write_back dev mem w).0
              ])
          wrote none e =
              rw e (rest (suc count) (write_back dev mem w).0 λ z. absurd (omega (arith, z)))
          wrote (some f) e = rw e (λ h.
              let may : may_have_written f ≡ true = write_back-may_have_written mem w f e in
              cc (h, may))

          checked :
              (c : EntryCheck)
              → check_replay_entry dev mem w ≡ c
              → IsHonest start
                  (elim (check_replay_entry dev mem w) as (λ _. Memory × Result Fail ℕ) [
                    | mismatch m ↦ (mem, err (failed_check dev count (Fail.refused m) m))
                    | unreadable m ↦ (mem, err (failed_check dev count (Fail.infra m) m))
                    | ok_entry ↦ elim (write_back dev mem w).1 as (λ _. Memory × Result Fail ℕ) [
                      | some f ↦ ((write_back dev mem w).0, err f)
                      | none ↦ replay dev rolled ws (suc count) (write_back dev mem w).0
                    ]
                  ])
          checked (mismatch m) e =
              rw e (failed_check-IsHonest count mem start (Fail.refused m) m same)
          checked (unreadable m) e =
              rw e (failed_check-IsHonest count mem start (Fail.infra m) m same)
          checked ok_entry e = rw e (wrote o eq')

  synced-IsHonest :
      (start : Memory) (r : Memory × Result Fail ℕ)
      → IsHonest start r
      → IsHonest start (synced dev r)
  unfolding synced
  synced-IsHonest start (end, err f) h = h
  synced-IsHonest start (end, ok n) h = go (dev.sync_all end) refl
    where
      go : (o : Option Message) → dev.sync_all end ≡ o → IsHonest start (synced dev (end, ok n))
      go none e = rw (synced, e) tt
      go (some m) e = rw (synced, e) λ clash. absurd (cc clash)

  undo_entries-IsHonest :
      (mem : Memory) (evidence : Bool) (entries : List JournalRecord)
      → IsHonest mem (undo_entries dev mem evidence entries)
  unfolding undo_entries
  undo_entries-IsHonest mem evidence entries =
      go (find_barrier entries) refl (verify_replay_plan dev mem evidence (pre_images entries)) refl
    where
      go :
          (b : Option Mutation)
          → find_barrier entries ≡ b
          → (r : Result Fail ReplayPlan)
          → verify_replay_plan dev mem evidence (pre_images entries) ≡ r
          → IsHonest mem (undo_entries dev mem evidence entries)
      go (some m) e r e' = rw (undo_entries, e) λ _. refl
      go none e (err f) e' = rw (undo_entries, e, e') λ _. refl
      go none e (ok plan) e' =
          rw (undo_entries, e, e')
            (synced-IsHonest mem _ (
              replay-IsHonest plan.rolled_back_offsets
                (if plan.complete then [] else reverse (pre_images entries)) 0 mem mem λ _. refl))

  -- When a rollback ends with a failure that says that nothing was written, the disk is as it was
  -- before, whatever the device does and whatever the journal holds.
  pub undo_entries-untouched :
      (mem end : Memory) (evidence : Bool) (entries : List JournalRecord) (f : Fail)
      → undo_entries dev mem evidence entries ≡ (end, err f)
      → may_have_written f ≡ false
      → end ≡ mem
  undo_entries-untouched mem end evidence entries f ended clear =
      let honest : IsHonest mem (end, err f) =
        subst (λ t. IsHonest mem t) ended (undo_entries-IsHonest mem evidence entries) in
      honest clear
