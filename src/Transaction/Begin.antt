-- ===== src/Transaction/Begin.antt =====
-- How a write transaction starts: who gets past the gate, and which journal it goes on with.
use disk_edit.Prelude.{
  ℕ, ◌≡◌, ◌≢◌, ◌⊎◌, refl, ap, ◌∙◌, Bool, Option, some, ◌>>=◌, inl, inr, true, false, List, [], ◌∷◌,
  any, arith, Result, ok, err, >>=-eq_ok, map_err-eq_ok, map_err, if◌then◌else◌, refuse_if,
}
use mathlib.Core.Path.{subst}
use disk_edit.Outcome.{Message, plain, Fail}
use disk_edit.Table.Guid.{Guid}
use disk_edit.Policy.{PartSelector}
use disk_edit.Identity.{LiveScene, LiveProof}
use disk_edit.Journal.{DiskGuidState}
use disk_edit.Journal.Slot.{RecoveryEntry, JournalCandidate, Adopted, adopt}
use disk_edit.Journal.Slot.Owner.{IsTakenUp, adopt-IsTakenUp}
use disk_edit.Movepart.Checkpoint.{Checkpoint, RsCheckpoint, LvmPostFacts, CheckpointSlot}
use disk_edit.Movepart.Resume.{relocation_ownership, partition_resize_ownership}
use disk_edit.Movepart.Resume.Ownership.{
  relocation_ownership_sound, partition_resize_ownership_sound,
}
use disk_edit.Transaction.{
  RecoveryRecord, ResumeClaim, fresh_only, any_checkpoint, own_relocation, resize_or_relocation,
  ResumeKind, fresh, relocation, partition_resize, checkpointed, TableIdentity, claimed, busy,
  is_checkpoint, credential_of, refuse_unidentifiable, begin_or_resume, active_recovery_records,
  journal_records, checkpoint_records,
}

-- What stands at the places of the recovery files, and what the slot records, when a command is
-- let in, by the kind of start.
abbrev pub HasClaim :
    (PartSelector → Result Fail ℕ)
    → Result Fail CheckpointSlot
    → JournalCandidate
    → Result Message RecoveryEntry
    → ResumeClaim
    → ResumeKind
    → Type 0
HasClaim resolve slot candidate at claim fresh =
    ((candidate ≡ JournalCandidate.absent) ⊎ (candidate ≡ JournalCandidate.shell))
    × (at ≡ ok RecoveryEntry.absent)
HasClaim resolve slot candidate at claim checkpointed =
    (claim ≡ any_checkpoint)
    × (((len : ℕ) × (at ≡ ok (RecoveryEntry.file len))) ⊎ ((e : Message) × (at ≡ err e)))
HasClaim resolve slot candidate at claim relocation =
    (part : PartSelector) × (n : ℕ) × (c : Checkpoint) × ((claim ≡ own_relocation part)
      ⊎ (claim ≡ resize_or_relocation part))
    × (resolve part ≡ ok n)
    × (slot ≡ ok (CheckpointSlot.relocation c))
    × (c.grow_part ≡ n)
HasClaim resolve slot candidate at claim partition_resize =
    (part : PartSelector) × (n : ℕ) × (c : RsCheckpoint) × (facts : LvmPostFacts) × (claim
      ≡ resize_or_relocation part)
    × (resolve part ≡ ok n)
    × (slot ≡ ok (CheckpointSlot.resize c))
    × (c.part ≡ n)
    × (c.lvm ≡ some facts)

nothing_stands :
    (candidate : JournalCandidate) (at : Result Message RecoveryEntry)
    → active_recovery_records candidate at ≡ []
    → ((candidate ≡ JournalCandidate.absent) ⊎ (candidate ≡ JournalCandidate.shell))
      × (at ≡ ok RecoveryEntry.absent)
unfolding active_recovery_records journal_records checkpoint_records
nothing_stands JournalCandidate.absent (ok RecoveryEntry.absent) h = (inl refl, refl)
nothing_stands JournalCandidate.shell (ok RecoveryEntry.absent) h = (inr refl, refl)
nothing_stands JournalCandidate.absent (err e) h = absurd (cc h)
nothing_stands JournalCandidate.absent (ok (RecoveryEntry.file len)) h = absurd (cc h)
nothing_stands JournalCandidate.absent (ok (RecoveryEntry.not_a_recovery_file n)) h = absurd (cc h)
nothing_stands JournalCandidate.shell (err e) h = absurd (cc h)
nothing_stands JournalCandidate.shell (ok (RecoveryEntry.file len)) h = absurd (cc h)
nothing_stands JournalCandidate.shell (ok (RecoveryEntry.not_a_recovery_file n)) h = absurd (cc h)
nothing_stands (JournalCandidate.old_format m) at h = absurd (cc h)
nothing_stands (JournalCandidate.not_a_recovery_file m) at h = absurd (cc h)
nothing_stands (JournalCandidate.damaged m) at h = absurd (cc h)
nothing_stands (JournalCandidate.records m) at h = absurd (cc h)

checkpoint_stands :
    (candidate : JournalCandidate) (at : Result Message RecoveryEntry)
    → any is_checkpoint (active_recovery_records candidate at) ≡ true
    → ((len : ℕ) × (at ≡ ok (RecoveryEntry.file len))) ⊎ ((e : Message) × (at ≡ err e))
unfolding active_recovery_records journal_records checkpoint_records
checkpoint_stands candidate (ok (RecoveryEntry.file len)) h = inl (len, refl)
checkpoint_stands candidate (err e) h = inr (e, refl)
checkpoint_stands JournalCandidate.absent (ok RecoveryEntry.absent) h = absurd (cc h)
checkpoint_stands JournalCandidate.shell (ok RecoveryEntry.absent) h = absurd (cc h)
checkpoint_stands (JournalCandidate.old_format m) (ok RecoveryEntry.absent) h = absurd (cc h)
checkpoint_stands (JournalCandidate.not_a_recovery_file m) (ok RecoveryEntry.absent) h =
    absurd (cc h)
checkpoint_stands (JournalCandidate.damaged m) (ok RecoveryEntry.absent) h = absurd (cc h)
checkpoint_stands (JournalCandidate.records read) (ok RecoveryEntry.absent) h = absurd (cc h)
checkpoint_stands JournalCandidate.absent (ok (RecoveryEntry.not_a_recovery_file n)) h =
    absurd (cc h)
checkpoint_stands JournalCandidate.shell (ok (RecoveryEntry.not_a_recovery_file n)) h =
    absurd (cc h)
checkpoint_stands (JournalCandidate.old_format m) (ok (RecoveryEntry.not_a_recovery_file n)) h =
    absurd (cc h)
checkpoint_stands (JournalCandidate.not_a_recovery_file m)
      (ok (RecoveryEntry.not_a_recovery_file n)) h =
    absurd (cc h)
checkpoint_stands (JournalCandidate.damaged m) (ok (RecoveryEntry.not_a_recovery_file n)) h =
    absurd (cc h)
checkpoint_stands (JournalCandidate.records read) (ok (RecoveryEntry.not_a_recovery_file n)) h =
    absurd (cc h)

-- What the tests of the gate have found, by the kind of start.
abbrev Passed :
    (PartSelector → Result Fail ℕ)
    → Result Fail CheckpointSlot
    → List RecoveryRecord
    → ResumeClaim
    → ResumeKind
    → Type 0
Passed resolve slot active claim fresh = active ≡ []
Passed resolve slot active claim checkpointed =
    (claim ≡ any_checkpoint) × (any is_checkpoint active ≡ true)
Passed resolve slot active claim relocation =
    (part : PartSelector) × (n : ℕ) × ((claim ≡ own_relocation part)
      ⊎ (claim ≡ resize_or_relocation part))
    × (resolve part ≡ ok n)
    × (relocation_ownership slot n ≡ ok true)
Passed resolve slot active claim partition_resize =
    (part : PartSelector) × (n : ℕ) × (claim ≡ resize_or_relocation part)
    × (resolve part ≡ ok n)
    × (partition_resize_ownership slot n ≡ ok true)

module _ (resolve : PartSelector → Result Fail ℕ) (slot : Result Fail CheckpointSlot) where
  abbrev Entered : List RecoveryRecord → ResumeClaim → Result Fail ResumeKind → Type 0
  Entered active claim (ok kind) = Passed resolve slot active claim kind
  Entered active claim (err f) = Unit

  enter_own :
      (r : RecoveryRecord) (rs : List RecoveryRecord) (part : PartSelector) (n : ℕ)
      → resolve part ≡ ok n
      → (own : Result Fail Bool) → relocation_ownership slot n ≡ own
      → Entered
          (r ∷ rs)
          (own_relocation part)
          (own >>= λ o. if o then ok relocation else err (busy (r ∷ rs)))
  enter_own r rs part n named (err f) e = tt
  enter_own r rs part n named (ok true) e = (part, n, inl refl, named, e)
  enter_own r rs part n named (ok false) e = tt

  enter_resize :
      (r : RecoveryRecord) (rs : List RecoveryRecord) (part : PartSelector) (n : ℕ)
      → resolve part ≡ ok n
      → (own resize : Result Fail Bool) → relocation_ownership slot n ≡ own
      → partition_resize_ownership slot n ≡ resize
      → Entered (r ∷ rs) (resize_or_relocation part) (
          own >>= λ o.
          if o
          then ok relocation
          else (resize >>= λ q. if q then ok partition_resize else err (busy (r ∷ rs))))
  enter_resize r rs part n named (err f) resize e e' = tt
  enter_resize r rs part n named (ok true) resize e e' = (part, n, inr refl, named, e)
  enter_resize r rs part n named (ok false) (err f) e e' = tt
  enter_resize r rs part n named (ok false) (ok true) e e' = (part, n, refl, named, e')
  enter_resize r rs part n named (ok false) (ok false) e e' = tt

  claimed-Entered :
      (active : List RecoveryRecord) (claim : ResumeClaim)
      → Entered active claim (claimed resolve slot active claim)
  unfolding claimed
  claimed-Entered [] claim = refl
  claimed-Entered (r ∷ rs) fresh_only = tt
  claimed-Entered (r ∷ rs) any_checkpoint = go (any is_checkpoint (r ∷ rs)) refl
    where
      go :
          (b : Bool)
          → any is_checkpoint (r ∷ rs) ≡ b
          → Entered (r ∷ rs) any_checkpoint (if b then ok checkpointed else err (busy (r ∷ rs)))
      go true e = (refl, e)
      go false e = tt
  claimed-Entered (r ∷ rs) (own_relocation part) = go (resolve part) refl
    where
      go :
          (named : Result Fail ℕ)
          → resolve part ≡ named
          → Entered (r ∷ rs) (own_relocation part) (
              named >>= λ n.
              relocation_ownership slot n >>= λ o. if o then ok relocation else err (busy (r ∷ rs)))
      go (err f) e = tt
      go (ok n) e = enter_own r rs part n e (relocation_ownership slot n) refl
  claimed-Entered (r ∷ rs) (resize_or_relocation part) = go (resolve part) refl
    where
      go :
          (named : Result Fail ℕ)
          → resolve part ≡ named
          → Entered (r ∷ rs) (resize_or_relocation part) (
              named >>= λ n. relocation_ownership slot n >>= λ o.
              if o
              then ok relocation
              else (partition_resize_ownership slot n >>= λ q.
                  if q then ok partition_resize else err (busy (r ∷ rs))))
      go (err f) e = tt
      go (ok n) e =
          enter_resize r rs part n e (relocation_ownership slot n)
            (partition_resize_ownership slot n) refl refl

identified :
    (p : LiveProof) (scene : LiveScene)
    → scene.proof ≡ p
    → refuse_unidentifiable scene ≡ ok tt
    → p ≢ LiveProof.unavailable
unfolding refuse_unidentifiable
identified LiveProof.device_id scene e h = λ bad. cc bad
identified LiveProof.inode scene e h = λ bad. cc bad
identified LiveProof.unavailable scene e h = absurd (cc (rw e at h))

Passed-HasClaim :
    (resolve : PartSelector → Result Fail ℕ) (slot : Result Fail CheckpointSlot)
    (candidate : JournalCandidate) (at : Result Message RecoveryEntry) (claim : ResumeClaim)
    (kind : ResumeKind)
    → Passed resolve slot (active_recovery_records candidate at) claim kind
    → HasClaim resolve slot candidate at claim kind
Passed-HasClaim resolve slot candidate at claim fresh none_active =
    nothing_stands candidate at none_active
Passed-HasClaim resolve slot candidate at claim checkpointed (any_kind, there) =
    (any_kind, checkpoint_stands candidate at there)
Passed-HasClaim resolve slot candidate at claim relocation (part, n, claims, named, owned) =
    let (c, stored, same) = relocation_ownership_sound slot n owned in
    (part, n, c, claims, named, stored, same)
Passed-HasClaim resolve slot candidate at claim partition_resize (part, n, claims, named, owned) =
    let (c, facts, stored, same, lvm) = partition_resize_ownership_sound slot n owned in
    (part, n, c, facts, claims, named, stored, same, lvm)

-- What holds when a write transaction has started.
pub record HasBegun (crc32 : List ℕ → ℕ) (archive : List ℕ → Option Message) (scene : LiveScene)
    (resolve : PartSelector → Result Fail ℕ) (slot : Result Fail CheckpointSlot)
    (candidate : JournalCandidate) (at : Result Message RecoveryEntry) (slot_held : Bool)
    (guid : Result Message (Option Guid)) (file : Option (List ℕ)) (claim : ResumeClaim)
    (table : TableIdentity) (kind : ResumeKind) (adopted : Adopted) : Type 0 where
  pub identity : scene.proof ≢ LiveProof.unavailable
  pub alone : slot_held ≡ false
  pub claims : HasClaim resolve slot candidate at claim kind
  pub credential : DiskGuidState
  pub known : credential_of table guid ≡ ok credential
  pub journal : IsTakenUp crc32 scene credential archive file adopted

-- A write transaction that starts has a target with an identity and is the only one of its process.
-- Either it is fresh, and there is no checkpoint and no journal but an empty shell; or the command
-- goes on with any checkpoint and one is there, or what is there cannot be read; or the slot records a relocation of the very
-- partition that the command names, or, for a claim that takes it, a resize of that partition with
-- LVM steps left. Its journal is not there yet, or is a new header where no record stood, or was
-- recorded for this target and keeps every byte but a tail that was archived.
pub begin_or_resume-HasBegun :
    (crc32 : List ℕ → ℕ) (archive : List ℕ → Option Message) (scene : LiveScene)
    (resolve : PartSelector → Result Fail ℕ) (slot : Result Fail CheckpointSlot)
    (candidate : JournalCandidate) (at : Result Message RecoveryEntry) (slot_held : Bool)
    (guid : Result Message (Option Guid)) (file : Option (List ℕ)) (claim : ResumeClaim)
    (table : TableIdentity) (kind : ResumeKind) (adopted : Adopted)
    → begin_or_resume crc32 archive scene resolve slot
        (active_recovery_records candidate at)
        slot_held
        guid
        file
        claim
        table
      ≡ ok (kind, adopted)
    → HasBegun crc32 archive scene resolve slot candidate at slot_held guid file claim table kind
        adopted
unfolding begin_or_resume
begin_or_resume-HasBegun crc32 archive scene resolve slot candidate at slot_held guid file claim
      table kind adopted h =
    let active : List RecoveryRecord = active_recovery_records candidate at in
    let (_, seen, h₁) = >>=-eq_ok (refuse_unidentifiable scene) _ h in
    let (k, entered, h₂) = >>=-eq_ok (claimed resolve slot active claim) _ h₁ in
    let (_, free, h₃) =
      >>=-eq_ok (refuse_if slot_held (Fail.infra (plain "the session slot is already held"))) _
        h₂ in
    let (c, credential, h₄) = >>=-eq_ok (credential_of table guid) _ h₃ in
    let (a, opened, h₅) = >>=-eq_ok (map_err (adopt crc32 scene c archive file) _) _ h₄ in
    let same_kind : k ≡ kind = cc h₅ in
    let same : a ≡ adopted = cc h₅ in
    record {
      identity = identified scene.proof scene refl seen;
      alone = ground (arith, free);
      claims = Passed-HasClaim resolve slot candidate at claim kind (
          subst (λ r. Entered resolve slot active claim r) (entered ∙ ap ok same_kind)
            (claimed-Entered resolve slot active claim));
      credential = c;
      known = credential;
      journal =
          adopt-IsTakenUp crc32 scene c archive file adopted
            (map_err-eq_ok (adopt crc32 scene c archive file) _ opened ∙ ap ok same);
    }
