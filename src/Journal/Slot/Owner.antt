-- ===== src/Journal/Slot/Owner.antt =====
-- Whose journal a run goes on with.
use disk_edit.Prelude.{
  ℕ, ◌≡◌, ◌≢◌, refl, Bool-cases, inl, inr, true, not, ◌&&◌, Option, none, some, List, [], ◌∷◌, ◌++◌,
  length, take, Result, ok, err, ◌==◌, >>=-eq_ok, ◌⊎◌, ◌-◌, Option-cases, ◌>>=◌,
}
use mathlib.Core.Path.{subst}
use disk_edit.Bytes.{drop}
use disk_edit.Bytes.Slices.{append-nil, take-drop}
use disk_edit.Outcome.{Message}
use disk_edit.Identity.{LiveScene, live, scene_mismatch}
use disk_edit.Identity.Compare.{Agree, or_else-none, scene_mismatch-none}
use disk_edit.Journal.{JournalError, DiskGuidState, disk_identity_mismatch}
use disk_edit.Journal.Header.{JournalHeader, header}
use disk_edit.Journal.Scan.{scan_result}
use disk_edit.Journal.Slot.{
  Adopted, is_generated, recorded_header, no_records, mismatch, cut_tail, adopt_file, adopt,
}

-- A header that was written for the target that is there now.
pub record IsOwn (h : JournalHeader) (s : LiveScene) (c : DiskGuidState) : Type 0 where
  pub kind : h.scene.proof ≡ live s.proof
  pub map : h.scene.map ≡ s.map
  pub fields : Agree s.proof h.scene.fp s.fp
  pub disk : disk_identity_mismatch h.credential c ≡ none

-- No byte is lost, and what was cut off is archived.
pub record KeepsBytes (archive : List ℕ → Option Message) (b : List ℕ) (a : Adopted) : Type 0 where
  pub kept : List ℕ
  pub stands : a.file ≡ some kept
  pub whole : kept ++ a.cut ≡ b
  pub archived : a.cut ≢ [] → archive a.cut ≡ none

cut_tail-KeepsBytes :
    (crc32 : List ℕ → ℕ) (s : LiveScene) (c : DiskGuidState) (archive : List ℕ → Option Message)
    (b : List ℕ) (end : ℕ) (a : Adopted)
    → cut_tail crc32 s c archive b end ≡ ok a
    → KeepsBytes archive b a
unfolding cut_tail
cut_tail-KeepsBytes crc32 s c archive b end a h = elim (Bool-cases (length b - end == 0)) [
  | inl whole ↦
      let same : ok (record { file = some b; cut = [] }) ≡ ok a = rw whole at h in
      KeepsBytes_of (record { file = some b; cut = [] }) same
        (record {
          kept = b;
          stands = refl;
          whole = append-nil b;
          archived = λ cut. absurd (cut refl);
        })
  | inr torn ↦ elim (Option-cases (archive (drop end b))) [
    | inl done ↦
        let same : ok (record { file = some (take end b); cut = drop end b }) ≡ ok a =
          rw (torn, done) at h in
        KeepsBytes_of (record { file = some (take end b); cut = drop end b }) same
          (record {
            kept = take end b;
            stands = refl;
            whole = take-drop end b;
            archived = λ _. done;
          })
    | inr (e, failed) ↦ absurd (cc (rw (torn, failed) at h))
  ]
]
  where
    Kept : Result JournalError Adopted → Type 0
    Kept (ok x) = KeepsBytes archive b x
    Kept (err e) = Unit

    KeepsBytes_of :
        (x : Adopted)
        → ◌≡◌ {A = Result JournalError Adopted} (ok x) (ok a)
        → KeepsBytes archive b x
        → KeepsBytes archive b a
    KeepsBytes_of x same k = subst (λ r. Kept r) same k

module _ (crc32 : List ℕ → ℕ) (s : LiveScene) (c : DiskGuidState)
    (archive : List ℕ → Option Message) where
  -- The journal that a run goes on with: none yet, a new header where no record stood, or the
  -- journal of this target.
  abbrev pub IsTakenUp : Option (List ℕ) → Adopted → Type 0
  IsTakenUp none a = (a.file ≡ none) × (a.cut ≡ [])
  IsTakenUp (some b) a =
      ((a.file ≡ some (header crc32 s c)) × (a.cut ≡ []) × ((b ≡ []) ⊎ (no_records crc32 b ≡ true)))
      ⊎ ((h : JournalHeader) × (recorded_header crc32 b ≡ ok h)
          × IsOwn h s c
          × KeepsBytes archive b a)

  mismatch-IsOwn : (h : JournalHeader) → mismatch crc32 h s c ≡ none → IsOwn h s c
  unfolding mismatch
  mismatch-IsOwn h none_wrong =
      let (same, disk) = or_else-none (scene_mismatch h.scene s) _ none_wrong in
      let (kind, _, map, fields) = scene_mismatch-none h.scene s same in
      record { kind = kind; map = map; fields = fields; disk = disk }

  adopt_file-IsTakenUp :
      (b : List ℕ) (a : Adopted) → adopt_file crc32 s c archive b ≡ ok a → IsTakenUp (some b) a
  unfolding adopt_file
  adopt_file-IsTakenUp b a h =
      let (r, read, h₁) = >>=-eq_ok (recorded_header crc32 b) _ h in
      elim (Option-cases (mismatch crc32 r s c)) [
        | inr (why, wrong) ↦ elim (Bool-cases (no_records crc32 b)) [
          | inl bare ↦ let same = rw (wrong, bare) at h₁ in inl (cc same, cc same, inr bare)
          | inr held ↦ absurd (cc (rw (wrong, held) at h₁))
        ]
        | inl right ↦ elim (Bool-cases (is_generated c && not (is_generated r.credential))) [
          | inl produced ↦ elim (Bool-cases (no_records crc32 b)) [
            | inl bare ↦
                let same = rw (right, produced, bare) at h₁ in inl (cc same, cc same, inr bare)
            | inr held ↦ absurd (cc (rw (right, produced, held) at h₁))
          ]
          | inr ours ↦
              let h₂ : (scan_result crc32 b >>= λ (_, end). cut_tail crc32 s c archive b end)
                  ≡ ok a =
                rw (right, ours) at h₁ in
              let (p, _, h₃) = >>=-eq_ok (scan_result crc32 b) _ h₂ in
              inr
                (r, read, mismatch-IsOwn r right, cut_tail-KeepsBytes crc32 s c archive b p.1 a h₃)
        ]
      ]

  pub adopt-IsTakenUp :
      (file : Option (List ℕ)) (a : Adopted)
      → adopt crc32 s c archive file ≡ ok a
      → IsTakenUp file a
  unfolding adopt
  adopt-IsTakenUp none a h = (cc h, cc h)
  adopt-IsTakenUp (some []) a h = inl (cc h, cc h, inl refl)
  adopt-IsTakenUp (some (x ∷ xs)) a h = adopt_file-IsTakenUp (x ∷ xs) a h
