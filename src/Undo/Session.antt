-- ===== src/Undo/Session.antt =====
-- The writes of a session with a journal can be rolled back, or the rollback is refused.
use disk_edit.Prelude.{
  ℕ, ◌+◌, ◌≤◌, ◌<◌, ◌≡◌, ◌≢◌, refl, ◌∙◌, sym, ap, inl, inr, Bool, Bool-cases, true, Option,
  Option-cases, none, some, List, [], ◌∷◌, ◌++◌, length, reverse, take, Result, ok, err, arith, ltb,
  if◌then◌else◌, u32_mod, u64_mod, >>=-eq_ok, ◌>>=◌,
}
use mathlib.Core.Path.{subst}
use disk_edit.Bytes.{drop}
use disk_edit.Bytes.Slices.{append_assoc}
use disk_edit.Memory.{Memory, load, store, load-length}
use disk_edit.Outcome.{Message, plain, within, Fail}
use disk_edit.Journal.{Mutation, pre_image, barrier, JournalRecord, encode_record, describe}
use disk_edit.Journal.Session.{
  JournalState, Session, append, record_write, record_barrier, refuse_past_end, journaled, write_at,
  mark_non_reversible, write_data_at,
}
use disk_edit.Undo.{
  Device, Write, writes_of, barrier_of, first_of, pre_images, find_barrier, undo_entries,
}
use disk_edit.Undo.History.{Among, SameOrApart, Layout, Written}
use disk_edit.Undo.Replay.{IsWorking}
use disk_edit.Undo.Journaled.{IsSession, undo_entries-restores}

pre_images-append :
    (rs : List JournalRecord) (m : Mutation) (off : ℕ) (bytes after : List ℕ)
    → pre_images (rs ++ record { mutation = m; recovery = pre_image off bytes after } ∷ [])
      ≡ pre_images rs ++ record { off = off; bytes = bytes; after = after } ∷ []
unfolding pre_images
pre_images-append [] m off bytes after = refl
pre_images-append (r ∷ rs) m off bytes after =
    ap (λ t. writes_of r.recovery ++ t) (pre_images-append rs m off bytes after)
    ∙ sym (
        append_assoc (writes_of r.recovery) (pre_images rs)
          (record { off = off; bytes = bytes; after = after } ∷ []))

first_of-none : (a b : Option Mutation) → first_of a b ≡ none → (a ≡ none) × (b ≡ none)
first_of-none none b h = (refl, h)
first_of-none (some m) b h = absurd (cc h)

find_barrier-append :
    (rs : List JournalRecord) (m : Mutation) (off : ℕ) (bytes after : List ℕ)
    → find_barrier rs ≡ none
    → find_barrier (rs ++ record { mutation = m; recovery = pre_image off bytes after } ∷ []) ≡ none
unfolding find_barrier
find_barrier-append [] m off bytes after h = refl
find_barrier-append (r ∷ rs) m off bytes after h =
    let (here, rest) = first_of-none (barrier_of r) (find_barrier rs) h in
    rw (here, find_barrier-append rs m off bytes after rest) refl

-- The journal holds every write since the disk was `orig`, the last one in front of `h`.
pub record IsJournaled (orig : Memory) (h : List Write) (size : ℕ) (disk : Memory)
    (records : List JournalRecord) : Type 0 where
  pub listed : pre_images records ≡ reverse h
  pub free : find_barrier records ≡ none
  pub written : Written size orig h disk
  pub layout : Layout h

abbrev pub write_of : Session → ℕ → List ℕ → Write
write_of s off buf = record { off = off; bytes = load s.disk off (length buf); after = buf }

refuse_past_end-fits :
    (s : Session) (off len : ℕ) → refuse_past_end s off len ≡ ok tt → off + len ≤ s.size
unfolding refuse_past_end
refuse_past_end-fits s off len h = ground (arith, h)

abbrev shown : Result Message JournalState → List JournalRecord
shown (ok i) = i.records
shown (err e) = []

append-records :
    (j j' : JournalState) (rec : JournalRecord)
    → append j rec ≡ ok j'
    → j'.records ≡ j.records ++ rec ∷ []
unfolding append
append-records j j' rec h = elim (Bool-cases (ltb (length (encode_record rec)) u32_mod)) [
  | inl fits ↦ sym (ap shown (rw fits at h))
  | inr long ↦ let clash : refusal ≡ ok j' = rw long at h in absurd (cc clash)
]
  where
    refusal : Result Message JournalState
    refusal = err (plain "journal record exceeds u32 length")

journaled-some :
    (s : Session) (off : ℕ) (buf : List ℕ) (j : JournalState) (o : Option JournalState)
    → s.journal ≡ some j
    → journaled s off buf ≡ ok o
    → (j' : JournalState) × (o ≡ some j')
      × (record_write j off (load s.disk off (length buf)) buf ≡ ok j')
unfolding journaled
journaled-some s off buf j o at h =
    let opened : (record_write j off (load s.disk off (length buf)) buf >>= λ j'. ok (some j'))
        ≡ ok o =
      rw (journaled, at) at h in
    let (j', made, same) =
      >>=-eq_ok (record_write j off (load s.disk off (length buf)) buf) _ opened in
    (j', cc same, made)

-- A journaled write that was made keeps the journal complete.
write_at-IsJournaled :
    (orig : Memory) (h : List Write) (s s' : Session) (j : JournalState) (off : ℕ) (buf : List ℕ)
    → s.journal ≡ some j
    → IsJournaled orig h s.size s.disk j.records
    → ((v : Write) → Among v h → SameOrApart (write_of s off buf) v)
    → write_at s off buf ≡ ok s'
    → (j' : JournalState) × (s'.journal ≡ some j')
      × IsJournaled orig (write_of s off buf ∷ h) s.size s'.disk j'.records
      × (off + length buf ≤ s.size)
unfolding write_at record_write
write_at-IsJournaled orig h s s' j off buf at all layout done =
    let (_, inside, rest) = >>=-eq_ok (refuse_past_end s off (length buf)) _ done in
    let (o, recorded, made) = >>=-eq_ok (journaled s off buf) _ rest in
    let (j', some_j, wrote) = journaled-some s off buf j o at recorded in
    let fits = refuse_past_end-fits s off (length buf) inside in
    let listed = append-records j j' _ wrote in
    let w : Write = write_of s off buf in
    let size : length w.bytes ≡ length buf = load-length s.disk off (length buf) in
    let disk : s'.disk ≡ store s.disk off buf = sym (ap disk_of made) in
    let journal : s'.journal ≡ o = sym (ap journal_of made) in
    (
      j',
      journal ∙ some_j,
      record {
        listed =
            ap pre_images listed
            ∙ (pre_images-append j.records j.mutation off w.bytes buf
                ∙ ap (λ t. t ++ w ∷ []) all.listed);
        free = rw listed (find_barrier-append j.records j.mutation off w.bytes buf all.free);
        written = (
          s.disk,
          all.written,
          record {
            bytes = rw size refl;
            as_long = sym size;
            fits = rw size fits;
            done = λ x. ap (λ m. m x) disk;
          },
        );
        layout = (layout, all.layout);
      },
      fits,
    )
  where
    disk_of : Result Message Session → Memory
    disk_of (ok t) = t.disk
    disk_of (err e) = s.disk

    journal_of : Result Message Session → Option JournalState
    journal_of (ok t) = t.journal
    journal_of (err e) = none

-- A journaled write of a session whose journal holds every write so far, to bytes of an earlier
-- write or to none of them, can be rolled back whatever part of it has reached the disk: on a
-- device of fewer than 2^64 bytes that works, the rollback of the session's records succeeds and
-- ends with the bytes that stood there before the first write.
pub write_at-restores :
    (dev : Device) (orig : Memory) (h : List Write) (s s' : Session) (j : JournalState) (off : ℕ)
    (buf : List ℕ) (k : ℕ) (d : Memory) (evidence : Bool)
    → IsWorking dev
    → dev.size < u64_mod
    → dev.size ≡ s.size
    → s.journal ≡ some j
    → IsJournaled orig h s.size s.disk j.records
    → ((v : Write) → Among v h → SameOrApart (write_of s off buf) v)
    → write_at s off buf ≡ ok s'
    → ((x : ℕ) → d x ≡ store s.disk off (take k buf ++ drop k (load s.disk off (length buf))) x)
    → (j' : JournalState) × (s'.journal ≡ some j')
      × IsJournaled orig (write_of s off buf ∷ h) s.size s'.disk j'.records
      × (end : Memory) × (n : ℕ) × (undo_entries dev d evidence j'.records ≡ (end, ok n))
      × ((x : ℕ) → end x ≡ orig x)
write_at-restores dev orig h s s' j off buf k d evidence works word size at all layout done torn =
    let (j', journal, after, fits) =
      write_at-IsJournaled orig h s s' j off buf at all layout done in
    let w : Write = write_of s off buf in
    let as_long : length w.bytes ≡ length buf = load-length s.disk off (length buf) in
    let session : IsSession dev orig s.disk d w k h = record {
      earlier = subst (λ n. Written n orig h s.disk) (sym size) all.written;
      bytes = rw as_long refl;
      as_long = sym as_long;
      fits = rw (as_long, size) fits;
      torn = torn;
      layout = (layout, all.layout);
    } in
    let (end, n, run, restored) =
      undo_entries-restores dev works word orig s.disk d w k h j'.records evidence session
        after.free after.listed in
    (j', journal, after, end, n, run, restored)

-- The flag is set only with a barrier among the records.
abbrev pub IsBarred : JournalState → Type 0
IsBarred j = j.barred ≡ true → find_barrier j.records ≢ none

first_of-some : (a b : Option Mutation) → b ≢ none → first_of a b ≢ none
first_of-some none b h = h
first_of-some (some m) b h = λ e. cc e

barrier_found :
    (rs : List JournalRecord) (m : Mutation)
    → find_barrier (rs ++ record { mutation = m; recovery = barrier } ∷ []) ≢ none
unfolding find_barrier
barrier_found [] m = λ e. cc e
barrier_found (r ∷ rs) m = first_of-some (barrier_of r) _ (barrier_found rs m)

record_barrier-found :
    (j j' : JournalState) → IsBarred j → record_barrier j ≡ ok j' → find_barrier j'.records ≢ none
unfolding record_barrier
record_barrier-found j j' barred h = elim (Bool-cases j.barred) [
  | inl set ↦
      let listed : j'.records ≡ j.records = sym (ap shown (rw set at h)) in rw listed (barred set)
  | inr clear ↦
      let rec : JournalRecord = record { mutation = j.mutation; recovery = barrier } in
      let opened : (append j rec >>= λ i. ok (record i { barred = true })) ≡ ok j' =
        subst
          (λ b.
            if◌then◌else◌ {A = Result Message JournalState} b (ok j)
              (append j rec >>= λ i. ok (record i { barred = true }))
            ≡ ok j')
          clear h in
      let (i, appended, made) = >>=-eq_ok (append j rec) _ opened in
      let listed : j'.records ≡ j.records ++ rec ∷ [] =
        sym (ap shown made) ∙ append-records j i rec appended in
      rw listed (barrier_found j.records j.mutation)
]

-- Once data was written past the journal, a rollback of its records is refused and writes nothing,
-- whatever the disk holds and the device does.
pub write_data_at-refused :
    (dev : Device) (s s' : Session) (j : JournalState) (off : ℕ) (buf : List ℕ) (d : Memory)
    (evidence : Bool)
    → s.journal ≡ some j
    → IsBarred j
    → write_data_at s off buf ≡ ok s'
    → (j' : JournalState) × (s'.journal ≡ some j')
      × (why : Message) × (undo_entries dev d evidence j'.records ≡ (d, err (Fail.refused why)))
unfolding write_data_at undo_entries mark_non_reversible
write_data_at-refused dev s s' j off buf d evidence at barred done =
    let (_, inside, rest) = >>=-eq_ok (refuse_past_end s off (length buf)) _ done in
    let (o, recorded, made) = >>=-eq_ok (mark_non_reversible s.journal) _ rest in
    let (j', some_j, marked) =
      marked-some o (subst (λ t. mark_non_reversible t ≡ ok o) at recorded) in
    let journal : s'.journal ≡ o = sym (ap journal_of made) in
    elim (Option-cases (find_barrier j'.records)) [
      | inl missing ↦ absurd (record_barrier-found j j' barred marked missing)
      | inr (m, found) ↦ (
        j',
        journal ∙ some_j,
        within "this journal records a non-reversible mutation" (describe m),
        rw (undo_entries, found) refl,
      )
    ]
  where
    journal_of : Result Message Session → Option JournalState
    journal_of (ok t) = t.journal
    journal_of (err e) = none

    marked-some :
        (o : Option JournalState)
        → mark_non_reversible (some j) ≡ ok o
        → (j' : JournalState) × (o ≡ some j') × (record_barrier j ≡ ok j')
    marked-some o h =
        let (i, made, same) = >>=-eq_ok (record_barrier j) (λ j'. ok (some j')) h in
        (i, cc same, made)
