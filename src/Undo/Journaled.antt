-- ===== src/Undo/Journaled.antt =====
-- `undo` on the records of writes of which the last may have been cut short.
use disk_edit.Prelude.{
  ℕ, ◌+◌, ◌≤◌, ◌<◌, ◌≡◌, refl, ◌∙◌, sym, inl, inr, Bool, Bool-cases, true, false, not, ◌&&◌, none,
  List, [], ◌∷◌, ◌++◌, length, reverse, take, ok, arith, ◌==◌, u64_mod, if◌then◌else◌,
}
use mathlib.Core.Path.{subst}
use disk_edit.Bytes.{drop}
use disk_edit.Memory.{Memory, load, store}
use disk_edit.Outcome.{is_empty}
use disk_edit.Journal.{JournalRecord}
use disk_edit.Undo.{
  Device, Write, pre_images, find_barrier, lookup, chain_heads, contains, rolled_back, staged_bytes,
  verify_replay_plan, ReplayPlan, replay, synced, undo_entries,
}
use disk_edit.Undo.History.{Inside, Among, Layout, IsWrite, Written, Interrupted, before-Outside}
use disk_edit.Undo.Replay.{IsWorking, InStep, GoesThrough, roll-Interrupted}
use disk_edit.Undo.Heads.{untouched, Among-reverse, heads_fit, heads_inside, fits_inside}
use disk_edit.Undo.Heads.Done.{rolled_back-all, done_back}
use disk_edit.Undo.Restore.{
  reverse-reverse, check_ranges-ok, replay-skips, matches_journaled_write-torn, torn-Outside,
  torn_read, Inside-none,
}

-- The writes `h` have turned `orig` into `before`, and the write `w` was the last, of which `k` bytes
-- have reached the disk `d`.
pub record IsSession (dev : Device) (orig before d : Memory) (w : Write) (k : ℕ) (h : List Write)
    : Type 0 where
  pub earlier : Written dev.size orig h before
  pub bytes : w.bytes ≡ load before w.off (length w.bytes)
  pub as_long : length w.after ≡ length w.bytes
  pub fits : w.off + length w.bytes ≤ dev.size
  pub torn : (x : ℕ) → d x ≡ store before w.off (take k w.after ++ drop k w.bytes) x
  pub layout : Layout (w ∷ h)

no_heads :
    {A : Type 0} (heads : List A)
    → (not (is_empty heads) && length {A = ℕ} [] == length heads) ≡ true
    → ⊥
no_heads [] h = cc h
no_heads (x ∷ xs) h = ground (arith, h)

module _ (dev : Device) (works : IsWorking dev) (word : dev.size < u64_mod) where
  module _ (orig before d : Memory) (w : Write) (k : ℕ) (h : List Write)
      (s : IsSession dev orig before d w k h) where
    abbrev mem : Memory
    mem = store before w.off w.after

    made : IsWrite dev.size before mem w
    made = record { bytes = s.bytes; as_long = s.as_long; fits = s.fits; done = λ x. refl }

    abbrev heads : List (ℕ × List ℕ)
    heads = chain_heads [] (reverse (w ∷ h))

    abbrev rolled : Bool → List ℕ
    rolled evidence = if evidence then rolled_back dev d heads else []

    written : Written dev.size orig (w ∷ h) mem
    written = (before, s.earlier, made)

    back :
        (evidence : Bool) (v : Write)
        → Among v (w ∷ h)
        → contains (rolled evidence) v.off ≡ true
        → (x : ℕ) → Inside v x
        → d x ≡ orig x
    unfolding contains
    back true v among passed x inside =
        done_back dev works orig mem d (w ∷ h) written s.layout v among passed x inside
    back false v among passed x inside = absurd (cc passed)

    interrupted : (evidence : Bool) → Interrupted orig (rolled evidence) d w h mem
    interrupted evidence = record {
      last = λ left.
          rw (torn_read dev works word before d w k s.as_long s.torn)
            (matches_journaled_write-torn k w.after w.bytes s.as_long);
      last_back = λ passed x inside. back evidence w (inl refl) passed x inside;
      pending = λ v among left x inside out.
          torn-Outside dev works word before d w k s.as_long s.torn x out
          ∙ sym (before-Outside made x out);
      either = λ x out. inl (
          torn-Outside dev works word before d w k s.as_long s.torn x out
          ∙ sym (before-Outside made x out));
      back = λ v among passed x inside. back evidence v (inr among) passed x inside;
    }

    in_step : (evidence : Bool) → InStep dev works d (rolled evidence) [] d (w ∷ h)
    unfolding staged_bytes lookup
    in_step evidence v among left =
        rw
          (works.reads d v.off (length v.bytes)
            (fits_inside dev.size orig (w ∷ h) mem written v among))
          refl

    rolls : (evidence : Bool) → GoesThrough dev works orig d (rolled evidence) [] d 0 (w ∷ h)
    rolls evidence =
        roll-Interrupted dev works orig d (rolled evidence) w h before mem d [] 0 s.earlier made
          s.layout (interrupted evidence) (in_step evidence)

    all_done :
        (evidence : Bool)
        → (not (is_empty heads) && length (rolled evidence) == length heads) ≡ true
        → (v : Write) → Among v (w ∷ h)
        → contains (rolled evidence) v.off ≡ true
    all_done true whole v among =
        let counted : length (rolled_back dev d heads) ≡ length heads = ground (arith, whole) in
        rolled_back-all dev works d heads v.off (heads_inside dev orig mem (w ∷ h) written s.layout)
          counted ((heads_fit dev.size orig (w ∷ h) mem written s.layout).covers v among)
    all_done false whole v among = absurd (no_heads heads whole)

    home :
        (evidence : Bool)
        → (not (is_empty heads) && length (rolled evidence) == length heads) ≡ true
        → (x : ℕ) → d x ≡ orig x
    home evidence whole x = elim (Inside-none dev works word (w ∷ h) x) [
      | inl (v, among, inside) ↦ back evidence v among (all_done evidence whole v among) x inside
      | inr out ↦
          torn-Outside dev works word before d w k s.as_long s.torn x (out w (inl refl))
          ∙ untouched dev.size orig h before s.earlier x λ v among. out v (inr among)
    ]

    -- The plan of the rollback and what its replay makes of the disk.
    planned :
        (evidence : Bool)
        → (plan : ReplayPlan) × (end : Memory) × (n : ℕ) × (verify_replay_plan dev d evidence
              (reverse (w ∷ h))
            ≡ ok plan)
          × (replay dev plan.rolled_back_offsets (if plan.complete then [] else w ∷ h) 0 d
              ≡ (end, ok n))
          × ((x : ℕ) → end x ≡ orig x)
    unfolding verify_replay_plan
    planned evidence =
        let (dry, end, n, run, restored) = rolls evidence in
        let ranges =
          check_ranges-ok dev (reverse (w ∷ h)) word
            λ v among. fits_inside dev.size orig (w ∷ h) mem written v (unreversed v among) in
        elim (Bool-cases (not (is_empty heads) && length (rolled evidence) == length heads)) [
          | inl whole ↦ (
            record { rolled_back_offsets = rolled evidence; complete = true },
            d,
            0,
            rw (ranges, whole) refl,
            replay-skips dev (rolled evidence) [] 0 d (λ v among. absurd among),
            home evidence whole,
          )
          | inr part ↦ (
            record { rolled_back_offsets = rolled evidence; complete = false },
            end,
            n,
            rw (ranges, part, reverse-reverse (w ∷ h), dry) refl,
            run,
            restored,
          )
        ]
      where
        unreversed : (v : Write) → Among v (reverse (w ∷ h)) → Among v (w ∷ h)
        unreversed v among =
            subst (λ t. Among v t) (reverse-reverse (w ∷ h))
              (Among-reverse v (reverse (w ∷ h)) among)

  synced-ok : (end : Memory) (n : ℕ) → synced dev (end, ok n) ≡ (end, ok n)
  unfolding synced
  synced-ok end n = rw (synced, works.syncs_all end) refl

  -- After any number of journaled writes, each of which hits the bytes of an earlier one or none of
  -- them, and of which the last may have been cut short anywhere, a rollback of their records on a
  -- device of fewer than 2^64 bytes that works succeeds and every byte is what it was before the
  -- first write, whether or not the target has evidence of its identity.
  pub undo_entries-restores :
      (orig before d : Memory) (w : Write) (k : ℕ) (h : List Write) (entries : List JournalRecord)
      (evidence : Bool)
      → IsSession dev orig before d w k h
      → find_barrier entries ≡ none
      → pre_images entries ≡ reverse (w ∷ h)
      → (end : Memory) × (n : ℕ) × (undo_entries dev d evidence entries ≡ (end, ok n))
        × ((x : ℕ) → end x ≡ orig x)
  unfolding undo_entries
  undo_entries-restores orig before d w k h entries evidence s free same =
      let (plan, end, n, dry, run, restored) = planned orig before d w k h s evidence in
      (
        end,
        n,
        rw (undo_entries, free, same, dry, same, reverse-reverse (w ∷ h), run, synced-ok end n)
            refl,
        restored,
      )
