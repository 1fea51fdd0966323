-- ===== src/Undo/Replay.antt =====
-- The dry run and the replay of src/cmd/undo.rs go through together on a device that works.
use disk_edit.Prelude.{
  ℕ, suc, ◌+◌, ◌≤◌, ◌≡◌, refl, ◌∙◌, ◌⊎◌, inl, inr, Bool-cases, true, false, none, some, List, [],
  ◌∷◌, length, ok, arith, ◌==◌,
}
use mathlib.Core.Path.{subst}
use disk_edit.Memory.{Memory, load, store, load-same, load-store, store-outside}
use disk_edit.Table.Guid.{guid_eq as bytes_eq, guid_eq_iff as bytes_eq_iff}
use disk_edit.Undo.{
  Device, Write, contains, lookup, matches_journaled_write, ok_entry, check_replay_entry,
  staged_bytes, verify_staged, read_back, after_write, write_back, replay,
}
use disk_edit.Undo.History.{
  Among, SameOrApart, Layout, IsWrite, Written, OnTheWay, Interrupted, OnTheWay-Interrupted,
  skipped-OnTheWay, rolled-OnTheWay,
}

-- Reads, writes and flushes within the target do what they say.
pub record IsWorking (dev : Device) : Type 0 where
  pub reads :
      (mem : Memory) (off n : ℕ) → off + n ≤ dev.size → dev.read_at mem off n ≡ ok (load mem off n)
  pub writes :
      (mem : Memory) (off : ℕ) (bs : List ℕ)
      → off + length bs ≤ dev.size
      → dev.write_at mem off bs ≡ (store mem off bs, none)
  pub syncs : (mem : Memory) → dev.sync_data mem ≡ none
  pub syncs_all : (mem : Memory) → dev.sync_all mem ≡ none

lookup-here :
    (staged : List (ℕ × List ℕ)) (o off : ℕ) (bytes : List ℕ)
    → (o == off) ≡ true
    → lookup ((o, bytes) ∷ staged) off ≡ some bytes
unfolding lookup
lookup-here staged o off bytes h = rw h refl

lookup-skip :
    (staged : List (ℕ × List ℕ)) (o off : ℕ) (bytes : List ℕ)
    → (o == off) ≡ false
    → lookup ((o, bytes) ∷ staged) off ≡ lookup staged off
unfolding lookup
lookup-skip staged o off bytes h = rw h refl

module _ (dev : Device) (works : IsWorking dev) where
  write_back-store :
      (d : Memory) (w : Write)
      → w.off + length w.bytes ≤ dev.size
      → write_back dev d w ≡ (store d w.off w.bytes, none)
  unfolding write_back after_write read_back
  write_back-store d w fits =
      let now : Memory = store d w.off w.bytes in
      let same : bytes_eq w.bytes w.bytes ≡ true = (bytes_eq_iff w.bytes w.bytes).1 refl in
      rw
        (
          works.writes d w.off w.bytes fits,
          read_back,
          works.syncs now,
          works.reads now w.off (length w.bytes) fits,
          load-store d w.off w.bytes,
          same,
        )
        refl

  check_replay_entry-ok :
      (d : Memory) (w : Write)
      → w.off + length w.bytes ≤ dev.size
      → matches_journaled_write (load d w.off (length w.bytes)) w.after w.bytes ≡ true
      → check_replay_entry dev d w ≡ ok_entry
  unfolding check_replay_entry
  check_replay_entry-ok d w fits good =
      rw (check_replay_entry, works.reads d w.off (length w.bytes) fits, good) refl

  -- The disk that the dry run has in mind is the one that the replay has made.
  abbrev pub InStep : Memory → List ℕ → List (ℕ × List ℕ) → Memory → List Write → Type 0
  InStep disk rolled staged d h =
      (v : Write)
      → Among v h
      → contains rolled v.off ≡ false
      → staged_bytes dev disk staged v ≡ ok (load d v.off (length v.bytes))

  -- The dry run accepts these writes, and their replay succeeds and ends at `orig`.
  abbrev pub GoesThrough :
      Memory → Memory → List ℕ → List (ℕ × List ℕ) → Memory → ℕ → List Write → Type 0
  GoesThrough orig disk rolled staged d count h =
      (verify_staged dev disk rolled staged h ≡ ok tt)
      × (end : Memory) × (n : ℕ) × (replay dev rolled h count d ≡ (end, ok n))
      × ((x : ℕ) → end x ≡ orig x)

  staged-same :
      (disk : Memory) (staged : List (ℕ × List ℕ)) (d : Memory) (w v : Write)
      → SameOrApart w v
      → staged_bytes dev disk staged v ≡ ok (load d v.off (length v.bytes))
      → staged_bytes dev disk ((w.off, w.bytes) ∷ staged) v
        ≡ ok (load (store d w.off w.bytes) v.off (length v.bytes))
  unfolding staged_bytes
  staged-same disk staged d w v (inl (at, long)) old =
      let here : (w.off == v.off) ≡ true = ground (arith, at) in
      let as_long : (length w.bytes == length v.bytes) ≡ true = ground (arith, long) in
      let read : load (store d w.off w.bytes) v.off (length v.bytes) ≡ w.bytes =
        subst (λ o. load (store d w.off w.bytes) o (length v.bytes) ≡ w.bytes) at
          (subst (λ n. load (store d w.off w.bytes) w.off n ≡ w.bytes) long
            (load-store d w.off w.bytes)) in
      rw (staged_bytes, lookup-here staged w.off v.off w.bytes here, as_long, read) refl
  staged-same disk staged d w v (inr (other, apart)) old =
      let away : (w.off == v.off) ≡ false = ground (arith, other) in
      let kept : load (store d w.off w.bytes) v.off (length v.bytes)
          ≡ load d v.off (length v.bytes) =
        load-same (store d w.off w.bytes) d v.off (length v.bytes)
          λ x low high. store-outside d w.off w.bytes x (ground (arith, apart, low, high)) in
      rw (staged_bytes, lookup-skip staged w.off v.off w.bytes away, kept) old

  module _ (orig disk : Memory) (rolled : List ℕ) where
    -- One write, where the rest goes through.
    roll_one :
        (w : Write) (h : List Write) (before mem d : Memory) (staged : List (ℕ × List ℕ))
        (count : ℕ)
        → IsWrite dev.size before mem w
        → ((v : Write) → Among v h → SameOrApart w v)
        → Interrupted orig rolled d w h mem
        → InStep disk rolled staged d (w ∷ h)
        → ((d' : Memory) (staged' : List (ℕ × List ℕ)) (count' : ℕ)
            → OnTheWay orig rolled d' h before
            → InStep disk rolled staged' d' h
            → GoesThrough orig disk rolled staged' d' count' h)
        → GoesThrough orig disk rolled staged d count (w ∷ h)
    unfolding verify_staged replay
    roll_one w h before mem d staged count made layout way step rest =
        elim (Bool-cases (contains rolled w.off)) [
          | inl passed ↦
              let (dry, end, n, run, home) =
                rest d staged count (skipped-OnTheWay w h made layout passed way)
                  λ v among. step v (inr among) in
              (rw (verify_staged, passed) dry, end, n, rw (replay, passed) run, home)
          | inr left ↦
              let now : Memory = store d w.off w.bytes in
              let good = way.last left in
              let (dry, end, n, run, home) =
                rest now ((w.off, w.bytes) ∷ staged) (suc count)
                  (rolled-OnTheWay w h made layout left way)
                  λ v among pending.
                    staged-same disk staged d w v (layout v among) (step v (inr among) pending) in
              (
                rw (verify_staged, left, step w (inl refl) left, good) dry,
                end,
                n,
                rw
                    (
                      replay,
                      left,
                      check_replay_entry-ok d w made.fits good,
                      write_back-store d w made.fits,
                      write_back-store d w made.fits,
                    )
                    run,
                home,
              )
        ]

    roll_all :
        (h : List Write) (mem d : Memory) (staged : List (ℕ × List ℕ)) (count : ℕ)
        → Written dev.size orig h mem
        → Layout h
        → OnTheWay orig rolled d h mem
        → InStep disk rolled staged d h
        → GoesThrough orig disk rolled staged d count h
    unfolding verify_staged replay
    roll_all [] mem d staged count written layout way step =
        (refl, d, count, refl, λ x. home x (way.either x))
      where
        home : (x : ℕ) → (d x ≡ mem x) ⊎ (d x ≡ orig x) → d x ≡ orig x
        home x (inl same) = same ∙ written x
        home x (inr back) = back
    roll_all (w ∷ h) mem d staged count (before, written, made) (layout, layouts) way step =
        roll_one w h before mem d staged count made layout (OnTheWay-Interrupted w h made way) step
          λ d' staged' count' way' step'.
            roll_all h before d' staged' count' written layouts way' step'

    -- Rolling back writes of which the last may have been cut short.
    pub roll-Interrupted :
        (w : Write) (h : List Write) (before mem d : Memory) (staged : List (ℕ × List ℕ))
        (count : ℕ)
        → Written dev.size orig h before
        → IsWrite dev.size before mem w
        → Layout (w ∷ h)
        → Interrupted orig rolled d w h mem
        → InStep disk rolled staged d (w ∷ h)
        → GoesThrough orig disk rolled staged d count (w ∷ h)
    roll-Interrupted w h before mem d staged count written made (layout, layouts) way step =
        roll_one w h before mem d staged count made layout way step λ d' staged' count' way' step'.
          roll_all h before d' staged' count' written layouts way' step'
