-- ===== src/Undo/Command/Ends.antt =====
-- How `undo` ends.
use disk_edit.Prelude.{
  ℕ, ◌≡◌, refl, ap, sym, ◌∙◌, Bool, true, false, List, Result, ok, err, arith, >>=-eq_ok, ◌>>=◌,
}
use disk_edit.Memory.{Memory}
use disk_edit.Outcome.{Fail}
use disk_edit.Journal.{JournalRecord}
use disk_edit.Undo.{Device, undo_entries}
use disk_edit.Undo.Command.{World, check_identity, picked_entries, undo_code, cmd_undo}

-- How the command can have ended.
pub record HasReplayed (dev : Device) (w : World) (mem end : Memory) (code : ℕ) : Type 0 where
  pub entries : List JournalRecord
  pub tail_incomplete : Bool
  pub count : ℕ
  pub picked : picked_entries w ≡ ok (entries, tail_incomplete)
  pub own : check_identity w ≡ ok tt
  pub run : undo_entries dev mem w.has_any_evidence entries ≡ (end, ok count)
  pub coded : code ≡ undo_code w tail_incomplete

undo_code-zero :
    (w : World) (t : Bool)
    → undo_code w t ≡ 0
    → (t ≡ false) × (w.journal_cleared ≡ true) × (w.checkpoint_removed ≡ true) × (w.done_code ≡ 0)
unfolding undo_code
undo_code-zero w t h = ground (arith, h)

pair_eq :
    (p : Memory × Result Fail ℕ) {end : Memory} {r : Result Fail ℕ}
    → p.0 ≡ end
    → p.1 ≡ r
    → p ≡ (end, r)
pair_eq (a, b) e f = rw (e, f) refl

-- The command has replayed the records of the journal that it picked.
cmd_undo-HasReplayed :
    (dev : Device) (w : World) (mem end : Memory) (code : ℕ)
    → cmd_undo dev w mem ≡ (end, ok code)
    → HasReplayed dev w mem end code
unfolding cmd_undo
cmd_undo-HasReplayed dev w mem end code h = go (picked_entries w) refl (check_identity w) refl
  where
    result_of : Memory × Result Fail ℕ → Result Fail ℕ
    result_of p = p.1

    memory_of : Memory × Result Fail ℕ → Memory
    memory_of p = p.0

    go :
        (p : Result Fail (List JournalRecord × Bool))
        → picked_entries w ≡ p
        → (c : Result Fail (Unit {0})) → check_identity w ≡ c
        → HasReplayed dev w mem end code
    go (err f) e c e' =
        let stop : (mem, err f) ≡ (end, ok code) = rw (cmd_undo, e) at h in
        absurd (cc (ap result_of stop))
    go (ok (entries, t)) e (err f) e' =
        let stop : (mem, err f) ≡ (end, ok code) = rw (cmd_undo, e, e') at h in
        absurd (cc (ap result_of stop))
    go (ok (entries, t)) e (ok _) e' =
        let run : Memory × Result Fail ℕ = undo_entries dev mem w.has_any_evidence entries in
        let done : (run.0, run.1 >>= λ _. ok (undo_code w t)) ≡ (end, ok code) =
          rw (cmd_undo, e, e') at h in
        let (n, counted, same) = >>=-eq_ok run.1 (λ _. ok (undo_code w t)) (ap result_of done) in
        record {
          entries = entries;
          tail_incomplete = t;
          count = n;
          picked = e;
          own = e';
          run = pair_eq run (ap memory_of done) counted;
          coded = sym (cc same);
        }

-- When `undo` ends with exit code 0, it has replayed the records of the journal that it picked,
-- after the check of the journal's identity, the journal had no torn tail, and both recovery files
-- are gone.
pub cmd_undo-zero :
    (dev : Device) (w : World) (mem end : Memory)
    → cmd_undo dev w mem ≡ (end, ok 0)
    → HasReplayed dev w mem end 0
      × (w.journal_cleared ≡ true)
      × (w.checkpoint_removed ≡ true)
      × (w.done_code ≡ 0)
      × ((entries : List JournalRecord) (t : Bool) → picked_entries w ≡ ok (entries, t) → t ≡ false)
cmd_undo-zero dev w mem end h =
    let replayed = cmd_undo-HasReplayed dev w mem end 0 h in
    let (whole, cleared, removed, done) =
      undo_code-zero w replayed.tail_incomplete (sym replayed.coded) in
    (
      replayed,
      cleared,
      removed,
      done,
      λ entries t picked.
          tail_is t replayed.tail_incomplete (same_tail picked replayed.picked) whole,
    )
  where
    tail_of : Result Fail (List JournalRecord × Bool) → Bool
    tail_of (ok p) = p.1
    tail_of (err f) = true

    same_tail :
        {a b : List JournalRecord} {s t : Bool}
        → picked_entries w ≡ ok (a, s)
        → picked_entries w ≡ ok (b, t)
        → s ≡ t
    same_tail e f = ap tail_of (sym e ∙ f)

    tail_is : (s t : Bool) → s ≡ t → t ≡ false → s ≡ false
    tail_is s t e f = e ∙ f
